-- ===== src/PubSub/Fitting/Answers.antt =====
-- Under any interleaving, the broker's goroutines are told what the specification says.
use quash.Broker.Slots.{AllCounted}
use quash.PubSub.Sessions.{held_after, replayed, replayed-none}
use quash.PubSub.Fitting.{AllFitView, view_after, view_at_end}
use quash.PubSub.Fitting.Rounds.{broadcasting-FitsAfter}
use quash.Goroutines.{Reach, System}
use quash.Goroutines.Atomic.{local_of, todo_of}
use quash.PubSub.Fitting.Loops.{consuming-FitsAfter, counting-FitsAfter}
use quash.PubSub.Serial.{broker_answer, broker_code-Performs, broker_holds, broker_next}
use quash.PubSub.Linear.{broker_start}
use quash.Goroutines.Serial.{Legal, calls_in, heard_by, made_by, serial}
use quash.PubSub.Conserving.{Legal-free}
use quash.Handler.{Brokers, State}
use quash.Goroutines.Exclusion.{free-AllOutside}
use quash.PubSub.Concurrent.{
  BrokerAnswer, BrokerCall, BrokerLocal, adding, broadcasting, broker_code, consuming, counting,
  creating, removing, unsubscribing,
}
use quash.PubSub.Spec.{SeenAs, View}
use quash.PubSub.Fitting.Steps.{
  FitsAfter, adding-FitsAfter, creating-FitsAfter, removing-FitsAfter, unsubscribing-FitsAfter,
}
use quash.Prelude.{
  Bool, List, Option, Option-cases, [], ap, arith, false, inl, inr, none, refl, some, subst, sym, ℕ,
  ◌++◌, ◌∙◌, ◌∷◌, ◌≡◌,
}

call-FitsAfter :
    (c : BrokerCall) (b b' : Brokers) (v : View)
    → SeenAs b v
    → AllCounted b
    → broker_next c (some b) ≡ some b'
    → broker_holds c (some b) ≡ false
    → FitsAfter v c (broker_answer c (some b)) b'
unfolding broker_next broker_holds broker_answer
call-FitsAfter (creating req) b b' v seen counted ran fine =
    creating-FitsAfter b v seen counted req b' ran
call-FitsAfter (removing req) b b' v seen counted ran fine =
    removing-FitsAfter b v seen counted req b' ran
call-FitsAfter (adding id req) b b' v seen counted ran fine =
    adding-FitsAfter b v seen counted id req b' ran
call-FitsAfter (unsubscribing req) b b' v seen counted ran fine =
    unsubscribing-FitsAfter b v seen counted req b' ran
call-FitsAfter (broadcasting order req) b b' v seen counted ran fine =
    broadcasting-FitsAfter b v seen counted order req b' ran
call-FitsAfter (consuming req send) b b' v seen counted ran fine =
    consuming-FitsAfter b v seen counted req send _ _ b' refl refl ran fine
call-FitsAfter (counting order orders) b b' v seen counted ran fine =
    let same : b ≡ b' = ground (arith, ran) in
    subst (FitsAfter v (counting order orders) _) same
      (counting-FitsAfter b v seen counted order orders)

-- What is seen of the brokers, in a process that lives.
abbrev pub SeenIf : Option Brokers → View → Type 0
SeenIf none v = Unit
SeenIf (some b) v = SeenAs b v × AllCounted b

-- Calls one after the other, of which the process is left alive and the mutex free.
pub calls-AllFitView :
    (cs : List BrokerCall) (k : Bool) (o : Option Brokers) (b' : Brokers) (v : View)
    → SeenIf o v
    → Legal broker_next broker_holds k cs o
    → held_after k cs o ≡ false
    → (replayed cs o).1 ≡ some b'
    → AllFitView v cs (replayed cs o).0 × SeenAs b' (view_at_end v cs (replayed cs o).0)
calls-AllFitView [] k none b' v seen legal fine ran = cc
calls-AllFitView [] k (some b) b' v seen legal fine ran =
    (tt, subst (λ x. SeenAs x v) (ground (arith, ran)) seen.0)
calls-AllFitView (c ∷ cs) k none b' v seen legal fine ran =
    absurd (ground (arith, replayed-none (c ∷ cs), ran))
calls-AllFitView (c ∷ cs) k (some b) b' v seen legal fine ran =
    elim (Option-cases (broker_next c (some b))) [
      | inl e ↦ absurd (ground (arith, ap (λ o. (replayed cs o).1) e, replayed-none cs, ran))
      | inr (mid, e) ↦
          let now_free =
            Legal-free (broker_holds c (some b)) cs (broker_next c (some b)) legal.1 fine in
          let one = call-FitsAfter c b mid v seen.0 seen.1 e now_free in
          let (fits, last) =
            calls-AllFitView cs (broker_holds c (some b)) (broker_next c (some b)) b'
              (view_after v c (broker_answer c (some b)))
              (subst (λ o. SeenIf o (view_after v c (broker_answer c (some b)))) (sym e)
                (one.seen, one.counted))
              legal.1 fine ran in
          ((one.fits, fits), last)
    ]

-- Goroutines below `n` make the calls of their programs, an access at a time and in any order of the
-- goroutines. Where `brokersLock` is free and no call has panicked, there is one sequence of the
-- calls, in which those of each goroutine come in the order of its program, such that the answers
-- that the goroutines got are in that sequence answers of the specification: a topic is created once,
-- a subscriber added where the topic is there, a `Publish` round visits subscribers that are there, a
-- `Consume` delivers what waits, from the oldest on and all of it where its count fits, and a count of
-- `Snapshot` gives the lengths of the mailboxes that its loops visit. The brokers then show what the
-- specification shows at the end. At the start `brokersLock` is free, the brokers show `v` and every
-- queue is counted.
pub broker_answers_fit :
    (n k : ℕ) (s : State) (programs : ℕ → List BrokerCall) (v : View) (b : Brokers)
    (t : System (Option Brokers) BrokerLocal BrokerCall)
    → SeenAs s.brokers v
    → AllCounted s.brokers
    → Reach broker_code n (broker_start s.brokers programs) k t
    → t.mem.locked ≡ false
    → t.mem.value ≡ some b
    → (h : List (ℕ × BrokerCall)) × (answers : List BrokerAnswer) × AllFitView v
        (calls_in h)
        answers
      × SeenAs b (view_at_end v (calls_in h) answers)
      × ((i : ℕ) → (local_of (t.pc i)).heard ≡ heard_by i h answers)
      × ((i : ℕ) → programs i ≡ made_by i h ++ todo_of (t.pc i))
broker_answers_fit n k s programs v b t seen counted r now_free alive =
    let begin = broker_start s.brokers programs in
    let (h, e) =
      serial broker_code (λ l. l.heard) broker_answer broker_next broker_holds broker_code-Performs
        n k begin t refl (λ i. refl) r
        (free-AllOutside broker_code n k begin t refl (λ i. refl) r now_free) in
    let (fits, last) =
      calls-AllFitView (calls_in h) false (some s.brokers) b v (seen, counted) e.legal
        (sym e.lock ∙ now_free) (sym e.value ∙ alive) in
    (h, (replayed (calls_in h) (some s.brokers)).0, fits, last, e.heard, e.left)
