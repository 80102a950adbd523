-- ===== src/PubSub/Delivery.antt =====
-- What `Publish` puts in comes out of `Consume`, whatever the order in which the goroutines move.
use quash.Goroutines.Atomic.{local_of, todo_of}
use quash.Goroutines.{Reach, System, keeps}
use quash.Broker.Slots.{mailbox}
use quash.PubSub.Concurrent.{BrokerAnswer, BrokerCall, BrokerLocal, broker_code}
use quash.PubSub.Sessions.{replayed}
use quash.Goroutines.Exclusion.{free-AllOutside}
use quash.Structs.{SubscriptionId, Topic}
use quash.Goroutines.Serial.{calls_in, heard_by, made_by, serial}
use quash.Handler.{Brokers, State}
use quash.Prelude.{
  Bool, arith, eqb, if◌then◌else◌, true, List, Option, String, [], false, refl, some, subst, sym, ℕ,
  ◌++◌, ◌∙◌, ◌∷◌, ◌≡◌,
}
use quash.PubSub.Linear.{broker_start}
use quash.PubSub.Serial.{broker_answer, broker_code-Performs, broker_holds, broker_next}
use quash.PubSub.Conserving.{all_delivered, all_published, calls-Conserve, AllKeep}

made-AllKeep :
    (topic : Topic) (id : SubscriptionId) (cs ds : List BrokerCall)
    → AllKeep topic id (cs ++ ds)
    → AllKeep topic id cs
made-AllKeep topic id [] ds h = tt
made-AllKeep topic id (c ∷ cs) ds h = (h.0, made-AllKeep topic id cs ds h.1)

rest-AllKeep :
    (topic : Topic) (id : SubscriptionId) (his : Bool) (c : BrokerCall) (cs : List BrokerCall)
    → AllKeep topic id (if his then c ∷ cs else cs)
    → AllKeep topic id cs
rest-AllKeep topic id true c cs h = h.1
rest-AllKeep topic id false c cs h = h

-- A history keeps the subscription if every goroutine's part of it does.
calls_in-AllKeep :
    (topic : Topic) (id : SubscriptionId) (h : List (ℕ × BrokerCall))
    → ((i : ℕ) → AllKeep topic id (made_by i h))
    → AllKeep topic id (calls_in h)
calls_in-AllKeep topic id [] keeps = tt
calls_in-AllKeep topic id ((j, c) ∷ h) keeps =
    let self : eqb j j ≡ true = ground arith in
    let own =
      subst (λ x. AllKeep topic id (if x then c ∷ made_by j h else made_by j h)) self (keeps j) in
    (
      own.0,
      calls_in-AllKeep topic id h (λ i. rest-AllKeep topic id (eqb j i) c (made_by i h) (keeps i)),
    )

-- Goroutines below `n` make the calls of their programs, an access at a time and in any order of the
-- goroutines. None of the programs removes the subscription `id` of `topic` or its topic, or makes it
-- anew. Where `brokersLock` is free and the process lives, there is one sequence of the calls, in
-- which those of each goroutine come in the order of its program, such that what waited for the
-- subscription at the start, and then what the rounds of `Publish` in that sequence put in, is what
-- its `Consume` calls have delivered and then what still waits: nothing is lost, doubled or
-- reordered. The answers are those that the goroutines got. At the start `brokersLock` is free.
pub broker_delivers :
    (n k : ℕ) (s : State) (programs : ℕ → List BrokerCall) (topic : Topic) (id : SubscriptionId)
    (l : List String) (b : Brokers) (t : System (Option Brokers) BrokerLocal BrokerCall)
    → s.brokers_locked ≡ false
    → mailbox s.brokers topic id ≡ some l
    → ((i : ℕ) → AllKeep topic id (programs i))
    → Reach broker_code n (broker_start s.brokers programs) k t
    → t.mem.locked ≡ false
    → t.mem.value ≡ some b
    → (h : List (ℕ × BrokerCall)) × (answers : List BrokerAnswer) × (rest : List String) × (mailbox
          b topic id
        ≡ some rest)
      × (l ++ all_published topic id (calls_in h)
          ≡ all_delivered topic id (calls_in h) answers ++ rest)
      × ((i : ℕ) → (local_of (t.pc i)).heard ≡ heard_by i h answers)
      × ((i : ℕ) → programs i ≡ made_by i h ++ todo_of (t.pc i))
broker_delivers n k s programs topic id l b t free boxed keeps r now_free alive =
    let begin = broker_start s.brokers programs in
    let (h, e) =
      serial broker_code (λ l. l.heard) broker_answer broker_next broker_holds broker_code-Performs
        n k begin t refl (λ i. refl) r
        (free-AllOutside broker_code n k begin t refl (λ i. refl) r now_free) in
    let (rest, boxed', same_values) =
      calls-Conserve topic id (calls_in h) false (some s.brokers) b l boxed
        (calls_in-AllKeep topic id h (λ i.
          made-AllKeep topic id (made_by i h) (todo_of (t.pc i))
            (subst (AllKeep topic id) (e.left i) (keeps i))))
        e.legal (sym e.lock ∙ now_free) (sym e.value ∙ alive) in
    (h, (replayed (calls_in h) (some s.brokers)).0, rest, boxed', same_values, e.heard, e.left)
