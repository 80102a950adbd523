-- ===== src/PubSub/Jam.antt =====
-- When the goroutines of the broker stop for good, as long as the process is alive.
use quash.Goroutines.Atomic.{AllOutside}
use quash.Goroutines.Halting.{Halts, every-Halts}
use quash.Goroutines.Progress.{ends_or_moves}
use quash.Messages.{ConsumeRequest, ConsumeResponse}
use quash.Stream.Consuming.{ending_with}
use quash.Handler.{Brokers, State}
use quash.Goroutines.{Reach, Step, System}
use quash.Goroutines.Serial.{Legal, calls_in, serial}
use quash.PubSub.Linear.{broker_start, explained}
use quash.PubSub.Sessions.{held_after, outcome, replayed}
use quash.Goroutines.Stalled.{stalled}
use quash.PubSub.Consuming.{drained_answer, drained_at, drained_holds}
use quash.Stream.{Drained, broken}
use quash.Goroutines.Measure.{AllDone}
use quash.Prelude.{
  List, Option, Option-cases, String, [], ap, ap₂, arith, false, inl, inr, is_some, none, refl,
  some, sym, true, ℕ, ◌++◌, ◌∙◌, ◌∷◌, ◌≡◌, ◌⊎◌,
}
use quash.PubSub.Serial.{broker_answer, broker_code-Performs, broker_holds, broker_next}
use quash.PubSub.Concurrent.{
  counting, BrokerAnswer, BrokerCall, BrokerLocal, adding, broadcasting, broker_code,
  broker_session, consuming, creating, on_consume, removing, unsubscribing,
}

-- The sequence ends with a `Consume` that was broken off.
record EndsBroken (cs : List BrokerCall) (o : Option Brokers) : Type 0 where
  pub front : List BrokerCall
  pub req : ConsumeRequest
  pub send : ℕ → Option String
  pub answers : List BrokerAnswer
  pub sent : List ConsumeResponse
  pub err : String
  pub calls : cs ≡ front ++ consuming req send ∷ []
  pub told :
      (replayed cs o).0 ≡ answers ++ on_consume (record { sent = sent; ending = broken err }) ∷ []

broken_off :
    (d : Drained)
    → is_some d.send_error ≡ true
    → (err : String) × (drained_answer (some d)
        ≡ on_consume (record { sent = d.responses; ending = broken err }))
broken_off d h = elim (Option-cases d.send_error) [
  | inl e ↦ absurd (ground (arith, h, e))
  | inr (err, e) ↦
      (err, ap (λ x. on_consume (record { sent = d.responses; ending = ending_with x })) e)
]

-- A call that keeps the mutex.
one-EndsBroken :
    (c : BrokerCall) (o : Option Brokers) → broker_holds c o ≡ true → EndsBroken (c ∷ []) o
unfolding broker_holds broker_answer
one-EndsBroken (creating req) o h = absurd (cc)
one-EndsBroken (removing req) o h = absurd (cc)
one-EndsBroken (adding id req) o h = absurd (cc)
one-EndsBroken (unsubscribing req) o h = absurd (cc)
one-EndsBroken (broadcasting order req) o h = absurd (cc)
one-EndsBroken (counting order orders) o h = absurd (cc)
one-EndsBroken (consuming req send) none h = absurd (cc)
one-EndsBroken (consuming req send) (some b) h = of_drained (drained_at req send b) refl h
  where
    of_drained :
        (x : Option Drained)
        → drained_at req send b ≡ x
        → drained_holds x ≡ true
        → EndsBroken (consuming req send ∷ []) (some b)
    of_drained none e held = absurd (cc)
    of_drained (some d) e held =
        let (err, told) = broken_off d held in
        record {
          front = [];
          req = req;
          send = send;
          answers = [];
          sent = d.responses;
          err = err;
          calls = refl;
          told = ap (λ x. drained_answer x ∷ []) e ∙ ap (λ a. a ∷ []) told;
        }

last-EndsBroken :
    (cs : List BrokerCall) (o : Option Brokers)
    → Legal broker_next broker_holds false cs o
    → held_after false cs o ≡ true
    → EndsBroken cs o
last-EndsBroken [] o legal held = absurd (cc)
last-EndsBroken (c ∷ []) o legal held = one-EndsBroken c o held
last-EndsBroken (c ∷ d ∷ cs) o legal held =
    let rest = last-EndsBroken (d ∷ cs) (broker_next c o) (refl, legal.1.1) held in
    record {
      front = c ∷ rest.front;
      req = rest.req;
      send = rest.send;
      answers = broker_answer c o ∷ rest.answers;
      sent = rest.sent;
      err = rest.err;
      calls = ap (◌∷◌ c) rest.calls;
      told = ap (◌∷◌ (broker_answer c o)) rest.told;
    }

-- No goroutine can move any more, and the handlers, run one after the other, come to the same
-- brokers with `brokersLock` held; the last of them is a `Consume` that was broken off.
pub record Jammed (n : ℕ) (s : State) (t : System (Option Brokers) BrokerLocal BrokerCall)
    : Type 0 where
  pub stopped : (u : System (Option Brokers) BrokerLocal BrokerCall) → ¬ Step broker_code n t u
  pub front : List BrokerCall
  pub req : ConsumeRequest
  pub send : ℕ → Option String
  pub answers : List BrokerAnswer
  pub sent : List ConsumeResponse
  pub err : String
  pub ran :
      broker_session (front ++ consuming req send ∷ []) s
      ≡ outcome s true
          (answers ++ on_consume (record { sent = sent; ending = broken err }) ∷ [])
          t.mem.value

held-Jammed :
    (n : ℕ) (s : State) (t : System (Option Brokers) BrokerLocal BrokerCall) (cs : List BrokerCall)
    → s.brokers_locked ≡ false
    → t.mem.locked ≡ true
    → AllOutside t.pc
    → Legal broker_next broker_holds false cs (some s.brokers)
    → t.mem.locked ≡ held_after false cs (some s.brokers)
    → t.mem.value ≡ (replayed cs (some s.brokers)).1
    → Jammed n s t
held-Jammed n s t cs free held nobody legal lock value =
    let last = last-EndsBroken cs (some s.brokers) legal (sym lock ∙ held) in
    record {
      stopped = λ u. stalled broker_code n t u held nobody;
      front = last.front;
      req = last.req;
      send = last.send;
      answers = last.answers;
      sent = last.sent;
      err = last.err;
      ran =
          ap (λ cs. broker_session cs s) (sym last.calls)
          ∙ explained s cs t.mem free legal lock value
          ∙ ap₂ (λ x y. outcome s x y t.mem.value) held last.told;
    }

-- Where `brokersLock` is held and nobody is inside.
pub broker_stuck-Jammed :
    (n k : ℕ) (s : State) (programs : ℕ → List BrokerCall)
    (t : System (Option Brokers) BrokerLocal BrokerCall)
    → s.brokers_locked ≡ false
    → Reach broker_code n (broker_start s.brokers programs) k t
    → t.mem.locked ≡ true
    → AllOutside t.pc
    → Jammed n s t
broker_stuck-Jammed n k s programs t free r held nobody =
    let (h, e) =
      serial broker_code (λ l. l.heard) broker_answer broker_next broker_holds broker_code-Performs
        n k (broker_start s.brokers programs) t refl (λ i. refl) r nobody in
    held-Jammed n s t (calls_in h) free held nobody e.legal e.lock e.value

-- No run of the broker's goroutines goes on for ever. After any number of steps a call has panicked,
-- which ends the process, so that nothing more is claimed; or the process is alive, and the
-- goroutines have made all of their calls, or another step is possible, or none is ever again: then
-- the handlers, run one after the other, come to the same brokers with `brokersLock` held, and the
-- last of them is a `Consume` that a failed `Send` has broken off. At the start `brokersLock` is
-- free, and each `Send` returns, with the result that `send` gives for it: a client that stops
-- reading, so that `Send` waits inside the critical section, is left out.
pub broker_jams :
    (n k : ℕ) (s : State) (programs : ℕ → List BrokerCall)
    (t : System (Option Brokers) BrokerLocal BrokerCall)
    → s.brokers_locked ≡ false
    → Reach broker_code n (broker_start s.brokers programs) k t
    → Halts broker_code n t
      × ((t.mem.value ≡ none)
          ⊎ ((b : Brokers) × (t.mem.value ≡ some b)
              × (AllDone n t.pc
                  ⊎ ((u : System (Option Brokers) BrokerLocal BrokerCall) × Step broker_code n t u)
                  ⊎ Jammed n s t)))
broker_jams n k s programs t free r =
    let begin = broker_start s.brokers programs in
    (
      every-Halts broker_code n t,
      elim (Option-cases t.mem.value) [
        | inl dead ↦ inl dead
        | inr (b, alive) ↦ inr (
          b,
          alive,
          elim (ends_or_moves broker_code n k begin t refl (λ i. refl) r) [
            | inl all ↦ inl all
            | inr (inl step) ↦ inr (inl step)
            | inr (inr (held, nobody)) ↦
                inr (inr (broker_stuck-Jammed n k s programs t free r held nobody))
          ],
        )
      ],
    )
