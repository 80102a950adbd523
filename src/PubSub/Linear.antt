-- ===== src/PubSub/Linear.antt =====
-- The topic handlers, the rounds of `Publish`, `Consume` and the counts of `Snapshot` under any
-- interleaving.
use quash.PubSub.Sessions.{broker_session-replay, outcome, held_after, replayed}
use quash.Handler.{Brokers, State}
use quash.Goroutines.{Guarded, Reach, System, outside}
use quash.PubSub.Serial.{broker_holds, broker_code-Performs, broker_answer, broker_next}
use quash.PubSub.Concurrent.{
  no_broker_local, BrokerAnswer, BrokerCall, BrokerLocal, broker_code, broker_session,
}
use quash.Goroutines.Serial.{Legal, calls_in, heard_by, made_by, serial}
use quash.Prelude.{ap₂, subst, List, Option, ap, false, refl, some, sym, ℕ, ◌++◌, ◌∙◌, ◌≡◌}
use quash.Goroutines.Atomic.{AllOutside, local_of, todo_of}

abbrev pub broker_start :
    Brokers → (ℕ → List BrokerCall) → System (Option Brokers) BrokerLocal BrokerCall
broker_start b programs = record {
  mem = record { locked = false; value = some b };
  pc = λ i. outside (programs i) (no_broker_local);
}

-- What the calls explain is what the handlers do.
pub explained :
    (s : State) (cs : List BrokerCall) (m : Guarded (Option Brokers))
    → s.brokers_locked ≡ false
    → Legal broker_next broker_holds false cs (some s.brokers)
    → m.locked ≡ held_after false cs (some s.brokers)
    → m.value ≡ (replayed cs (some s.brokers)).1
    → broker_session cs s ≡ outcome s m.locked (replayed cs (some s.brokers)).0 m.value
explained s cs m free legal lock value =
    broker_session-replay cs s
      (subst (λ k. Legal broker_next broker_holds k cs (some s.brokers)) (sym free) legal)
    ∙ ap
        (λ k.
          outcome s (held_after k cs (some s.brokers)) (replayed cs (some s.brokers)).0
            (replayed cs (some s.brokers)).1)
        free
    ∙ ap₂ (λ k o. outcome s k (replayed cs (some s.brokers)).0 o) (sym lock) (sym value)

-- Goroutines below `n` make the calls of their programs, topic handlers, rounds of `Publish`,
-- `Consume` calls and counts of `Snapshot`, an access at a time and in any order of the goroutines.
-- Wherever nobody is between `brokersLock.Lock` and the return, there is one sequence of the calls,
-- in which those of each goroutine come in the order of its program, such that the handlers, run one
-- after the other in that sequence, leave the brokers and `brokersLock` as they are there and give
-- each goroutine the answers that it got, or panic where a call has. At the start `brokersLock` is
-- free.
pub broker_linearizable :
    (n k : ℕ) (s : State) (programs : ℕ → List BrokerCall)
    (t : System (Option Brokers) BrokerLocal BrokerCall)
    → s.brokers_locked ≡ false
    → Reach broker_code n (broker_start s.brokers programs) k t
    → AllOutside t.pc
    → (h : List (ℕ × BrokerCall)) × (answers : List BrokerAnswer) × (broker_session (calls_in h) s
        ≡ outcome s t.mem.locked answers t.mem.value)
      × ((i : ℕ) → (local_of (t.pc i)).heard ≡ heard_by i h answers)
      × ((i : ℕ) → programs i ≡ made_by i h ++ todo_of (t.pc i))
broker_linearizable n k s programs t free r nobody =
    let (h, e) =
      serial broker_code (λ l. l.heard) broker_answer broker_next broker_holds broker_code-Performs
        n k (broker_start s.brokers programs) t refl (λ i. refl) r nobody in
    (
      h,
      (replayed (calls_in h) (some s.brokers)).0,
      explained s (calls_in h) t.mem free e.legal e.lock e.value,
      e.heard,
      e.left,
    )
