-- ===== src/Server/Answers.antt =====
-- The server's goroutines under any interleaving.
use quash.Server.Explained.{both_sides, kv_outside}
use quash.GoMap.{GoMap}
use quash.Goroutines.{Guarded}
use quash.Structs.{KvValue}
use quash.PubSub.Sessions.{held_after, replayed}
use quash.Handler.{Brokers, State, returned}
use quash.Server.Session.{server_session-replay, replayed_both, server_session}
use quash.Kv.Session.{Answer}
use quash.Goroutines.Pair.{lefts, rights}
use quash.Goroutines.Pair.Joint.{lefts_of, rights_of, pair_todo}
use quash.Goroutines.Atomic.{AllOutside, local_of}
use quash.PubSub.Concurrent.{BrokerAnswer}
use quash.Goroutines.Pair.Serial.{pair_replay-states, rights_of-calls}
use quash.Goroutines.Serial.{Legal, replay, calls_in, heard_by, made_by}
use quash.Kv.Concurrent.{kv_answer, kv_next}
use quash.Server.{ServerCall, ServerReach, ServerSystem, broker_side, kv_side, server_start}
use quash.PubSub.Serial.{broker_answer, broker_holds, broker_next}
use quash.Prelude.{Option, ap, ap₂, subst₂, List, false, some, sym, ℕ, ◌++◌, ◌∙◌, ◌≡◌, ◌⊎◌}

-- What both sides explain is what the handlers do.
both_explained :
    (s : State) (h : List (ℕ × ServerCall)) (m : Guarded (GoMap KvValue))
    (g : Guarded (Option Brokers)) (b : Brokers)
    → s.kv_locked ≡ false
    → s.brokers_locked ≡ false
    → Legal broker_next broker_holds false (calls_in (rights_of h)) (some s.brokers)
    → g.locked ≡ held_after false (calls_in (rights_of h)) (some s.brokers)
    → g.value ≡ (replayed (calls_in (rights_of h)) (some s.brokers)).1
    → m.value ≡ (replay kv_answer kv_next (calls_in (lefts_of h)) s.kv_map).1
    → g.value ≡ some b
    → server_session (calls_in h) s
      ≡ returned
          (replayed_both (calls_in h) (s.kv_map, some s.brokers)).0
          (record s { kv_map = m.value; brokers = b; brokers_locked = g.locked })
both_explained s h m g b kv_free broker_free legal lock value map_value alive =
    let states =
      pair_replay-states kv_answer kv_next broker_answer broker_next h s.kv_map (some s.brokers) in
    server_session-replay (calls_in h) s b kv_free
      (subst₂ (λ k cs. Legal broker_next broker_holds k cs (some s.brokers)) (sym broker_free)
        (sym (rights_of-calls h)) legal)
      (ap (λ (x : GoMap KvValue × Option Brokers). x.1) states ∙ sym value ∙ alive)
    ∙ ap₂
        (λ x k.
          returned (replayed_both (calls_in h) (s.kv_map, some s.brokers)).0
            (record s { kv_map = x; brokers = b; brokers_locked = k }))
        (ap (λ (x : GoMap KvValue × Option Brokers). x.0) states ∙ sym map_value)
        (ap₂ (λ k cs. held_after k cs (some s.brokers)) broker_free (rights_of-calls h) ∙ sym lock)

-- Goroutines below `n` make the calls of their programs, key-value calls and broker calls, an access
-- at a time and in any order of the goroutines. Wherever nobody holds `kvLock` or is between
-- `brokersLock.Lock` and the return, and no call has panicked, there is one sequence of all the
-- calls, in which those of each goroutine come in the order of its program, such that the handlers,
-- run one after the other in that sequence, return the state that is there, and give each goroutine
-- the answers that it got from the key-value store and from the broker. At the start both mutexes
-- are free.
pub server_linearizable :
    (n k : ℕ) (s : State) (programs : ℕ → List ServerCall) (t : ServerSystem) (b : Brokers)
    → s.kv_locked ≡ false
    → s.brokers_locked ≡ false
    → ServerReach n (server_start s programs) k t
    → t.left.locked ≡ false
    → AllOutside (broker_side t).pc
    → t.right.value ≡ some b
    → (h : List (ℕ × ServerCall)) × (answers : List (Answer ⊎ BrokerAnswer)) × (server_session
          (calls_in h)
          s
        ≡ returned answers
            (record s { kv_map = t.left.value; brokers = b; brokers_locked = t.right.locked }))
      × ((i : ℕ) → (local_of ((kv_side t).pc i)).heard ≡ lefts (heard_by i h answers))
      × ((i : ℕ) → (local_of ((broker_side t).pc i)).heard ≡ rights (heard_by i h answers))
      × ((i : ℕ) → programs i ≡ made_by i h ++ pair_todo (t.pc i))
server_linearizable n k s programs t b kv_free broker_free r now_free nobody alive =
    let (h, e) = both_sides n k s programs t r (kv_outside n k s programs t r now_free) nobody in
    (
      h,
      (replayed_both (calls_in h) (s.kv_map, some s.brokers)).0,
      both_explained s h t.left t.right b kv_free broker_free e.broker.legal e.broker.lock
          e.broker.value e.kv.value alive,
      e.kv_heard,
      e.broker_heard,
      e.in_order,
    )
