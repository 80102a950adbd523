-- ===== src/Server/Tests.antt =====
-- The server's goroutines at concrete schedules.
use quash.Kv.Unordered.{AllFit}
use quash.Server.Explained.{broker_outside}
use quash.Server.Specified.{server_answers_fit}
use quash.Broker.Slots.{AllCounted}
use quash.PubSub.Fitting.{AllFitView, view_at_end}
use quash.Kv.Fitting.{AllBy}
use quash.PubSub.Spec.{SeenAs, View}
use quash.Queue
use quash.Goroutines.Pair.Joint.{pair_todo}
use quash.Server.Session.{server_session}
use quash.PubSub.Jam.{Jammed}
use quash.Goroutines.Pair.Blocked.{AllPairDone, Blocked, is_before_right}
use quash.Kv.Session.{Answer, sets}
use quash.Queue.{Queue, nil, node}
use quash.Goroutines.Pair.GoesOn.{PairHalts}
use quash.Broker.{queue_at}
use quash.Server.Answers.{server_linearizable}
use quash.Goroutines.Serial.{calls_in, heard_by, made_by}
use quash.Server.GoesOn.{server_goes_on}
use quash.GoMap
use quash.Kv.Concurrent.{kv_code, kv_accesses}
use quash.GoMap.{GoMap}
use quash.Goroutines.Atomic.{local_of}
use quash.Handler.{Brokers, State, returned, start}
use quash.PubSub.Concurrent.{
  BrokerAnswer, consuming, count_at, count_then, pop_at, pop_rounds, send_then, broker_code,
  create_if, creating,
}
use quash.Goroutines.Pair.{
  lefts, rights, right_abandons, right_unlocks, left_unlocks, right_accesses, left_accesses,
  right_locks, left_locks, at_start, picks, then_on,
}
use quash.Prelude.Int.{pos}
use quash.Server.{
  ServerStep, kv_side, ServerCall, ServerReach, ServerSystem, broker_side, server_start,
}
use quash.Messages.{CreateTopicRequest, SetKvRequest}
use quash.Prelude.{
  is_some, none, true, ◌++◌, ◌⊎◌, List, [], arith, false, inl, inr, refl, some, suc, zero, ℕ, ◌∷◌,
  ◌≡◌,
}

abbrev colour : SetKvRequest
colour = record { key = "colour"; value = "red"; time_out_duration = 0; init_time = 0 }

abbrev news : CreateTopicRequest
news = record { topic_name = "news" }

-- One stores a value and then creates a topic, the other the other way round.
abbrev mixed_programs : ℕ → List ServerCall
mixed_programs zero = inl (pos 5, sets colour) ∷ inr (creating news) ∷ []
mixed_programs (suc i) = inr (creating news) ∷ inl (pos 7, sets colour) ∷ []

-- Each is inside a mutex at the same time; then both have come out.
mixed_schedule :
    (t : ServerSystem) × ServerReach 2 (server_start start mixed_programs) 7 t
    × (t.left.locked ≡ false)
    × (t.right.locked ≡ false)
    × (t.right.value ≡ some (("news", []) ∷ []))
unfolding broker_code kv_accesses create_if GoMap.put GoMap.get
mixed_schedule = (
  _,
  then_on
      (then_on
        (then_on
          (then_on
            (then_on
              (then_on (then_on at_start (picks 0 (omega arith) (left_locks refl)))
                (picks 1 (omega arith) (right_locks refl)))
              (picks 0 (omega arith) left_accesses))
            (picks 1 (omega arith) right_accesses))
          (picks 1 (omega arith) right_accesses))
        (picks 0 (omega arith) left_unlocks))
      (picks 1 (omega arith) right_unlocks),
  refl,
  refl,
  refl,
)

server_linearizable_example :
    (h : List (ℕ × ServerCall)) × (answers : List (Answer ⊎ BrokerAnswer)) × (server_session
        (calls_in h)
        start
      ≡ returned answers (record start {
        kv_map = mixed_schedule.0.left.value;
        brokers = ("news", []) ∷ [];
        brokers_locked = mixed_schedule.0.right.locked;
      }))
    × ((i : ℕ) → (local_of ((kv_side mixed_schedule.0).pc i)).heard ≡ lefts (heard_by i h answers))
    × ((i : ℕ)
        → (local_of ((broker_side mixed_schedule.0).pc i)).heard ≡ rights (heard_by i h answers))
    × ((i : ℕ) → mixed_programs i ≡ made_by i h ++ pair_todo (mixed_schedule.0.pc i))
server_linearizable_example =
    server_linearizable 2 7 start mixed_programs mixed_schedule.0 (("news", []) ∷ []) refl refl
      mixed_schedule.1 mixed_schedule.2
      (broker_outside 2 7 start mixed_programs mixed_schedule.0 mixed_schedule.1 mixed_schedule.3)
      mixed_schedule.4

abbrev empty_view : View
empty_view = record { topics = λ t. false; box = λ t i. none }

mixed_programs-AllBy : (i : ℕ) → AllBy (pos 7) (lefts (mixed_programs i))
mixed_programs-AllBy zero = omega arith
mixed_programs-AllBy (suc i) = omega arith

start-SeenAs : SeenAs start.brokers empty_view
unfolding queue_at GoMap.get
start-SeenAs = record { topics = λ t. refl; boxes = λ t i. refl }

start-AllCounted : AllCounted start.brokers
unfolding queue_at GoMap.get
start-AllCounted topic id = tt

server_answers_fit_example :
    (h : List (ℕ × ServerCall)) × (answers : List (Answer ⊎ BrokerAnswer)) × AllFit
      (pos 7)
      (GoMap.get [])
      (lefts (calls_in h))
      (lefts answers)
    × AllFitView empty_view (rights (calls_in h)) (rights answers)
    × SeenAs (("news", []) ∷ []) (view_at_end empty_view (rights (calls_in h)) (rights answers))
    × ((i : ℕ) → (local_of ((kv_side mixed_schedule.0).pc i)).heard ≡ lefts (heard_by i h answers))
    × ((i : ℕ)
        → (local_of ((broker_side mixed_schedule.0).pc i)).heard ≡ rights (heard_by i h answers))
    × ((i : ℕ) → mixed_programs i ≡ made_by i h ++ pair_todo (mixed_schedule.0.pc i))
server_answers_fit_example =
    server_answers_fit (pos 7) 2 7 start (GoMap.get []) empty_view mixed_programs mixed_schedule.0
      (("news", []) ∷ []) (λ k. inl refl) mixed_programs-AllBy start-SeenAs start-AllCounted
      mixed_schedule.1 mixed_schedule.2 mixed_schedule.3 mixed_schedule.4

-- A subscriber reads on a stream that is broken; the other stores a value, and wants to create a
-- topic.
abbrev one_waiting : Queue
one_waiting = record { root = node "x" nil; counter = 1 }

abbrev subscribed : State
subscribed = record start { brokers = ("t", ("s", one_waiting) ∷ []) ∷ [] }

abbrev broken_programs : ℕ → List ServerCall
broken_programs zero =
    inr (consuming (record { topic_name = "t"; subscriber_id = "s" }) (λ i. some "reset")) ∷ []
broken_programs (suc i) = inl (pos 7, sets colour) ∷ inr (creating news) ∷ []

-- The first has gone without its `Unlock`; the second has stored its value.
broken_schedule :
    (t : ServerSystem) × ServerReach 2 (server_start subscribed broken_programs) 8 t
    × (is_before_right (t.pc 1) ≡ true)
unfolding broker_code kv_accesses count_at count_then pop_rounds pop_at send_then queue_at GoMap.get
    Queue.count Queue.pop
broken_schedule = (
  _,
  then_on
      (then_on
        (then_on
          (then_on
            (then_on
              (then_on
                (then_on (then_on at_start (picks 0 (omega arith) (right_locks refl)))
                  (picks 0 (omega arith) right_accesses))
                (picks 1 (omega arith) (left_locks refl)))
              (picks 0 (omega arith) right_accesses))
            (picks 0 (omega arith) right_accesses))
          (picks 0 (omega arith) right_abandons))
        (picks 1 (omega arith) left_accesses))
      (picks 1 (omega arith) left_unlocks),
  refl,
)

server_goes_on_example :
    PairHalts kv_code broker_code 2 broken_schedule.0
    × ((broken_schedule.0.right.value ≡ none)
        ⊎ ((b : Brokers) × (broken_schedule.0.right.value ≡ some b)
            × (AllPairDone 2 broken_schedule.0.pc
                ⊎ ((u : ServerSystem) × ServerStep 2 broken_schedule.0 u)
                ⊎ (Blocked kv_code broker_code 2 broken_schedule.0
                    × Jammed 2 subscribed (broker_side broken_schedule.0)))))
server_goes_on_example =
    server_goes_on 2 8 subscribed broken_programs broken_schedule.0 refl broken_schedule.1

-- The process is alive.
broken_alive : is_some broken_schedule.0.right.value ≡ true
unfolding broken_schedule
broken_alive = refl

-- `brokersLock` is held.
broken_held : broken_schedule.0.right.locked ≡ true
unfolding broken_schedule
broken_held = refl
