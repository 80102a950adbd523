-- ===== src/PubSub/ConcurrentTests.antt =====
-- Goroutines of the broker at a concrete schedule: one creates a topic, while another wants to.
use quash.Goroutines.Exclusion.{free-AllOutside}
use quash.Goroutines.Halting.{Halts}
use quash.PubSub.Sessions.{outcome}
use quash.Queue
use quash.Broker.{queue_at}
use quash.PubSub.Jam.{Jammed, broker_jams}
use quash.Goroutines.Measure.{AllDone}
use quash.Queue.{Queue, nil, node}
use quash.GoMap
use quash.Goroutines.Atomic.{is_inside, local_of, todo_of}
use quash.Messages.{CreateTopicRequest}
use quash.GoMap.{GoMap}
use quash.PubSub.Linear.{broker_linearizable, broker_start}
use quash.Handler.{State, Brokers, error, start}
use quash.Goroutines.Serial.{calls_in, heard_by, made_by}
use quash.PubSub.Concurrent.{
  consuming, count_at, count_then, pop_at, pop_rounds, send_then, BrokerAnswer, BrokerCall,
  BrokerLocal, broker_code, broker_session, creating, on_create,
}
use quash.Goroutines.{Step, abandons, Reach, System, accesses, here, later, locks, pick, unlocks}
use quash.Prelude.{
  is_some, none, String, some, suc, zero, ◌⊎◌, List, Option, [], arith, false, refl, true, ℕ, ◌++◌,
  ◌∷◌, ◌≡◌,
}

abbrev news_request : CreateTopicRequest
news_request = record { topic_name = "news" }

abbrev programs : ℕ → List BrokerCall
programs i = creating news_request ∷ []

-- The first has gone out, and the second is in.
schedule :
    (t : System (Option Brokers) BrokerLocal BrokerCall) × Reach broker_code 2
      (broker_start [] programs)
      5
      t
    × (is_inside (t.pc 1) ≡ true)
unfolding broker_code
schedule = (
  _,
  later
      (later
        (later
          (later (later here (pick 0 (omega arith) (locks refl))) (pick 0 (omega arith) accesses))
          (pick 0 (omega arith) accesses))
        (pick 0 (omega arith) unlocks))
      (pick 1 (omega arith) (locks refl)),
  refl,
)

-- Both have made their calls.
schedule_end :
    (t : System (Option Brokers) BrokerLocal BrokerCall) × Reach broker_code 2
      (broker_start [] programs)
      8
      t
    × (t.mem.locked ≡ false)
unfolding broker_code schedule
schedule_end = (
  _,
  later (later (later schedule.1 (pick 1 (omega arith) accesses)) (pick 1 (omega arith) accesses))
      (pick 1 (omega arith) unlocks),
  refl,
)

broker_linearizable_example :
    (h : List (ℕ × BrokerCall)) × (answers : List BrokerAnswer) × (broker_session (calls_in h) start
      ≡ outcome start schedule_end.0.mem.locked answers schedule_end.0.mem.value)
    × ((i : ℕ) → (local_of (schedule_end.0.pc i)).heard ≡ heard_by i h answers)
    × ((i : ℕ) → programs i ≡ made_by i h ++ todo_of (schedule_end.0.pc i))
broker_linearizable_example =
    broker_linearizable 2 8 start programs schedule_end.0 refl schedule_end.1 (
      free-AllOutside broker_code 2 8 (broker_start [] programs) schedule_end.0 refl (λ i. refl)
        schedule_end.1 schedule_end.2)

-- Only the first of the two is told that it created the topic.
second_refused :
    (local_of (schedule_end.0.pc 1)).heard ≡ on_create (error "topic already exists") ∷ []
unfolding schedule_end broker_code GoMap.get GoMap.put
second_refused = refl

-- A subscriber reads on a stream that is broken, while another goroutine wants to create a topic.
abbrev one_waiting : Queue
one_waiting = record { root = node "x" nil; counter = 1 }

abbrev subscribed : State
subscribed = record start { brokers = ("t", ("s", one_waiting) ∷ []) ∷ [] }

abbrev broken_stream : ℕ → Option String
broken_stream i = some "reset"

abbrev jam_programs : ℕ → List BrokerCall
jam_programs zero = consuming (record { topic_name = "t"; subscriber_id = "s" }) broken_stream ∷ []
jam_programs (suc i) = creating news_request ∷ []

-- The first has gone without its `Unlock`.
jam_schedule :
    (t : System (Option Brokers) BrokerLocal BrokerCall) × Reach broker_code 2
      (broker_start subscribed.brokers jam_programs)
      5
      t
unfolding broker_code count_at count_then pop_rounds pop_at send_then queue_at GoMap.get Queue.count
    Queue.pop
jam_schedule = (
  _,
  later
      (later
        (later
          (later (later here (pick 0 (omega arith) (locks refl))) (pick 0 (omega arith) accesses))
          (pick 0 (omega arith) accesses))
        (pick 0 (omega arith) accesses))
      (pick 0 (omega arith) abandons),
)

broker_jams_example :
    Halts broker_code 2 jam_schedule.0
    × ((jam_schedule.0.mem.value ≡ none)
        ⊎ ((b : Brokers) × (jam_schedule.0.mem.value ≡ some b)
            × (AllDone 2 jam_schedule.0.pc
                ⊎ ((u : System (Option Brokers) BrokerLocal BrokerCall) × Step broker_code 2
                      jam_schedule.0 u)
                ⊎ Jammed 2 subscribed jam_schedule.0)))
broker_jams_example = broker_jams 2 5 subscribed jam_programs jam_schedule.0 refl jam_schedule.1

-- The process is alive.
jam_alive : is_some jam_schedule.0.mem.value ≡ true
unfolding jam_schedule
jam_alive = refl

-- The mutex is held, and the second goroutine still has its call to make.
jam_held : jam_schedule.0.mem.locked ≡ true
unfolding jam_schedule
jam_held = refl
