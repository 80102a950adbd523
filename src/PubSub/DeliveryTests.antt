-- ===== src/PubSub/DeliveryTests.antt =====
-- A publisher and a subscriber at a concrete schedule.
use quash.PubSub.Fitting.Answers.{broker_answers_fit}
use quash.PubSub.Fitting.{AllFitView, view_at_end}
use quash.PubSub.Spec.{SeenAs, View}
use quash.Queue
use quash.GoMap
use quash.PubSub.Conserving.{AllKeep, all_delivered, all_published}
use quash.Goroutines.Atomic.{local_of, todo_of}
use quash.Stream.{finished}
use quash.Broker.Slots.{AllCounted, CountedAt, mailbox}
use quash.PubSub.Delivery.{broker_delivers}
use quash.PubSub.Linear.{broker_start}
use quash.Broker.{queue_at, set_queue}
use quash.Goroutines.Serial.{calls_in, heard_by, made_by}
use quash.Queue.Fifo.{to_list}
use quash.GoMap.{GoMap}
use quash.Queue.{Queue, nil, node}
use quash.Handler.{Brokers, State, start}
use quash.Goroutines.{Reach, System, accesses, here, later, locks, pick, unlocks}
use quash.PubSub.Concurrent.{
  BrokerAnswer, BrokerCall, BrokerLocal, broadcasting, broker_code, consuming, count_at, count_then,
  on_consume, pop_at, pop_rounds, push_at, send_then,
}
use quash.Prelude.{
  List, Option, String, [], arith, false, none, refl, some, suc, zero, ℕ, ◌++◌, ◌∷◌, ◌≡◌,
}

abbrev one_waiting : Queue
one_waiting = record { root = node "x" nil; counter = 1 }

abbrev subscribed : State
subscribed = record start { brokers = ("t", ("s", one_waiting) ∷ []) ∷ [] }

abbrev programs : ℕ → List BrokerCall
programs zero = broadcasting ("s" ∷ []) (record { topic_name = "t"; value = "y" }) ∷ []
programs (suc i) = consuming (record { topic_name = "t"; subscriber_id = "s" }) (λ k. none) ∷ []

abbrev emptied : Brokers
emptied = ("t", ("s", record { root = nil; counter = 0 }) ∷ []) ∷ []

-- The publisher goes first.
published :
    (t : System (Option Brokers) BrokerLocal BrokerCall) × Reach broker_code 2
      (broker_start subscribed.brokers programs)
      4
      t
unfolding broker_code push_at queue_at GoMap.get GoMap.put set_queue Queue.push
published = (
  _,
  later
      (later
        (later (later here (pick 0 (omega arith) (locks refl))) (pick 0 (omega arith) accesses))
        (pick 0 (omega arith) accesses))
      (pick 0 (omega arith) unlocks),
)

schedule :
    (t : System (Option Brokers) BrokerLocal BrokerCall) × Reach broker_code 2
      (broker_start subscribed.brokers programs)
      12
      t
    × (t.mem.locked ≡ false)
    × (t.mem.value ≡ some emptied)
unfolding published broker_code push_at count_at count_then pop_rounds pop_at send_then queue_at
    GoMap.get GoMap.put set_queue Queue.push Queue.count Queue.pop Queue.pop_node Queue.push_node
    Queue.hang
schedule = (
  _,
  later
      (later
        (later
          (later
            (later
              (later
                (later (later published.1 (pick 1 (omega arith) (locks refl)))
                  (pick 1 (omega arith) accesses))
                (pick 1 (omega arith) accesses))
              (pick 1 (omega arith) accesses))
            (pick 1 (omega arith) accesses))
          (pick 1 (omega arith) accesses))
        (pick 1 (omega arith) accesses))
      (pick 1 (omega arith) unlocks),
  refl,
  refl,
)

x_waits : mailbox subscribed.brokers "t" "s" ≡ some ("x" ∷ [])
unfolding queue_at GoMap.get to_list
x_waits = refl

programs-AllKeep : (i : ℕ) → AllKeep "t" "s" (programs i)
programs-AllKeep zero = (tt, tt)
programs-AllKeep (suc i) = (tt, tt)

broker_delivers_example :
    (h : List (ℕ × BrokerCall)) × (answers : List BrokerAnswer) × (rest : List String) × (mailbox
        emptied "t" "s"
      ≡ some rest)
    × ("x" ∷ all_published "t" "s" (calls_in h)
        ≡ all_delivered "t" "s" (calls_in h) answers ++ rest)
    × ((i : ℕ) → (local_of (schedule.0.pc i)).heard ≡ heard_by i h answers)
    × ((i : ℕ) → programs i ≡ made_by i h ++ todo_of (schedule.0.pc i))
broker_delivers_example =
    broker_delivers 2 12 subscribed programs "t" "s" ("x" ∷ []) emptied schedule.0 refl x_waits
      programs-AllKeep schedule.1 schedule.2 schedule.3

-- The subscriber got both values.
both_heard :
    (local_of (schedule.0.pc 1)).heard
    ≡ on_consume (record {
      sent = record { response = "x" } ∷ record { response = "y" } ∷ [];
      ending = finished;
    })
      ∷ []
unfolding schedule published broker_code push_at count_at count_then pop_rounds pop_at send_then
    queue_at GoMap.get GoMap.put set_queue Queue.push Queue.count Queue.pop Queue.pop_node
    Queue.push_node Queue.hang
both_heard = refl

-- What the subscribed brokers show.
abbrev seen_view : View
seen_view = record {
  topics = λ t. GoMap.has subscribed.brokers t;
  box = λ t i. mailbox subscribed.brokers t i;
}

subscribed-AllCounted : AllCounted subscribed.brokers
unfolding queue_at GoMap.get to_list
subscribed-AllCounted topic id = counted (queue_at subscribed.brokers topic id) refl
  where
    counted : (o : Option Queue) → queue_at subscribed.brokers topic id ≡ o → CountedAt o
    counted none e = tt
    counted (some q) e = ground (arith, e)

broker_answers_fit_example :
    (h : List (ℕ × BrokerCall)) × (answers : List BrokerAnswer) × AllFitView seen_view
      (calls_in h)
      answers
    × SeenAs emptied (view_at_end seen_view (calls_in h) answers)
    × ((i : ℕ) → (local_of (schedule.0.pc i)).heard ≡ heard_by i h answers)
    × ((i : ℕ) → programs i ≡ made_by i h ++ todo_of (schedule.0.pc i))
broker_answers_fit_example =
    broker_answers_fit 2 12 subscribed programs seen_view emptied schedule.0
      (record { topics = λ t. refl; boxes = λ t i. refl }) subscribed-AllCounted schedule.1
      schedule.2 schedule.3
