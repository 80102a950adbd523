-- ===== src/Telemetry/Tests.antt =====
-- A snapshot of a concrete state. The gauges are numbers here.
use quash.Queue.Fifo.{to_list}
use quash.Broker.{queue_at}
use quash.GoMap.{GoMap}
use quash.Utils.{MemStats}
use quash.Telemetry.{Gauges, count_topics, snapshot}
use quash.Handler.{State, returned, start}
use quash.Queue.{Queue, nil, node}
use quash.Telemetry.Exact.{Fits, FitsAt, reported, snapshot_exact, waiting_in}
use quash.Prelude.{List, Option, [], arith, if◌then◌else◌, none, refl, some, ℕ, ◌==◌, ◌∷◌, ◌≡◌}
use quash.Structs.{KvValue, SrvData, SubscriptionId, Topic}
use quash.Broker.Slots.{AllCounted, CountedAt, contents, mailbox}
use quash.GoMap
use quash.Prelude.Int.{pos}
use quash.Queue

abbrev two_waiting : Queue
two_waiting = record { root = node "x" (node "y" nil); counter = 2 }

abbrev busy : State
busy = record start { brokers = ("t", ("s", two_waiting) ∷ []) ∷ [] }

abbrev stats : MemStats
stats = record { alloc = 5_000_000; total_alloc = 9_000_000; sys = 20_000_000; num_gc = 3 }

abbrev gauges : Gauges ℕ
gauges = record {
  used_percent = some 40;
  heap_stats = stats;
  total_stats = stats;
  sys_stats = stats;
  gc_stats = stats;
  percents = 12 ∷ [];
}

abbrev orders : Topic → List SubscriptionId
orders t = if "t" == t then "s" ∷ [] else []

busy-AllCounted : AllCounted busy.brokers
unfolding queue_at GoMap.get to_list
busy-AllCounted topic id = counted (queue_at busy.brokers topic id) refl
  where
    counted : (o : Option Queue) → queue_at busy.brokers topic id ≡ o → CountedAt o
    counted none e = tt
    counted (some q) e = ground (arith, e)

busy-Fits : Fits busy.brokers
unfolding queue_at GoMap.get to_list
busy-Fits topic id = fits (queue_at busy.brokers topic id) refl
  where
    fits : (o : Option Queue) → queue_at busy.brokers topic id ≡ o → FitsAt (contents o)
    fits none e = tt
    fits (some q) e = ground (arith, e)

-- Another goroutine sets a key and publishes between the two critical sections.
abbrev one_key : GoMap KvValue
one_key = ("k", record { value = "v"; time_out = 0; init_time = pos 0 }) ∷ []

abbrev publishes_two : State → State
publishes_two s = record s { kv_map = one_key; brokers = busy.brokers }

abbrev after_others : State
after_others = record busy { kv_map = one_key }

snapshot_exact_example :
    (d : SrvData ℕ) × (snapshot 0 publishes_two ("t" ∷ []) orders gauges start
      ≡ returned d after_others)
    × (d.kv_map_length ≡ GoMap.len start.kv_map)
    × ((t : Topic) → GoMap.has d.topics t ≡ GoMap.has after_others.brokers t)
    × ((t : Topic) (i : SubscriptionId)
        → reported d.topics t i ≡ waiting_in (mailbox after_others.brokers t i))
unfolding queue_at GoMap.get
snapshot_exact_example =
    snapshot_exact 0 start after_others publishes_two ("t" ∷ []) orders gauges 40 12 [] refl refl
      refl busy-AllCounted busy-Fits (λ t. ground arith) (λ t i. ground arith) refl refl

snapshot_run : reported (count_topics ("t" ∷ []) orders busy.brokers []) "t" "s" ≡ some 2
unfolding count_topics GoMap.get GoMap.put Queue.count
snapshot_run = refl
