-- ===== src/Telemetry.antt =====
-- `Snapshot` of server/quashserver/quashserver.go: the sizes of the map and of the queues, for the
-- dashboard. The orders of its two `range` loops are arguments, as are the readings of the gauges,
-- one for each time that a gauge is read.
pub mod Exact
mod Tests
use quash.Queue
use quash.GoMap
use quash.Structs.{SrvData, SubscriptionId, Topic}
use quash.GoMap.{GoMap}
use quash.Utils.{system_ram_usage, MemStats, go_process_memory_usage, system_cpu_usage}
use quash.Prelude.{List, Option, [], none, some, ℕ, ◌∷◌}
use quash.Queue.{Queue}
use quash.Handler.{
  State, meanwhile, Brokers, Handler, get_brokers, get_kv_map, lock_brokers, lock_kv, panic, pure,
  unlock_brokers, unlock_kv, ◌>>=◌, ◌>>◌,
}

-- The body of the inner loop: the count of one queue.
unfoldable pub count_sub : GoMap Queue → GoMap ℕ → SubscriptionId → GoMap ℕ
count_sub subs counts subscriber = elim (GoMap.get subs subscriber) [
  | none ↦ counts
  | some queue ↦ GoMap.put counts subscriber (Queue.count queue)
]

-- The inner loop, over the subscribers that `order` visits.
unfoldable pub count_subs : List SubscriptionId → GoMap Queue → GoMap ℕ → GoMap ℕ
unfolding count_sub
count_subs [] subs counts = counts
count_subs (subscriber ∷ order) subs counts =
    count_subs order subs (count_sub subs counts subscriber)

-- The body of the outer loop; `order` is that of the inner one.
unfoldable pub count_topic :
    List SubscriptionId → Brokers → GoMap (GoMap ℕ) → Topic → GoMap (GoMap ℕ)
unfolding count_subs
count_topic order b topics name = elim (GoMap.get b name) [
  | none ↦ topics
  | some subs ↦ GoMap.put topics name (count_subs order subs [])
]

-- The outer loop; `orders` gives the order of the inner one for each topic.
unfoldable pub count_topics :
    List Topic → (Topic → List SubscriptionId) → Brokers → GoMap (GoMap ℕ) → GoMap (GoMap ℕ)
unfolding count_topic
count_topics [] orders b topics = topics
count_topics (name ∷ order) orders b topics =
    count_topics order orders b (count_topic (orders name) b topics name)

-- The readings: `mem.VirtualMemory` once, `runtime.ReadMemStats` four times, `cpu.Percent` once.
pub record Gauges (Float64 : Type 0) : Type 0 where
  pub used_percent : Option Float64
  pub heap_stats : MemStats
  pub total_stats : MemStats
  pub sys_stats : MemStats
  pub gc_stats : MemStats
  pub percents : List Float64

module _ {Float64 : Type 0} (zero_float : Float64) where
  abbrev pub usage : MemStats → SrvData Float64
  usage = go_process_memory_usage zero_float

  abbrev pub measured : Float64 → Float64 → Gauges Float64 → ℕ → GoMap (GoMap ℕ) → SrvData Float64
  measured ram cpu g kv_len topics = record {
    kv_map_length = kv_len;
    topics = topics;
    system_ram_usage = ram;
    heap_alloc_mb = (usage g.heap_stats).heap_alloc_mb;
    total_alloc_mb = (usage g.total_stats).total_alloc_mb;
    sys_mb = (usage g.sys_stats).sys_mb;
    num_gc = (usage g.gc_stats).num_gc;
    cpu_usage = cpu;
  }

  -- The value that `Snapshot` returns; `none` where a gauge panics.
  unfoldable pub srv_data : Gauges Float64 → ℕ → GoMap (GoMap ℕ) → Option (SrvData Float64)
  unfolding go_process_memory_usage system_ram_usage system_cpu_usage
  srv_data g kv_len topics = elim (system_ram_usage g.used_percent) [
    | none ↦ none
    | some ram ↦ elim (system_cpu_usage g.percents) [
      | none ↦ none
      | some cpu ↦ some (measured ram cpu g kv_len topics)
    ]
  ]

  abbrev or_panic : Option (SrvData Float64) → Handler (SrvData Float64)
  or_panic none = panic
  or_panic (some d) = pure d

  -- `between` is what the others do after the first critical section and before the second.
  unfoldable pub snapshot :
      (State → State)
      → List Topic
      → (Topic → List SubscriptionId)
      → Gauges Float64
      → Handler (SrvData Float64)
  unfolding lock_kv unlock_kv lock_brokers unlock_brokers
  snapshot between order orders g = do
    lock_kv
    m ← get_kv_map
    let kv_len = GoMap.len m
    unlock_kv
    meanwhile between
    lock_brokers
    b ← get_brokers
    let topics = count_topics order orders b []
    unlock_brokers
    or_panic (srv_data g kv_len topics)
