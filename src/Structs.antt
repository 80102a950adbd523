-- ===== src/Structs.antt =====
-- structs/structs.go. `Topic` and `SubscriptionID` are strings. The float64 gauges of `SrvData`
-- are values of a type that the model does not look into.
use quash.Prelude.{ℕ, String}
use quash.GoMap.{GoMap}
use quash.Clock.{Time, Duration}

pub record KvValue : Type 0 where
  pub value : String
  pub time_out : Duration
  pub init_time : Time

abbrev pub Topic : Type 0
Topic = String

abbrev pub SubscriptionId : Type 0
SubscriptionId = String

pub record SrvData (Float64 : Type 0) : Type 0 where
  pub kv_map_length : ℕ
  pub topics : GoMap (GoMap ℕ)
  pub system_ram_usage : Float64
  pub heap_alloc_mb : ℕ
  pub total_alloc_mb : ℕ
  pub sys_mb : ℕ
  pub num_gc : ℕ
  pub cpu_usage : Float64

pub record AdminResponse (Float64 : Type 0) : Type 0 where
  pub queue_metric : SrvData Float64
