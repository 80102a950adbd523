-- ===== src/Admin/Tests.antt =====
-- The dashboard at concrete inputs: a key is set by another goroutine in the middle of the first
-- snapshot, and deleted in the middle of the second, whose frame cannot be written.
use quash.GoMap.{get}
use quash.Admin.Pages.{admin_server, websocket_page}
use quash.Stream.{broken}
use quash.Admin.Frames.{AllReady, AreFrames, Ready, websocket_handler_lem}
use quash.Handler.{State, returned, start}
use quash.Telemetry.{Gauges}
use quash.Utils.{MemStats}
use quash.Structs.{KvValue, SrvData}
use quash.Admin.{Turn, websocket_handler}
use quash.Prelude.Int.{pos}
use quash.Prelude.{
  ltb, List, Option, String, [], false, if◌then◌else◌, none, refl, some, ℕ, ◌∷◌, ◌≡◌,
}

abbrev stats : MemStats
stats = record { alloc = 5_000_000; total_alloc = 9_000_000; sys = 20_000_000; num_gc = 3 }

abbrev gauges : Gauges ℕ
gauges = record {
  used_percent = some 40;
  heap_stats = stats;
  total_stats = stats;
  sys_stats = stats;
  gc_stats = stats;
  percents = 12 ∷ [];
}

abbrev entry : KvValue
entry = record { value = "v"; time_out = 0; init_time = pos 0 }

abbrev turn : (State → State) → (State → State) → Option String → Turn ℕ
turn others between err = record {
  others = others;
  between = between;
  order = [];
  orders = λ t. [];
  gauges = gauges;
  write_error = err;
}

abbrev turns : List (Turn ℕ)
turns =
    turn (λ s. s) (λ s. record s { kv_map = ("k", entry) ∷ [] }) none
    ∷ turn (λ s. s) (λ s. record s { kv_map = [] }) (some "closed")
    ∷ []

-- A stand-in for `json.Marshal`.
abbrev show : SrvData ℕ → String
show d = if ltb d.kv_map_length 1 then "empty" else "keys"

ready : (s s' : State) → s.kv_locked ≡ false → s'.brokers_locked ≡ false → Ready gauges s s'
ready s s' kv_free brokers_free = record {
  kv_free = kv_free;
  brokers_free = brokers_free;
  ram = 40;
  has_ram = refl;
  cpu = 12;
  more = [];
  has_cpu = refl;
}

turns-AllReady : AllReady turns start
turns-AllReady = (ready _ _ refl refl, (ready _ _ refl refl, tt))

websocket_handler_lem_example :
    (frames : List String) × (websocket_handler 0 show none turns start
      ≡ returned (record { sent = frames; ending = broken "closed" }) start)
    × AreFrames 0 show turns start frames
websocket_handler_lem_example = websocket_handler_lem 0 show turns start turns-AllReady

-- The page that is registered for the path of the websocket.
websocket_registered : get admin_server.handlers "/ws/admin" ≡ some websocket_page
unfolding admin_server get
websocket_registered = refl
