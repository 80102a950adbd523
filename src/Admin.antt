-- ===== src/Admin.antt =====
-- `websocketHandler` of admin/admin.go, which pushes a snapshot to the dashboard twice a second.
pub mod Frames
pub mod Pages
mod Tests
use quash.Telemetry.{Gauges, snapshot, srv_data}
use quash.Structs.{AdminResponse, SrvData, SubscriptionId, Topic}
use quash.Stream.{Served, broken, finished, waiting}
use quash.Prelude.{List, Option, String, [], none, some, ◌∷◌}
use quash.Handler.{meanwhile, Handler, State, pure, returned, ◌>>=◌, ◌>>◌}

-- One turn of the loop: what the other goroutines do to the server before it and between the
-- critical sections of its `Snapshot`, the orders of the loops of that, the readings of the gauges,
-- and the error of `WriteMessage`.
pub record Turn (Float64 : Type 0) : Type 0 where
  pub others : State → State
  pub between : State → State
  pub order : List Topic
  pub orders : Topic → List SubscriptionId
  pub gauges : Gauges Float64
  pub write_error : Option String

module _ {Float64 : Type 0} (zero_float : Float64) (marshal : SrvData Float64 → String) where
  abbrev pub sent_before : String → Served String → Served String
  sent_before frame r = record r { sent = frame ∷ r.sent }

  -- After the `WriteMessage` of a frame.
  abbrev pub written : String → Option String → Handler (Served String) → Handler (Served String)
  written frame (some err) rest = pure (record { sent = []; ending = broken err })
  written frame none rest = do r ← rest; pure (sent_before frame r)

  abbrev response : SrvData Float64 → AdminResponse Float64
  response srv_data = record { queue_metric = srv_data }

  -- The loop: at the end of the list the handler sleeps. A frame that could not be written is
  -- not among those that were sent.
  unfoldable pub push_loop : List (Turn Float64) → Handler (Served String)
  unfolding snapshot
  push_loop [] = pure (record { sent = []; ending = waiting })
  push_loop (t ∷ ts) = do
    meanwhile t.others
    srv_data ← snapshot zero_float t.between t.order t.orders t.gauges
    written (marshal (response srv_data).queue_metric) t.write_error (push_loop ts)

  -- `Upgrade` fails, or gives a connection.
  unfoldable pub websocket_handler : Option String → List (Turn Float64) → Handler (Served String)
  unfolding push_loop
  websocket_handler (some err) ts = pure (record { sent = []; ending = finished })
  websocket_handler none ts = push_loop ts
