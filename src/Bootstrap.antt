-- ===== src/Bootstrap.antt =====
-- The start and the shutdown of the process: main.go, `Serve` and `Shutdown` of server/server.go,
-- and `Init` and `Shutdown` of server/quashserver/quashserver.go, by the order of what they do.
mod Tests
use quash.Prelude.{Bool, List, Option, String, [], false, none, some, true, ◌++◌, ◌∷◌}

pub data Event : Type 0 where
  admin_server_started : Event
  listening : Event
  garbage_collection_started : Event
  service_registered : Event
  serve_called : Event
  stop_logged : Event
  stopped_gracefully : Event
  exited : Event

-- What was done, in order, and whether it ended in a panic.
pub record Course : Type 0 where
  pub events : List Event
  pub panics : Bool

abbrev course : List Event → Bool → Course
course events panics = record { events = events; panics = panics }

-- `quashSrv.Init()`
unfoldable pub init : List Event
init = garbage_collection_started ∷ []

-- `srv.Serve(lis)` is called; whether it serves before it returns is not seen here.
abbrev serve_until : Option String → Course
serve_until (some err) = course (serve_called ∷ []) true
serve_until none = course (serve_called ∷ []) false

abbrev done_before : List Event → Course → Course
done_before events c = record c { events = events ++ c.events }

-- By the errors of `net.Listen` and of `srv.Serve`.
unfoldable pub server_serve : Option String → Option String → Course
unfolding init
server_serve (some err) serve_error = course (admin_server_started ∷ []) true
server_serve none serve_error =
    done_before (admin_server_started ∷ listening ∷ init ++ service_registered ∷ [])
      (serve_until serve_error)

-- `memoryDump` has an empty body.
abbrev memory_dump : List Event
memory_dump = []

-- `quashSrv.Shutdown()`
abbrev quash_shutdown : List Event
quash_shutdown = memory_dump ++ stop_logged ∷ []

-- `quashSrv.Shutdown()` and `GracefulStop`.
unfoldable pub shutdown : List Event
shutdown = quash_shutdown ++ stopped_gracefully ∷ []

-- The channel that the `select` of `main` receives from; nothing sends on `quit`.
pub data Selected : Type 0 where
  on_shutdown : Selected
  on_quit : Selected

unfoldable pub main_select : Selected → List Event
unfolding shutdown
main_select on_shutdown = shutdown
main_select on_quit = exited ∷ []
