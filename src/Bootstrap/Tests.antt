-- ===== src/Bootstrap/Tests.antt =====
-- The start and the shutdown of the process at concrete inputs.
use quash.Bootstrap.{
  admin_server_started, garbage_collection_started, listening, main_select, stop_logged,
  on_shutdown, serve_called, server_serve, service_registered, stopped_gracefully,
}
use quash.Prelude.{[], none, refl, some, true, false, ◌∷◌, ◌≡◌}

-- `Listen` fails.
no_listen :
    server_serve (some "in use") none ≡ record { events = admin_server_started ∷ []; panics = true }
unfolding server_serve
no_listen = refl

starts_serving : server_serve none none ≡ record {
  events =
      admin_server_started ∷ listening ∷ garbage_collection_started ∷ service_registered
      ∷ serve_called ∷ [];
  panics = false;
}
unfolding server_serve
starts_serving = refl

stops : main_select on_shutdown ≡ stop_logged ∷ stopped_gracefully ∷ []
unfolding main_select
stops = refl
