-- ===== src/Admin/Pages.antt =====
-- `indexHandler` and `AdminServer` of admin/admin.go: the page of the dashboard and what net/http is
-- given. How a `ServeMux` chooses among its patterns is net/http's.
use quash.Prelude.{List, String, [], ◌∷◌}

pub record PageData : Type 0 where
  pub title : String

-- `tmpl.Execute` is an argument; its error is dropped.
abbrev pub index_handler : {W : Type 0} → (PageData → W → W) → W → W
index_handler execute w = execute (record { title = "Quash Admin" }) w

-- The handlers that are registered.
pub data Page : Type 0 where
  websocket_page : Page
  index_page : Page

-- `utils.QuashTelemetry`
abbrev pub quash_telemetry : String
quash_telemetry = ":6301"

-- The patterns of `HandleFunc` in order, and the address of `ListenAndServe`.
pub record AdminServer : Type 0 where
  pub handlers : List (String × Page)
  pub address : String

unfoldable pub admin_server : AdminServer
admin_server = record {
  handlers = ("/ws/admin", websocket_page) ∷ ("/", index_page) ∷ [];
  address = quash_telemetry;
}
