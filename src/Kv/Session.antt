-- ===== src/Kv/Session.antt =====
-- Sequences of key-value calls, and the table that they are meant to implement: one that never
-- forgets an entry by itself, and shows those that have not expired.
use quash.GoMap.{GoMap}
use quash.Clock.{Time, seconds}
use quash.Structs.{KvValue}
use quash.Handler.{◌>>=◌, ◌>>◌, Handler, Reply, ok, pure}
use quash.Prelude.Int.{◌≤ℤ◌}
use quash.Kv.Live.{found, live}
use quash.Prelude.{List, Option, String, [], if◌then◌else◌, none, some, ◌==◌, ◌∷◌, ◌≡◌}
use quash.Messages.{
  DeleteKvRequest, DeleteKvResponse, GetKvRequest, GetKvResponse, SetKvRequest, SetKvResponse,
}
use quash.Kv.{collect_round, delete_kv, get_kv, set_kv}
use quash.GoMap

-- The three RPCs, and a round of the collector, which visits the keys in some order.
pub data KvCall : Type 0 where
  sets : SetKvRequest → KvCall
  gets : GetKvRequest → KvCall
  deletes : DeleteKvRequest → KvCall
  collects : List String → KvCall

-- What the caller sees; a round of the collector shows nothing.
pub data Answer : Type 0 where
  added : Reply SetKvResponse → Answer
  got : Reply GetKvResponse → Answer
  deleted : Reply DeleteKvResponse → Answer
  silent : Answer

unfoldable pub serve : Time → KvCall → Handler Answer
serve now (sets kv) = do a ← set_kv now kv; pure (added a)
serve now (gets kv) = do a ← get_kv now kv; pure (got a)
serve now (deletes req) = do a ← delete_kv req; pure (deleted a)
serve now (collects order) = do collect_round now order; pure silent

unfoldable pub session : List (Time × KvCall) → Handler (List Answer)
session [] = pure []
session ((now, call) ∷ calls) = do a ← serve now call; rest ← session calls; pure (a ∷ rest)

-- The table: a function of the key.
abbrev pub Table : Type 0
Table = String → Option KvValue

abbrev pub update : Table → String → Option KvValue → Table
update table k o j = if k == j then o else table j

unfoldable pub answer_of : Table → Time → KvCall → Answer
answer_of table now (sets kv) = added (ok (record { response = "Added" }))
answer_of table now (gets kv) = got (found (live now (table kv.key)))
answer_of table now (deletes req) = deleted (ok (record { value = "OK" }))
answer_of table now (collects order) = silent

unfoldable pub next_table : Table → Time → KvCall → Table
next_table table now (sets kv) =
    update table kv.key
      (some (record { value = kv.value; time_out = seconds kv.time_out_duration; init_time = now }))
next_table table now (gets kv) = table
next_table table now (deletes req) = update table req.key none
next_table table now (collects order) = table

unfoldable pub answers : Table → List (Time × KvCall) → List Answer
answers table [] = []
answers table ((now, call) ∷ calls) =
    answer_of table now call ∷ answers (next_table table now call) calls

-- The calls come in the order of their times, from `t` on.
abbrev pub InOrder : Time → List (Time × KvCall) → Type 0
InOrder t [] = Unit {0}
InOrder t ((now, call) ∷ calls) = (t ≤ℤ now) × InOrder now calls

-- At `t` and after, the map and the table show the same.
pub record Shows (t : Time) (m : GoMap KvValue) (table : Table) : Type 0 where
  pub at : (k : String) → live t (GoMap.get m k) ≡ live t (table k)
