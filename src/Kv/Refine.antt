-- ===== src/Kv/Refine.antt =====
-- The key-value store implements its table: neither the lazy drop of `GetKV` nor the collector
-- can be seen.
use quash.Structs.{KvValue}
use quash.GoMap.{GoMap}
use quash.Prelude.Int.{◌≤ℤ◌}
use quash.GoMap.Laws.{get-delete, get-put}
use quash.Clock.{Time}
use quash.Kv.{collect_round, delete_kv, get_kv, set_kv, collect, look_up}
use quash.Prelude.{List, String, [], ap, arith, false, none, refl, some, ◌∙◌, ◌∷◌, ◌≡◌}
use quash.Handler.{>>=-returned, State, returned}
use quash.Kv.Live.{found, live, live-get-collect, live-get-look_up, live-live, look_up-eq-found}
use quash.Kv.Session.{
  InOrder, KvCall, Shows, Table, answer_of, answers, collects, deletes, gets, next_table, serve,
  session, sets, update,
}
use quash.Kv.Run.{collect_round_lem, delete_kv_lem, get_kv_lem, set_kv_lem, with_kv}
use quash.GoMap

Shows-later :
    (t u : Time) {m : GoMap KvValue} {table : Table} → t ≤ℤ u → Shows t m table → Shows u m table
Shows-later t u {m} {table} h s = record {
  at = λ k. cc (s.at k, live-live t u (GoMap.get m k) h, live-live t u (table k) h);
}

module _ (t u : Time) {m : GoMap KvValue} {table : Table} (h : t ≤ℤ u)
    (shows : Shows t m table) where
  Shows-put : (k : String) (v : KvValue) → Shows u (GoMap.put m k v) (update table k (some v))
  Shows-put k v = record { at = λ j. rw get-put (ground (arith, (Shows-later t u h shows).at j)) }

  Shows-delete : (k : String) → Shows u (GoMap.delete m k) (update table k none)
  Shows-delete k = record {
    at = λ j. rw get-delete (ground (arith, (Shows-later t u h shows).at j));
  }

  Shows-look_up : (k : String) → Shows u (look_up u k m).1 table
  Shows-look_up k = record {
    at = λ j. live-get-look_up u u k j m (omega arith) ∙ (Shows-later t u h shows).at j;
  }

  Shows-collect : (order : List String) → Shows u (collect u order m) table
  Shows-collect order = record {
    at = λ j. live-get-collect u u order m j (omega arith) ∙ (Shows-later t u h shows).at j;
  }

  found-look_up : (k : String) → (look_up u k m).0 ≡ found (live u (table k))
  found-look_up k = look_up-eq-found u k m ∙ ap found ((Shows-later t u h shows).at k)

-- One call at `now`, from a state that shows the table and whose `kvLock` is free.
abbrev pub Serves : State → Table → Time → KvCall → Type 0
Serves s table now call =
    (m : GoMap KvValue) × (serve now call s ≡ returned (answer_of table now call) (with_kv s m))
    × Shows now m (next_table table now call)

serve-Serves :
    (t now : Time) (s : State) (table : Table) (call : KvCall)
    → s.kv_locked ≡ false
    → t ≤ℤ now
    → Shows t s.kv_map table
    → Serves s table now call
unfolding serve answer_of next_table
serve-Serves t now s table (sets kv) free h shows =
    (_, >>=-returned (set_kv now kv) _ s (set_kv_lem s free now kv), Shows-put t now h shows _ _)
serve-Serves t now s table (gets kv) free h shows = (
  _,
  >>=-returned (get_kv now kv) _ s (get_kv_lem s free now kv)
      ∙ rw (found-look_up t now h shows kv.key),
  Shows-look_up t now h shows kv.key,
)
serve-Serves t now s table (deletes req) free h shows = (
  _,
  >>=-returned (delete_kv req) _ s (delete_kv_lem s free req),
  Shows-delete t now h shows req.key,
)
serve-Serves t now s table (collects order) free h shows = (
  _,
  >>=-returned (collect_round now order) _ s (collect_round_lem s free now order),
  Shows-collect t now h shows order,
)

-- Any sequence of `SetKV`, `GetKV` and `DeleteKV` calls and rounds of the collector, in the order
-- of their times, runs to its end with the answers of the table that never forgets an entry by
-- itself, and changes nothing but the map. It starts from a state whose `kvLock` is free and whose
-- map shows the table. The collector may visit any keys in any order.
pub session-answers :
    (t : Time) (calls : List (Time × KvCall)) (s : State) (table : Table)
    → s.kv_locked ≡ false
    → InOrder t calls
    → Shows t s.kv_map table
    → (m : GoMap KvValue) × (session calls s ≡ returned (answers table calls) (with_kv s m))
unfolding session answers
session-answers t [] s table free o shows = (s.kv_map, refl)
session-answers t ((now, call) ∷ calls) s table free o shows =
    let (m, ran, shown) = serve-Serves t now s table call free o.0 shows in
    let (m', ran') =
      session-answers now calls (with_kv s m) (next_table table now call) free o.1 shown in
    (m', >>=-returned (serve now call) _ s ran ∙ >>=-returned (session calls) _ _ ran')
