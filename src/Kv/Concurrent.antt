-- ===== src/Kv/Concurrent.antt =====
-- The key-value handlers and the collector in goroutines of their own, an access at a time under
-- `kvLock`.
use quash.Goroutines.{Code, line, Access, perform}
use quash.Structs.{KvValue}
use quash.Goroutines.Serial.{line-keeps, Performs, replay}
use quash.Prelude.{
  List, Option, String, [], ap, arith, false, if◌then◌else◌, none, refl, some, ◌++◌, ◌∙◌, ◌∷◌, ◌≡◌,
}
use quash.Messages.{SetKvRequest}
use quash.GoMap.{GoMap, delete, get, put}
use quash.Kv.Run.{collect_round_lem, delete_kv_lem, get_kv_lem, set_kv_lem, with_kv}
use quash.Kv.{collect, collect_key, collect_round, delete_kv, expired, get_kv, look_up, set_kv}
use quash.Handler.{>>=-returned, State, error, ok, returned}
use quash.Kv.Session.{
  Answer, KvCall, added, collects, deleted, deletes, gets, got, serve, session, sets, silent,
}
use quash.Clock.{Time, seconds}

-- What a goroutine knows: what it looked up last, and the answers it has got.
pub record Local : Type 0 where
  pub found : Option KvValue
  pub heard : List Answer

abbrev pub no_local : Local
no_local = record { found = none; heard = [] }

abbrev hear : Answer → Local → Local
hear a l = record l { heard = l.heard ++ a ∷ [] }

abbrev pub KvAccess : Type 0
KvAccess = Access (GoMap KvValue) Local

-- The second half of `GetKV`: what was looked up decides.
unfoldable pub decide : Time → String → Option KvValue → GoMap KvValue → GoMap KvValue × Answer
unfolding expired
decide now key none m = (m, got (error "key doesn't exist"))
decide now key (some val) m =
    if expired now val
    then (delete m key, got (error "key doesn't exist"))
    else (m, got (ok (record { value = val.value })))

abbrev write_entry : Time → SetKvRequest → KvAccess
write_entry now kv m l = (
  put m kv.key
      (record { value = kv.value; time_out = seconds kv.time_out_duration; init_time = now }),
  hear (added (ok (record { response = "Added" }))) l,
)

abbrev read_entry : String → KvAccess
read_entry key m l = (m, record l { found = get m key })

abbrev finish_get : Time → String → KvAccess
finish_get now key m l = let d = decide now key l.found m in (d.0, hear d.1 l)

abbrev delete_entry : String → KvAccess
delete_entry key m l = (delete m key, hear (deleted (ok (record { value = "OK" }))) l)

abbrev visit_keys : Time → List String → List KvAccess
visit_keys now [] = (λ m l. (m, hear silent l)) ∷ []
visit_keys now (k ∷ order) = (λ m l. (collect_key now m k, l)) ∷ visit_keys now order

-- The accesses of a call between `kvLock.Lock` and `kvLock.Unlock`.
unfoldable pub kv_accesses : Time × KvCall → List KvAccess
unfolding decide collect_key
kv_accesses (now, sets kv) = write_entry now kv ∷ []
kv_accesses (now, gets kv) = read_entry kv.key ∷ finish_get now kv.key ∷ []
kv_accesses (now, deletes req) = delete_entry req.key ∷ []
kv_accesses (now, collects order) = visit_keys now order

abbrev pub kv_code : Time × KvCall → Code (GoMap KvValue) Local
kv_code c = line (kv_accesses c)

-- The answer of a whole call, and the map that it leaves.
unfoldable pub kv_answer : Time × KvCall → GoMap KvValue → Answer
kv_answer (now, sets kv) m = added (ok (record { response = "Added" }))
kv_answer (now, gets kv) m = got (look_up now kv.key m).0
kv_answer (now, deletes req) m = deleted (ok (record { value = "OK" }))
kv_answer (now, collects order) m = silent

unfoldable pub kv_next : Time × KvCall → GoMap KvValue → GoMap KvValue
kv_next (now, sets kv) m =
    put m kv.key
      (record { value = kv.value; time_out = seconds kv.time_out_duration; init_time = now })
kv_next (now, gets kv) m = (look_up now kv.key m).1
kv_next (now, deletes req) m = delete m req.key
kv_next (now, collects order) m = collect now order m

visited :
    (now : Time) (order : List String) (m : GoMap KvValue) (l : Local)
    → perform (line (visit_keys now order)) m l ≡ (collect now order m, hear silent l)
unfolding collect
visited now [] m l = refl
visited now (k ∷ order) m l = visited now order (collect_key now m k) l

decided :
    (now : Time) (key : String) (m : GoMap KvValue)
    → decide now key (get m key) m ≡ ((look_up now key m).1, got (look_up now key m).0)
unfolding decide look_up
decided now key m = ground arith

pub kv_code-Performs : Performs kv_code (λ l. l.heard) kv_answer kv_next (λ c m. false)
unfolding kv_accesses kv_answer kv_next
kv_code-Performs = record {
  leaves = leaves_map;
  hears = hears_answer;
  leaves_lock = λ c m l. line-keeps (kv_accesses c) m l;
}
  where
    leaves_map :
        (c : Time × KvCall) (m : GoMap KvValue) (l : Local)
        → (perform (kv_code c) m l).0 ≡ kv_next c m
    leaves_map (now, sets kv) m l = refl
    leaves_map (now, gets kv) m l = ap (λ (d : GoMap KvValue × Answer). d.0) (decided now kv.key m)
    leaves_map (now, deletes req) m l = refl
    leaves_map (now, collects order) m l =
        ap (λ (d : GoMap KvValue × Local). d.0) (visited now order m l)

    hears_answer :
        (c : Time × KvCall) (m : GoMap KvValue) (l : Local)
        → (perform (kv_code c) m l).1.heard ≡ l.heard ++ kv_answer c m ∷ []
    hears_answer (now, sets kv) m l = refl
    hears_answer (now, gets kv) m l =
        ap (λ (d : GoMap KvValue × Answer). l.heard ++ d.1 ∷ []) (decided now kv.key m)
    hears_answer (now, deletes req) m l = refl
    hears_answer (now, collects order) m l =
        ap (λ (d : GoMap KvValue × Local). d.1.heard) (visited now order m l)

pub kv_served :
    (now : Time) (call : KvCall) (s : State)
    → s.kv_locked ≡ false
    → serve now call s
      ≡ returned (kv_answer (now, call) s.kv_map) (with_kv s (kv_next (now, call) s.kv_map))
unfolding serve kv_answer kv_next
kv_served now (sets kv) s free = >>=-returned (set_kv now kv) _ s (set_kv_lem s free now kv)
kv_served now (gets kv) s free = >>=-returned (get_kv now kv) _ s (get_kv_lem s free now kv)
kv_served now (deletes req) s free = >>=-returned (delete_kv req) _ s (delete_kv_lem s free req)
kv_served now (collects order) s free =
    >>=-returned (collect_round now order) _ s (collect_round_lem s free now order)

-- The handlers, one after the other, do the same.
pub session-replay :
    (calls : List (Time × KvCall)) (s : State)
    → s.kv_locked ≡ false
    → session calls s
      ≡ returned
          (replay kv_answer kv_next calls s.kv_map).0
          (with_kv s (replay kv_answer kv_next calls s.kv_map).1)
unfolding session
session-replay [] s free = refl
session-replay ((now, call) ∷ calls) s free =
    >>=-returned (serve now call) _ s (kv_served now call s free)
    ∙ >>=-returned (session calls) _ _
        (session-replay calls (with_kv s (kv_next (now, call) s.kv_map)) free)
