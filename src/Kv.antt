-- ===== src/Kv.antt =====
-- The key-value handlers of server/quashserver/quashserver.go and its garbage collection.
pub mod Run
pub mod Live
pub mod Session
pub mod Refine
pub mod Expiry
pub mod Classes
pub mod Collector
pub mod Concurrent
pub mod Linear
pub mod Unordered
pub mod Fitting
mod Tests
mod ConcurrentTests
use quash.Prelude.{Bool, String, none, some, List, [], ◌∷◌, if◌then◌else◌}
use quash.GoMap.{GoMap, get, put, delete}
use quash.Clock.{Time, add, after, seconds}
use quash.Structs.{KvValue}
use quash.Messages.{
  SetKvRequest, SetKvResponse, GetKvRequest, GetKvResponse, DeleteKvRequest, DeleteKvResponse,
}
use quash.Handler.{
  Handler, Reply, ok, error, pure, ◌>>=◌, ◌>>◌, lock_kv, unlock_kv, get_kv_map, set_kv_map,
}

-- `now.After(val.InitTime.Add(val.TimeOut))`
unfoldable pub expired : Time → KvValue → Bool
expired now v = after now (add v.init_time v.time_out)

unfoldable pub set_kv : Time → SetKvRequest → Handler (Reply SetKvResponse)
unfolding lock_kv unlock_kv
set_kv now kv = do
  lock_kv
  m ← get_kv_map
  set_kv_map (
      put m kv.key
        (record { value = kv.value; time_out = seconds kv.time_out_duration; init_time = now }))
  unlock_kv
  pure (ok (record { response = "Added" }))

-- What `GetKV` does between the look-up and its return: the answer, and the map that it leaves.
unfoldable pub look_up : Time → String → GoMap KvValue → Reply GetKvResponse × GoMap KvValue
unfolding expired
look_up now key m = elim (get m key) [
  | none ↦ (error "key doesn't exist", m)
  | some val ↦
      if expired now val
      then (error "key doesn't exist", delete m key)
      else (ok (record { value = val.value }), m)
]

-- The `Unlock` is deferred, so it comes after either return.
unfoldable pub get_kv : Time → GetKvRequest → Handler (Reply GetKvResponse)
unfolding lock_kv unlock_kv look_up
get_kv now kv = do
  lock_kv
  m ← get_kv_map
  let answer = look_up now kv.key m
  set_kv_map answer.1
  unlock_kv
  pure answer.0

unfoldable pub delete_kv : DeleteKvRequest → Handler (Reply DeleteKvResponse)
unfolding lock_kv unlock_kv
delete_kv req = do
  lock_kv
  m ← get_kv_map
  set_kv_map (delete m req.key)
  unlock_kv
  pure (ok (record { value = "OK" }))

-- The body of the collector's `range` loop at one key. A key that is gone is not visited.
unfoldable pub collect_key : Time → GoMap KvValue → String → GoMap KvValue
unfolding expired
collect_key now m k = elim (get m k) [ none ↦ m | some v ↦ if expired now v then delete m k else m ]

unfoldable pub collect : Time → List String → GoMap KvValue → GoMap KvValue
unfolding collect_key
collect now [] m = m
collect now (k ∷ order) m = collect now order (collect_key now m k)

-- One round of the collector, which visits the keys in the order given.
unfoldable pub collect_round : Time → List String → Handler (Unit {0})
unfolding lock_kv unlock_kv collect
collect_round now order = do lock_kv; m ← get_kv_map; set_kv_map (collect now order m); unlock_kv

-- The collector's loop, as far as these rounds go: the time of each, and its order of the keys.
unfoldable pub garbage_collection : List (Time × List String) → Handler (Unit {0})
garbage_collection [] = pure tt
garbage_collection ((now, order) ∷ rounds) = do collect_round now order; garbage_collection rounds
