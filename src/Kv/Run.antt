-- ===== src/Kv/Run.antt =====
-- What the key-value handlers do to a state whose `kvLock` is free, and to one whose is not.
use quash.Messages.{DeleteKvRequest, GetKvRequest, SetKvRequest}
use quash.Clock.{Time, seconds}
use quash.Structs.{KvValue}
use quash.GoMap.{GoMap, delete, put}
use quash.Kv.{collect, collect_round, delete_kv, get_kv, look_up, set_kv}
use quash.Handler.{State, ok, returned}
use quash.Prelude.{List, String, false, ◌≡◌}

-- The state after a handler that leaves `m` in the map and both mutexes as they were.
abbrev pub with_kv : State → GoMap KvValue → State
with_kv s m = record s { kv_map = m }

module _ (s : State) (free : s.kv_locked ≡ false) where
  pub set_kv_lem :
      (now : Time) (kv : SetKvRequest)
      → set_kv now kv s
        ≡ returned (ok (record { response = "Added" })) (
            with_kv s (
              put s.kv_map kv.key (record {
                value = kv.value;
                time_out = seconds kv.time_out_duration;
                init_time = now;
              })))
  unfolding set_kv
  set_kv_lem now kv = rw free

  pub get_kv_lem :
      (now : Time) (kv : GetKvRequest)
      → get_kv now kv s
        ≡ returned (look_up now kv.key s.kv_map).0 (with_kv s (look_up now kv.key s.kv_map).1)
  unfolding get_kv
  get_kv_lem now kv = rw free

  pub delete_kv_lem :
      (req : DeleteKvRequest)
      → delete_kv req s
        ≡ returned (ok (record { value = "OK" })) (with_kv s (delete s.kv_map req.key))
  unfolding delete_kv
  delete_kv_lem req = rw free

  pub collect_round_lem :
      (now : Time) (order : List String)
      → collect_round now order s ≡ returned tt (with_kv s (collect now order s.kv_map))
  unfolding collect_round
  collect_round_lem now order = rw free
