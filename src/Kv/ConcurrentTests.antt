-- ===== src/Kv/ConcurrentTests.antt =====
-- Goroutines of the key-value store at a concrete schedule: one sets a key, another reads it.
use quash.Kv.Unordered.{AllFit}
use quash.Kv.Fitting.{AllBy, kv_answers_fit}
use quash.GoMap
use quash.Kv.Run.{with_kv}
use quash.Goroutines.Atomic.{local_of, todo_of}
use quash.Prelude.Int.{pos}
use quash.Goroutines.Measure.{AllDone, total}
use quash.Clock.{Time}
use quash.GoMap.{get, GoMap}
use quash.Structs.{KvValue}
use quash.Handler.{ok, returned, start}
use quash.Goroutines.Serial.{calls_in, heard_by, made_by}
use quash.Kv.Session.{Answer, KvCall, gets, got, session, sets}
use quash.Kv.Linear.{accesses_of, kv_linearizable, kv_runs_end, kv_start}
use quash.Goroutines.{Reach, Step, System, accesses, here, later, locks, pick, unlocks}
use quash.Kv.Concurrent.{Local, kv_accesses, kv_code}
use quash.Prelude.{inl, List, [], arith, false, refl, suc, zero, ℕ, ◌++◌, ◌<◌, ◌∷◌, ◌≡◌, ◌⊎◌}

abbrev set_call : Time × KvCall
set_call = (pos 0, sets (record { key = "k"; value = "v"; time_out_duration = 9; init_time = 0 }))

abbrev get_call : Time × KvCall
get_call = (pos 1, gets (record { key = "k" }))

abbrev programs : ℕ → List (Time × KvCall)
programs zero = set_call ∷ []
programs (suc i) = get_call ∷ []

-- The reader waits until the writer has unlocked.
schedule :
    (t : System (GoMap KvValue) Local (Time × KvCall)) × Reach kv_code 2 (kv_start [] programs) 7 t
    × (t.mem.locked ≡ false)
unfolding kv_accesses
schedule = (
  _,
  later
      (later
        (later
          (later
            (later
              (later (later here (pick 0 (omega arith) (locks refl)))
                (pick 0 (omega arith) accesses))
              (pick 0 (omega arith) unlocks))
            (pick 1 (omega arith) (locks refl)))
          (pick 1 (omega arith) accesses))
        (pick 1 (omega arith) accesses))
      (pick 1 (omega arith) unlocks),
  refl,
)

kv_linearizable_example :
    (h : List (ℕ × (Time × KvCall))) × (answers : List Answer) × (session (calls_in h) start
      ≡ returned answers (with_kv start schedule.0.mem.value))
    × ((i : ℕ) → (local_of (schedule.0.pc i)).heard ≡ heard_by i h answers)
    × ((i : ℕ) → programs i ≡ made_by i h ++ todo_of (schedule.0.pc i))
kv_linearizable_example = kv_linearizable 2 7 start programs schedule.0 refl schedule.1 schedule.2

kv_runs_end_example :
    (AllDone 2 schedule.0.pc × (◌≡◌ {A = ℕ} 7 (total accesses_of 2 (kv_start [] programs).pc)))
    ⊎ (((u : System (GoMap KvValue) Local (Time × KvCall)) × Step kv_code 2 schedule.0 u)
        × (7 < total accesses_of 2 (kv_start [] programs).pc))
kv_runs_end_example = kv_runs_end 2 7 [] programs schedule.0 schedule.1

-- The reader got the value.
reader_hears : (local_of (schedule.0.pc 1)).heard ≡ got (ok (record { value = "v" })) ∷ []
unfolding schedule kv_accesses GoMap.get GoMap.put quash.Clock.add quash.Clock.seconds
reader_hears = refl

programs-AllBy : (i : ℕ) → AllBy (pos 1) (programs i)
programs-AllBy zero = omega arith
programs-AllBy (suc i) = omega arith

kv_answers_fit_example :
    (h : List (ℕ × (Time × KvCall))) × (answers : List Answer) × AllFit
      (pos 1)
      (get [])
      (calls_in h)
      answers
    × ((i : ℕ) → (local_of (schedule.0.pc i)).heard ≡ heard_by i h answers)
    × ((i : ℕ) → programs i ≡ made_by i h ++ todo_of (schedule.0.pc i))
kv_answers_fit_example =
    kv_answers_fit (pos 1) 2 7 start (get []) programs schedule.0 refl (λ k. inl refl)
      programs-AllBy schedule.1 schedule.2
