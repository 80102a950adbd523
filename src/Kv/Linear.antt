-- ===== src/Kv/Linear.antt =====
-- The key-value store under any interleaving of its goroutines.
use quash.Goroutines.Exclusion.{free-AllOutside}
use quash.Goroutines.Measure.{AllDone, total, line-Sized}
use quash.Goroutines.Progress.{runs_end}
use quash.Kv.Run.{with_kv}
use quash.Goroutines.Atomic.{local_of, todo_of}
use quash.Structs.{KvValue}
use quash.Kv.Session.{Answer, KvCall, session}
use quash.Prelude.{length, ◌<◌, ◌⊎◌, List, ap, false, refl, sym, ℕ, ◌++◌, ◌∙◌, ◌≡◌}
use quash.Handler.{State, returned}
use quash.Goroutines.{Step, Reach, System, outside}
use quash.GoMap.{GoMap}
use quash.Clock.{Time}
use quash.Goroutines.Serial.{calls_in, heard_by, made_by, replay, serial}
use quash.Kv.Concurrent.{
  Local, kv_accesses, kv_code, kv_code-Performs, kv_answer, kv_next, no_local, session-replay,
}

abbrev pub kv_start :
    GoMap KvValue → (ℕ → List (Time × KvCall)) → System (GoMap KvValue) Local (Time × KvCall)
kv_start m programs = record {
  mem = record { locked = false; value = m };
  pc = λ i. outside (programs i) no_local;
}

-- Goroutines below `n` make the calls of their programs, an access at a time and in any order of
-- the goroutines. Wherever `kvLock` is free, there is one sequence of the calls, in which those of
-- each goroutine come in the order of its program, such that the handlers, run one after the other
-- in that sequence, leave the map that is there and give each goroutine the answers that it got.
-- At the start `kvLock` is free.
pub kv_linearizable :
    (n k : ℕ) (s : State) (programs : ℕ → List (Time × KvCall))
    (t : System (GoMap KvValue) Local (Time × KvCall))
    → s.kv_locked ≡ false
    → Reach kv_code n (kv_start s.kv_map programs) k t
    → t.mem.locked ≡ false
    → (h : List (ℕ × (Time × KvCall))) × (answers : List Answer) × (session (calls_in h) s
        ≡ returned answers (with_kv s t.mem.value))
      × ((i : ℕ) → (local_of (t.pc i)).heard ≡ heard_by i h answers)
      × ((i : ℕ) → programs i ≡ made_by i h ++ todo_of (t.pc i))
kv_linearizable n k s programs t free r now_free =
    let (h, e) =
      serial kv_code (λ l. l.heard) kv_answer kv_next (λ c m. false) kv_code-Performs n k
        (kv_start s.kv_map programs) t refl (λ i. refl) r
        (free-AllOutside kv_code n k (kv_start s.kv_map programs) t refl (λ i. refl) r now_free) in
    (
      h,
      (replay kv_answer kv_next (calls_in h) s.kv_map).0,
      session-replay (calls_in h) s free
          ∙ ap (λ m. returned (replay kv_answer kv_next (calls_in h) s.kv_map).0 (with_kv s m))
              (sym e.value),
      e.heard,
      e.left,
    )

-- How many accesses a call makes.
abbrev pub accesses_of : Time × KvCall → ℕ
accesses_of c = length (kv_accesses c)

-- Goroutines that make key-value calls never block one another for ever: after any number of steps
-- all of them have made all their calls, and the number is that of the steps which the calls take
-- together, or another step is possible, and the number is smaller.
pub kv_runs_end :
    (n k : ℕ) (m : GoMap KvValue) (programs : ℕ → List (Time × KvCall))
    (t : System (GoMap KvValue) Local (Time × KvCall))
    → Reach kv_code n (kv_start m programs) k t
    → (AllDone n t.pc × (k ≡ total accesses_of n (kv_start m programs).pc))
      ⊎ (((u : System (GoMap KvValue) Local (Time × KvCall)) × Step kv_code n t u)
          × (k < total accesses_of n (kv_start m programs).pc))
kv_runs_end n k m programs t =
    runs_end kv_code accesses_of n k (kv_start m programs) t (line-Sized kv_accesses) refl
      (λ i. refl)
