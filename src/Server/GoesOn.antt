-- ===== src/Server/GoesOn.antt =====
-- When the goroutines of the server stop for good, as long as the process is alive.
use quash.Goroutines.Measure.{line-Sized}
use quash.PubSub.Concurrent.{broker_code}
use quash.Goroutines.Pair.GoesOn.{PairHalts, PairReach-right, every-PairHalts}
use quash.Kv.Linear.{accesses_of}
use quash.PubSub.Jam.{Jammed, broker_stuck-Jammed}
use quash.Goroutines.Pair.{rights}
use quash.Server.{ServerCall, ServerReach, ServerStep, ServerSystem, broker_side, server_start}
use quash.Kv.Concurrent.{kv_accesses, kv_code}
use quash.Goroutines.Pair.Blocked.{AllPairDone, Blocked, ends_or_steps}
use quash.Prelude.{Option-cases, none, some, List, false, inl, inr, refl, ℕ, ◌≡◌, ◌⊎◌}
use quash.Handler.{Brokers, State}

stuck-Jammed :
    (n k : ℕ) (s : State) (programs : ℕ → List ServerCall) (t : ServerSystem)
    → s.brokers_locked ≡ false
    → ServerReach n (server_start s programs) k t
    → Blocked kv_code broker_code n t
    → Jammed n s (broker_side t)
stuck-Jammed n k s programs t free r stuck =
    let (j, on_right) = PairReach-right kv_code broker_code n k (server_start s programs) t r in
    broker_stuck-Jammed n j s (λ i. rights (programs i)) (broker_side t) free on_right
      stuck.right_held stuck.right_outside

-- Goroutines below `n` make key-value calls and broker calls, and no run of theirs goes on for ever.
-- After any number of steps a call has panicked, which ends the process, so that nothing more is
-- claimed; or the process is alive, and the goroutines have made all of their calls, or another step
-- is possible, or none is ever again: then `kvLock` is free, every goroutine with calls left stands
-- before a broker call, and the broker's handlers, run one after the other, come to the same brokers
-- with `brokersLock` held, the last of them a `Consume` that a failed `Send` has broken off. At the
-- start both mutexes are free, and each `Send` returns, with the result that `send` gives for it: a
-- client that stops reading, so that `Send` waits inside the critical section, is left out.
pub server_goes_on :
    (n k : ℕ) (s : State) (programs : ℕ → List ServerCall) (t : ServerSystem)
    → s.brokers_locked ≡ false
    → ServerReach n (server_start s programs) k t
    → PairHalts kv_code broker_code n t
      × ((t.right.value ≡ none)
          ⊎ ((b : Brokers) × (t.right.value ≡ some b)
              × (AllPairDone n t.pc
                  ⊎ ((u : ServerSystem) × ServerStep n t u)
                  ⊎ (Blocked kv_code broker_code n t × Jammed n s (broker_side t)))))
server_goes_on n k s programs t free r = (
  every-PairHalts kv_code broker_code n t,
  elim (Option-cases t.right.value) [
    | inl dead ↦ inl dead
    | inr (b, alive) ↦ inr (
      b,
      alive,
      elim (ends_or_steps kv_code broker_code accesses_of n k (server_start s programs) t
          (line-Sized kv_accesses) refl refl (λ i. refl) (λ i. refl) r) [
            | inl all ↦ inl all
            | inr (inl step) ↦ inr (inl step)
            | inr (inr stuck) ↦ inr (inr (stuck, stuck-Jammed n k s programs t free r stuck))
          ],
    )
  ],
)
