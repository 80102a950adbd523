-- ===== src/Goroutines/Stalled.antt =====
-- A mutex that is held by nobody is never free again.
use quash.Goroutines.{
  Code, Guarded, Move, Pc, Step, System, abandons, accesses, locks, pick, unlocks,
}
use quash.Goroutines.Atomic.{AllOutside, is_inside}
use quash.Prelude.{arith, false, true, ℕ, ◌≡◌}

module _ {S L C : Type 0} (body : C → Code S L) where
  nobody_moves :
      {m m' : Guarded S} {p p' : Pc S L C}
      → m.locked ≡ true
      → is_inside p ≡ false
      → ¬ Move body m p m' p'
  nobody_moves held out (locks free) = ground (arith, held, free)
  nobody_moves held out accesses = ground (arith, out)
  nobody_moves held out unlocks = ground (arith, out)
  nobody_moves held out abandons = ground (arith, out)

  -- No step is possible any more.
  pub stalled :
      (n : ℕ) (t u : System S L C) → t.mem.locked ≡ true → AllOutside t.pc → ¬ Step body n t u
  stalled n t u held nobody (pick i lt mv) = nobody_moves held (nobody i) mv
