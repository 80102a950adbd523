-- ===== src/Goroutines/Exclusion.antt =====
-- What Goroutines/Atomic gives: where nobody is inside, only whole calls have been made.
use quash.Goroutines.Ordering.{Reach-Explained}
use quash.Goroutines.{Code, History, Pc, Reach, System}
use quash.Goroutines.Atomic.{AllOutside}
use quash.Prelude.{List, ap, arith, false, inl, inr, ℕ, ◌≡◌}

-- Where nobody is inside, the state has come about by whole calls, one after the other.
pub atomic :
    {S L C : Type 0} (body : C → Code S L) (n k : ℕ) (s t : System S L C)
    → s.mem.locked ≡ false
    → AllOutside s.pc
    → Reach body n s k t
    → AllOutside t.pc
    → (h : List (ℕ × C)) × History body n s h t
atomic {S} {L} {C} body n k s t free nobody r all_out =
    elim (Reach-Explained body n s free nobody r) [
      | inl idle ↦ (idle.history, idle.calls)
      | inr b ↦
          absurd
            (ground (arith, all_out b.entry.who, ap (λ (f : ℕ → Pc S L C). f b.entry.who) b.alone))
    ]

-- Where the mutex is free, nobody is inside.
pub free-AllOutside :
    {S L C : Type 0} (body : C → Code S L) (n k : ℕ) (s t : System S L C)
    → s.mem.locked ≡ false
    → AllOutside s.pc
    → Reach body n s k t
    → t.mem.locked ≡ false
    → AllOutside t.pc
free-AllOutside body n k s t free nobody r now_free =
    elim (Reach-Explained body n s free nobody r) [
      | inl idle ↦ idle.nobody
      | inr b ↦ absurd (ground (arith, b.held, now_free))
    ]
