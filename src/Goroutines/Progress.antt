-- ===== src/Goroutines/Progress.antt =====
-- Goroutines under a mutex get on, unless one of them has left with it.
use quash.Goroutines.Ordering.{Reach-Explained}
use quash.Goroutines.Exclusion.{atomic}
use quash.Goroutines.Atomic.{AllOutside, Busy, Idle, is_inside}
use quash.Prelude.{
  Bool-cases, List, [], ap, arith, eqb, false, inl, inr, refl, subst, suc, sym, true, zero, ℕ, ◌<◌,
  ◌∙◌, ◌∷◌, ◌≡◌, ◌⊎◌,
}
use quash.Goroutines.Measure.{
  AllDone, AllDone-total, AllOutside-Uniform, History-free, Reach-total, Sized, Step-total, is_done,
  total,
}
use quash.Goroutines.{
  Code, Guarded, Move, Pc, Reach, Step, System, abandon, abandons, access, accesses, inside, locks,
  outside, pick, unlock, unlocks,
}

module _ {S L C : Type 0} where
  -- Somebody has calls to make, or nobody.
  search_open :
      (n : ℕ) (pc : ℕ → Pc S L C) → ((i : ℕ) × (i < n) × (is_done (pc i) ≡ false)) ⊎ AllDone n pc
  search_open zero pc = inr (λ i lt. absurd (omega arith))
  search_open (suc n) pc = elim (Bool-cases (is_done (pc n))) [
    | inr open_here ↦ inl (n, omega arith, open_here)
    | inl here_done ↦ elim (search_open n pc) [
      | inl (i, lt, e) ↦ inl (i, omega arith, e)
      | inr all ↦ inr (λ i lt. elim (Bool-cases (eqb i n)) [
        | inl same ↦ ground (arith, same)
        | inr other ↦ all i (ground arith)
      ])
    ]
  ]

module _ {S L C : Type 0} (body : C → Code S L) where
  goes_by :
      (n : ℕ) (t : System S L C) (i : ℕ) {p p' : Pc S L C} {m : Guarded S}
      → i < n
      → t.pc i ≡ p
      → Move body t.mem p m p'
      → (u : System S L C) × Step body n t u
  goes_by n t i {p} {p'} {m} lt e mv =
      (_, pick i lt (subst (λ x. Move body t.mem x m p') (sym e) mv))

  -- A goroutine outside with calls to make can go in where the mutex is free.
  goes_in :
      (n : ℕ) (t : System S L C) (i : ℕ) (p : Pc S L C)
      → i < n
      → t.pc i ≡ p
      → is_done p ≡ false
      → is_inside p ≡ false
      → t.mem.locked ≡ false
      → (u : System S L C) × Step body n t u
  goes_in n t i (outside [] l) lt e open_here out free = absurd (cc)
  goes_in n t i (outside (c ∷ cs) l) lt e open_here out free = goes_by n t i lt e (locks free)
  goes_in n t i (inside rest todo l) lt e open_here out free = absurd (cc)

  -- A goroutine inside can go on.
  goes_on :
      (n : ℕ) (t : System S L C) (i : ℕ) (rest : Code S L) (todo : List C) (l : L)
      → i < n
      → t.pc i ≡ inside rest todo l
      → (u : System S L C) × Step body n t u
  goes_on n t i unlock todo l lt e = goes_by n t i lt e unlocks
  goes_on n t i abandon todo l lt e = goes_by n t i lt e abandons
  goes_on n t i (access f k) todo l lt e = goes_by n t i lt e accesses

  -- They have made all of their calls, or one of them can move, or nobody can since the mutex is
  -- held and nobody is inside.
  gets_on :
      (n : ℕ) (s t : System S L C)
      → Idle body n s t ⊎ Busy body n s t
      → AllDone n t.pc
        ⊎ ((u : System S L C) × Step body n t u)
        ⊎ ((t.mem.locked ≡ true) × AllOutside t.pc)
  gets_on n s t (inl idle) = elim (search_open n t.pc) [
    | inl (i, lt, e) ↦ elim (Bool-cases t.mem.locked) [
      | inl held ↦ inr (inr (held, idle.nobody))
      | inr free ↦ inr (inl (goes_in n t i (t.pc i) lt refl e (idle.nobody i) free))
    ]
    | inr all ↦ inl all
  ]
  gets_on n s t (inr b) = inr (
      inl (
        goes_on n t b.entry.who b.rest b.entry.todo b.local b.entry.bounded
          (ap (λ (f : ℕ → Pc S L C). f b.entry.who) b.alone ∙ ground arith)))

pub ends_or_moves :
    {S L C : Type 0} (body : C → Code S L) (n k : ℕ) (s t : System S L C)
    → s.mem.locked ≡ false
    → AllOutside s.pc
    → Reach body n s k t
    → AllDone n t.pc
      ⊎ ((u : System S L C) × Step body n t u)
      ⊎ ((t.mem.locked ≡ true) × AllOutside t.pc)
ends_or_moves body n k s t free nobody r =
    gets_on body n s t (Reach-Explained body n s free nobody r)

-- Goroutines whose calls make a known number of accesses never block one another for ever: after
-- any number of steps they have all made all of their calls, in as many steps as the calls take
-- together, or another step is possible, and then fewer steps have been made. At the start the
-- mutex is free and nobody holds it.
pub runs_end :
    {S L C : Type 0} (body : C → Code S L) (size : C → ℕ) (n k : ℕ) (s t : System S L C)
    → Sized body size
    → s.mem.locked ≡ false
    → AllOutside s.pc
    → Reach body n s k t
    → (AllDone n t.pc × (k ≡ total size n s.pc))
      ⊎ (((u : System S L C) × Step body n t u) × (k < total size n s.pc))
runs_end body size n k s t sized free nobody r =
    let (uniform, left) =
      Reach-total body size sized n k s t (AllOutside-Uniform body size sized s.pc nobody) r in
    elim (ends_or_moves body n k s t free nobody r) [
      | inl all ↦ inl (all, omega (arith, left, AllDone-total size n t.pc all))
      | inr (inl (u, st)) ↦
          inr ((u, st), omega (arith, left, (Step-total body size sized uniform st).1))
      | inr (inr (held, out)) ↦
          let (h, calls) = atomic body n k s t free nobody r out in
          absurd (ground (arith, held, History-free body size sized n free calls))
    ]
