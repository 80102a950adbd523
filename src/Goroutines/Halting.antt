-- ===== src/Goroutines/Halting.antt =====
-- Goroutines whose calls come to an end come to an end together, in whatever order they move.
use quash.Prelude.{
  Bool-cases, List, [], arith, eqb, inl, inr, refl, subst, suc, zero, ℕ, ◌∙◌, ◌∷◌, ◌≡◌, ◌⊎◌,
}
use quash.Goroutines.{
  Access, Code, Guarded, Move, Pc, Step, System, abandon, abandons, access, accesses, inside, locks,
  outside, pick, unlock, unlocks,
}

module _ {S L C : Type 0} (body : C → Code S L) where
  -- There is no run without end from here.
  pub data Halts (n : ℕ) : System S L C → Type 0 where
    halting : {s : System S L C} → ((t : System S L C) → Step body n s t → Halts n t) → Halts n s

  -- One goroutine for itself, whatever the others do to the value and the mutex.
  data PcHalts : Pc S L C → Type 0 where
    pc_halting :
        {p : Pc S L C}
        → ((m m' : Guarded S) (p' : Pc S L C) → Move body m p m' p' → PcHalts p')
        → PcHalts p

  -- The moves of each place.
  module _ (todo : List C) (l : L) (m : Guarded S) where
    moves_unlock :
        {m' : Guarded S} {p' : Pc S L C}
        → PcHalts (outside todo l)
        → Move body m (inside unlock todo l) m' p'
        → PcHalts p'
    moves_unlock h unlocks = h

    moves_abandon :
        {m' : Guarded S} {p' : Pc S L C}
        → PcHalts (outside todo l)
        → Move body m (inside abandon todo l) m' p'
        → PcHalts p'
    moves_abandon h abandons = h

    moves_access :
        (f : Access S L) (k : L → Code S L) {m' : Guarded S} {p' : Pc S L C}
        → ((v : S) → PcHalts (inside (k (f v l).1) todo (f v l).1))
        → Move body m (inside (access f k) todo l) m' p'
        → PcHalts p'
    moves_access f k h accesses = h m.value

    moves_lock :
        (c : C) {m' : Guarded S} {p' : Pc S L C}
        → PcHalts (inside (body c) todo l)
        → Move body m (outside (c ∷ todo) l) m' p'
        → PcHalts p'
    moves_lock c h (locks free) = h

    moves_done : {m' : Guarded S} {p' : Pc S L C} → Move body m (outside [] l) m' p' → PcHalts p'
    moves_done mv = elim mv [ ]

  inside-PcHalts :
      (code : Code S L) (todo : List C) (l : L)
      → ((l' : L) → PcHalts (outside todo l'))
      → PcHalts (inside code todo l)
  inside-PcHalts unlock todo l h = pc_halting (λ m m' p'. moves_unlock todo l m (h l))
  inside-PcHalts abandon todo l h = pc_halting (λ m m' p'. moves_abandon todo l m (h l))
  inside-PcHalts (access f k) todo l h =
      pc_halting
        (λ m m' p'. moves_access todo l m f k (λ v. inside-PcHalts (k (f v l).1) todo (f v l).1 h))

  outside-PcHalts : (todo : List C) (l : L) → PcHalts (outside todo l)
  outside-PcHalts [] l = pc_halting (λ m m' p'. moves_done [] l m)
  outside-PcHalts (c ∷ todo) l =
      pc_halting
        (λ m m' p'. moves_lock todo l m c (inside-PcHalts (body c) todo l (outside-PcHalts todo)))

  every-PcHalts : (p : Pc S L C) → PcHalts p
  every-PcHalts (outside todo l) = outside-PcHalts todo l
  every-PcHalts (inside code todo l) = inside-PcHalts code todo l (outside-PcHalts todo)

  -- A step is one of the goroutines below `n`, or of goroutine `n`.
  who_moved :
      (n : ℕ) (s t : System S L C)
      → Step body (suc n) s t
      → (Step body n s t × (t.pc n ≡ s.pc n))
        ⊎ ((m' : Guarded S) × (p' : Pc S L C) × Move body s.mem (s.pc n) m' p' × (t.pc n ≡ p'))
  who_moved n s t (pick i {m} {p} lt mv) = elim (Bool-cases (eqb i n)) [
    | inl top ↦
        let top_one : i ≡ n = ground (arith, top) in
        inr (m, p, subst (λ j. Move body s.mem (s.pc j) m p) top_one mv, ground (arith, top))
    | inr other ↦ inl (pick i (ground (arith, other)) mv, ground (arith, other))
  ]

  below-Halts :
      (n : ℕ) (all : (s : System S L C) → Halts n s) (p : Pc S L C) (top : PcHalts p)
      (s : System S L C) (h : Halts n s)
      → s.pc n ≡ p
      → Halts (suc n) s
  below-Halts n all p (pc_halting f) s (halting g) e = halting (λ t st. elim (who_moved n s t st) [
    | inl (st', same_pc) ↦ below-Halts n all p (pc_halting f) t (g t st') (same_pc ∙ e)
    | inr (m', p', mv, now) ↦
        below-Halts n all p' (f s.mem m' p' (subst (λ x. Move body s.mem x m' p') e mv)) t (all t)
          now
  ])

  none_moves : (s t : System S L C) → Step body zero s t → Halts zero t
  none_moves s t (pick i lt mv) = absurd (omega arith)

  pub every-Halts : (n : ℕ) (s : System S L C) → Halts n s
  every-Halts zero s = halting (none_moves s)
  every-Halts (suc n) s =
      below-Halts n (every-Halts n) (s.pc n) (every-PcHalts (s.pc n)) s (every-Halts n s) refl
