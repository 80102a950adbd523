-- ===== src/Goroutines/Pair.antt =====
-- Goroutines that share two values, each under a mutex of its own, of which a goroutine holds one at
-- a time.
pub mod Blocked
pub mod GoesOn
pub mod Joint
pub mod Serial
use quash.Prelude.{
  ap, ap₂, subst, sym, ◌∙◌, List, [], arith, false, fun_ext, inl, inr, refl, suc, true, ℕ, ◌<◌, ◌∷◌,
  ◌≡◌, ◌⊎◌,
}
use quash.Goroutines.{
  pick, Access, Code, Guarded, Move, Pc, Step, System, abandon, abandons, access, accesses, inside,
  locks, outside, unlock, unlocks, update,
}

-- Where a goroutine stands: between two calls, or in one of the left or of the right mutex. It has
-- local variables for each side.
pub data PairPc (S T L M C D : Type 0) : Type 0 where
  between : List (C ⊎ D) → L → M → PairPc S T L M C D
  in_left : Code S L → List (C ⊎ D) → L → M → PairPc S T L M C D
  in_right : Code T M → List (C ⊎ D) → L → M → PairPc S T L M C D

pub record PairSystem (S T L M C D : Type 0) : Type 0 where
  pub left : Guarded S
  pub right : Guarded T
  pub pc : ℕ → PairPc S T L M C D

abbrev pub lefts : {C D : Type 0} → List (C ⊎ D) → List C
lefts [] = []
lefts (inl c ∷ cs) = c ∷ lefts cs
lefts (inr d ∷ cs) = lefts cs

abbrev pub rights : {C D : Type 0} → List (C ⊎ D) → List D
rights [] = []
rights (inl c ∷ cs) = rights cs
rights (inr d ∷ cs) = d ∷ rights cs

-- What is seen of a goroutine on each side.
abbrev pub left_pc : {S T L M C D : Type 0} → PairPc S T L M C D → Pc S L C
left_pc (between todo l m) = outside (lefts todo) l
left_pc (in_left code todo l m) = inside code (lefts todo) l
left_pc (in_right code todo l m) = outside (lefts todo) l

abbrev pub right_pc : {S T L M C D : Type 0} → PairPc S T L M C D → Pc T M D
right_pc (between todo l m) = outside (rights todo) m
right_pc (in_left code todo l m) = outside (rights todo) m
right_pc (in_right code todo l m) = inside code (rights todo) m

module _ {S T L M C D : Type 0} (left_body : C → Code S L) (right_body : D → Code T M) where
  pub data PairMove (a : Guarded S) (b : Guarded T)
      : PairPc S T L M C D → Guarded S → Guarded T → PairPc S T L M C D → Type 0 where
    left_locks :
        {c : C} {todo : List (C ⊎ D)} {l : L} {m : M}
        → a.locked ≡ false
        → PairMove a b
            (between (inl c ∷ todo) l m)
            (record a { locked = true })
            b
            (in_left (left_body c) todo l m)
    left_accesses :
        {f : Access S L} {k : L → Code S L} {todo : List (C ⊎ D)} {l : L} {m : M}
        → PairMove a b
            (in_left (access f k) todo l m)
            (record a { value = (f a.value l).0 })
            b
            (in_left (k (f a.value l).1) todo (f a.value l).1 m)
    left_unlocks :
        {todo : List (C ⊎ D)} {l : L} {m : M}
        → PairMove a b (in_left unlock todo l m) (record a { locked = false }) b (between todo l m)
    left_abandons :
        {todo : List (C ⊎ D)} {l : L} {m : M}
        → PairMove a b (in_left abandon todo l m) a b (between todo l m)
    right_locks :
        {d : D} {todo : List (C ⊎ D)} {l : L} {m : M}
        → b.locked ≡ false
        → PairMove a b
            (between (inr d ∷ todo) l m)
            a
            (record b { locked = true })
            (in_right (right_body d) todo l m)
    right_accesses :
        {f : Access T M} {k : M → Code T M} {todo : List (C ⊎ D)} {l : L} {m : M}
        → PairMove a b
            (in_right (access f k) todo l m)
            a
            (record b { value = (f b.value m).0 })
            (in_right (k (f b.value m).1) todo l (f b.value m).1)
    right_unlocks :
        {todo : List (C ⊎ D)} {l : L} {m : M}
        → PairMove a b (in_right unlock todo l m) a (record b { locked = false }) (between todo l m)
    right_abandons :
        {todo : List (C ⊎ D)} {l : L} {m : M}
        → PairMove a b (in_right abandon todo l m) a b (between todo l m)

  pub data PairStep (n : ℕ) (s : PairSystem S T L M C D) : PairSystem S T L M C D → Type 0 where
    picks :
        (i : ℕ) {a : Guarded S} {b : Guarded T} {p : PairPc S T L M C D}
        → i < n
        → PairMove s.left s.right (s.pc i) a b p
        → PairStep n s (record { left = a; right = b; pc = update s.pc i p })

  pub data PairReach (n : ℕ) (s : PairSystem S T L M C D)
      : ℕ → PairSystem S T L M C D → Type 0 where
    at_start : PairReach n s 0 s
    then_on :
        {k : ℕ} {t u : PairSystem S T L M C D}
        → PairReach n s k t
        → PairStep n t u
        → PairReach n s (suc k) u

  abbrev pub left_system : PairSystem S T L M C D → System S L C
  left_system s = record { mem = s.left; pc = λ i. left_pc (s.pc i) }

  abbrev pub right_system : PairSystem S T L M C D → System T M D
  right_system s = record { mem = s.right; pc = λ i. right_pc (s.pc i) }

  -- A move on one side shows on the other as none.
  abbrev OneSide :
      Guarded S
      → Guarded T
      → PairPc S T L M C D
      → Guarded S
      → Guarded T
      → PairPc S T L M C D
      → Type 0
  OneSide a b p a' b' p' =
      (Move left_body a (left_pc p) a' (left_pc p') × (b' ≡ b) × (right_pc p' ≡ right_pc p))
      ⊎ (Move right_body b (right_pc p) b' (right_pc p') × (a' ≡ a) × (left_pc p' ≡ left_pc p))

  PairMove-OneSide :
      {a a' : Guarded S} {b b' : Guarded T} {p p' : PairPc S T L M C D}
      → PairMove a b p a' b' p'
      → OneSide a b p a' b' p'
  PairMove-OneSide (left_locks free) = inl (locks free, refl, refl)
  PairMove-OneSide left_accesses = inl (accesses, refl, refl)
  PairMove-OneSide left_unlocks = inl (unlocks, refl, refl)
  PairMove-OneSide left_abandons = inl (abandons, refl, refl)
  PairMove-OneSide (right_locks free) = inr (locks free, refl, refl)
  PairMove-OneSide right_accesses = inr (accesses, refl, refl)
  PairMove-OneSide right_unlocks = inr (unlocks, refl, refl)
  PairMove-OneSide right_abandons = inr (abandons, refl, refl)

  -- A view of every goroutine after one of them has moved, and where the move does not show in it.
  pub update-view :
      {A B : Type 0} (f : A → B) (pc : ℕ → A) (i : ℕ) (p : A)
      → (λ j. f (update pc i p j)) ≡ update (λ j. f (pc j)) i (f p)
  update-view f pc i p = fun_ext (λ j. ground arith)

  pub update-same : {B : Type 0} (g : ℕ → B) (i : ℕ) (x : B) → x ≡ g i → update g i x ≡ g
  update-same g i x e = fun_ext (λ j. ground (arith, e))

  -- A step is a step of one side, and none of the other.
  pub PairStep-sides :
      (n : ℕ) (s t : PairSystem S T L M C D)
      → PairStep n s t
      → (Step left_body n (left_system s) (left_system t) × (right_system t ≡ right_system s))
        ⊎ (Step right_body n (right_system s) (right_system t) × (left_system t ≡ left_system s))
  PairStep-sides n s t (picks i {a} {b} {p} lt mv) = elim (PairMove-OneSide mv) [
    | inl (on_left, same_mem, same_pc) ↦ inl (
      subst (Step left_body n (left_system s))
          (ap (λ f. record { mem = a; pc = f }) (sym (update-view left_pc s.pc i p)))
          (pick i lt on_left),
      ap₂ (λ m f. record { mem = m; pc = f }) same_mem
          (update-view right_pc s.pc i p
            ∙ update-same (λ j. right_pc (s.pc j)) i (right_pc p) same_pc),
    )
    | inr (on_right, same_mem, same_pc) ↦ inr (
      subst (Step right_body n (right_system s))
          (ap (λ f. record { mem = b; pc = f }) (sym (update-view right_pc s.pc i p)))
          (pick i lt on_right),
      ap₂ (λ m f. record { mem = m; pc = f }) same_mem
          (update-view left_pc s.pc i p
            ∙ update-same (λ j. left_pc (s.pc j)) i (left_pc p) same_pc),
    )
  ]
