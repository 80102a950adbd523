-- ===== src/Goroutines/Pair/Blocked.antt =====
-- Goroutines under two mutexes get on, as long as none has left with the right one; the calls of
-- the left mutex are never in the way.
use quash.Goroutines.Ordering.{Reach-Explained}
use quash.Goroutines.Measure.{History-free, Sized}
use quash.Goroutines.Pair.GoesOn.{PairReach-left, PairReach-right}
use quash.Goroutines.{Code, Guarded, Pc, System, abandon, access, unlock}
use quash.Goroutines.Atomic.{AllOutside, Busy, Idle, is_inside}
use quash.Prelude.{
  Bool, Bool-cases, [], ap, ap₂, arith, eqb, false, inl, inr, not, refl, suc, sym, true, zero, ℕ,
  ◌<◌, ◌∙◌, ◌∷◌, ◌≡◌, ◌⊎◌,
}
use quash.Goroutines.Pair.{
  right_accesses, right_abandons, right_unlocks, left_accesses, left_abandons, left_unlocks,
  right_locks, PairMove, left_locks, PairReach, PairStep, PairSystem, between, in_left, in_right,
  left_pc, left_system, picks, right_pc, right_system, PairPc,
}

-- Whether a goroutine can move, by whether the mutexes are held.
abbrev pub can_move : {S T L M C D : Type 0} → Bool → Bool → PairPc S T L M C D → Bool
can_move a b (between [] l m) = false
can_move a b (between (inl c ∷ todo) l m) = not a
can_move a b (between (inr d ∷ todo) l m) = not b
can_move a b (in_left code todo l m) = true
can_move a b (in_right code todo l m) = true

-- A goroutine that has made all of its calls, and one that has, or stands before a right call.
abbrev pub is_pair_done : {S T L M C D : Type 0} → PairPc S T L M C D → Bool
is_pair_done (between [] l m) = true
is_pair_done (between (c ∷ todo) l m) = false
is_pair_done (in_left code todo l m) = false
is_pair_done (in_right code todo l m) = false

abbrev pub is_before_right : {S T L M C D : Type 0} → PairPc S T L M C D → Bool
is_before_right (between [] l m) = true
is_before_right (between (inl c ∷ todo) l m) = false
is_before_right (between (inr d ∷ todo) l m) = true
is_before_right (in_left code todo l m) = false
is_before_right (in_right code todo l m) = false

abbrev pub AllPairDone : {S T L M C D : Type 0} → ℕ → (ℕ → PairPc S T L M C D) → Type 0
AllPairDone n pc = (i : ℕ) → i < n → is_pair_done (pc i) ≡ true

-- Some goroutine below `n` can move, or none can.
pub search_mover :
    (n : ℕ) (test : ℕ → Bool)
    → ((i : ℕ) × (i < n) × (test i ≡ true)) ⊎ ((i : ℕ) → i < n → test i ≡ false)
search_mover zero test = inr (λ i lt. absurd (omega arith))
search_mover (suc n) test = elim (Bool-cases (test n)) [
  | inl moves ↦ inl (n, omega arith, moves)
  | inr unable ↦ elim (search_mover n test) [
    | inl (i, lt, e) ↦ inl (i, omega arith, e)
    | inr none_can ↦ inr (λ i lt. elim (Bool-cases (eqb i n)) [
      | inl top ↦ ground (arith, top, unable)
      | inr other ↦ none_can i (ground arith)
    ])
  ]
]

module _ {S T L M C D : Type 0} where
  left_inside-can_move :
      (a b : Bool) (p : PairPc S T L M C D) → is_inside (left_pc p) ≡ true → can_move a b p ≡ true
  left_inside-can_move a b (between todo l m) h = absurd (cc)
  left_inside-can_move a b (in_left code todo l m) h = refl
  left_inside-can_move a b (in_right code todo l m) h = refl

  right_inside-can_move :
      (a b : Bool) (p : PairPc S T L M C D) → is_inside (right_pc p) ≡ true → can_move a b p ≡ true
  right_inside-can_move a b (between todo l m) h = absurd (cc)
  right_inside-can_move a b (in_left code todo l m) h = refl
  right_inside-can_move a b (in_right code todo l m) h = refl

  can_move-done : (p : PairPc S T L M C D) → can_move false false p ≡ false → is_pair_done p ≡ true
  can_move-done (between [] l m) h = refl
  can_move-done (between (inl c ∷ todo) l m) h = absurd (cc)
  can_move-done (between (inr d ∷ todo) l m) h = absurd (cc)
  can_move-done (in_left code todo l m) h = absurd (cc)
  can_move-done (in_right code todo l m) h = absurd (cc)

  can_move-before_right :
      (p : PairPc S T L M C D) → can_move false true p ≡ false → is_before_right p ≡ true
  can_move-before_right (between [] l m) h = refl
  can_move-before_right (between (inl c ∷ todo) l m) h = absurd (cc)
  can_move-before_right (between (inr d ∷ todo) l m) h = refl
  can_move-before_right (in_left code todo l m) h = absurd (cc)
  can_move-before_right (in_right code todo l m) h = absurd (cc)

-- Nobody is inside, or somebody is.
at_rest :
    {S L C : Type 0} (body : C → Code S L) (n : ℕ) (s t : System S L C)
    → Idle body n s t ⊎ Busy body n s t
    → Idle body n s t ⊎ ((i : ℕ) × (i < n) × (is_inside (t.pc i) ≡ true))
at_rest body n s t (inl idle) = inl idle
at_rest {S} {L} {C} body n s t (inr b) = inr (
  b.entry.who,
  b.entry.bounded,
  ap (λ (f : ℕ → Pc S L C). is_inside (f b.entry.who)) b.alone ∙ ground arith,
)

module _ {S T L M C D : Type 0} (left_body : C → Code S L) (right_body : D → Code T M) where
  abbrev Moves : Guarded S → Guarded T → PairPc S T L M C D → Type 0
  Moves a b p =
      (a' : Guarded S) × (b' : Guarded T) × (p' : PairPc S T L M C D) × PairMove left_body
        right_body a b p a' b' p'

  pub can_move-Moves :
      (a : Guarded S) (b : Guarded T) (p : PairPc S T L M C D)
      → can_move a.locked b.locked p ≡ true
      → Moves a b p
  can_move-Moves a b (between [] l m) h = cc
  can_move-Moves a b (between (inl c ∷ todo) l m) h = (_, _, _, left_locks (ground (arith, h)))
  can_move-Moves a b (between (inr d ∷ todo) l m) h = (_, _, _, right_locks (ground (arith, h)))
  can_move-Moves a b (in_left unlock todo l m) h = (_, _, _, left_unlocks)
  can_move-Moves a b (in_left abandon todo l m) h = (_, _, _, left_abandons)
  can_move-Moves a b (in_left (access f k) todo l m) h = (_, _, _, left_accesses)
  can_move-Moves a b (in_right unlock todo l m) h = (_, _, _, right_unlocks)
  can_move-Moves a b (in_right abandon todo l m) h = (_, _, _, right_abandons)
  can_move-Moves a b (in_right (access f k) todo l m) h = (_, _, _, right_accesses)

  -- Nobody is inside, the left mutex is free, and the right one held: the goroutines that have not
  -- made all of their calls stand before one of the right mutex.
  pub record Blocked (n : ℕ) (s : PairSystem S T L M C D) : Type 0 where
    pub left_free : s.left.locked ≡ false
    pub right_held : s.right.locked ≡ true
    pub right_outside : AllOutside (right_system left_body right_body s).pc
    pub waiting : (i : ℕ) → i < n → is_before_right (s.pc i) ≡ true

  stopped :
      (n : ℕ) (t : PairSystem S T L M C D)
      → t.left.locked ≡ false
      → AllOutside (right_system left_body right_body t).pc
      → ((i : ℕ) → i < n → can_move t.left.locked t.right.locked (t.pc i) ≡ false)
      → AllPairDone n t.pc ⊎ Blocked n t
  stopped n t free nobody none_can = elim (Bool-cases t.right.locked) [
    | inl held ↦ inr (record {
      left_free = free;
      right_held = held;
      right_outside = nobody;
      waiting = λ i lt.
          can_move-before_right (t.pc i)
            (ap₂ (λ a b. can_move a b (t.pc i)) (sym free) (sym held) ∙ none_can i lt);
    })
    | inr right_free ↦ inl (λ i lt.
        can_move-done (t.pc i)
          (ap₂ (λ a b. can_move a b (t.pc i)) (sym free) (sym right_free) ∙ none_can i lt))
  ]

  at_rest-stopped :
      (size : C → ℕ) (n : ℕ) (x : System S L C) (y : System T M D) (t : PairSystem S T L M C D)
      → Sized left_body size
      → x.mem.locked ≡ false
      → Idle left_body n x (left_system left_body right_body t)
        ⊎ ((i : ℕ) × (i < n) × (is_inside (left_pc (t.pc i)) ≡ true))
      → Idle right_body n y (right_system left_body right_body t)
        ⊎ ((i : ℕ) × (i < n) × (is_inside (right_pc (t.pc i)) ≡ true))
      → ((i : ℕ) → i < n → can_move t.left.locked t.right.locked (t.pc i) ≡ false)
      → AllPairDone n t.pc ⊎ Blocked n t
  at_rest-stopped size n x y t sized free (inl a) (inl b) none_can =
      stopped n t (History-free left_body size sized n free a.calls) b.nobody none_can
  at_rest-stopped size n x y t sized free (inr (i, lt, h)) b none_can =
      absurd (
        ground (arith, none_can i lt, left_inside-can_move t.left.locked t.right.locked (t.pc i) h))
  at_rest-stopped size n x y t sized free (inl a) (inr (i, lt, h)) none_can =
      absurd (
        ground
          (arith, none_can i lt, right_inside-can_move t.left.locked t.right.locked (t.pc i) h))

  -- From where nobody is inside and both mutexes are free, and where the left calls make a known
  -- number of accesses.
  pub ends_or_steps :
      (size : C → ℕ) (n k : ℕ) (s t : PairSystem S T L M C D)
      → Sized left_body size
      → s.left.locked ≡ false
      → s.right.locked ≡ false
      → AllOutside (left_system left_body right_body s).pc
      → AllOutside (right_system left_body right_body s).pc
      → PairReach left_body right_body n s k t
      → AllPairDone n t.pc
        ⊎ ((u : PairSystem S T L M C D) × PairStep left_body right_body n t u)
        ⊎ Blocked n t
  ends_or_steps size n k s t sized free_left free_right out_left out_right r =
      let x = left_system left_body right_body s in
      let y = right_system left_body right_body s in
      let (a, on_left) = PairReach-left left_body right_body n k s t r in
      let (b, on_right) = PairReach-right left_body right_body n k s t r in
      elim (search_mover n (λ i. can_move t.left.locked t.right.locked (t.pc i))) [
        | inl (i, lt, e) ↦
            let (m, m', p, mv) = can_move-Moves t.left t.right (t.pc i) e in
            inr (inl (_, picks i lt mv))
        | inr none_can ↦
            elim (at_rest-stopped size n x y t sized free_left
              (at_rest left_body n x (left_system left_body right_body t)
                (Reach-Explained left_body n x free_left out_left on_left))
              (at_rest right_body n y (right_system left_body right_body t)
                (Reach-Explained right_body n y free_right out_right on_right))
              none_can) [ inl all ↦ inl all | inr held_up ↦ inr (inr held_up) ]
      ]
