-- ===== src/Goroutines/Pair/Joint.antt =====
-- One order of the calls of both mutexes.
use quash.Goroutines.Atomic.{AllOutside}
use quash.Goroutines.Serial.{made_by}
use quash.Goroutines.Ordering.{Tracked-start, Move-Tracked, Tracked, entering, tag}
use quash.Prelude.{
  append_assoc, false, subst₂, true, Bool-cases, List, [], ap, append-nil, arith, eqb, inl, inr,
  refl, sym, ℕ, ◌++◌, ◌<◌, ◌∙◌, ◌∷◌, ◌≡◌, ◌⊎◌,
}
use quash.Goroutines.Pair.{
  left_accesses, left_unlocks, left_abandons, right_accesses, right_unlocks, right_abandons,
  right_locks, left_locks, PairMove, PairReach, at_start, picks, then_on, PairPc, PairSystem,
  between, in_left, in_right, left_pc, left_system, right_pc, right_system, update-same,
  update-view,
}
use quash.Goroutines.{abandons, accesses, locks, unlocks, Guarded, Move, update, Code}

-- What a history of both shows on each side.
abbrev pub lefts_of : {C D : Type 0} → List (ℕ × (C ⊎ D)) → List (ℕ × C)
lefts_of [] = []
lefts_of ((i, inl c) ∷ h) = (i, c) ∷ lefts_of h
lefts_of ((i, inr d) ∷ h) = lefts_of h

abbrev pub rights_of : {C D : Type 0} → List (ℕ × (C ⊎ D)) → List (ℕ × D)
rights_of [] = []
rights_of ((i, inl c) ∷ h) = rights_of h
rights_of ((i, inr d) ∷ h) = (i, d) ∷ rights_of h

abbrev pub pair_todo : {S T L M C D : Type 0} → PairPc S T L M C D → List (C ⊎ D)
pair_todo (between todo l m) = todo
pair_todo (in_left code todo l m) = todo
pair_todo (in_right code todo l m) = todo

lefts_of-append :
    {C D : Type 0} (h g : List (ℕ × (C ⊎ D))) → lefts_of (h ++ g) ≡ lefts_of h ++ lefts_of g
lefts_of-append [] g = refl
lefts_of-append ((i, inl c) ∷ h) g = ap (◌∷◌ (i, c)) (lefts_of-append h g)
lefts_of-append ((i, inr d) ∷ h) g = lefts_of-append h g

rights_of-append :
    {C D : Type 0} (h g : List (ℕ × (C ⊎ D))) → rights_of (h ++ g) ≡ rights_of h ++ rights_of g
rights_of-append [] g = refl
rights_of-append ((i, inl c) ∷ h) g = rights_of-append h g
rights_of-append ((i, inr d) ∷ h) g = ap (◌∷◌ (i, d)) (rights_of-append h g)

made_by-append :
    {C : Type 0} (j : ℕ) (h g : List (ℕ × C)) → made_by j (h ++ g) ≡ made_by j h ++ made_by j g
made_by-append j [] g = refl
made_by-append j ((i, c) ∷ h) g = ground (arith, made_by-append j h g)

made_by-tag : {C : Type 0} (i j : ℕ) (cs : List C) → eqb i j ≡ true → made_by j (tag i cs) ≡ cs
made_by-tag i j [] e = refl
made_by-tag i j (c ∷ cs) e = ground (arith, e, made_by-tag i j cs e)

made_by-tag_other :
    {C : Type 0} (i j : ℕ) (cs : List C) → eqb i j ≡ false → made_by j (tag i cs) ≡ []
made_by-tag_other i j [] e = refl
made_by-tag_other i j (c ∷ cs) e = ground (arith, e, made_by-tag_other i j cs e)

module _ {S T L M C D : Type 0} (left_body : C → Code S L) (right_body : D → Code T M) (n : ℕ)
    (s : PairSystem S T L M C D) where
  -- The calls have begun in this order.
  pub record Joined (h : List (ℕ × (C ⊎ D))) (t : PairSystem S T L M C D) : Type 0 where
    pub on_left :
        Tracked left_body n
          (left_system left_body right_body s)
          (lefts_of h)
          (left_system left_body right_body t)
    pub on_right :
        Tracked right_body n
          (right_system left_body right_body s)
          (rights_of h)
          (right_system left_body right_body t)
    pub in_order : (j : ℕ) → pair_todo (s.pc j) ≡ made_by j h ++ pair_todo (t.pc j)

  -- A call that begins, or none.
  advances_order :
      (t : PairSystem S T L M C D) (h : List (ℕ × (C ⊎ D))) (i : ℕ) (p : PairPc S T L M C D)
      (cs : List (C ⊎ D))
      → ((j : ℕ) → pair_todo (s.pc j) ≡ made_by j h ++ pair_todo (t.pc j))
      → pair_todo (t.pc i) ≡ cs ++ pair_todo p
      → (j : ℕ) → pair_todo (s.pc j) ≡ made_by j (h ++ tag i cs) ++ pair_todo (update t.pc i p j)
  advances_order t h i p cs order e j = elim (Bool-cases (eqb i j)) [
    | inl here_now ↦ ground (
      arith,
      order j,
      e,
      here_now,
      made_by-append j h (tag i cs),
      made_by-tag i j cs here_now,
      append_assoc (made_by j h) cs (pair_todo p),
    )
    | inr other ↦ ground (
      arith,
      order j,
      other,
      made_by-append j h (tag i cs),
      made_by-tag_other i j cs other,
      append-nil (made_by j h),
    )
  ]

  left_moves :
      (t : PairSystem S T L M C D) (h : List (ℕ × (C ⊎ D))) (i : ℕ) (p p' : PairPc S T L M C D)
      (a : Guarded S) (cs : List (C ⊎ D))
      → Joined h t
      → i < n
      → t.pc i ≡ p
      → (mv : Move left_body t.left (left_pc p) a (left_pc p')) → right_pc p' ≡ right_pc p
      → lefts_of (tag i cs) ≡ tag i (entering mv)
      → rights_of (tag i cs) ≡ []
      → pair_todo p ≡ cs ++ pair_todo p'
      → Joined (h ++ tag i cs) (record { left = a; right = t.right; pc = update t.pc i p' })
  left_moves t h i p p' a cs joined lt at mv same enters misses todo = record {
    on_left =
        subst₂ (Tracked left_body n (left_system left_body right_body s))
          (ap (◌++◌ (lefts_of h)) (sym enters) ∙ sym (lefts_of-append h (tag i cs)))
          (ap (λ f. record { mem = a; pc = f })
            (sym (update-view left_body right_body left_pc t.pc i p')))
          (Move-Tracked left_body n (left_system left_body right_body s)
            (left_system left_body right_body t) i (lefts_of h) joined.on_left lt (ap left_pc at)
            mv);
    on_right =
        subst₂ (Tracked right_body n (right_system left_body right_body s))
          (sym (
            rights_of-append h (tag i cs)
            ∙ ap (◌++◌ (rights_of h)) misses
            ∙ append-nil (rights_of h)))
          (ap (λ f. record { mem = t.right; pc = f })
            (sym (
              update-view left_body right_body right_pc t.pc i p'
              ∙ update-same left_body right_body (λ j. right_pc (t.pc j)) i (right_pc p')
                  (same ∙ sym (ap right_pc at)))))
          joined.on_right;
    in_order = advances_order t h i p' cs joined.in_order (ap pair_todo at ∙ todo);
  }

  right_moves :
      (t : PairSystem S T L M C D) (h : List (ℕ × (C ⊎ D))) (i : ℕ) (p p' : PairPc S T L M C D)
      (b : Guarded T) (cs : List (C ⊎ D))
      → Joined h t
      → i < n
      → t.pc i ≡ p
      → (mv : Move right_body t.right (right_pc p) b (right_pc p')) → left_pc p' ≡ left_pc p
      → rights_of (tag i cs) ≡ tag i (entering mv)
      → lefts_of (tag i cs) ≡ []
      → pair_todo p ≡ cs ++ pair_todo p'
      → Joined (h ++ tag i cs) (record { left = t.left; right = b; pc = update t.pc i p' })
  right_moves t h i p p' b cs joined lt at mv same enters misses todo = record {
    on_left =
        subst₂ (Tracked left_body n (left_system left_body right_body s))
          (sym (
            lefts_of-append h (tag i cs) ∙ ap (◌++◌ (lefts_of h)) misses ∙ append-nil (lefts_of h)))
          (ap (λ f. record { mem = t.left; pc = f })
            (sym (
              update-view left_body right_body left_pc t.pc i p'
              ∙ update-same left_body right_body (λ j. left_pc (t.pc j)) i (left_pc p')
                  (same ∙ sym (ap left_pc at)))))
          joined.on_left;
    on_right =
        subst₂ (Tracked right_body n (right_system left_body right_body s))
          (ap (◌++◌ (rights_of h)) (sym enters) ∙ sym (rights_of-append h (tag i cs)))
          (ap (λ f. record { mem = b; pc = f })
            (sym (update-view left_body right_body right_pc t.pc i p')))
          (Move-Tracked right_body n (right_system left_body right_body s)
            (right_system left_body right_body t) i (rights_of h) joined.on_right lt
            (ap right_pc at) mv);
    in_order = advances_order t h i p' cs joined.in_order (ap pair_todo at ∙ todo);
  }

  pub PairMove-Joined :
      (t : PairSystem S T L M C D) (h : List (ℕ × (C ⊎ D))) (i : ℕ) {p p' : PairPc S T L M C D}
      {a : Guarded S} {b : Guarded T}
      → Joined h t
      → i < n
      → t.pc i ≡ p
      → PairMove left_body right_body t.left t.right p a b p'
      → (g : List (ℕ × (C ⊎ D))) × Joined g (record { left = a; right = b; pc = update t.pc i p' })
  PairMove-Joined t h i joined lt at (left_locks {c} free) =
      (_, left_moves t h i _ _ _ (inl c ∷ []) joined lt at (locks free) refl refl refl refl)
  PairMove-Joined t h i joined lt at left_accesses =
      (_, left_moves t h i _ _ _ [] joined lt at accesses refl refl refl refl)
  PairMove-Joined t h i joined lt at left_unlocks =
      (_, left_moves t h i _ _ _ [] joined lt at unlocks refl refl refl refl)
  PairMove-Joined t h i joined lt at left_abandons =
      (_, left_moves t h i _ _ _ [] joined lt at abandons refl refl refl refl)
  PairMove-Joined t h i joined lt at (right_locks {d} free) =
      (_, right_moves t h i _ _ _ (inr d ∷ []) joined lt at (locks free) refl refl refl refl)
  PairMove-Joined t h i joined lt at right_accesses =
      (_, right_moves t h i _ _ _ [] joined lt at accesses refl refl refl refl)
  PairMove-Joined t h i joined lt at right_unlocks =
      (_, right_moves t h i _ _ _ [] joined lt at unlocks refl refl refl refl)
  PairMove-Joined t h i joined lt at right_abandons =
      (_, right_moves t h i _ _ _ [] joined lt at abandons refl refl refl refl)

  pub PairReach-Joined :
      {k : ℕ} {t : PairSystem S T L M C D}
      → s.left.locked ≡ false
      → s.right.locked ≡ false
      → AllOutside (left_system left_body right_body s).pc
      → AllOutside (right_system left_body right_body s).pc
      → PairReach left_body right_body n s k t
      → (h : List (ℕ × (C ⊎ D))) × Joined h t
  PairReach-Joined free_left free_right out_left out_right at_start = (
    [],
    record {
      on_left = Tracked-start left_body n _ free_left out_left;
      on_right = Tracked-start right_body n _ free_right out_right;
      in_order = λ j. refl;
    },
  )
  PairReach-Joined free_left free_right out_left out_right (then_on {t} r (picks i lt mv)) =
      let (h, so_far) = PairReach-Joined free_left free_right out_left out_right r in
      PairMove-Joined t h i so_far lt refl mv
