-- ===== src/Goroutines/Pair/Serial.antt =====
-- Goroutines under two mutexes: one sequence of whole calls explains both sides.
use quash.Goroutines.Atomic.{AllOutside}
use quash.Goroutines.Ordering.{Tracked-History}
use quash.Goroutines.Serial.{
  Explains, History-Explains, Performs, calls_in, heard_by, made_by, replay,
}
use quash.Goroutines.Pair.{PairReach, PairSystem, left_system, lefts, right_system, rights}
use quash.Goroutines.Pair.Joint.{PairReach-Joined, lefts_of, pair_todo, rights_of}
use quash.Prelude.{Bool, List, [], ap, arith, false, inl, inr, refl, ℕ, ◌++◌, ◌∷◌, ◌≡◌, ◌⊎◌}
use quash.Goroutines.{Code}

-- The answers and the states of calls of both sides, in one sequence.
abbrev pub pair_answer : {S T C D A B : Type 0} → (C → S → A) → (D → T → B) → C ⊎ D → S × T → A ⊎ B
pair_answer f g (inl c) v = inl (f c v.0)
pair_answer f g (inr d) v = inr (g d v.1)

abbrev pub pair_next : {S T C D : Type 0} → (C → S → S) → (D → T → T) → C ⊎ D → S × T → S × T
pair_next f g (inl c) v = (f c v.0, v.1)
pair_next f g (inr d) v = (v.0, g d v.1)

pub lefts_of-calls :
    {C D : Type 0} (h : List (ℕ × (C ⊎ D))) → lefts (calls_in h) ≡ calls_in (lefts_of h)
lefts_of-calls [] = refl
lefts_of-calls ((i, inl c) ∷ h) = ap (◌∷◌ c) (lefts_of-calls h)
lefts_of-calls ((i, inr d) ∷ h) = lefts_of-calls h

pub rights_of-calls :
    {C D : Type 0} (h : List (ℕ × (C ⊎ D))) → rights (calls_in h) ≡ calls_in (rights_of h)
rights_of-calls [] = refl
rights_of-calls ((i, inl c) ∷ h) = rights_of-calls h
rights_of-calls ((i, inr d) ∷ h) = ap (◌∷◌ d) (rights_of-calls h)

module _ {S T C D A B : Type 0} (answer : C → S → A) (next : C → S → S) (answer' : D → T → B)
    (next' : D → T → T) where
  -- What the sequence of both leaves on each side.
  pub pair_replay-states :
      (h : List (ℕ × (C ⊎ D))) (v : S) (w : T)
      → (replay (pair_answer answer answer') (pair_next next next') (calls_in h) (v, w)).1 ≡ (
        (replay answer next (calls_in (lefts_of h)) v).1,
        (replay answer' next' (calls_in (rights_of h)) w).1,
      )
  pair_replay-states [] v w = refl
  pair_replay-states ((i, inl c) ∷ h) v w = pair_replay-states h (next c v) w
  pair_replay-states ((i, inr d) ∷ h) v w = pair_replay-states h v (next' d w)

  -- The answers on each side.
  pub lefts-pair_replay :
      (h : List (ℕ × (C ⊎ D))) (v : S) (w : T)
      → lefts (replay (pair_answer answer answer') (pair_next next next') (calls_in h) (v, w)).0
        ≡ (replay answer next (calls_in (lefts_of h)) v).0
  lefts-pair_replay [] v w = refl
  lefts-pair_replay ((i, inl c) ∷ h) v w = ap (◌∷◌ (answer c v)) (lefts-pair_replay h (next c v) w)
  lefts-pair_replay ((i, inr d) ∷ h) v w = lefts-pair_replay h v (next' d w)

  pub rights-pair_replay :
      (h : List (ℕ × (C ⊎ D))) (v : S) (w : T)
      → rights (replay (pair_answer answer answer') (pair_next next next') (calls_in h) (v, w)).0
        ≡ (replay answer' next' (calls_in (rights_of h)) w).0
  rights-pair_replay [] v w = refl
  rights-pair_replay ((i, inl c) ∷ h) v w = rights-pair_replay h (next c v) w
  rights-pair_replay ((i, inr d) ∷ h) v w =
      ap (◌∷◌ (answer' d w)) (rights-pair_replay h v (next' d w))

  -- What a goroutine hears of it on each side.
  pub heard_by-lefts :
      (i : ℕ) (h : List (ℕ × (C ⊎ D))) (v : S) (w : T)
      → lefts (
          heard_by i h
            (replay (pair_answer answer answer') (pair_next next next') (calls_in h) (v, w)).0)
        ≡ heard_by i (lefts_of h) (replay answer next (calls_in (lefts_of h)) v).0
  heard_by-lefts i [] v w = refl
  heard_by-lefts i ((j, inl c) ∷ h) v w = ground (arith, heard_by-lefts i h (next c v) w)
  heard_by-lefts i ((j, inr d) ∷ h) v w = ground (arith, heard_by-lefts i h v (next' d w))

  pub heard_by-rights :
      (i : ℕ) (h : List (ℕ × (C ⊎ D))) (v : S) (w : T)
      → rights (
          heard_by i h
            (replay (pair_answer answer answer') (pair_next next next') (calls_in h) (v, w)).0)
        ≡ heard_by i (rights_of h) (replay answer' next' (calls_in (rights_of h)) w).0
  heard_by-rights i [] v w = refl
  heard_by-rights i ((j, inl c) ∷ h) v w = ground (arith, heard_by-rights i h (next c v) w)
  heard_by-rights i ((j, inr d) ∷ h) v w = ground (arith, heard_by-rights i h v (next' d w))

module _ {S T L M C D A B : Type 0} (left_body : C → Code S L) (right_body : D → Code T M)
    (said : L → List A) (answer : C → S → A) (next : C → S → S) (holds : C → S → Bool)
    (left_performs : Performs left_body said answer next holds) (said' : M → List B)
    (answer' : D → T → B) (next' : D → T → T) (holds' : D → T → Bool)
    (right_performs : Performs right_body said' answer' next' holds') where
  -- Where nobody is inside on either side.
  pub pair_serial :
      (n k : ℕ) (s t : PairSystem S T L M C D)
      → s.left.locked ≡ false
      → s.right.locked ≡ false
      → AllOutside (left_system left_body right_body s).pc
      → AllOutside (right_system left_body right_body s).pc
      → PairReach left_body right_body n s k t
      → AllOutside (left_system left_body right_body t).pc
      → AllOutside (right_system left_body right_body t).pc
      → (h : List (ℕ × (C ⊎ D))) × Explains left_body said answer next holds left_performs
          (left_system left_body right_body s)
          (lefts_of h)
          (left_system left_body right_body t)
        × Explains right_body said' answer' next' holds' right_performs
            (right_system left_body right_body s)
            (rights_of h)
            (right_system left_body right_body t)
        × ((i : ℕ) → pair_todo (s.pc i) ≡ made_by i h ++ pair_todo (t.pc i))
  pair_serial n k s t free free' out out' r left_out right_out =
      let (h, joined) = PairReach-Joined left_body right_body n s free free' out out' r in
      (
        h,
        History-Explains left_body said answer next holds left_performs n
            (Tracked-History left_body n _ (lefts_of h) _ joined.on_left left_out),
        History-Explains right_body said' answer' next' holds' right_performs n
            (Tracked-History right_body n _ (rights_of h) _ joined.on_right right_out),
        joined.in_order,
      )
