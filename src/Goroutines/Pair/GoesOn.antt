-- ===== src/Goroutines/Pair/GoesOn.antt =====
-- Goroutines under two mutexes: their runs on each side, and that there is none without end.
use quash.Goroutines.Halting.{Halts, every-Halts, halting}
use quash.Goroutines.{Code, Reach, Step, System, here, later}
use quash.Prelude.{inl, inr, refl, subst, suc, sym, zero, ℕ, ◌∙◌, ◌≡◌}
use quash.Goroutines.Pair.{
  PairReach, PairStep, PairStep-sides, PairSystem, at_start, left_system, right_system, then_on,
}

module _ {S T L M C D : Type 0} (left_body : C → Code S L) (right_body : D → Code T M) where
  -- A run shows as a run on each side.
  pub PairReach-left :
      (n k : ℕ) (s t : PairSystem S T L M C D)
      → PairReach left_body right_body n s k t
      → (j : ℕ) × Reach left_body n
          (left_system left_body right_body s)
          j
          (left_system left_body right_body t)
  PairReach-left n zero s t at_start = (0, here)
  PairReach-left n (suc k) s t (then_on {t = u} r st) =
      let (j, so_far) = PairReach-left n k s u r in
      elim (PairStep-sides left_body right_body n u t st) [
        | inl (one, same) ↦ (suc j, later so_far one)
        | inr (one, same) ↦
            (j, subst (Reach left_body n (left_system left_body right_body s) j) (sym same) so_far)
      ]

  pub PairReach-right :
      (n k : ℕ) (s t : PairSystem S T L M C D)
      → PairReach left_body right_body n s k t
      → (j : ℕ) × Reach right_body n
          (right_system left_body right_body s)
          j
          (right_system left_body right_body t)
  PairReach-right n zero s t at_start = (0, here)
  PairReach-right n (suc k) s t (then_on {t = u} r st) =
      let (j, so_far) = PairReach-right n k s u r in
      elim (PairStep-sides left_body right_body n u t st) [
        | inl (one, same) ↦ (
          j,
          subst (Reach right_body n (right_system left_body right_body s) j) (sym same) so_far,
        )
        | inr (one, same) ↦ (suc j, later so_far one)
      ]

  -- There is no run without end from here.
  pub data PairHalts (n : ℕ) : PairSystem S T L M C D → Type 0 where
    pair_halting :
        {s : PairSystem S T L M C D}
        → ((t : PairSystem S T L M C D) → PairStep left_body right_body n s t → PairHalts n t)
        → PairHalts n s

  sides-PairHalts :
      (n : ℕ) (x : System S L C) (on_left : Halts left_body n x) (y : System T M D)
      (on_right : Halts right_body n y) (s : PairSystem S T L M C D)
      → left_system left_body right_body s ≡ x
      → right_system left_body right_body s ≡ y
      → PairHalts n s
  sides-PairHalts n x (halting f) y (halting g) s ex ey = pair_halting (λ t st.
      elim (PairStep-sides left_body right_body n s t st) [
        | inl (one, unmoved) ↦
            sides-PairHalts n (left_system left_body right_body t)
              (f (left_system left_body right_body t)
                (subst (λ z. Step left_body n z (left_system left_body right_body t)) ex one))
              y (halting g) t refl (unmoved ∙ ey)
        | inr (one, unmoved) ↦
            sides-PairHalts n x (halting f) (right_system left_body right_body t)
              (g (right_system left_body right_body t)
                (subst (λ z. Step right_body n z (right_system left_body right_body t)) ey one))
              t (unmoved ∙ ex) refl
      ])

  pub every-PairHalts : (n : ℕ) (s : PairSystem S T L M C D) → PairHalts n s
  every-PairHalts n s =
      sides-PairHalts n _ (every-Halts left_body n _) _ (every-Halts right_body n _) s refl refl
