-- ===== src/Goroutines/Measure.antt =====
-- How many moves goroutines have left whose calls make a known number of accesses.
-- The accesses that are left, if the local variables stay as they are.
use quash.Goroutines.Atomic.{AllOutside, is_inside, rest_of}
use quash.Prelude.{
  Bool, Bool-cases, List, [], ap, arith, eqb, false, inl, inr, length, refl, suc, sym, true, zero,
  ℕ, ◌+◌, ◌<◌, ◌∙◌, ◌∷◌, ◌≡◌, ◌≤◌,
}
use quash.Goroutines.{
  Access, Code, Guarded, History, Move, Pc, Reach, Step, System, abandon, abandons, access,
  accesses, done, first, here, inside, keeps, later, line, locks, outside, pick, unlock, unlocks,
  update,
}

abbrev depth : {S L : Type 0} → Code S L → L → ℕ
depth unlock l = 0
depth abandon l = 0
depth (access f k) l = suc (depth (k l) l)

-- Whatever the local variables are, the same number of accesses is left, and then an `Unlock`.
abbrev Uniform : {S L : Type 0} → Code S L → Type 0
Uniform unlock = Unit
Uniform abandon = ⊥
Uniform (access f k) = ((l l' : _) → depth (k l) l ≡ depth (k l') l') × ((l : _) → Uniform (k l))

-- A call makes a number of accesses that is known beforehand.
pub record Sized {S L C : Type 0} (body : C → Code S L) (size : C → ℕ) : Type 0 where
  pub uniform : (c : C) → Uniform (body c)
  pub agrees : (c : C) (l : L) → depth (body c) l ≡ size c

depth-line : {S L : Type 0} (fs : List (Access S L)) (l : L) → depth (line fs) l ≡ length fs
depth-line [] l = refl
depth-line (f ∷ fs) l = ap suc (depth-line fs l)

line-Uniform : {S L : Type 0} (fs : List (Access S L)) → Uniform (line fs)
line-Uniform [] = tt
line-Uniform (f ∷ fs) = (λ l l'. depth-line fs l ∙ sym (depth-line fs l'), λ l. line-Uniform fs)

pub line-Sized :
    {S L C : Type 0} (fs : C → List (Access S L)) → Sized (λ c. line (fs c)) (λ c. length (fs c))
line-Sized fs = record { uniform = λ c. line-Uniform (fs c); agrees = λ c. depth-line (fs c) }

abbrev cost_calls : {C : Type 0} → (C → ℕ) → List C → ℕ
cost_calls size [] = 0
cost_calls size (c ∷ cs) = 2 + size c + cost_calls size cs

-- The moves that a goroutine has left: two for each mutex, and one for each access.
abbrev cost : {S L C : Type 0} → (C → ℕ) → Pc S L C → ℕ
cost size (outside todo l) = cost_calls size todo
cost size (inside rest todo l) = 1 + depth rest l + cost_calls size todo

-- All that the goroutines below `n` have left.
abbrev pub total : {S L C : Type 0} → (C → ℕ) → ℕ → (ℕ → Pc S L C) → ℕ
total size zero pc = 0
total size (suc n) pc = cost size (pc n) + total size n pc

-- A goroutine that has made all of its calls.
abbrev pub is_done : {S L C : Type 0} → Pc S L C → Bool
is_done (outside [] l) = true
is_done (outside (c ∷ cs) l) = false
is_done (inside rest todo l) = false

abbrev pub AllDone : {S L C : Type 0} → ℕ → (ℕ → Pc S L C) → Type 0
AllDone n pc = (i : ℕ) → i < n → is_done (pc i) ≡ true

module _ {S L C : Type 0} (size : C → ℕ) where
  total-above :
      (n : ℕ) (pc : ℕ → Pc S L C) (i : ℕ) (p : Pc S L C)
      → n ≤ i
      → total size n (update pc i p) ≡ total size n pc
  total-above zero pc i p h = refl
  total-above (suc n) pc i p h = ground (arith, total-above n pc i p)

  total-update :
      (n : ℕ) (pc : ℕ → Pc S L C) (i : ℕ) (p : Pc S L C)
      → i < n
      → total size n (update pc i p) + cost size (pc i) ≡ total size n pc + cost size p
  total-update zero pc i p h = absurd (omega arith)
  total-update (suc n) pc i p h = elim (Bool-cases (eqb i n)) [
    | inl e ↦ ground (arith, total-above n pc i p)
    | inr e ↦ ground (arith, total-update n pc i p)
  ]

  done-cost : (p : Pc S L C) → is_done p ≡ true → cost size p ≡ 0
  done-cost (outside [] l) h = refl
  done-cost (outside (c ∷ cs) l) h = cc
  done-cost (inside rest todo l) h = cc

  pub AllDone-total : (n : ℕ) (pc : ℕ → Pc S L C) → AllDone n pc → total size n pc ≡ 0
  AllDone-total zero pc h = refl
  AllDone-total (suc n) pc h =
      omega (
        arith,
        done-cost (pc n) (h n (omega arith)),
        AllDone-total n pc (λ i lt. h i (omega arith)),
      )

abbrev AllUniform : {S L C : Type 0} → (ℕ → Pc S L C) → Type 0
AllUniform pc = (i : ℕ) → Uniform (rest_of (pc i))

outside-Uniform : {S L C : Type 0} (p : Pc S L C) → is_inside p ≡ false → Uniform (rest_of p)
outside-Uniform (outside todo l) out = tt
outside-Uniform (inside rest todo l) out = cc

update-Uniform :
    {S L C : Type 0} (pc : ℕ → Pc S L C) (i : ℕ) (p : Pc S L C)
    → AllUniform pc
    → Uniform (rest_of p)
    → AllUniform (update pc i p)
update-Uniform pc i p u up j = elim (Bool-cases (eqb i j)) [
  | inl here_now ↦ rw here_now up
  | inr other ↦ rw other (u j)
]

module _ {S L C : Type 0} (body : C → Code S L) (size : C → ℕ) (sized : Sized body size) where
  Move-Uniform :
      {m m' : Guarded S} {p p' : Pc S L C}
      → Uniform (rest_of p)
      → Move body m p m' p'
      → Uniform (rest_of p')
  Move-Uniform u (locks {c} free) = sized.uniform c
  Move-Uniform u (accesses {l}) = u.1 _
  Move-Uniform u unlocks = tt
  Move-Uniform u abandons = absurd u

  Move-cost :
      {m m' : Guarded S} {p p' : Pc S L C}
      → Uniform (rest_of p)
      → Move body m p m' p'
      → cost size p ≡ suc (cost size p')
  Move-cost u (locks {c} {l} free) = omega (arith, sized.agrees c l)
  Move-cost u (accesses {l}) = omega (arith, u.0 l _)
  Move-cost u unlocks = omega arith
  Move-cost u abandons = absurd u

  pub Step-total :
      {n : ℕ} {s t : System S L C}
      → AllUniform s.pc
      → Step body n s t
      → AllUniform t.pc × (total size n s.pc ≡ suc (total size n t.pc))
  Step-total {n} {s} u (pick i {m} {p} lt mv) = (
    update-Uniform s.pc i p u (Move-Uniform (u i) mv),
    omega (arith, total-update size n s.pc i p lt, Move-cost (u i) mv),
  )

  -- After any number of steps, so many fewer moves are left: no run is longer than the moves that
  -- the goroutines had at its start.
  pub Reach-total :
      (n k : ℕ) (s t : System S L C)
      → AllUniform s.pc
      → Reach body n s k t
      → AllUniform t.pc × (total size n s.pc ≡ k + total size n t.pc)
  Reach-total n zero s t u here = (u, omega arith)
  Reach-total n (suc k) s t u (later {t = w} r st) =
      let (v, so_far) = Reach-total n k s w u r in
      let (v', one) = Step-total v st in (v', omega (arith, so_far, one))

  pub AllOutside-Uniform : (pc : ℕ → Pc S L C) → AllOutside pc → AllUniform pc
  AllOutside-Uniform pc out i = outside-Uniform (pc i) (out i)

  -- Such a call unlocks.
  Uniform-keeps : (code : Code S L) (v : S) (l : L) → Uniform code → keeps code v l ≡ false
  Uniform-keeps unlock v l u = refl
  Uniform-keeps abandon v l u = absurd u
  Uniform-keeps (access f k) v l u = Uniform-keeps (k (f v l).1) (f v l).0 (f v l).1 (u.1 (f v l).1)

  pub History-free :
      (n : ℕ) {s t : System S L C} {h : List (ℕ × C)}
      → s.mem.locked ≡ false
      → History body n s h t
      → t.mem.locked ≡ false
  History-free n free done = free
  History-free n {s} free (first i {c} {l} lt now e r) =
      History-free n (Uniform-keeps (body c) s.mem.value l (sized.uniform c)) r
