-- ===== src/Goroutines.antt =====
-- Goroutines that share what one mutex guards, as `kvLock` guards `kvMap` and `brokersLock`
-- `brokers` in server/quashserver/quashserver.go, one access at a time and in any order.
pub mod Atomic
pub mod Exclusion
pub mod Halting
pub mod Measure
pub mod Ordering
pub mod Pair
pub mod Progress
pub mod Serial
pub mod Stalled
use quash.Prelude.{Bool, List, [], eqb, false, if◌then◌else◌, suc, true, ℕ, ◌<◌, ◌∷◌, ◌≡◌}

-- The goroutine with the number `i` becomes `a`.
abbrev pub update {ℓ} : {A : Type ℓ} → (ℕ → A) → ℕ → A → ℕ → A
update f i a j = if eqb i j then a else f j

-- A read or a write of `S`, which the mutex guards, by a goroutine whose local variables are `L`.
abbrev pub Access : Type 0 → Type 0 → Type 0
Access S L = S → L → S × L

-- What a call does from its `Lock` on: accesses, each of which may decide by the local variables
-- what comes next, and at the end the `Unlock`, or a return without it.
pub data Code (S L : Type 0) : Type 0 where
  unlock : Code S L
  abandon : Code S L
  access : Access S L → (L → Code S L) → Code S L

-- Accesses in a fixed order.
abbrev pub line : {S L : Type 0} → List (Access S L) → Code S L
line [] = unlock
line (f ∷ fs) = access f (λ l. line fs)

abbrev pub perform : {S L : Type 0} → Code S L → S → L → S × L
perform unlock v l = (v, l)
perform abandon v l = (v, l)
perform (access f k) v l = perform (k (f v l).1) (f v l).0 (f v l).1

-- Whether the mutex is held at the end.
abbrev pub keeps : {S L : Type 0} → Code S L → S → L → Bool
keeps unlock v l = false
keeps abandon v l = true
keeps (access f k) v l = keeps (k (f v l).1) (f v l).0 (f v l).1

-- Where a goroutine stands: between two calls, or within one from its `Lock` on, with what it has
-- left to do. `C` are its calls.
pub data Pc (S L C : Type 0) : Type 0 where
  outside : List C → L → Pc S L C
  inside : Code S L → List C → L → Pc S L C

pub record Guarded (S : Type 0) : Type 0 where
  pub locked : Bool
  pub value : S

pub record System (S L C : Type 0) : Type 0 where
  pub mem : Guarded S
  pub pc : ℕ → Pc S L C

-- `body` is what a call does from its `Lock` on.
module _ {S L C : Type 0} (body : C → Code S L) where
  -- A `Lock` returns only where the mutex is free.
  pub data Move (m : Guarded S) : Pc S L C → Guarded S → Pc S L C → Type 0 where
    locks :
        {c : C} {todo : List C} {l : L}
        → m.locked ≡ false
        → Move m (outside (c ∷ todo) l) (record m { locked = true }) (inside (body c) todo l)
    accesses :
        {f : Access S L} {k : L → Code S L} {todo : List C} {l : L}
        → Move m
            (inside (access f k) todo l)
            (record m { value = (f m.value l).0 })
            (inside (k (f m.value l).1) todo (f m.value l).1)
    unlocks :
        {todo : List C} {l : L}
        → Move m (inside unlock todo l) (record m { locked = false }) (outside todo l)
    abandons : {todo : List C} {l : L} → Move m (inside abandon todo l) m (outside todo l)

  -- One of the goroutines below `n` moves.
  pub data Step (n : ℕ) (s : System S L C) : System S L C → Type 0 where
    pick :
        (i : ℕ) {m : Guarded S} {p : Pc S L C}
        → i < n
        → Move s.mem (s.pc i) m p
        → Step n s (record { mem = m; pc = update s.pc i p })

  -- By so many steps.
  pub data Reach (n : ℕ) (s : System S L C) : ℕ → System S L C → Type 0 where
    here : Reach n s 0 s
    later : {k : ℕ} {t u : System S L C} → Reach n s k t → Step n t u → Reach n s (suc k) u

  -- A whole call of one goroutine, with no other in between.
  abbrev pub whole : System S L C → ℕ → C → List C → L → System S L C
  whole s i c todo l =
      let after = perform (body c) s.mem.value l in
      record {
        mem = record { locked = keeps (body c) s.mem.value l; value = after.0 };
        pc = update s.pc i (outside todo after.1);
      }

  -- Whole calls, one after the other, each of which finds the mutex free; the list says which
  -- goroutine made which.
  pub data History (n : ℕ) : System S L C → List (ℕ × C) → System S L C → Type 0 where
    done : {s : System S L C} → History n s [] s
    first :
        {s t : System S L C} {h : List (ℕ × C)} (i : ℕ) {c : C} {todo : List C} {l : L}
        → i < n
        → s.mem.locked ≡ false
        → s.pc i ≡ outside (c ∷ todo) l
        → History n (whole s i c todo l) h t
        → History n s ((i, c) ∷ h) t
