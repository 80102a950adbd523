-- ===== src/GoMap/Range.antt =====
-- The orders in which `for k := range m` may visit the keys of a map: each key once.
use quash.Prelude.{String, ◌≡◌, Bool, false, ◌||◌, List, [], ◌∷◌, ◌==◌}
use quash.GoMap.{GoMap, has}

abbrev pub contains : List String → String → Bool
contains [] k = false
contains (j ∷ js) k = j == k || contains js k

abbrev pub Uniq : List String → Type 0
Uniq [] = Unit
Uniq (k ∷ ks) = (contains ks k ≡ false) × Uniq ks

pub record Enumerates {ℓ} {V : Type ℓ} (order : List String) (m : GoMap V) : Type 0 where
  pub once : Uniq order
  pub all : (k : String) → contains order k ≡ has m k
