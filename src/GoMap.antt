-- ===== src/GoMap.antt =====
-- Go's built-in `map[string]V` as an association list. A read of a missing key gives `none` (the
-- zero value with `ok == false`), `delete` of a missing key is a no-op, and a nil map reads as
-- the empty one. The order of a `range` loop is not fixed by Go: GoMap/Range says which orders
-- may occur, and a loop takes one of them as an argument.
pub mod Laws
pub mod Range
use quash.Prelude.{
  ℕ, String, ◌≡◌, Bool, Option, none, some, List, [], ◌∷◌, ◌==◌, if◌then◌else◌, length, is_some,
}

abbrev pub GoMap {ℓ} : Type ℓ → Type ℓ
GoMap V = List (String × V)

module _ {ℓ} {V : Type ℓ} where
  -- `m[k]`
  unfoldable pub get : GoMap V → String → Option V
  get [] k = none
  get ((j, v) ∷ m) k = if j == k then some v else get m k

  -- `m[k] = v`
  unfoldable pub put : GoMap V → String → V → GoMap V
  put [] k v = (k, v) ∷ []
  put ((j, w) ∷ m) k v = if j == k then (k, v) ∷ m else (j, w) ∷ put m k v

  -- `delete(m, k)`
  unfoldable pub delete : GoMap V → String → GoMap V
  delete [] k = []
  delete ((j, v) ∷ m) k = let rest = delete m k in if j == k then rest else (j, v) ∷ rest

  -- `len(m)`
  abbrev pub len : GoMap V → ℕ
  len m = length m

  -- `_, ok := m[k]`
  abbrev pub has : GoMap V → String → Bool
  has m k = is_some (get m k)

  -- No key is stored twice.
  abbrev pub Distinct : GoMap V → Type ℓ
  Distinct [] = Unit
  Distinct ((k, v) ∷ m) = (get m k ≡ none) × Distinct m
