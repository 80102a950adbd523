-- ===== src/GoMap/Laws.antt =====
-- The laws of `get`, `put`, `delete` and `len`, in a form that needs no side condition.
use quash.Prelude.{
  Bool-cases, ap, inl, inr, suc, String, ◌≡◌, refl, none, some, [], ◌∷◌, arith, ◌==◌, eq_iff,
  eq_refl, if◌then◌else◌,
}
use quash.GoMap.{GoMap, get, put, delete, len, has, Distinct}

module _ {ℓ} {V : Type ℓ} where
  pub get-put :
      (m : GoMap V) (k : String) (v : V) (j : String)
      → get (put m k v) j ≡ (if k == j then some v else get m j)
  unfolding get put
  get-put [] k v j = refl
  get-put ((i, w) ∷ m) k v j = ground (arith, eq_iff k j, eq_iff i k, eq_iff i j, get-put m k v j)

  pub get-delete :
      (m : GoMap V) (k j : String) → get (delete m k) j ≡ (if k == j then none else get m j)
  unfolding get delete
  get-delete [] k j = ground arith
  get-delete ((i, w) ∷ m) k j = ground (arith, eq_iff k j, eq_iff i k, eq_iff i j, get-delete m k j)

  pub get-nil : (k : String) → get {V = V} [] k ≡ none
  unfolding get
  get-nil k = refl

  pub get-put_self : (m : GoMap V) (k : String) (v : V) → get (put m k v) k ≡ some v
  get-put_self m k v = simp (get-put, eq_refl)

  pub get-delete_self : (m : GoMap V) (k : String) → get (delete m k) k ≡ none
  get-delete_self m k = simp (get-delete, eq_refl)

  pub put-Distinct : (m : GoMap V) (k : String) (v : V) → Distinct m → Distinct (put m k v)
  unfolding put
  put-Distinct [] k v d = (unfold get in refl, tt)
  put-Distinct ((i, w) ∷ m) k v d =
      ground (arith, eq_iff i k, eq_iff k i, put-Distinct m k v d.1, get-put m k v i)

  pub delete-Distinct : (m : GoMap V) (k : String) → Distinct m → Distinct (delete m k)
  unfolding delete
  delete-Distinct [] k d = tt
  delete-Distinct ((i, w) ∷ m) k d =
      ground (arith, eq_iff i k, eq_iff k i, delete-Distinct m k d.1, get-delete m k i)

  -- A write of a new key adds one to the size; of an old key, nothing.
  pub len-put :
      (m : GoMap V) (k : String) (v : V)
      → len (put m k v) ≡ (if has m k then len m else suc (len m))
  unfolding get put
  len-put [] k v = refl
  len-put ((i, w) ∷ m) k v = ground (arith, len-put m k v)

pub ruleset map_laws = (get-put, get-delete)

module _ {ℓ} {V : Type ℓ} where
  -- The last write of a key counts.
  pub put-put : (m : GoMap V) (k : String) (v w : V) → put (put m k v) k w ≡ put m k w
  unfolding put
  put-put [] k v w = rw (eq_refl k) refl
  put-put ((j, x) ∷ m) k v w = elim (Bool-cases (j == k)) [
    | inl e ↦ rw (e, eq_refl k) refl
    | inr e ↦ rw (e, e) (ap (◌∷◌ (j, x)) (put-put m k v w))
  ]

  -- A write of what is there changes nothing.
  pub put-same : (m : GoMap V) (k : String) (v : V) → get m k ≡ some v → put m k v ≡ m
  unfolding put get
  put-same [] k v e = absurd (ground (arith, e))
  put-same ((j, x) ∷ m) k v e = elim (Bool-cases (j == k)) [
    | inl is ↦ ground (arith, e, is, eq_iff j k)
    | inr other ↦ ground (arith, e, other, put-same m k v)
  ]
