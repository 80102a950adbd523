-- ===== src/Queue/Hang.antt =====
-- The loop of `Push` in memory: it finds the last node of a chain and hangs the new one there.
use quash.Queue.Chain.{Chain, occupies-append, Cells, Hangs, occupies}
use quash.Clock.{second}
use quash.Queue.Memory.{Cell, Memory, last_from, link}
use quash.Prelude.{
  ap, subst, sym, length, zero, ◌∙◌, ◌≤◌, String, [], arith, eqb, false, none, refl, some, suc, ℕ,
  ◌∷◌, ◌≡◌,
}

module _ (nd : ℕ) (i : String) (m : Memory) where
  abbrev fresh_cell : Cell
  fresh_cell = record { element = i; next = none }

  -- A chain of one node.
  Hangs-last :
      (k origin : ℕ) (e : String)
      → m origin ≡ some (record { element = e; next = none })
      → eqb origin nd ≡ false
      → Hangs (suc k) nd i m origin ((origin, e) ∷ [])
  unfolding last_from link
  Hangs-last k origin e holds apart = record {
    last = origin;
    found = ground (arith, holds);
    chain = (
      some nd,
      refl,
      ground (arith, holds),
      ground arith,
      (none, refl, ground (arith, holds), refl, refl),
    );
    elsewhere = λ b h. ground (arith, holds, h);
  }

  -- A node before a chain to which the new one has been hung.
  Hangs-before :
      (k origin second : ℕ) (e : String) (cs : Cells)
      → m origin ≡ some (record { element = e; next = some second })
      → eqb origin nd ≡ false
      → occupies cs origin ≡ false
      → Hangs k nd i m second cs
      → Hangs (suc k) nd i m origin ((origin, e) ∷ cs)
  unfolding last_from
  Hangs-before k origin second e cs holds apart own r = record {
    last = r.last;
    found = ground (arith, holds, r.found);
    chain = (
      some second,
      refl,
      r.elsewhere origin (ground arith) ∙ holds,
      occupies-append cs ((nd, i) ∷ []) origin ∙ ground arith,
      r.chain,
    );
    elsewhere = λ b h. r.elsewhere b (ground (arith, h));
  }

  -- Enough rounds are as many as there are nodes.
  pub hangs :
      (k origin : ℕ) (cs : Cells)
      → Chain m (some origin) cs
      → occupies cs nd ≡ false
      → length cs ≤ k
      → Hangs k nd i m origin cs
  hangs k origin [] h apart enough = absurd (cc)
  hangs zero origin ((a, e) ∷ cs) h apart enough = absurd (omega arith)
  hangs (suc k) origin ((a, e) ∷ []) (next, at, holds, own, end) apart enough =
      let same : origin ≡ a = ground (arith, at) in
      subst (λ x. Hangs (suc k) nd i m x ((a, e) ∷ [])) (sym same)
        (Hangs-last k a e (holds ∙ ap (λ n. some (record { element = e; next = n })) end)
          (ground arith))
  hangs (suc k) origin ((a, e) ∷ (b, f) ∷ cs) (next, at, holds, own, rest) apart enough =
      let same : origin ≡ a = ground (arith, at) in
      let is = rest.1 in
      subst (λ x. Hangs (suc k) nd i m x ((a, e) ∷ (b, f) ∷ cs)) (sym same)
        (Hangs-before k a b e ((b, f) ∷ cs)
          (holds ∙ ap (λ n. some (record { element = e; next = n })) is) (ground arith) own
          (hangs k b ((b, f) ∷ cs) (subst (λ p. Chain m p ((b, f) ∷ cs)) is rest) (ground arith)
            (omega arith)))
