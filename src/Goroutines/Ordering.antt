-- ===== src/Goroutines/Ordering.antt =====
-- The order in which goroutines have come to hold the mutex is the order of the whole calls.
use quash.Goroutines.Atomic.{
  ends, insider, local_of, moved, rest_of, state, todo_of, AllOutside, Busy, Idle, goes_out,
}
use quash.Prelude.{
  append-nil, sym, ◌∙◌, Bool, List, [], ap, arith, false, inl, inr, refl, subst, ℕ, ◌++◌, ◌<◌, ◌∷◌,
  ◌≡◌, ◌⊎◌,
}
use quash.Goroutines.{
  Reach, abandon, here, inside, later, outside, pick, unlock, Guarded, History, Move, Pc, System,
  abandons, accesses, done, locks, unlocks, update, Code,
}

-- The call that a move begins.
abbrev pub entering :
    {S L C : Type 0} {body : C → Code S L} {m m' : Guarded S} {p p' : Pc S L C}
    → Move body m p m' p'
    → List C
entering (locks {c} free) = c ∷ []
entering accesses = []
entering unlocks = []
entering abandons = []

abbrev pub tag : {C : Type 0} → ℕ → List C → List (ℕ × C)
tag i [] = []
tag i (c ∷ cs) = (i, c) ∷ tag i cs

module _ {S L C : Type 0} (body : C → Code S L) (n : ℕ) (s : System S L C) where
  -- The calls that have begun.
  abbrev order_of : {t : System S L C} → Idle body n s t ⊎ Busy body n s t → List (ℕ × C)
  order_of (inl idle) = idle.history
  order_of (inr b) = b.entry.history ++ (b.entry.who, b.entry.call) ∷ []

  abbrev pub Tracked : List (ℕ × C) → System S L C → Type 0
  Tracked h t = (x : Idle body n s t ⊎ Busy body n s t) × (order_of x ≡ h)

  -- A move from where nobody is inside is a `Lock`.
  moves_in :
      (t : System S L C) (i : ℕ) {p p' : Pc S L C} {m' : Guarded S} (h : List (ℕ × C))
      (idle : Idle body n s t)
      → idle.history ≡ h
      → i < n
      → t.pc i ≡ p
      → (mv : Move body t.mem p m' p')
      → Tracked (h ++ tag i (entering mv)) (record { mem = m'; pc = update t.pc i p' })
  moves_in t i h idle e lt at (locks {c} {todo} {l} free) = (
    inr (record {
      entry = record {
        history = idle.history;
        before = t;
        calls = idle.calls;
        free = free;
        nobody = idle.nobody;
        who = i;
        bounded = lt;
        call = c;
        todo = todo;
        start = l;
        at_start = at;
      };
      rest = body c;
      local = l;
      held = refl;
      alone = refl;
      same = refl;
    }),
    ap (λ x. x ++ (i, c) ∷ []) e,
  )
  moves_in t i h idle e lt at accesses = absurd (ground (arith, idle.nobody i, at))
  moves_in t i h idle e lt at unlocks = absurd (ground (arith, idle.nobody i, at))
  moves_in t i h idle e lt at abandons = absurd (ground (arith, idle.nobody i, at))

  -- A move from where somebody is inside is an access of that goroutine, or its way out.
  moves_on :
      (t : System S L C) (i : ℕ) {p p' : Pc S L C} {m' : Guarded S} (h : List (ℕ × C))
      (b : Busy body n s t)
      → b.entry.history ++ (b.entry.who, b.entry.call) ∷ [] ≡ h
      → t.pc i ≡ p
      → (mv : Move body t.mem p m' p')
      → Tracked (h ++ tag i (entering mv)) (record { mem = m'; pc = update t.pc i p' })
  moves_on t i h b e at (locks free) = absurd (ground (arith, b.held, free))
  moves_on t i h b e at (accesses {f} {k} {todo} {l}) =
      let (is, eq) = insider body n s t i b at refl in
      let after = f t.mem.value l in
      (
        inr (record {
          entry = b.entry;
          rest = k after.1;
          local = after.1;
          held = b.held;
          alone =
              moved body n s t i _ b is
              ∙ ap
                  (λ (x : Pc S L C).
                    update b.entry.before.pc b.entry.who (inside (k after.1) (todo_of x) after.1))
                  eq;
          same = ap (λ (x : Pc S L C). ends (rest_of x) t.mem.value (local_of x)) eq ∙ b.same;
        }),
        e ∙ sym (append-nil h),
      )
  moves_on t i h b e at (unlocks {todo} {l}) =
      let (is, eq) = insider body n s t i b at refl in
      let (calls, nobody) = goes_out body n s t i unlock todo l b is eq refl in
      (inl (record { history = _; calls = calls; nobody = nobody }), e ∙ sym (append-nil h))
  moves_on t i h b e at (abandons {todo} {l}) =
      let (is, eq) = insider body n s t i b at refl in
      let (calls, nobody) = goes_out body n s t i abandon todo l b is eq refl in
      (
        inl (record {
          history = _;
          calls =
              subst
                (λ (k : Bool).
                  History body n s (b.entry.history ++ (b.entry.who, b.entry.call) ∷ [])
                    (state k t.mem.value (update t.pc i (outside todo l))))
                (sym b.held) calls;
          nobody = nobody;
        }),
        e ∙ sym (append-nil h),
      )

  pub Move-Tracked :
      (t : System S L C) (i : ℕ) {p p' : Pc S L C} {m' : Guarded S} (h : List (ℕ × C))
      → Tracked h t
      → i < n
      → t.pc i ≡ p
      → (mv : Move body t.mem p m' p')
      → Tracked (h ++ tag i (entering mv)) (record { mem = m'; pc = update t.pc i p' })
  Move-Tracked t i h (inl idle, e) lt at mv = moves_in t i h idle e lt at mv
  Move-Tracked t i h (inr b, e) lt at mv = moves_on t i h b e at mv

  pub Tracked-start : s.mem.locked ≡ false → AllOutside s.pc → Tracked [] s
  Tracked-start free nobody = (inl (record { history = []; calls = done; nobody = nobody }), refl)

  -- Where nobody is inside, those are the whole calls.
  pub Tracked-History :
      (h : List (ℕ × C)) (t : System S L C) → Tracked h t → AllOutside t.pc → History body n s h t
  Tracked-History h t (inl idle, e) nobody = subst (λ x. History body n s x t) e idle.calls
  Tracked-History h t (inr b, e) nobody =
      absurd (ground (arith, nobody b.entry.who, ap (λ (f : ℕ → Pc S L C). f b.entry.who) b.alone))

  Reach-Tracked :
      {k : ℕ} {t : System S L C}
      → s.mem.locked ≡ false
      → AllOutside s.pc
      → Reach body n s k t
      → (h : List (ℕ × C)) × Tracked h t
  Reach-Tracked free nobody here = ([], Tracked-start free nobody)
  Reach-Tracked free nobody (later {t} r (pick i lt mv)) =
      let (h, so_far) = Reach-Tracked free nobody r in (_, Move-Tracked t i h so_far lt refl mv)

  pub Reach-Explained :
      {k : ℕ} {t : System S L C}
      → s.mem.locked ≡ false
      → AllOutside s.pc
      → Reach body n s k t
      → Idle body n s t ⊎ Busy body n s t
  Reach-Explained free nobody r = (Reach-Tracked free nobody r).1.0
