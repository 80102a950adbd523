-- ===== src/Goroutines/Atomic.antt =====
-- What goroutines do under a mutex, one access at a time, is what they do by whole calls.
use quash.Prelude.{
  sym, subst, ◌∙◌, ap, Bool, List, [], arith, false, fun_ext, true, ℕ, ◌++◌, ◌<◌, ◌∷◌, ◌≡◌,
}
use quash.Goroutines.{
  Code, keeps, unlock, History, Pc, System, done, first, inside, outside, perform, update, whole,
}

abbrev pub is_inside : {S L C : Type 0} → Pc S L C → Bool
is_inside (outside todo l) = false
is_inside (inside rest todo l) = true

-- The parts of a program counter.
abbrev pub rest_of : {S L C : Type 0} → Pc S L C → Code S L
rest_of (outside todo l) = unlock
rest_of (inside rest todo l) = rest

abbrev pub todo_of : {S L C : Type 0} → Pc S L C → List C
todo_of (outside todo l) = todo
todo_of (inside rest todo l) = todo

abbrev pub local_of : {S L C : Type 0} → Pc S L C → L
local_of (outside todo l) = l
local_of (inside rest todo l) = l

abbrev pub AllOutside : {S L C : Type 0} → (ℕ → Pc S L C) → Type 0
AllOutside pc = (i : ℕ) → is_inside (pc i) ≡ false

abbrev pub state : {S L C : Type 0} → Bool → S → (ℕ → Pc S L C) → System S L C
state locked v pc = record { mem = record { locked = locked; value = v }; pc = pc }

update-update :
    {A : Type 0} (f : ℕ → A) (i : ℕ) (a b : A) → update (update f i a) i b ≡ update f i b
update-update f i a b = fun_ext (λ j. ground arith)

update-AllOutside :
    {S L C : Type 0} (pc : ℕ → Pc S L C) (i : ℕ) (todo : List C) (l : L)
    → AllOutside pc
    → AllOutside (update pc i (outside todo l))
update-AllOutside pc i todo l h j = ground (arith, h j)

-- What is left at the end of a call, and whether the mutex is held then.
abbrev pub ends : {S L : Type 0} → Code S L → S → L → (S × L) × Bool
ends code v l = (perform code v l, keeps code v l)

module _ {S L C : Type 0} (body : C → Code S L) (n : ℕ) (s : System S L C) where
  -- Nobody is inside, and whole calls lead here. The last of them may have kept the mutex.
  pub record Idle (t : System S L C) : Type 0 where
    pub history : List (ℕ × C)
    pub calls : History body n s history t
    pub nobody : AllOutside t.pc

  -- Whole calls lead to a state from which one goroutine goes in.
  pub record Entry : Type 0 where
    pub history : List (ℕ × C)
    pub before : System S L C
    pub calls : History body n s history before
    pub free : before.mem.locked ≡ false
    pub nobody : AllOutside before.pc
    pub who : ℕ
    pub bounded : who < n
    pub call : C
    pub todo : List C
    pub start : L
    pub at_start : before.pc who ≡ outside (call ∷ todo) start

  -- It has made some of its accesses since, and nobody else has moved.
  pub record Busy (t : System S L C) : Type 0 where
    pub entry : Entry
    pub rest : Code S L
    pub local : L
    pub held : t.mem.locked ≡ true
    pub alone : t.pc ≡ update entry.before.pc entry.who (inside rest entry.todo local)
    pub same :
        ends rest t.mem.value local ≡ ends (body entry.call) entry.before.mem.value entry.start

  pub History-last :
      {t : System S L C} {u : System S L C} {h : List (ℕ × C)} (i : ℕ) {c : C} {todo : List C}
      {l : L}
      → History body n t h u
      → i < n
      → u.mem.locked ≡ false
      → u.pc i ≡ outside (c ∷ todo) l
      → History body n t (h ++ (i, c) ∷ []) (whole body u i c todo l)
  History-last i done lt free e = first i lt free e done
  History-last i (first j ltj freej ej r) lt free e =
      first j ltj freej ej (History-last i r lt free e)

  -- The goroutine that is inside, and where it stands.
  pub insider :
      (t : System S L C) (i : ℕ) {p : Pc S L C} (b : Busy t)
      → t.pc i ≡ p
      → is_inside p ≡ true
      → (b.entry.who ≡ i) × (p ≡ inside b.rest b.entry.todo b.local)
  insider t i {p} b e ins =
      ground (arith, b.entry.nobody i, ap (λ (f : ℕ → Pc S L C). f i) b.alone, e)

  pub moved :
      (t : System S L C) (i : ℕ) (p' : Pc S L C) (b : Busy t)
      → b.entry.who ≡ i
      → update t.pc i p' ≡ update b.entry.before.pc b.entry.who p'
  moved t i p' b is = rw (← is) (
      ap (λ (f : ℕ → Pc S L C). update f b.entry.who p') b.alone
      ∙ update-update b.entry.before.pc b.entry.who (inside b.rest b.entry.todo b.local) p')

  -- With no access left, the goroutine has done what a whole call does.
  ended :
      (t : System S L C) (i : ℕ) (code : Code S L) (todo : List C) (l : L) (b : Busy t)
      → b.entry.who ≡ i
      → inside code todo l ≡ inside b.rest b.entry.todo b.local
      → perform code t.mem.value l ≡ (t.mem.value, l)
      → whole body b.entry.before b.entry.who b.entry.call b.entry.todo b.entry.start
        ≡ state (keeps code t.mem.value l) t.mem.value (update t.pc i (outside todo l))
  ended t i code todo l b is eq at_end =
      let fin : ends (body b.entry.call) b.entry.before.mem.value b.entry.start
          ≡ ((t.mem.value, l), keeps code t.mem.value l) =
        sym b.same
        ∙ ap (λ (x : Pc S L C). ends (rest_of x) t.mem.value (local_of x)) (sym eq)
        ∙ ap (λ (x : S × L). (x, keeps code t.mem.value l)) at_end in
      let pcs =
        ap (λ (x : Pc S L C). update b.entry.before.pc b.entry.who (outside (todo_of x) l)) (sym eq)
        ∙ sym (moved t i (outside todo l) b is) in
      ap
        (λ (a : (S × L) × Bool).
          state a.1 a.0.0 (update b.entry.before.pc b.entry.who (outside b.entry.todo a.0.1)))
        fin
      ∙ ap (λ (f : ℕ → Pc S L C). state (keeps code t.mem.value l) t.mem.value f) pcs

  -- A goroutine that leaves has made a whole call.
  pub goes_out :
      (t : System S L C) (i : ℕ) (code : Code S L) (todo : List C) (l : L) (b : Busy t)
      → b.entry.who ≡ i
      → inside code todo l ≡ inside b.rest b.entry.todo b.local
      → perform code t.mem.value l ≡ (t.mem.value, l)
      → History body n s
          (b.entry.history ++ (b.entry.who, b.entry.call) ∷ [])
          (state (keeps code t.mem.value l) t.mem.value (update t.pc i (outside todo l)))
        × AllOutside (update t.pc i (outside todo l))
  goes_out t i code todo l b is eq at_end = (
    subst (History body n s _) (ended t i code todo l b is eq at_end)
        (History-last b.entry.who b.entry.calls b.entry.bounded b.entry.free b.entry.at_start),
    subst AllOutside (sym (moved t i (outside todo l) b is))
        (update-AllOutside b.entry.before.pc b.entry.who todo l b.entry.nobody),
  )
