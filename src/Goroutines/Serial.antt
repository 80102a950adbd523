-- ===== src/Goroutines/Serial.antt =====
-- Goroutines whose calls answer: each gets the answers of one sequence of whole calls.
use quash.Goroutines.Exclusion.{atomic}
use quash.Goroutines.Atomic.{AllOutside, local_of, todo_of}
use quash.Goroutines.{Access, line, Code, keeps, Reach, History, System, done, first, perform}
use quash.Prelude.{
  Bool, ap₂, subst, false, ℕ, append_assoc, arith, List, [], ap, append-nil, eqb, if◌then◌else◌,
  refl, sym, ◌++◌, ◌∙◌, ◌∷◌, ◌≡◌,
}

-- The calls of goroutine `i` in a history, and its answers among those of the history.
abbrev pub made_by : {C : Type 0} → ℕ → List (ℕ × C) → List C
made_by i [] = []
made_by i ((j, c) ∷ h) = let more = made_by i h in if eqb j i then c ∷ more else more

abbrev pub heard_by : {C A : Type 0} → ℕ → List (ℕ × C) → List A → List A
heard_by i [] answers = []
heard_by i (x ∷ h) [] = []
heard_by i ((j, c) ∷ h) (a ∷ answers) =
    let more = heard_by i h answers in if eqb j i then a ∷ more else more

-- A call answers and changes `S`, in one go.
abbrev pub replay : {S C A : Type 0} → (C → S → A) → (C → S → S) → List C → S → List A × S
replay answer next [] v = ([], v)
replay answer next (c ∷ cs) v =
    let more = replay answer next cs (next c v) in (answer c v ∷ more.0, more.1)

abbrev pub calls_in : {C : Type 0} → List (ℕ × C) → List C
calls_in [] = []
calls_in ((i, c) ∷ h) = c ∷ calls_in h

-- Accesses in a fixed order end with the `Unlock`.
pub line-keeps :
    {S L : Type 0} (fs : List (Access S L)) (v : S) (l : L) → keeps (line fs) v l ≡ false
line-keeps [] v l = refl
line-keeps (f ∷ fs) v l = line-keeps fs (f v l).0 (f v l).1

-- Whether the mutex is held after the calls, where `locked` says that for the start; `holds` says
-- whether a call keeps it.
abbrev pub locked_after : {S C : Type 0} → (C → S → S) → (C → S → Bool) → Bool → List C → S → Bool
locked_after next holds locked [] v = locked
locked_after next holds locked (c ∷ cs) v = locked_after next holds (holds c v) cs (next c v)

-- Every call finds the mutex free: only the last may keep it.
abbrev pub Legal : {S C : Type 0} → (C → S → S) → (C → S → Bool) → Bool → List C → S → Type 0
Legal next holds locked [] v = Unit
Legal next holds locked (c ∷ cs) v = (locked ≡ false) × Legal next holds (holds c v) cs (next c v)

-- `said` is what a goroutine has heard so far.
pub record Performs {S L C A : Type 0} (body : C → Code S L) (said : L → List A)
    (answer : C → S → A) (next : C → S → S) (holds : C → S → Bool) : Type 0 where
  pub leaves : (c : C) (v : S) (l : L) → (perform (body c) v l).0 ≡ next c v
  pub hears : (c : C) (v : S) (l : L) → said (perform (body c) v l).1 ≡ said l ++ answer c v ∷ []
  pub leaves_lock : (c : C) (v : S) (l : L) → keeps (body c) v l ≡ holds c v

module _ {S L C A : Type 0} (body : C → Code S L) (said : L → List A) (answer : C → S → A)
    (next : C → S → S) (holds : C → S → Bool)
    (performs : Performs body said answer next holds) where
  -- What a history explains: the mutex, the value, what each goroutine heard, and what it has left
  -- to do.
  pub record Explains (s : System S L C) (h : List (ℕ × C)) (t : System S L C) : Type 0 where
    pub legal : Legal next holds s.mem.locked (calls_in h) s.mem.value
    pub lock : t.mem.locked ≡ locked_after next holds s.mem.locked (calls_in h) s.mem.value
    pub value : t.mem.value ≡ (replay answer next (calls_in h) s.mem.value).1
    pub heard :
        (i : ℕ)
        → said (local_of (t.pc i))
          ≡ said (local_of (s.pc i)) ++ heard_by i h (replay answer next (calls_in h) s.mem.value).0
    pub left : (i : ℕ) → todo_of (s.pc i) ≡ made_by i h ++ todo_of (t.pc i)

  pub History-Explains :
      (n : ℕ) {s t : System S L C} {h : List (ℕ × C)} → History body n s h t → Explains s h t
  History-Explains n done = record {
    legal = tt;
    lock = refl;
    value = refl;
    heard = λ i. sym (append-nil _);
    left = λ i. refl;
  }
  History-Explains n {s} (first {t} {h} i {c} {todo} {l} lt now e r) =
      let rest = History-Explains n r in
      let value = performs.leaves c s.mem.value l in
      let both : ◌≡◌ {A = Bool × S}
          (keeps (body c) s.mem.value l, (perform (body c) s.mem.value l).0)
          (holds c s.mem.value, next c s.mem.value) =
        ap₂ (λ (k : Bool) (v : S). (k, v)) (performs.leaves_lock c s.mem.value l) value in
      record {
        legal =
            (now, subst (λ (x : Bool × S). Legal next holds x.0 (calls_in h) x.1) both rest.legal);
        lock = rest.lock ∙ ap (λ (x : Bool × S). locked_after next holds x.0 (calls_in h) x.1) both;
        value = rest.value ∙ ap (λ (v : S). (replay answer next (calls_in h) v).1) value;
        heard = λ j. ground (
          arith,
          e,
          value,
          rest.heard j,
          performs.hears c s.mem.value l,
          append_assoc (said l) (answer c s.mem.value ∷ [])
              (heard_by j h (replay answer next (calls_in h) (next c s.mem.value)).0),
        );
        left = λ j. ground (arith, e, rest.left j);
      }

  -- Where nobody is inside, one sequence of whole calls explains what there is, what each goroutine
  -- has heard and what it has left.
  pub serial :
      (n k : ℕ) (s t : System S L C)
      → s.mem.locked ≡ false
      → AllOutside s.pc
      → Reach body n s k t
      → AllOutside t.pc
      → (h : List (ℕ × C)) × Explains s h t
  serial n k s t free nobody r all_out =
      let (h, calls) = atomic body n k s t free nobody r all_out in (h, History-Explains n calls)
