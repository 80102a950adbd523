-- ===== src/Kv/Fitting.antt =====
-- What concurrent callers of the key-value store are told.
use quash.Handler.{State}
use quash.Goroutines.Atomic.{local_of, todo_of}
use quash.Kv.Linear.{kv_linearizable, kv_start}
use quash.Goroutines.{keeps, Reach, System}
use quash.Clock.{Time}
use quash.Prelude.Int.{◌≤ℤ◌}
use quash.Structs.{KvValue}
use quash.Goroutines.Serial.{calls_in, heard_by, made_by, replay}
use quash.GoMap.Range.{contains}
use quash.Kv.Concurrent.{Local, kv_code, session-replay, kv_answer, kv_next}
use quash.Prelude.{
  arith, eqb, ℕ, ◌++◌, ◌≡◌, Bool, List, Option, String, [], false, if◌then◌else◌, inl, none, refl,
  some, subst, sym, true, ◌==◌, ◌∷◌,
}
use quash.Kv.Live.{get-collect, get-look_up, live, look_up-eq-found}
use quash.Kv.Unordered.{AllFit, AnswerFits, Fresher, GetFits, Keeps, found-GetFits, live-Fresher}
use quash.Kv.Session.{
  Answer, answers, KvCall, Table, collects, deletes, gets, next_table, sets, update,
}
use quash.GoMap.Laws.{get-delete, get-put}
use quash.GoMap.{GoMap, delete, get, put}

-- No call reads a time after `u`.
abbrev pub AllBy : Time → List (Time × KvCall) → Type 0
AllBy u [] = Unit {0}
AllBy u ((now, call) ∷ calls) = (now ≤ℤ u) × AllBy u calls

module _ (u : Time) (m : GoMap KvValue) (table : Table) (keeps : Keeps u m table) where
  if_Fresher :
      (b : Bool) (now : Time) (o p : Option KvValue)
      → now ≤ℤ u
      → Fresher u o p
      → Fresher u (if b then live now o else o) p
  if_Fresher true now o p h f = live-Fresher now u h o p f
  if_Fresher false now o p h f = f

  Keeps-put : (k : String) (v : KvValue) → Keeps u (put m k v) (update table k (some v))
  Keeps-put k v j = rw (get-put m k v j) (both (k == j))
    where
      both : (b : Bool) → Fresher u (if b then some v else get m j) (if b then some v else table j)
      both true = inl refl
      both false = keeps j

  Keeps-delete : (k : String) → Keeps u (delete m k) (update table k none)
  Keeps-delete k j = rw (get-delete m k j) (both (k == j))
    where
      both : (b : Bool) → Fresher u (if b then none else get m j) (if b then none else table j)
      both true = inl refl
      both false = keeps j

  kv_next-Keeps :
      (now : Time) (call : KvCall)
      → now ≤ℤ u
      → Keeps u (kv_next (now, call) m) (next_table table now call)
  unfolding kv_next next_table
  kv_next-Keeps now (sets kv) h j = Keeps-put kv.key _ j
  kv_next-Keeps now (gets kv) h j =
      rw (get-look_up now kv.key j m) (if_Fresher (kv.key == j) now _ _ h (keeps j))
  kv_next-Keeps now (deletes req) h j = Keeps-delete req.key j
  kv_next-Keeps now (collects order) h j =
      rw (get-collect now order m j) (if_Fresher (contains order j) now _ _ h (keeps j))

  kv_answer-Fits :
      (now : Time) (call : KvCall)
      → now ≤ℤ u
      → AnswerFits u table (now, call) (kv_answer (now, call) m)
  unfolding kv_answer
  kv_answer-Fits now (sets kv) h = refl
  kv_answer-Fits now (gets kv) h =
      subst (GetFits u now (table kv.key)) (sym (look_up-eq-found now kv.key m))
        (found-GetFits now u h (get m kv.key) (table kv.key) (keeps kv.key))
  kv_answer-Fits now (deletes req) h = refl
  kv_answer-Fits now (collects order) h = refl

pub replay-AllFit :
    (u : Time) (calls : List (Time × KvCall)) (m : GoMap KvValue) (table : Table)
    → Keeps u m table
    → AllBy u calls
    → AllFit u table calls (replay kv_answer kv_next calls m).0
replay-AllFit u [] m table keeps by = refl
replay-AllFit u ((now, call) ∷ calls) m table keeps by = (
  kv_answer-Fits u m table keeps now call by.0,
  replay-AllFit u calls (kv_next (now, call) m) (next_table table now call)
      (kv_next-Keeps u m table keeps now call by.0) by.1,
)

pub AllBy-append : (u : Time) (xs ys : List (Time × KvCall)) → AllBy u (xs ++ ys) → AllBy u xs
AllBy-append u [] ys h = tt
AllBy-append u ((now, call) ∷ xs) ys h = (h.0, AllBy-append u xs ys h.1)

-- The calls of a history are those of its goroutines.
module _ (u : Time) where
  if_AllBy :
      (b : Bool) (c : Time × KvCall) (more : List (Time × KvCall))
      → AllBy u (if b then c ∷ more else more)
      → AllBy u more
  if_AllBy true c more h = h.1
  if_AllBy false c more h = h

  first_AllBy :
      (b : Bool) (c : Time × KvCall) (more : List (Time × KvCall))
      → b ≡ true
      → AllBy u (if b then c ∷ more else more)
      → c.0 ≤ℤ u
  first_AllBy true c more e h = h.0
  first_AllBy false c more e h = absurd (cc)

  pub calls_in-AllBy :
      (h : List (ℕ × (Time × KvCall))) → ((i : ℕ) → AllBy u (made_by i h)) → AllBy u (calls_in h)
  calls_in-AllBy [] by = tt
  calls_in-AllBy ((j, c) ∷ h) by = (
    first_AllBy (eqb j j) c (made_by j h) (ground arith) (by j),
    calls_in-AllBy h (λ i. if_AllBy (eqb j i) c (made_by i h) (by i)),
  )

-- Goroutines below `n` make key-value calls that read no time after `u`, an access at a time and
-- in any order, whatever the order of the times that they read. Wherever `kvLock` is free, there is
-- one sequence of the calls, in which those of each goroutine come in the order of its program, and
-- in which each answer fits the table of what was set before and not deleted: `GetKV` gives what the
-- table has for the key, where that had not expired when `GetKV` read the clock, and says that the
-- key does not exist only where the table has nothing for it that is live at `u`. At the start
-- `kvLock` is free and the map keeps the table.
pub kv_answers_fit :
    (u : Time) (n k : ℕ) (s : State) (table : Table) (programs : ℕ → List (Time × KvCall))
    (t : System (GoMap KvValue) Local (Time × KvCall))
    → s.kv_locked ≡ false
    → Keeps u s.kv_map table
    → ((i : ℕ) → AllBy u (programs i))
    → Reach kv_code n (kv_start s.kv_map programs) k t
    → t.mem.locked ≡ false
    → (h : List (ℕ × (Time × KvCall))) × (answers : List Answer) × AllFit u table
        (calls_in h)
        answers
      × ((i : ℕ) → (local_of (t.pc i)).heard ≡ heard_by i h answers)
      × ((i : ℕ) → programs i ≡ made_by i h ++ todo_of (t.pc i))
kv_answers_fit u n k s table programs t free keeps by r now_free =
    let (h, answers, ran, heard, left) = kv_linearizable n k s programs t free r now_free in
    let same : (replay kv_answer kv_next (calls_in h) s.kv_map).0 ≡ answers =
      cc (session-replay (calls_in h) s free, ran) in
    let all_by =
      calls_in-AllBy u h
        (λ i. AllBy-append u (made_by i h) (todo_of (t.pc i)) (subst (AllBy u) (left i) (by i))) in
    (
      h,
      answers,
      subst (AllFit u table (calls_in h)) same
          (replay-AllFit u (calls_in h) s.kv_map table keeps all_by),
      heard,
      left,
    )
