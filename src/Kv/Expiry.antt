-- ===== src/Kv/Expiry.antt =====
-- How long a value that was set can be read.
use quash.Clock.Order.{after-add_negative, seconds-lt, add-seconds}
use quash.Kv.Refine.{session-answers}
use quash.Kv.{expired}
use quash.Prelude.Int.{◌≤ℤ◌, ltb_ℤ, pos, ◌+ℤ◌}
use quash.GoMap.{GoMap}
use quash.Structs.{KvValue}
use quash.Messages.{SetKvRequest}
use quash.Kv.Run.{with_kv}
use quash.Kv.Live.{found, live}
use quash.Clock.{second, Time, seconds}
use quash.Kv.Session.{
  Answer, InOrder, KvCall, Table, answer_of, answers, collects, deletes, gets, got, next_table,
  session, sets,
}
use quash.Handler.{error, ok, State, returned}
use quash.Prelude.{
  subst, arith, eq_refl, if◌then◌else◌, ◌*◌, ◌^◌, ◌≤◌, List, String, [], ap, false, refl, some,
  ◌++◌, ◌==◌, ◌∙◌, ◌∷◌, ◌≡◌,
}
use quash.GoMap

-- The table after the calls.
tables : Table → List (Time × KvCall) → Table
tables table [] = table
tables table ((now, call) ∷ calls) = tables (next_table table now call) calls

-- No call sets or deletes the key.
abbrev pub Spares : String → KvCall → Type 0
Spares k (sets kv) = (kv.key == k) ≡ false
Spares k (gets kv) = Unit
Spares k (deletes req) = (req.key == k) ≡ false
Spares k (collects order) = Unit

abbrev pub AllSpare : String → List (Time × KvCall) → Type 0
AllSpare k [] = Unit
AllSpare k ((now, call) ∷ calls) = Spares k call × AllSpare k calls

next_table-Spares :
    (k : String) (table : Table) (now : Time) (call : KvCall)
    → Spares k call
    → next_table table now call k ≡ table k
unfolding next_table
next_table-Spares k table now (sets kv) h = rw h
next_table-Spares k table now (gets kv) h = refl
next_table-Spares k table now (deletes req) h = rw h
next_table-Spares k table now (collects order) h = refl

tables-spare :
    (k : String) (table : Table) (calls : List (Time × KvCall))
    → AllSpare k calls
    → tables table calls k ≡ table k
unfolding tables
tables-spare k table [] h = refl
tables-spare k table ((now, call) ∷ calls) h =
    tables-spare k (next_table table now call) calls h.1 ∙ next_table-Spares k table now call h.0

answers-append :
    (table : Table) (calls more : List (Time × KvCall))
    → answers table (calls ++ more) ≡ answers table calls ++ answers (tables table calls) more
unfolding answers tables
answers-append table [] more = refl
answers-append table ((now, call) ∷ calls) more =
    ap (◌∷◌ (answer_of table now call)) (answers-append (next_table table now call) calls more)

InOrder-le :
    (t : Time) (calls : List (Time × KvCall)) (u : Time) (last : KvCall)
    → InOrder t (calls ++ (u, last) ∷ [])
    → t ≤ℤ u
InOrder-le t [] u last o = o.0
InOrder-le t ((now, call) ∷ calls) u last o = omega (arith, o.0, InOrder-le now calls u last o.1)

-- A first call, any calls between, and a `GetKV` of the key.
abbrev pub then_get : Time → KvCall → List (Time × KvCall) → Time → String → List (Time × KvCall)
then_get t first between u key = (t, first) ∷ between ++ (u, gets (record { key = key })) ∷ []

-- The session runs to its end, and the last answer is `last`.
abbrev pub EndsIn : List (Time × KvCall) → State → Answer → Type 0
EndsIn calls s last =
    (m : GoMap KvValue) × (others : List Answer) × (session calls s
      ≡ returned (others ++ last ∷ []) (with_kv s m))

module _ (s : State) (free : s.kv_locked ≡ false) (t : Time) (first : KvCall)
    (between : List (Time × KvCall)) (u : Time) (key : String)
    (order : InOrder t (then_get t first between u key)) (spare : AllSpare key between) where
  stored : Table
  stored = next_table (GoMap.get s.kv_map) t first

  last_answer :
      answers stored (between ++ (u, gets (record { key = key })) ∷ [])
      ≡ answers stored between ++ got (found (live u (stored key))) ∷ []
  unfolding answers answer_of
  last_answer =
      answers-append stored between _
      ∙ ap (λ o. answers stored between ++ got (found (live u o)) ∷ [])
          (tables-spare key stored between spare)

  get_at_end : EndsIn (then_get t first between u key) s (got (found (live u (stored key))))
  unfolding answers stored
  get_at_end =
      let (m, ran) =
        session-answers t _ s (GoMap.get s.kv_map) free order (record { at = λ k. refl }) in
      (
        m,
        answer_of (GoMap.get s.kv_map) t first ∷ answers stored between,
        ran
            ∙ ap (λ l. returned (answer_of (GoMap.get s.kv_map) t first ∷ l) (with_kv s m))
                last_answer,
      )

module _ (s : State) (free : s.kv_locked ≡ false) (t : Time) (kv : SetKvRequest)
    (between : List (Time × KvCall)) (u : Time)
    (order : InOrder t (then_get t (sets kv) between u kv.key))
    (spare : AllSpare kv.key between) where
  entry : KvValue
  entry = record { value = kv.value; time_out = seconds kv.time_out_duration; init_time = t }

  stored_set : stored s free t (sets kv) between u kv.key order spare kv.key ≡ some entry
  unfolding stored next_table entry
  stored_set = simp eq_refl

  get_after_set :
      EndsIn (then_get t (sets kv) between u kv.key) s (got (found (live u (some entry))))
  get_after_set =
      subst (λ o. EndsIn (then_get t (sets kv) between u kv.key) s (got (found (live u o))))
        stored_set (get_at_end s free t (sets kv) between u kv.key order spare)

  found_exact :
      kv.time_out_duration ≤ 9_223_372_036
      → found (live u (some entry)) ≡ (
          if ltb_ℤ (t +ℤ pos (kv.time_out_duration * second)) u
          then error "key doesn't exist"
          else ok (record { value = kv.value }))
  unfolding expired entry
  found_exact fits = rw (add-seconds t kv.time_out_duration fits) (ground arith)

  found_overflow :
      2 ^ 63 ≤ seconds kv.time_out_duration
      → found (live u (some entry)) ≡ error "key doesn't exist"
  unfolding expired entry
  found_overflow wraps = rw (
      after-add_negative t u (seconds kv.time_out_duration) wraps (seconds-lt _)
        (InOrder-le t between u _ order.1))

  -- After a `SetKV` with a time to live of at most 9223372036 seconds, and any calls that neither
  -- set nor delete its key, a `GetKV` of the key answers the value up to and including the instant
  -- at which that time has passed, and that the key does not exist after it. The calls come in the
  -- order of their times, from a state whose `kvLock` is free.
  pub get_after_set_exact :
      kv.time_out_duration ≤ 9_223_372_036
      → EndsIn (then_get t (sets kv) between u kv.key) s (
          got (
            if ltb_ℤ (t +ℤ pos (kv.time_out_duration * second)) u
            then error "key doesn't exist"
            else ok (record { value = kv.value })))
  get_after_set_exact fits =
      subst (λ r. EndsIn (then_get t (sets kv) between u kv.key) s (got r)) (found_exact fits)
        get_after_set

  -- After a `SetKV` whose time to live, in nanoseconds modulo 2 ^ 64, is 2 ^ 63 or more, and any
  -- calls that neither set nor delete its key, a `GetKV` of the key answers that it does not
  -- exist, even at the instant at which it was set. The calls come in the order of their times,
  -- from a state whose `kvLock` is free.
  pub get_after_set_overflow :
      2 ^ 63 ≤ seconds kv.time_out_duration
      → EndsIn (then_get t (sets kv) between u kv.key) s (got (error "key doesn't exist"))
  get_after_set_overflow wraps =
      subst (λ r. EndsIn (then_get t (sets kv) between u kv.key) s (got r)) (found_overflow wraps)
        get_after_set
