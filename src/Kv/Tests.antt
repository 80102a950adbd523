-- ===== src/Kv/Tests.antt =====
-- The key-value handlers at concrete inputs.
use quash.Kv.Classes.{class_of, kv_session_unordered}
use mathlib.Core.Quot
use quash.Structs.{KvValue}
use quash.Kv.Run.{with_kv}
use quash.GoMap.{GoMap, delete, put}
use quash.Kv.Session.{Answer, added, answers, got, serve, session, KvCall, collects, gets, sets}
use quash.Clock.{Time, second, seconds}
use quash.GoMap.Range.{Enumerates}
use quash.Prelude.Int.{ltb_ℤ, pos, ◌+ℤ◌}
use quash.Kv.Expiry.{EndsIn, get_after_set_exact, get_after_set_overflow, then_get}
use quash.Kv.Collector.{collect_round_exact, garbage_collection_unseen}
use quash.Kv.{collect, collect_round, expired, garbage_collection, get_kv, set_kv}
use quash.Kv.Live.{live}
use quash.Kv.Refine.{session-answers}
use quash.Prelude.{
  Bool-cases, inl, inr, subst, ◌==◌, eq_iff, List, String, [], arith, if◌then◌else◌, none, refl, ℕ,
  ◌*◌, ◌∷◌, ◌≡◌,
}
use quash.Messages.{SetKvRequest}
use quash.Handler.{State, error, ok, returned, start}
use quash.GoMap

abbrev minute : SetKvRequest
minute = record { key = "a"; value = "1"; time_out_duration = 60; init_time = 0 }

abbrev at_second : ℕ → Time
at_second n = pos (n * 1_000_000_000)

-- Another key is set and collected between; "a" is read.
abbrev others : List (Time × KvCall)
others =
    (at_second 1, sets (record { key = "b"; value = "2"; time_out_duration = 1; init_time = 0 }))
    ∷ (at_second 5, collects ("b" ∷ "a" ∷ []))
    ∷ []

session_run :
    session ((at_second 0, sets minute) ∷ (at_second 61, gets (record { key = "a" })) ∷ []) start
    ≡ returned
        (added (ok (record { response = "Added" })) ∷ got (error "key doesn't exist") ∷ [])
        start
unfolding session serve set_kv get_kv put delete GoMap.get seconds expired quash.Clock.add
session_run = refl

session-answers_example :
    (m : GoMap KvValue) × (session ((at_second 0, sets minute) ∷ others) start
      ≡ returned (answers (λ k. none) ((at_second 0, sets minute) ∷ others)) (with_kv start m))
unfolding GoMap.get
session-answers_example =
    session-answers (at_second 0) ((at_second 0, sets minute) ∷ others) start (λ k. none) refl
      (omega arith) (record { at = λ k. refl })

get_after_set_exact_example :
    EndsIn (then_get (at_second 0) (sets minute) others (at_second 60) "a") start (
      got (
        if ltb_ℤ (at_second 0 +ℤ pos (60 * second)) (at_second 60)
        then error "key doesn't exist"
        else ok (record { value = "1" })))
get_after_set_exact_example =
    get_after_set_exact start refl (at_second 0) minute others (at_second 60) (omega arith)
      (refl, (tt, tt)) (omega arith)

-- 9300000000 seconds are more than 2 ^ 63 nanoseconds.
abbrev for_ever : SetKvRequest
for_ever = record { key = "a"; value = "1"; time_out_duration = 9_300_000_000; init_time = 0 }

get_after_set_overflow_example :
    EndsIn
      (then_get (at_second 0) (sets for_ever) [] (at_second 0) "a")
      start
      (got (error "key doesn't exist"))
unfolding seconds
get_after_set_overflow_example =
    get_after_set_overflow start refl (at_second 0) for_ever [] (at_second 0) (omega arith) tt
      (omega arith)

abbrev value_until : ℕ → KvValue
value_until n = record { value = "v"; time_out = n * second; init_time = at_second 0 }

abbrev two_keys : State
two_keys = record start { kv_map = ("a", value_until 1) ∷ ("b", value_until 9) ∷ [] }

both_keys : Enumerates ("b" ∷ "a" ∷ []) two_keys.kv_map
unfolding GoMap.get
both_keys = record { once = (refl, (refl, tt)); all = λ k. ground arith }

collect_round_exact_example :
    (m : GoMap KvValue) × (collect_round (at_second 5) ("b" ∷ "a" ∷ []) two_keys
      ≡ returned tt (with_kv two_keys m))
    × ((k : String) → GoMap.get m k ≡ live (at_second 5) (GoMap.get two_keys.kv_map k))
collect_round_exact_example =
    collect_round_exact two_keys (at_second 5) ("b" ∷ "a" ∷ []) refl both_keys

collect_run : collect (at_second 5) ("b" ∷ "a" ∷ []) two_keys.kv_map ≡ ("b", value_until 9) ∷ []
unfolding collect GoMap.get delete quash.Clock.add
collect_run = refl

garbage_collection_unseen_example :
    (m : GoMap KvValue) × (garbage_collection
        ((at_second 1, []) ∷ (at_second 5, "a" ∷ []) ∷ [])
        two_keys
      ≡ returned tt (with_kv two_keys m))
    × ((k : String)
        → live (at_second 5) (GoMap.get m k) ≡ live (at_second 5) (GoMap.get two_keys.kv_map k))
garbage_collection_unseen_example =
    garbage_collection_unseen (at_second 5) ((at_second 1, []) ∷ (at_second 5, "a" ∷ []) ∷ [])
      two_keys refl (omega arith)

abbrev two_keys_turned : State
two_keys_turned = record start { kv_map = ("b", value_until 9) ∷ ("a", value_until 1) ∷ [] }

turned_class : class_of two_keys.kv_map ≡ class_of two_keys_turned.kv_map
unfolding GoMap.get
turned_class = Quot.sound (λ k. elim (Bool-cases ("a" == k)) [
  | inl e ↦
      subst (λ j. GoMap.get two_keys.kv_map j ≡ GoMap.get two_keys_turned.kv_map j)
        ((eq_iff "a" k).0 e) refl
  | inr e ↦ ground (arith, e)
])

-- The collector visits the keys in two orders, and then "b" is read.
abbrev collecting : List String → List (Time × KvCall)
collecting order = (at_second 2, collects order) ∷ (at_second 3, gets (record { key = "b" })) ∷ []

kv_session_unordered_example :
    (told : List Answer) × (m m' : GoMap KvValue) × (session (collecting ("a" ∷ "b" ∷ [])) two_keys
      ≡ returned told (with_kv two_keys m))
    × (session (collecting ("b" ∷ "a" ∷ [])) two_keys_turned
        ≡ returned told (with_kv two_keys_turned m'))
    × (class_of m ≡ class_of m')
kv_session_unordered_example =
    kv_session_unordered (collecting ("a" ∷ "b" ∷ [])) (collecting ("b" ∷ "a" ∷ [])) two_keys
      two_keys_turned refl refl ((refl, λ k. ground arith), (refl, tt)) turned_class
