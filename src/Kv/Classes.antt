-- ===== src/Kv/Classes.antt =====
-- The key-value map without the order of its entries, which Go leaves open: maps that have the same
-- entries are one, and so are the rounds of the collector that visit the same keys.
use quash.Messages.{SetKvRequest}
use quash.GoMap.Laws.{get-delete, get-put}
use quash.Kv.Run.{with_kv}
use quash.Goroutines.Serial.{replay}
use quash.Kv.Concurrent.{kv_answer, kv_next, session-replay}
use quash.Kv.Live.{found, get-collect, get-look_up, live, look_up-eq-found}
use quash.Handler.{State, returned}
use mathlib.Core.Quot
use mathlib.Core.Quot.{Quot}
use text.Mathlib.TextEquality.{IsScalar-prop}
use quash.Clock.{seconds, Time}
use quash.Kv.Session.{Answer, deletes, gets, got, session, sets, KvCall, collects}
use quash.Structs.{KvValue}
use quash.GoMap.{GoMap, get}
use quash.GoMap.Range.{contains}
use quash.Prelude.{
  if◌then◌else◌, some, ◌==◌, ap₂, arith, false, refl, subst, sym, ◌∙◌, List, Option, String, [], ap,
  ◌∷◌, ◌≡◌,
}

-- Two maps have the same entries.
abbrev SameEntries : GoMap KvValue → GoMap KvValue → Type 0
SameEntries m m' = (k : String) → get m k ≡ get m' k

abbrev pub KvMaps : Type 0
KvMaps = Quot SameEntries

abbrev pub class_of : GoMap KvValue → KvMaps
class_of m = Quot.mk m

KvValue-set : IsSet (Option KvValue)
KvValue-set = hlevel (IsScalar-prop)

-- The entry of a key, whichever the order.
entry_in : String → KvMaps → Option KvValue
entry_in k = Quot.lift KvValue-set (λ m. get m k) (λ m m' same. same k)

class_of-entries : (m m' : GoMap KvValue) → class_of m ≡ class_of m' → SameEntries m m'
unfolding entry_in
class_of-entries m m' e k = ap (entry_in k) e

-- Two calls that differ at most in the order of a round of the collector.
abbrev pub SameCall : Time × KvCall → Time × KvCall → Type 0
SameCall (now, collects order) (now', collects order') =
    (now ≡ now') × ((k : String) → contains order k ≡ contains order' k)
SameCall c c' = c ≡ c'

abbrev pub SameCalls : List (Time × KvCall) → List (Time × KvCall) → Type 0
SameCalls [] [] = Unit {0}
SameCalls (c ∷ cs) (c' ∷ cs') = SameCall c c' × SameCalls cs cs'
SameCalls cs cs' = ⊥

abbrev entry_of : Time → SetKvRequest → KvValue
entry_of now kv = record {
  value = kv.value;
  time_out = seconds kv.time_out_duration;
  init_time = now;
}

-- The same call, on maps with the same entries.
same_effect :
    (c : Time × KvCall) (m m' : GoMap KvValue)
    → SameEntries m m'
    → (kv_answer c m ≡ kv_answer c m') × SameEntries (kv_next c m) (kv_next c m')
unfolding kv_answer kv_next
same_effect (now, sets kv) m m' same = (
  refl,
  λ k.
      get-put m kv.key (entry_of now kv) k
      ∙ ap (λ o. if kv.key == k then some (entry_of now kv) else o) (same k)
      ∙ sym (get-put m' kv.key (entry_of now kv) k),
)
same_effect (now, gets kv) m m' same = (
  ap got (
      look_up-eq-found now kv.key m
      ∙ ap (λ o. found (live now o)) (same kv.key)
      ∙ sym (look_up-eq-found now kv.key m')),
  λ k. ground (arith, get-look_up now kv.key k m, get-look_up now kv.key k m', same k),
)
same_effect (now, deletes req) m m' same =
    (refl, λ k. ground (arith, get-delete m req.key k, get-delete m' req.key k, same k))
same_effect (now, collects order) m m' same =
    (refl, λ k. ground (arith, get-collect now order m k, get-collect now order m' k, same k))

same_effects :
    (c c' : Time × KvCall) (m m' : GoMap KvValue)
    → SameCall c c'
    → SameEntries m m'
    → (kv_answer c m ≡ kv_answer c' m') × SameEntries (kv_next c m) (kv_next c' m')
unfolding kv_answer kv_next
same_effects (now, collects order) (now', collects order') m m' (e, keys) same = (
  refl,
  λ k. ground (arith, e, keys k, get-collect now order m k, get-collect now' order' m' k, same k),
)
same_effects (now, collects order) (now', sets kv) m m' e same = absurd (cc)
same_effects (now, collects order) (now', gets kv) m m' e same = absurd (cc)
same_effects (now, collects order) (now', deletes req) m m' e same = absurd (cc)
same_effects (now, sets kv) c' m m' e same =
    subst
      (λ d.
        (kv_answer (now, sets kv) m ≡ kv_answer d m')
        × SameEntries (kv_next (now, sets kv) m) (kv_next d m'))
      e (same_effect (now, sets kv) m m' same)
same_effects (now, gets kv) c' m m' e same =
    subst
      (λ d.
        (kv_answer (now, gets kv) m ≡ kv_answer d m')
        × SameEntries (kv_next (now, gets kv) m) (kv_next d m'))
      e (same_effect (now, gets kv) m m' same)
same_effects (now, deletes req) c' m m' e same =
    subst
      (λ d.
        (kv_answer (now, deletes req) m ≡ kv_answer d m')
        × SameEntries (kv_next (now, deletes req) m) (kv_next d m'))
      e (same_effect (now, deletes req) m m' same)

abbrev replayed_kv : List (Time × KvCall) → GoMap KvValue → List Answer × GoMap KvValue
replayed_kv = replay kv_answer kv_next

same_replay :
    (cs cs' : List (Time × KvCall)) (m m' : GoMap KvValue)
    → SameCalls cs cs'
    → SameEntries m m'
    → ((replayed_kv cs m).0 ≡ (replayed_kv cs' m').0)
      × SameEntries (replayed_kv cs m).1 (replayed_kv cs' m').1
same_replay [] [] m m' h same = (refl, same)
same_replay [] (c' ∷ cs') m m' h same = absurd h
same_replay (c ∷ cs) [] m m' h same = absurd h
same_replay (c ∷ cs) (c' ∷ cs') m m' h same =
    let (answer, next) = same_effects c c' m m' h.0 same in
    let (told, last) = same_replay cs cs' (kv_next c m) (kv_next c' m') h.1 next in
    (ap₂ (λ x xs. x ∷ xs) answer told, last)

-- Two states whose key-value maps have the same entries, in whatever order Go keeps them, and whose
-- `kvLock` is free, cannot be told apart: the same calls, where rounds of the collector may visit
-- their keys in another order, return the same answers, and leave maps that have the same entries
-- again. Maps with the same entries are one element of `KvMaps`.
pub kv_session_unordered :
    (calls calls' : List (Time × KvCall)) (s s' : State)
    → s.kv_locked ≡ false
    → s'.kv_locked ≡ false
    → SameCalls calls calls'
    → class_of s.kv_map ≡ class_of s'.kv_map
    → (answers : List Answer) × (m m' : GoMap KvValue) × (session calls s
        ≡ returned answers (with_kv s m))
      × (session calls' s' ≡ returned answers (with_kv s' m'))
      × (class_of m ≡ class_of m')
kv_session_unordered calls calls' s s' free free' h same =
    let (told, last) =
      same_replay calls calls' s.kv_map s'.kv_map h (class_of-entries s.kv_map s'.kv_map same) in
    (
      (replayed_kv calls s.kv_map).0,
      (replayed_kv calls s.kv_map).1,
      (replayed_kv calls' s'.kv_map).1,
      session-replay calls s free,
      session-replay calls' s' free'
          ∙ ap (λ x. returned x (with_kv s' (replayed_kv calls' s'.kv_map).1)) (sym told),
      Quot.sound last,
    )
