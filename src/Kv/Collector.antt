-- ===== src/Kv/Collector.antt =====
-- What the collector removes.
use quash.Clock.{Time}
use quash.Structs.{KvValue}
use quash.Kv.{collect, collect_round, garbage_collection}
use quash.Kv.Run.{collect_round_lem, with_kv}
use quash.Kv.Live.{get-collect, live, live-get-collect}
use quash.GoMap.Range.{Enumerates}
use quash.Prelude.Int.{◌≤ℤ◌}
use quash.GoMap.{GoMap}
use quash.Handler.{>>=-returned, State, returned}
use quash.Prelude.{List, String, [], arith, false, refl, ◌∙◌, ◌∷◌, ◌≡◌}
use quash.GoMap

-- From a state whose `kvLock` is free, one round of the collector that visits every key once, in
-- any order, removes exactly the entries that have expired, and changes nothing else.
pub collect_round_exact :
    (s : State) (now : Time) (order : List String)
    → s.kv_locked ≡ false
    → Enumerates order s.kv_map
    → (m : GoMap KvValue) × (collect_round now order s ≡ returned tt (with_kv s m))
      × ((k : String) → GoMap.get m k ≡ live now (GoMap.get s.kv_map k))
collect_round_exact s now order free e = (
  _,
  collect_round_lem s free now order,
  λ k. get-collect now order s.kv_map k ∙ ground (arith, e.all k),
)

-- No round is later than `u`.
abbrev pub Before : Time → List (Time × List String) → Type 0
Before u [] = Unit {0}
Before u ((now, order) ∷ rounds) = (now ≤ℤ u) × Before u rounds

-- From a state whose `kvLock` is free, the collector gets through any rounds, in any orders, and
-- changes nothing but the map, in which every key shows, at a time not before that of any round,
-- what it showed before.
pub garbage_collection_unseen :
    (u : Time) (rounds : List (Time × List String)) (s : State)
    → s.kv_locked ≡ false
    → Before u rounds
    → (m : GoMap KvValue) × (garbage_collection rounds s ≡ returned tt (with_kv s m))
      × ((k : String) → live u (GoMap.get m k) ≡ live u (GoMap.get s.kv_map k))
unfolding garbage_collection
garbage_collection_unseen u [] s free b = (s.kv_map, refl, λ k. refl)
garbage_collection_unseen u ((now, order) ∷ rounds) s free b =
    let (m, ran, same) =
      garbage_collection_unseen u rounds (with_kv s (collect now order s.kv_map)) free b.1 in
    (
      m,
      >>=-returned (collect_round now order) _ s (collect_round_lem s free now order) ∙ ran,
      λ k. same k ∙ live-get-collect now u order s.kv_map k b.0,
    )
