-- ===== src/Server/Specified.antt =====
-- What the goroutines of the server are told, by both specifications.
use quash.Broker.Slots.{AllCounted}
use quash.Goroutines.Atomic.{local_of}
use quash.Goroutines.Pair.{lefts, rights}
use quash.Handler.{Brokers, State}
use quash.PubSub.Fitting.Answers.{calls-AllFitView}
use quash.PubSub.Concurrent.{BrokerAnswer}
use quash.Kv.Session.{Answer}
use quash.Server.Session.{replayed_both}
use quash.PubSub.Fitting.{AllFitView, view_at_end}
use quash.Kv.Unordered.{AllFit}
use quash.Clock.{Time}
use quash.Kv.Session.{Table}
use quash.PubSub.Serial.{broker_answer, broker_holds, broker_next}
use quash.Kv.Concurrent.{kv_answer, kv_next}
use quash.PubSub.Sessions.{held_after, replayed}
use quash.PubSub.Spec.{SeenAs, View}
use quash.Kv.Unordered.{Keeps}
use quash.Server.{ServerCall, ServerReach, ServerSystem, broker_side, kv_side, server_start}
use quash.Server.Explained.{both_sides, broker_outside, kv_outside}
use quash.Goroutines.Serial.{Legal, calls_in, heard_by, made_by}
use quash.Kv.Fitting.{AllBy, AllBy-append, calls_in-AllBy, replay-AllFit}
use quash.Goroutines.Pair.Joint.{lefts_of, pair_todo, rights_of}
use quash.Goroutines.Pair.Serial.{
  lefts-pair_replay, lefts_of-calls, rights-pair_replay, rights_of-calls,
}
use quash.Prelude.{List, false, some, subst, subst₂, sym, ℕ, ◌++◌, ◌∙◌, ◌≡◌, ◌⊎◌}

module _ (s : State) (h : List (ℕ × ServerCall)) where
  abbrev told_by : List (Answer ⊎ BrokerAnswer)
  told_by = (replayed_both (calls_in h) (s.kv_map, some s.brokers)).0

  kv_told :
      (u : Time) (table : Table)
      → Keeps u s.kv_map table
      → AllBy u (calls_in (lefts_of h))
      → AllFit u table (lefts (calls_in h)) (lefts told_by)
  kv_told u table kept by =
      subst₂ (AllFit u table) (sym (lefts_of-calls h))
        (sym (
          lefts-pair_replay kv_answer kv_next broker_answer broker_next h s.kv_map
            (some s.brokers)))
        (replay-AllFit u (calls_in (lefts_of h)) s.kv_map table kept by)

  broker_told :
      (v : View) (b : Brokers)
      → SeenAs s.brokers v
      → AllCounted s.brokers
      → Legal broker_next broker_holds false (calls_in (rights_of h)) (some s.brokers)
      → held_after false (calls_in (rights_of h)) (some s.brokers) ≡ false
      → (replayed (calls_in (rights_of h)) (some s.brokers)).1 ≡ some b
      → AllFitView v (rights (calls_in h)) (rights told_by)
        × SeenAs b (view_at_end v (rights (calls_in h)) (rights told_by))
  broker_told v b seen counted legal now_free alive =
      subst₂ (λ cs answers. AllFitView v cs answers × SeenAs b (view_at_end v cs answers))
        (sym (rights_of-calls h))
        (sym (
          rights-pair_replay kv_answer kv_next broker_answer broker_next h s.kv_map
            (some s.brokers)))
        (calls-AllFitView (calls_in (rights_of h)) false (some s.brokers) b v (seen, counted) legal
          now_free alive)

-- Goroutines below `n` make the calls of their programs, key-value calls that read no time after `u`
-- and broker calls, an access at a time and in any order of the goroutines. Where both mutexes are
-- free and no call has panicked, there is one sequence of all the calls, in which those of each
-- goroutine come in the order of its program, such that of the answers that the goroutines got
-- those of the key-value store fit the table of what was set before and not deleted, and those of
-- the broker are answers of its specification; the brokers show what the specification shows at the
-- end. At the start both mutexes are free, the key-value map keeps the table, the brokers show `v` and
-- every queue is counted.
pub server_answers_fit :
    (u : Time) (n k : ℕ) (s : State) (table : Table) (v : View) (programs : ℕ → List ServerCall)
    (t : ServerSystem) (b : Brokers)
    → Keeps u s.kv_map table
    → ((i : ℕ) → AllBy u (lefts (programs i)))
    → SeenAs s.brokers v
    → AllCounted s.brokers
    → ServerReach n (server_start s programs) k t
    → t.left.locked ≡ false
    → t.right.locked ≡ false
    → t.right.value ≡ some b
    → (h : List (ℕ × ServerCall)) × (answers : List (Answer ⊎ BrokerAnswer)) × AllFit u table
        (lefts (calls_in h))
        (lefts answers)
      × AllFitView v (rights (calls_in h)) (rights answers)
      × SeenAs b (view_at_end v (rights (calls_in h)) (rights answers))
      × ((i : ℕ) → (local_of ((kv_side t).pc i)).heard ≡ lefts (heard_by i h answers))
      × ((i : ℕ) → (local_of ((broker_side t).pc i)).heard ≡ rights (heard_by i h answers))
      × ((i : ℕ) → programs i ≡ made_by i h ++ pair_todo (t.pc i))
server_answers_fit u n k s table v programs t b kept by seen counted r kv_free broker_free alive =
    let (h, e) =
      both_sides n k s programs t r (kv_outside n k s programs t r kv_free)
        (broker_outside n k s programs t r broker_free) in
    let all_by =
      calls_in-AllBy u (lefts_of h)
        (λ i. AllBy-append u (made_by i (lefts_of h)) _ (subst (AllBy u) (e.kv.left i) (by i))) in
    let (fits, last) =
      broker_told s h v b seen counted e.broker.legal (sym e.broker.lock ∙ broker_free)
        (sym e.broker.value ∙ alive) in
    (
      h,
      told_by s h,
      kv_told s h u table kept all_by,
      fits,
      last,
      e.kv_heard,
      e.broker_heard,
      e.in_order,
    )
