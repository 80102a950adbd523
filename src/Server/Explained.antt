-- ===== src/Server/Explained.antt =====
-- One sequence of whole calls explains both sides of the server.
use quash.Goroutines.Pair.{lefts, rights}
use quash.Kv.Concurrent.{kv_answer, kv_code, kv_code-Performs, kv_next}
use quash.Goroutines.Serial.{Explains, calls_in, heard_by, made_by}
use quash.PubSub.Concurrent.{broker_code}
use quash.PubSub.Serial.{broker_answer, broker_code-Performs, broker_holds, broker_next}
use quash.Server.Session.{replayed_both}
use quash.Goroutines.Exclusion.{free-AllOutside}
use quash.Goroutines.Pair.GoesOn.{PairReach-left, PairReach-right}
use quash.Goroutines.Pair.Serial.{heard_by-lefts, heard_by-rights, pair_serial}
use quash.Goroutines.Pair.Joint.{lefts_of, pair_todo, rights_of}
use quash.Goroutines.Atomic.{AllOutside, local_of}
use quash.Server.{ServerCall, ServerReach, ServerSystem, broker_side, kv_side, server_start}
use quash.Handler.{State}
use quash.Prelude.{List, false, refl, some, sym, ℕ, ◌++◌, ◌∙◌, ◌≡◌}

pub record ExplainsBoth (s : State) (programs : ℕ → List ServerCall) (t : ServerSystem)
    (h : List (ℕ × ServerCall)) : Type 0 where
  pub kv :
      Explains kv_code
        (λ l. l.heard)
        kv_answer
        kv_next
        (λ c m. false)
        kv_code-Performs
        (kv_side (server_start s programs))
        (lefts_of h)
        (kv_side t)
  pub broker :
      Explains broker_code
        (λ l. l.heard)
        broker_answer
        broker_next
        broker_holds
        broker_code-Performs
        (broker_side (server_start s programs))
        (rights_of h)
        (broker_side t)
  pub kv_heard :
      (i : ℕ)
      → (local_of ((kv_side t).pc i)).heard
        ≡ lefts (heard_by i h (replayed_both (calls_in h) (s.kv_map, some s.brokers)).0)
  pub broker_heard :
      (i : ℕ)
      → (local_of ((broker_side t).pc i)).heard
        ≡ rights (heard_by i h (replayed_both (calls_in h) (s.kv_map, some s.brokers)).0)
  pub in_order : (i : ℕ) → programs i ≡ made_by i h ++ pair_todo (t.pc i)

-- Where a mutex is free, nobody is inside.
pub kv_outside :
    (n k : ℕ) (s : State) (programs : ℕ → List ServerCall) (t : ServerSystem)
    → ServerReach n (server_start s programs) k t
    → t.left.locked ≡ false
    → AllOutside (kv_side t).pc
kv_outside n k s programs t r =
    free-AllOutside kv_code n _ (kv_side (server_start s programs)) (kv_side t) refl (λ i. refl)
      (PairReach-left kv_code broker_code n k (server_start s programs) t r).1

pub broker_outside :
    (n k : ℕ) (s : State) (programs : ℕ → List ServerCall) (t : ServerSystem)
    → ServerReach n (server_start s programs) k t
    → t.right.locked ≡ false
    → AllOutside (broker_side t).pc
broker_outside n k s programs t r =
    free-AllOutside broker_code n _ (broker_side (server_start s programs)) (broker_side t) refl
      (λ i. refl) (PairReach-right kv_code broker_code n k (server_start s programs) t r).1

pub both_sides :
    (n k : ℕ) (s : State) (programs : ℕ → List ServerCall) (t : ServerSystem)
    → ServerReach n (server_start s programs) k t
    → AllOutside (kv_side t).pc
    → AllOutside (broker_side t).pc
    → (h : List (ℕ × ServerCall)) × ExplainsBoth s programs t h
both_sides n k s programs t r kv_out broker_out =
    let (h, kv, broker, ordered) =
      pair_serial kv_code broker_code (λ l. l.heard) kv_answer kv_next (λ c m. false)
        kv_code-Performs (λ l. l.heard) broker_answer broker_next broker_holds broker_code-Performs
        n k (server_start s programs) t refl refl (λ i. refl) (λ i. refl) r kv_out broker_out in
    (
      h,
      record {
        kv = kv;
        broker = broker;
        kv_heard = λ i.
            kv.heard i
            ∙ sym (
                heard_by-lefts kv_answer kv_next broker_answer broker_next i h s.kv_map
                  (some s.brokers));
        broker_heard = λ i.
            broker.heard i
            ∙ sym (
                heard_by-rights kv_answer kv_next broker_answer broker_next i h s.kv_map
                  (some s.brokers));
        in_order = ordered;
      },
    )
