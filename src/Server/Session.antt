-- ===== src/Server/Session.antt =====
-- The handlers of the server one after the other, and what they do as a whole.
use quash.Server.{ServerCall}
use quash.Clock.{Time}
use quash.Structs.{KvValue}
use quash.Kv.Session.{Answer, KvCall, serve}
use quash.Goroutines.Pair.Serial.{pair_answer, pair_next}
use quash.Kv.Run.{with_kv}
use quash.GoMap.{GoMap}
use quash.Kv.Concurrent.{kv_answer, kv_next, kv_served}
use quash.PubSub.Concurrent.{BrokerAnswer, BrokerCall, broker_serve}
use quash.Handler.{>>=-returned, Brokers, Handler, Outcome, State, pure, returned, ◌>>=◌}
use quash.Goroutines.Pair.{rights}
use quash.PubSub.Serial.{broker_answer, broker_holds, broker_next}
use quash.Prelude.{
  List, Option, Option-cases, [], ap, arith, false, inl, inr, none, refl, some, subst, sym, ◌∙◌,
  ◌∷◌, ◌≡◌, ◌⊎◌,
}
use quash.Goroutines.Serial.{Legal, replay}
use quash.PubSub.Sessions.{broker_served, held_after, outcome}

unfoldable pub server_serve : ServerCall → Handler (Answer ⊎ BrokerAnswer)
server_serve (inl (now, call)) = do a ← serve now call; pure (inl a)
server_serve (inr call) = do a ← broker_serve call; pure (inr a)

unfoldable pub server_session : List ServerCall → Handler (List (Answer ⊎ BrokerAnswer))
server_session [] = pure []
server_session (c ∷ cs) = do a ← server_serve c; rest ← server_session cs; pure (a ∷ rest)

abbrev pub server_answer : ServerCall → GoMap KvValue × Option Brokers → Answer ⊎ BrokerAnswer
server_answer = pair_answer kv_answer broker_answer

abbrev pub server_next :
    ServerCall → GoMap KvValue × Option Brokers → GoMap KvValue × Option Brokers
server_next = pair_next kv_next broker_next

abbrev pub replayed_both :
    List ServerCall
    → GoMap KvValue × Option Brokers
    → List (Answer ⊎ BrokerAnswer) × (GoMap KvValue × Option Brokers)
replayed_both = replay server_answer server_next

-- A panic is never undone.
replayed_both-none :
    (cs : List ServerCall) (m : GoMap KvValue) → (replayed_both cs (m, none)).1.1 ≡ none
unfolding broker_next
replayed_both-none [] m = refl
replayed_both-none (inl c ∷ cs) m = replayed_both-none cs (kv_next c m)
replayed_both-none (inr c ∷ cs) m = replayed_both-none cs m

-- What is left of a sequence of calls in which none panics.
abbrev pub left_by : List ServerCall → State → Brokers → Outcome (List (Answer ⊎ BrokerAnswer))
left_by cs s b =
    let all = replayed_both cs (s.kv_map, some s.brokers) in
    returned all.0 (record s {
      kv_map = all.1.0;
      brokers = b;
      brokers_locked = held_after s.brokers_locked (rights cs) (some s.brokers);
    })

abbrev after_broker_call : BrokerCall → State → Brokers → State
after_broker_call c s b = record s { brokers = b; brokers_locked = broker_holds c (some s.brokers) }

-- The same, where the first call is one of the broker and leaves `o`.
abbrev left_from :
    BrokerCall
    → List ServerCall
    → State
    → Brokers
    → Option Brokers
    → Outcome (List (Answer ⊎ BrokerAnswer))
left_from c cs s b o =
    let all = replayed_both cs (s.kv_map, o) in
    returned (inr (broker_answer c (some s.brokers)) ∷ all.0) (record s {
      kv_map = all.1.0;
      brokers = b;
      brokers_locked = held_after (broker_holds c (some s.brokers)) (rights cs) o;
    })

kv_call_served :
    (c : Time × KvCall) (s : State)
    → s.kv_locked ≡ false
    → server_serve (inl c) s
      ≡ returned (inl (kv_answer c s.kv_map)) (with_kv s (kv_next c s.kv_map))
unfolding server_serve
kv_call_served (now, call) s free = >>=-returned (serve now call) _ s (kv_served now call s free)

broker_call_served :
    (c : BrokerCall) (s : State)
    → s.brokers_locked ≡ false
    → (b : Brokers) → broker_next c (some s.brokers) ≡ some b
    → server_serve (inr c) s
      ≡ returned (inr (broker_answer c (some s.brokers))) (after_broker_call c s b)
unfolding server_serve
broker_call_served c s free b e = >>=-returned (broker_serve c) _ s (
    broker_served s free c
    ∙ ap (outcome s (broker_holds c (some s.brokers)) (broker_answer c (some s.brokers))) e)

-- Calls each of which finds its mutex free, one after the other.
pub server_session-replay :
    (cs : List ServerCall) (s : State) (b : Brokers)
    → s.kv_locked ≡ false
    → Legal broker_next broker_holds s.brokers_locked (rights cs) (some s.brokers)
    → (replayed_both cs (s.kv_map, some s.brokers)).1.1 ≡ some b
    → server_session cs s ≡ left_by cs s b
unfolding server_session
server_session-replay [] s b free legal e =
    let same : s.brokers ≡ b = cc in ap (λ x. returned [] (record s { brokers = x })) same
server_session-replay (inl c ∷ cs) s b free legal e =
    >>=-returned (server_serve (inl c)) _ s (kv_call_served c s free)
    ∙ >>=-returned (server_session cs) _ _
        (server_session-replay cs (with_kv s (kv_next c s.kv_map)) b free legal e)
server_session-replay (inr c ∷ cs) s b free legal e =
    elim (Option-cases (broker_next c (some s.brokers))) [
      | inl over ↦ absurd (ground (arith, replayed_both-none cs s.kv_map, over, e))
      | inr (b', is) ↦
          >>=-returned (server_serve (inr c)) _ s (broker_call_served c s legal.0 b' is)
          ∙ >>=-returned (server_session cs) _ _ (
              server_session-replay cs (after_broker_call c s b') b free
                (subst
                  (Legal broker_next broker_holds (broker_holds c (some s.brokers)) (rights cs)) is
                  legal.1)
                (subst (λ o. (replayed_both cs (s.kv_map, o)).1.1 ≡ some b) is e))
          ∙ ap (λ o. left_from c cs s b o) (sym is)
    ]
