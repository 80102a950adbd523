-- ===== src/PubSub/Sessions.antt =====
-- The handlers of the broker one after the other, by what each of them does as a whole.
use quash.Structs.{SubscriptionId}
use quash.Queue.{Queue}
use quash.Stream.Consuming.{section_lem}
use quash.PubSub.Consuming.{drained_answer, drained_brokers, drained_holds, drained_of}
use quash.Broker.Run.{
  add_subscriber_lem, create_topic_lem, remove_subscriber_lem, remove_topic_lem, with_brokers,
}
use quash.Messages.{ConsumeRequest, ConsumeResponse, PublishRequest}
use quash.Broker.{add_subscriber, create_topic, queue_at, remove_subscriber, remove_topic}
use quash.PubSub.Serial.{broadcast_answer, broker_answer, broker_holds, broker_next}
use quash.Stream.{consume, Drained, Served, broadcast, consume_queue, push_each}
use quash.Prelude.{
  Bool, List, Option, String, [], ap, arith, false, none, refl, some, subst, ℕ, ◌∙◌, ◌∷◌, ◌≡◌,
}
use quash.Goroutines.Serial.{Legal, locked_after, replay}
use quash.PubSub.Concurrent.{
  counting, BrokerAnswer, BrokerCall, adding, broadcasting, broker_serve, broker_session, consuming,
  creating, on_consume, removing, unsubscribing,
}
use quash.Handler.{>>=-returned, Brokers, Outcome, State, continue, panicked, pure, returned, ◌>>=◌}

-- What is left of a whole call, and of calls one after the other: the state has its brokers and its
-- mutex replaced, or all is over.
abbrev pub outcome : {A : Type 0} → State → Bool → A → Option Brokers → Outcome A
outcome s locked a none = panicked
outcome s locked a (some b) = returned a (record s { brokers = b; brokers_locked = locked })

module _ (s : State) (free : s.brokers_locked ≡ false) where
  unlocked_outcome :
      {A : Type 0} (a : A) (b : Brokers)
      → returned a (with_brokers s b) ≡ outcome s false a (some b)
  unlocked_outcome a b = ap (λ k. returned a (record s { brokers = b; brokers_locked = k })) free

  broadcast_outcome :
      (order : List SubscriptionId) (req : PublishRequest) (o : Option Brokers)
      → push_each req.topic_name order req.value s.brokers ≡ o
      → broker_serve (broadcasting order req) s ≡ outcome s false (broadcast_answer o) o
  unfolding broker_serve broadcast
  broadcast_outcome order req none e = rw (free, e)
  broadcast_outcome order req (some b) e = rw (free, e)

  consume_outcome :
      (req : ConsumeRequest) (send : ℕ → Option String) (q : Option Queue) (o : Option Drained)
      → queue_at s.brokers req.topic_name req.subscriber_id ≡ q
      → drained_of send q ≡ o
      → broker_serve (consuming req send) s
        ≡ outcome s (drained_holds o) (drained_answer o) (drained_brokers req s.brokers o)
  unfolding broker_serve consume_queue consume
  consume_outcome req send none none missing e = rw (free, missing)
  consume_outcome req send none (some d) missing e = absurd (ground (arith, e))
  consume_outcome req send (some q) none there e = rw (free, there, e)
  consume_outcome req send (some q) (some d) there e =
      ap (λ (r : Outcome (Served ConsumeResponse)). continue r (λ a. pure (on_consume a)))
        (section_lem s free req send q d there e)

  pub broker_served :
      (c : BrokerCall)
      → broker_serve c s
        ≡ outcome s
            (broker_holds c (some s.brokers))
            (broker_answer c (some s.brokers))
            (broker_next c (some s.brokers))
  unfolding broker_serve broker_answer broker_next broker_holds
  broker_served (creating req) =
      >>=-returned (create_topic req) _ s (create_topic_lem s free req) ∙ unlocked_outcome _ _
  broker_served (removing req) =
      >>=-returned (remove_topic req) _ s (remove_topic_lem s free req) ∙ unlocked_outcome _ _
  broker_served (adding id req) =
      >>=-returned (add_subscriber id req) _ s (add_subscriber_lem s free id req)
      ∙ unlocked_outcome _ _
  broker_served (unsubscribing req) =
      >>=-returned (remove_subscriber req) _ s (remove_subscriber_lem s free req)
      ∙ unlocked_outcome _ _
  broker_served (broadcasting order req) =
      broadcast_outcome order req (push_each req.topic_name order req.value s.brokers) refl
  broker_served (consuming req send) =
      consume_outcome req send (queue_at s.brokers req.topic_name req.subscriber_id) _ refl refl
  broker_served (counting order orders) = rw free refl

abbrev pub replayed : List BrokerCall → Option Brokers → List BrokerAnswer × Option Brokers
replayed = replay broker_answer broker_next

abbrev pub held_after : Bool → List BrokerCall → Option Brokers → Bool
held_after = locked_after broker_next broker_holds

pub replayed-none : (cs : List BrokerCall) → (replayed cs none).1 ≡ none
unfolding broker_next
replayed-none [] = refl
replayed-none (c ∷ cs) = replayed-none cs

outcome-cons :
    (s : State) (k : Bool) (a : BrokerAnswer) (answers : List BrokerAnswer) (o : Option Brokers)
    → continue (outcome s k answers o) (λ rest. pure (a ∷ rest)) ≡ outcome s k (a ∷ answers) o
outcome-cons s k a answers none = refl
outcome-cons s k a answers (some b) = refl

-- The rest of a session, after a call that left `o` and the mutex as `k` says.
session_rest :
    (s : State) (cs : List BrokerCall) (a : BrokerAnswer) (k : Bool) (o : Option Brokers)
    → ((b : Brokers)
        → o ≡ some b
        → broker_session cs (record s { brokers = b; brokers_locked = k })
          ≡ outcome s (held_after k cs (some b)) (replayed cs (some b)).0 (replayed cs (some b)).1)
    → continue (outcome s k a o) (λ x. broker_session cs >>= λ rest. pure (x ∷ rest))
      ≡ outcome s (held_after k cs o) (a ∷ (replayed cs o).0) (replayed cs o).1
session_rest s cs a k none ih = rw (replayed-none cs)
session_rest s cs a k (some b) ih =
    ap (λ (r : Outcome (List BrokerAnswer)). continue r (λ rest. pure (a ∷ rest))) (ih b refl)
    ∙ outcome-cons s _ a (replayed cs (some b)).0 (replayed cs (some b)).1

-- Calls each of which finds the mutex free, one after the other.
pub broker_session-replay :
    (cs : List BrokerCall) (s : State)
    → Legal broker_next broker_holds s.brokers_locked cs (some s.brokers)
    → broker_session cs s
      ≡ outcome s
          (held_after s.brokers_locked cs (some s.brokers))
          (replayed cs (some s.brokers)).0
          (replayed cs (some s.brokers)).1
unfolding broker_session
broker_session-replay [] s legal = refl
broker_session-replay (c ∷ cs) s legal =
    let k = broker_holds c (some s.brokers) in
    let o = broker_next c (some s.brokers) in
    ap
      (λ (r : Outcome BrokerAnswer).
        continue r (λ x. broker_session cs >>= λ rest. pure (x ∷ rest)))
      (broker_served s legal.0 c)
    ∙ session_rest s cs (broker_answer c (some s.brokers)) k o (λ b is.
      broker_session-replay cs (record s { brokers = b; brokers_locked = k })
        (subst (Legal broker_next broker_holds k cs) is legal.1))
