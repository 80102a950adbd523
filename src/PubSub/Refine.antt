-- ===== src/PubSub/Refine.antt =====
-- The broker implements its specification.
use quash.PubSub.Seen.{
  add_to-reply, adds-SeenCounted, create-reply, creates-SeenCounted, removes-SeenCounted,
  unsubscribes-SeenCounted,
}
use quash.Stream.Draining.{response_of}
use quash.Stream.RoundTrip.{consume_all}
use quash.Stream.Publishing.{
  AllVisit, Sendings, Stop, appended, delivered, publish_lem, rounds_of, values_for,
}
use quash.Stream.{finished, consume, message, publish}
use quash.GoMap.{GoMap}
use quash.Structs.{SubscriptionId}
use quash.Messages.{
  ConsumeRequest, AddSubscriberRequest, CreateTopicRequest, RemoveSubscriberRequest,
  RemoveTopicRequest,
}
use quash.Handler.{>>=-returned, Brokers, State, returned}
use quash.Broker.{
  queue_at, add_subscriber, add_to, create, create_topic, remove_from, remove_subscriber,
  remove_topic,
}
use quash.Broker.Run.{
  add_subscriber_lem, create_topic_lem, remove_subscriber_lem, remove_topic_lem, with_brokers,
}
use quash.Prelude.{
  map, List, String, [], is_some, ℕ, ◌∷◌, Option, ap, arith, false, refl, sym, ◌∙◌, ◌≡◌,
}
use quash.Broker.Slots.{is_some-contents, AllCounted}
use quash.GoMap
use quash.PubSub.Spec.{
  or_empty, answer_of, answers, last_view, next_view, SeenAs, View, Allowed, AllAllowed, VisitsAll,
}
use quash.PubSub.{
  got, Call, creates, removes, adds, unsubscribes, publishes, consumes, serve, session,
}

pub record Serves (s : State) (v : View) (call : Call) : Type 0 where
  pub brokers : Brokers
  pub ran : serve call s ≡ returned (answer_of v call) (with_brokers s brokers)
  pub seen : SeenAs brokers (next_view v call)
  pub counted : AllCounted brokers

module _ (s : State) (v : View) (free : s.brokers_locked ≡ false) (seen : SeenAs s.brokers v)
    (counted : AllCounted s.brokers) where
  serve-creates : (req : CreateTopicRequest) → Serves s v (creates req)
  unfolding serve answer_of next_view
  serve-creates req = record {
    brokers = (create req.topic_name s.brokers).1;
    ran =
        >>=-returned (create_topic req) _ s (create_topic_lem s free req)
        ∙ rw (create-reply, seen.topics req.topic_name);
    seen = (creates-SeenCounted s.brokers v seen counted req).seen;
    counted = (creates-SeenCounted s.brokers v seen counted req).counted;
  }

  serve-removes : (req : RemoveTopicRequest) → Serves s v (removes req)
  unfolding serve answer_of next_view
  serve-removes req = record {
    brokers = GoMap.delete s.brokers req.topic_name;
    ran = >>=-returned (remove_topic req) _ s (remove_topic_lem s free req);
    seen = (removes-SeenCounted s.brokers v seen counted req).seen;
    counted = (removes-SeenCounted s.brokers v seen counted req).counted;
  }

  serve-adds : (id : SubscriptionId) (req : AddSubscriberRequest) → Serves s v (adds id req)
  unfolding serve answer_of next_view
  serve-adds id req = record {
    brokers = (add_to id req.topic_name s.brokers).1;
    ran =
        >>=-returned (add_subscriber id req) _ s (add_subscriber_lem s free id req)
        ∙ rw (add_to-reply, seen.topics req.topic_name);
    seen = (adds-SeenCounted s.brokers v seen counted id req).seen;
    counted = (adds-SeenCounted s.brokers v seen counted id req).counted;
  }

  serve-unsubscribes : (req : RemoveSubscriberRequest) → Serves s v (unsubscribes req)
  unfolding serve answer_of next_view
  serve-unsubscribes req = record {
    brokers = remove_from req.subscriber_id req.topic_name s.brokers;
    ran = >>=-returned (remove_subscriber req) _ s (remove_subscriber_lem s free req);
    seen = (unsubscribes-SeenCounted s.brokers v seen counted req).seen;
    counted = (unsubscribes-SeenCounted s.brokers v seen counted req).counted;
  }

  visits : (ms : Sendings) → VisitsAll ms v → AllVisit ms s.brokers
  visits [] h = tt
  visits ((req, order) ∷ ms) h = (
    (
      h.0.0,
      λ i.
          h.0.1 i
          ∙ sym (ap is_some (seen.boxes req.topic_name i))
          ∙ is_some-contents (queue_at s.brokers req.topic_name i),
    ),
    visits ms h.1,
  )

  serve-publishes :
      (ms : Sendings) (stop : Stop)
      → VisitsAll (delivered ms stop) v
      → Serves s v (publishes ms stop)
  unfolding serve answer_of next_view
  serve-publishes ms stop h =
      let (b', ran, d, c) = publish_lem ms stop s free counted (visits (delivered ms stop) h) in
      record {
        brokers = b';
        ran = >>=-returned (publish (rounds_of ms stop)) _ s ran;
        seen = record {
          topics = λ t. d.tops t ∙ seen.topics t;
          boxes = λ t i.
              d.boxes t i ∙ ap (appended (values_for t (delivered ms stop))) (seen.boxes t i);
        };
        counted = c;
      }

  serve-consumes :
      (req : ConsumeRequest) (send : ℕ → Option String)
      → Allowed v (consumes req send)
      → Serves s v (consumes req send)
  unfolding serve answer_of next_view
  serve-consumes req send (l, holds, small, works) =
      let c =
        consume_all s req send l free counted works
          (seen.boxes req.topic_name req.subscriber_id ∙ holds) small in
      record {
        brokers = c.brokers;
        ran =
            >>=-returned (consume (message req) send) _ s c.ran
            ∙ ap
                (λ (o : Option (List String)).
                  returned (got (record { sent = map response_of (or_empty o); ending = finished }))
                    (with_brokers s c.brokers))
                (sym holds);
        seen = record {
          topics = λ t. c.topics t ∙ seen.topics t;
          boxes = λ t i. c.boxes t i ∙ ground (arith, seen.boxes t i);
        };
        counted = c.counted;
      }

  serve-Serves : (call : Call) → Allowed v call → Serves s v call
  serve-Serves (creates req) h = serve-creates req
  serve-Serves (removes req) h = serve-removes req
  serve-Serves (adds id req) h = serve-adds id req
  serve-Serves (unsubscribes req) h = serve-unsubscribes req
  serve-Serves (publishes ms stop) h = serve-publishes ms stop h
  serve-Serves (consumes req send) h = serve-consumes req send h

-- A session runs to its end with the answers of the specification.
pub record Implements (s : State) (v : View) (calls : List Call) : Type 0 where
  pub brokers : Brokers
  pub ran : session calls s ≡ returned (answers v calls) (with_brokers s brokers)
  pub seen : SeenAs brokers (last_view v calls)
  pub counted : AllCounted brokers

-- Any sequence of topic calls, `Publish` streams and `Consume` calls that the specification allows
-- runs to its end with the answers of the specification, and leaves a state that shows what the
-- specification shows, the lock free as before and every queue counted. It starts from a state
-- whose `brokersLock` is free, whose queues are counted and that shows the view it starts from.
pub session-Implements :
    (calls : List Call) (s : State) (v : View)
    → s.brokers_locked ≡ false
    → SeenAs s.brokers v
    → AllCounted s.brokers
    → AllAllowed v calls
    → Implements s v calls
unfolding session answers last_view
session-Implements [] s v free seen counted h = record {
  brokers = s.brokers;
  ran = refl;
  seen = seen;
  counted = counted;
}
session-Implements (call ∷ calls) s v free seen counted h =
    let one = serve-Serves s v free seen counted call h.0 in
    let rest =
      session-Implements calls (with_brokers s one.brokers) (next_view v call) free one.seen
        one.counted h.1 in
    record {
      brokers = rest.brokers;
      ran =
          >>=-returned (serve call) _ s one.ran
          ∙ >>=-returned (session calls) _ (with_brokers s one.brokers) rest.ran;
      seen = rest.seen;
      counted = rest.counted;
    }
