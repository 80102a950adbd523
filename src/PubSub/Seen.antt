-- ===== src/PubSub/Seen.antt =====
-- What the topic handlers do to what is seen of the brokers.
use quash.GoMap
use quash.Queue.{new_queue}
use quash.GoMap.Laws.{get-delete}
use quash.Handler.{Brokers, error, ok}
use quash.Queue.Fifo.{new_queue-IsCounted, to_list-new_queue}
use quash.PubSub.{adds, creates, removes, unsubscribes}
use quash.Broker.{add_to, create, remove_from}
use quash.Structs.{SubscriptionId, Topic}
use quash.Broker.Slots.{
  AllCounted, CountedAt, CountedAt-if, contents, contents-if, has-add_to, has-create,
  has-remove_from, queue_at-add_to, queue_at-create, queue_at-delete, queue_at-remove_from,
}
use quash.PubSub.Spec.{SeenAs, View, next_view}
use quash.Prelude.{ap, arith, concat, if◌then◌else◌, none, some, subst, sym, ◌&&◌, ◌==◌, ◌∙◌, ◌≡◌}
use quash.GoMap.{GoMap}
use quash.Messages.{
  AddSubscriberRequest, CreateTopicRequest, RemoveSubscriberRequest, RemoveTopicRequest,
}

-- The brokers show the view, and every queue is counted.
pub record SeenCounted (b : Brokers) (v : View) : Type 0 where
  pub seen : SeenAs b v
  pub counted : AllCounted b

pub create-reply :
    (topic : Topic) (b : Brokers)
    → (create topic b).0 ≡ (
        if GoMap.has b topic
        then error "topic already exists"
        else ok (record { response = concat "Topic created: " topic }))
unfolding create
create-reply topic b = ground arith

pub add_to-reply :
    (id : SubscriptionId) (topic : Topic) (b : Brokers)
    → (add_to id topic b).0 ≡ (
        if GoMap.has b topic
        then ok (record { response = "Subscriber added"; subscriber_id = id })
        else error "topic does not exist")
unfolding add_to
add_to-reply id topic b = ground arith

module _ (b : Brokers) (v : View) (seen : SeenAs b v) (counted : AllCounted b) where
  pub creates-SeenCounted :
      (req : CreateTopicRequest)
      → SeenCounted (create req.topic_name b).1 (next_view v (creates req))
  unfolding next_view
  creates-SeenCounted req = record {
    seen = record {
      topics = λ t. has-create b req.topic_name t ∙ ground (arith, seen.topics t);
      boxes = λ t i. ap contents (queue_at-create b req.topic_name t i) ∙ seen.boxes t i;
    };
    counted = λ t i. subst CountedAt (sym (queue_at-create b req.topic_name t i)) (counted t i);
  }

  pub removes-SeenCounted :
      (req : RemoveTopicRequest)
      → SeenCounted (GoMap.delete b req.topic_name) (next_view v (removes req))
  unfolding next_view
  removes-SeenCounted req = record {
    seen = record {
      topics = λ t. ground (arith, get-delete b req.topic_name t, seen.topics t);
      boxes = λ t i.
          ap contents (queue_at-delete b req.topic_name t i)
          ∙ contents-if (req.topic_name == t) none _
          ∙ ground (arith, seen.boxes t i);
    };
    counted = λ t i.
        subst CountedAt (sym (queue_at-delete b req.topic_name t i))
          (CountedAt-if (req.topic_name == t) none _ tt (counted t i));
  }

  pub adds-SeenCounted :
      (id : SubscriptionId) (req : AddSubscriberRequest)
      → SeenCounted (add_to id req.topic_name b).1 (next_view v (adds id req))
  unfolding next_view
  adds-SeenCounted id req = record {
    seen = record {
      topics = λ t. has-add_to b req.topic_name id t ∙ seen.topics t;
      boxes = λ t i.
          ap contents (queue_at-add_to b req.topic_name id t i)
          ∙ contents-if (GoMap.has b req.topic_name && (req.topic_name == t && id == i))
              (some new_queue) _
          ∙ ground (arith, seen.boxes t i, seen.topics req.topic_name, to_list-new_queue);
    };
    counted = λ t i. subst CountedAt (sym (queue_at-add_to b req.topic_name id t i)) (
        CountedAt-if (GoMap.has b req.topic_name && (req.topic_name == t && id == i))
          (some new_queue) _ new_queue-IsCounted (counted t i));
  }

  pub unsubscribes-SeenCounted :
      (req : RemoveSubscriberRequest)
      → SeenCounted
          (remove_from req.subscriber_id req.topic_name b)
          (next_view v (unsubscribes req))
  unfolding next_view
  unsubscribes-SeenCounted req = record {
    seen = record {
      topics = λ t. has-remove_from b req.topic_name req.subscriber_id t ∙ seen.topics t;
      boxes = λ t i.
          ap contents (queue_at-remove_from b req.topic_name req.subscriber_id t i)
          ∙ contents-if (req.topic_name == t && req.subscriber_id == i) none _
          ∙ ground (arith, seen.boxes t i);
    };
    counted = λ t i.
        subst CountedAt (sym (queue_at-remove_from b req.topic_name req.subscriber_id t i))
          (CountedAt-if (req.topic_name == t && req.subscriber_id == i) none _ tt (counted t i));
  }
