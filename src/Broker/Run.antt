-- ===== src/Broker/Run.antt =====
-- What the topic handlers do to a state whose `brokersLock` is free.
use quash.GoMap.{GoMap}
use quash.Structs.{SubscriptionId}
use quash.Prelude.{concat, false, ◌≡◌}
use quash.Messages.{
  AddSubscriberRequest, CreateTopicRequest, RemoveSubscriberRequest, RemoveTopicRequest,
}
use quash.Broker.{
  add_subscriber, add_to, create, create_topic, remove_from, remove_subscriber, remove_topic,
}
use quash.Handler.{Brokers, State, ok, returned}
use quash.GoMap

-- The state after a handler that leaves `b` in the brokers and both mutexes as they were.
abbrev pub with_brokers : State → Brokers → State
with_brokers s b = record s { brokers = b }

module _ (s : State) (free : s.brokers_locked ≡ false) where
  pub create_topic_lem :
      (req : CreateTopicRequest)
      → create_topic req s
        ≡ returned
            (create req.topic_name s.brokers).0
            (with_brokers s (create req.topic_name s.brokers).1)
  unfolding create_topic
  create_topic_lem req = rw free

  pub remove_topic_lem :
      (req : RemoveTopicRequest)
      → remove_topic req s
        ≡ returned
            (ok (record { response = concat "Topic deleted: " req.topic_name }))
            (with_brokers s (GoMap.delete s.brokers req.topic_name))
  unfolding remove_topic
  remove_topic_lem req = rw free

  pub add_subscriber_lem :
      (id : SubscriptionId) (req : AddSubscriberRequest)
      → add_subscriber id req s
        ≡ returned
            (add_to id req.topic_name s.brokers).0
            (with_brokers s (add_to id req.topic_name s.brokers).1)
  unfolding add_subscriber
  add_subscriber_lem id req = rw free

  pub remove_subscriber_lem :
      (req : RemoveSubscriberRequest)
      → remove_subscriber req s
        ≡ returned
            (ok (record { response = concat "Removed: " req.subscriber_id }))
            (with_brokers s (remove_from req.subscriber_id req.topic_name s.brokers))
  unfolding remove_subscriber
  remove_subscriber_lem req = rw free
