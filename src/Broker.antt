-- ===== src/Broker.antt =====
-- The topic and subscriber handlers of server/quashserver/quashserver.go, without the streams.
-- The queue that a subscription holds is reached through the map alone, so a write through the
-- pointer is a write of the map's entry.
pub mod Slots
pub mod Run
use quash.Queue.{Queue, new_queue}
use quash.Structs.{SubscriptionId, Topic}
use quash.GoMap.{GoMap}
use quash.Handler.{
  Brokers, Handler, Reply, error, get_brokers, lock_brokers, ok, pure, set_brokers, unlock_brokers,
  ◌>>=◌, ◌>>◌,
}
use quash.Messages.{
  AddSubscriberRequest, AddSubscriberResponse, CreateTopicRequest, CreateTopicResponse,
  RemoveSubscriberRequest, RemoveSubscriberResponse, RemoveTopicRequest, RemoveTopicResponse,
}
use quash.Prelude.{Option, [], concat, if◌then◌else◌, none, some}
use quash.GoMap

-- `brokers[topic][id]`, where a missing topic reads as the nil map.
unfoldable pub queue_at : Brokers → Topic → SubscriptionId → Option Queue
queue_at b topic id = elim (GoMap.get b topic) [ none ↦ none | some subs ↦ GoMap.get subs id ]

-- What `brokers[topic][id]` points to becomes `q`.
unfoldable pub set_queue : Brokers → Topic → SubscriptionId → Queue → Brokers
set_queue b topic id q = elim (GoMap.get b topic) [
  | none ↦ b
  | some subs ↦ GoMap.put b topic (GoMap.put subs id q)
]

-- The critical section of `CreateTopic`, with the map that it leaves.
unfoldable pub create : Topic → Brokers → Reply CreateTopicResponse × Brokers
create topic b =
    if GoMap.has b topic
    then (error "topic already exists", b)
    else (ok (record { response = concat "Topic created: " topic }), GoMap.put b topic [])

unfoldable pub create_topic : CreateTopicRequest → Handler (Reply CreateTopicResponse)
unfolding lock_brokers unlock_brokers create
create_topic req = do
  lock_brokers
  b ← get_brokers
  let answer = create req.topic_name b
  set_brokers answer.1
  unlock_brokers
  pure answer.0

unfoldable pub remove_topic : RemoveTopicRequest → Handler (Reply RemoveTopicResponse)
unfolding lock_brokers unlock_brokers
remove_topic req = do
  lock_brokers
  b ← get_brokers
  set_brokers (GoMap.delete b req.topic_name)
  unlock_brokers
  pure (ok (record { response = concat "Topic deleted: " req.topic_name }))

-- The critical section of `AddSubscriber`; `id` is what `utils.SubscriptionID()` returned.
unfoldable pub add_to : SubscriptionId → Topic → Brokers → Reply AddSubscriberResponse × Brokers
unfolding new_queue
add_to id topic b = elim (GoMap.get b topic) [
  | none ↦ (error "topic does not exist", b)
  | some subs ↦ (
    ok (record { response = "Subscriber added"; subscriber_id = id }),
    GoMap.put b topic (GoMap.put subs id new_queue),
  )
]

unfoldable pub add_subscriber :
    SubscriptionId → AddSubscriberRequest → Handler (Reply AddSubscriberResponse)
unfolding lock_brokers unlock_brokers add_to
add_subscriber id req = do
  lock_brokers
  b ← get_brokers
  let answer = add_to id req.topic_name b
  set_brokers answer.1
  unlock_brokers
  pure answer.0

-- `delete(brokers[topic], id)`; on the nil map of a missing topic it is a no-op.
unfoldable pub remove_from : SubscriptionId → Topic → Brokers → Brokers
remove_from id topic b = elim (GoMap.get b topic) [
  | none ↦ b
  | some subs ↦ GoMap.put b topic (GoMap.delete subs id)
]

unfoldable pub remove_subscriber :
    RemoveSubscriberRequest → Handler (Reply RemoveSubscriberResponse)
unfolding lock_brokers unlock_brokers remove_from
remove_subscriber req = do
  lock_brokers
  b ← get_brokers
  set_brokers (remove_from req.subscriber_id req.topic_name b)
  unlock_brokers
  pure (ok (record { response = concat "Removed: " req.subscriber_id }))
