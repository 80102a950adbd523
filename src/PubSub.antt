-- ===== src/PubSub.antt =====
-- The broker as a whole: sequences of topic calls, `Publish` streams and `Consume` calls, and the
-- specification that they implement.
pub mod Seen
pub mod Spec
pub mod Refine
pub mod Concurrent
pub mod Consuming
pub mod Serial
pub mod Sessions
pub mod Linear
pub mod Jam
pub mod Boxes
pub mod Conserving
pub mod Delivery
pub mod Fitting
mod Tests
mod ConcurrentTests
mod DeliveryTests
use quash.Structs.{SubscriptionId}
use quash.Broker.{add_subscriber, create_topic, remove_subscriber, remove_topic}
use quash.Stream.Publishing.{Sendings, Stop, rounds_of}
use quash.Prelude.{List, Option, String, [], ℕ, ◌∷◌}
use quash.Stream.{Served, consume, message, publish}
use quash.Handler.{Handler, Reply, pure, ◌>>=◌, ◌>>◌}
use quash.Messages.{
  AddSubscriberRequest, AddSubscriberResponse, ConsumeRequest, ConsumeResponse, CreateTopicRequest,
  CreateTopicResponse, PublishResponse, RemoveSubscriberRequest, RemoveSubscriberResponse,
  RemoveTopicRequest, RemoveTopicResponse,
}

-- One call with what its environment contributes: the new identifier of `AddSubscriber`, the
-- messages of a `Publish` stream with its orders and its stop, the outcomes of `Send`.
pub data Call : Type 0 where
  creates : CreateTopicRequest → Call
  removes : RemoveTopicRequest → Call
  adds : SubscriptionId → AddSubscriberRequest → Call
  unsubscribes : RemoveSubscriberRequest → Call
  publishes : Sendings → Stop → Call
  consumes : ConsumeRequest → (ℕ → Option String) → Call

-- What the caller sees.
pub data Answer : Type 0 where
  created : Reply CreateTopicResponse → Answer
  removed : Reply RemoveTopicResponse → Answer
  added : Reply AddSubscriberResponse → Answer
  unsubscribed : Reply RemoveSubscriberResponse → Answer
  acked : Served PublishResponse → Answer
  got : Served ConsumeResponse → Answer

unfoldable pub serve : Call → Handler Answer
serve (creates req) = do a ← create_topic req; pure (created a)
serve (removes req) = do a ← remove_topic req; pure (removed a)
serve (adds id req) = do a ← add_subscriber id req; pure (added a)
serve (unsubscribes req) = do a ← remove_subscriber req; pure (unsubscribed a)
serve (publishes ms stop) = do a ← publish (rounds_of ms stop); pure (acked a)
serve (consumes req send) = do a ← consume (message req) send; pure (got a)

unfoldable pub session : List Call → Handler (List Answer)
session [] = pure []
session (call ∷ calls) = do a ← serve call; rest ← session calls; pure (a ∷ rest)
