-- ===== src/PubSub/Concurrent.antt =====
-- The topic handlers and the rounds of `Publish` in goroutines of their own, an access at a time
-- under `brokersLock`; and `Consume`, from its `Lock` on, and the part of `Snapshot` that counts what
-- is queued. `none` is what a panic leaves: a process that has died.
use quash.Telemetry.{count_topic, count_topics}
use quash.Queue
use quash.GoMap
use quash.GoMap.{GoMap}
use quash.Stream.{Ending, Served, broken, consume_queue, finished, rounds_below, broadcast}
use quash.Goroutines.{Code, abandon, access, line, unlock, Access}
use quash.Handler.{
  get_brokers, lock_brokers, unlock_brokers, Brokers, Handler, Reply, error, ok, pure, ◌>>=◌, ◌>>◌,
}
use quash.Messages.{
  ConsumeRequest, ConsumeResponse, AddSubscriberRequest, AddSubscriberResponse, CreateTopicRequest,
  CreateTopicResponse, PublishRequest, RemoveSubscriberRequest, RemoveSubscriberResponse,
  RemoveTopicRequest, RemoveTopicResponse,
}
use quash.Queue.{count, Queue}
use quash.Structs.{SubscriptionId, Topic}
use quash.Prelude.{
  suc, zero, ℕ, Bool, List, Option, String, [], concat, false, none, some, true, ◌++◌, ◌∷◌,
}
use quash.Broker.{
  add_subscriber, add_to, create_topic, queue_at, remove_from, remove_subscriber, remove_topic,
  set_queue,
}

pub data BrokerCall : Type 0 where
  creating : CreateTopicRequest → BrokerCall
  removing : RemoveTopicRequest → BrokerCall
  adding : SubscriptionId → AddSubscriberRequest → BrokerCall
  unsubscribing : RemoveSubscriberRequest → BrokerCall
  broadcasting : List SubscriptionId → PublishRequest → BrokerCall
  consuming : ConsumeRequest → (ℕ → Option String) → BrokerCall
  counting : List Topic → (Topic → List SubscriptionId) → BrokerCall

pub data BrokerAnswer : Type 0 where
  on_create : Reply CreateTopicResponse → BrokerAnswer
  on_remove : Reply RemoveTopicResponse → BrokerAnswer
  on_add : Reply AddSubscriberResponse → BrokerAnswer
  on_unsubscribe : Reply RemoveSubscriberResponse → BrokerAnswer
  on_broadcast : BrokerAnswer
  on_consume : Served ConsumeResponse → BrokerAnswer
  on_count : GoMap (GoMap ℕ) → BrokerAnswer
  died : BrokerAnswer

-- The whole handlers, and the critical section of `Snapshot` that counts what is queued.
unfoldable pub broker_serve : BrokerCall → Handler BrokerAnswer
unfolding lock_brokers unlock_brokers
broker_serve (creating req) = do a ← create_topic req; pure (on_create a)
broker_serve (removing req) = do a ← remove_topic req; pure (on_remove a)
broker_serve (adding id req) = do a ← add_subscriber id req; pure (on_add a)
broker_serve (unsubscribing req) = do a ← remove_subscriber req; pure (on_unsubscribe a)
broker_serve (broadcasting order req) = do broadcast order req; pure on_broadcast
broker_serve (consuming req send) = do a ← consume_queue req send; pure (on_consume a)
broker_serve (counting order orders) = do
  lock_brokers
  b ← get_brokers
  let topics = count_topics order orders b []
  unlock_brokers
  pure (on_count topics)

unfoldable pub broker_session : List BrokerCall → Handler (List BrokerAnswer)
broker_session [] = pure []
broker_session (c ∷ cs) = do a ← broker_serve c; rest ← broker_session cs; pure (a ∷ rest)

-- What a goroutine knows: whether its topic was there, the count and the value that `Consume` has
-- from its queue, if there is one, what it has sent, what `Snapshot` has counted, and the answers
-- it has got.
pub record BrokerLocal : Type 0 where
  pub present : Bool
  pub counted : Option ℕ
  pub popped : Option String
  pub responses : List ConsumeResponse
  pub counts : GoMap (GoMap ℕ)
  pub heard : List BrokerAnswer

abbrev pub no_broker_local : BrokerLocal
no_broker_local = record {
  present = false;
  counted = none;
  popped = none;
  responses = [];
  counts = [];
  heard = [];
}

abbrev pub BrokerAccess : Type 0
BrokerAccess = Access (Option Brokers) BrokerLocal

abbrev pub hear : BrokerAnswer → BrokerLocal → BrokerLocal
hear a l = record l { heard = l.heard ++ a ∷ [] }

-- `_, ok := brokers[topic]`
abbrev pub look_for : Topic → BrokerAccess
look_for topic none l = (none, l)
look_for topic (some b) l = (some b, record l { present = GoMap.has b topic })

-- The write and the return of `CreateTopic` and of `AddSubscriber`, by what `ok` was.
unfoldable pub create_if : Bool → Topic → Brokers → BrokerAnswer × Brokers
create_if true topic b = (on_create (error "topic already exists"), b)
create_if false topic b =
    (on_create (ok (record { response = concat "Topic created: " topic })), GoMap.put b topic [])

unfoldable pub add_if : Bool → SubscriptionId → Topic → Brokers → BrokerAnswer × Brokers
add_if false id topic b = (on_add (error "topic does not exist"), b)
add_if true id topic b = (on_add (add_to id topic b).0, (add_to id topic b).1)

-- The last access of a call, which returns too.
abbrev pub finishing : (BrokerLocal → Brokers → BrokerAnswer × Brokers) → BrokerAccess
finishing f none l = (none, hear died l)
finishing f (some b) l = let d = f l b in (some d.1, hear d.0 l)

-- `brokers[topic][id].Push(v)`
unfoldable pub push_at : Topic → String → SubscriptionId → Option Brokers → Option Brokers
push_at topic v id none = none
push_at topic v id (some b) = elim (queue_at b topic id) [
  | none ↦ none
  | some q ↦ some (set_queue b topic id (Queue.push q v))
]

abbrev pub push_accesses : Topic → String → List SubscriptionId → List BrokerAccess
push_accesses topic v [] = finishing (λ l b. (on_broadcast, b)) ∷ []
push_accesses topic v (id ∷ ids) = (λ o l. (push_at topic v id o, l)) ∷ push_accesses topic v ids

abbrev pub BrokerCode : Type 0
BrokerCode = Code (Option Brokers) BrokerLocal

-- A panic ends the process: it leaves `none` for the brokers, and what the goroutines may do after
-- it means nothing.
abbrev pub dies : BrokerCode
dies = access (λ o l. (none, hear died l)) (λ l. unlock)

-- `q := brokers[topic][id]` and `q.Count()`.
abbrev pub count_of : Option Queue → Option ℕ
count_of none = none
count_of (some q) = some (Queue.count q)

unfoldable pub count_at : Topic → SubscriptionId → BrokerAccess
count_at topic id none l = (none, record l { counted = none; responses = [] })
count_at topic id (some b) l =
    (some b, record l { counted = count_of (queue_at b topic id); responses = [] })

-- `q.Pop()`, where a panic leaves no value.
unfoldable pub pop_at : Topic → SubscriptionId → BrokerAccess
pop_at topic id none l = (none, record l { popped = none })
pop_at topic id (some b) l = elim (queue_at b topic id) [
  | none ↦ (some b, record l { popped = none })
  | some q ↦ elim (Queue.pop q) [
    | none ↦ (some b, record l { popped = none })
    | some (val, rest) ↦ (some (set_queue b topic id rest), record l { popped = some val })
  ]
]

abbrev pub consume_answer : Ending → BrokerLocal → Brokers → BrokerAnswer × Brokers
consume_answer ending l b = (on_consume (record { sent = l.responses; ending = ending }), b)

-- After a `Pop`, by the error of the `Send`: a return without `Unlock`, or the next round. The `Send`
-- returns: that it may wait for a client that does not read is left out.
unfoldable pub send_then : BrokerCode → Option String → Option String → BrokerCode
send_then more send_error none = dies
send_then more (some err) (some val) =
    access (finishing (consume_answer (broken err))) (λ l. abandon)
send_then more none (some val) =
    access (λ o l. (o, record l { responses = l.responses ++ record { response = val } ∷ [] }))
      (λ l. more)

-- The loop of `Consume` with so many rounds to go; the next `Send` is the `i`-th.
unfoldable pub pop_rounds : ConsumeRequest → (ℕ → Option String) → ℕ → ℕ → BrokerCode
unfolding pop_at send_then
pop_rounds req send zero i = access (finishing (consume_answer finished)) (λ l. unlock)
pop_rounds req send (suc rounds) i =
    let more = pop_rounds req send rounds (suc i) in
    access (pop_at req.topic_name req.subscriber_id) (λ l. send_then more (send i) l.popped)

unfoldable pub count_then : ConsumeRequest → (ℕ → Option String) → Option ℕ → BrokerCode
unfolding pop_rounds
count_then req send none = dies
count_then req send (some count) = pop_rounds req send (rounds_below count) 0

-- The loop of `Snapshot` over the topics, a topic at a time.
unfoldable pub count_one : List SubscriptionId → Topic → BrokerAccess
count_one order name none l = (none, l)
count_one order name (some b) l = (some b, record l { counts = count_topic order b l.counts name })

abbrev pub count_accesses : (Topic → List SubscriptionId) → List Topic → List BrokerAccess
count_accesses orders [] = finishing (λ l b. (on_count l.counts, b)) ∷ []
count_accesses orders (name ∷ order) = count_one (orders name) name ∷ count_accesses orders order

-- A call from `brokersLock.Lock` on.
unfoldable pub broker_code : BrokerCall → BrokerCode
unfolding create_if add_if push_at count_at count_then count_one
broker_code (creating req) =
    line (look_for req.topic_name ∷ finishing (λ l b. create_if l.present req.topic_name b) ∷ [])
broker_code (removing req) = line (
    finishing (λ l b. (
      on_remove (ok (record { response = concat "Topic deleted: " req.topic_name })),
      GoMap.delete b req.topic_name,
    ))
    ∷ [])
broker_code (adding id req) =
    line (look_for req.topic_name ∷ finishing (λ l b. add_if l.present id req.topic_name b) ∷ [])
broker_code (unsubscribing req) = line (
    finishing (λ l b. (
      on_unsubscribe (ok (record { response = concat "Removed: " req.subscriber_id })),
      remove_from req.subscriber_id req.topic_name b,
    ))
    ∷ [])
broker_code (broadcasting order req) = line (push_accesses req.topic_name req.value order)
broker_code (consuming req send) =
    access (count_at req.topic_name req.subscriber_id) (λ l. count_then req send l.counted)
broker_code (counting order orders) =
    line ((λ o l. (o, record l { counts = [] })) ∷ count_accesses orders order)
