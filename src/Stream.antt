-- ===== src/Stream.antt =====
-- The two streaming handlers, `Publish` and `Consume`, of server/quashserver/quashserver.go.
-- What the stream answers is given beforehand: what each `Recv` returns, and whether each `Send`
-- fails.
pub mod Broadcast
pub mod Publishing
pub mod Draining
pub mod Consuming
pub mod Stuck
pub mod RoundTrip
mod Tests
use quash.Messages.{ConsumeRequest, ConsumeResponse, PublishRequest, PublishResponse}
use quash.Structs.{SubscriptionId, Topic}
use quash.Handler.{
  Brokers, Handler, get_brokers, lock_brokers, panic, pure, set_brokers, unlock_brokers, ◌>>=◌,
  ◌>>◌,
}
use quash.Prelude.{
  List, Option, String, [], concat, if◌then◌else◌, ltb, none, some, suc, zero, ℕ, ◌^◌, ◌∷◌,
}
use quash.Broker.{queue_at, set_queue}
use quash.Queue
use quash.Queue.{count, Queue}

pub data Received (A : Type 0) : Type 0 where
  message : A → Received A
  eof : Received A
  failed : String → Received A

-- How a handler ended: by `return nil`, by `return err`, or not yet, in a `Recv`.
pub data Ending : Type 0 where
  finished : Ending
  broken : String → Ending
  waiting : Ending

-- What was sent, oldest first, and the ending.
pub record Served (A : Type 0) : Type 0 where
  pub sent : List A
  pub ending : Ending

-- The `range` loop of `Publish`: a push to `brokers[topic][id]` for each `id`. `none` is the panic
-- of a push to a nil queue.
unfoldable pub push_each : Topic → List SubscriptionId → String → Brokers → Option Brokers
push_each topic [] v b = some b
push_each topic (id ∷ ids) v b = elim (queue_at b topic id) [
  | none ↦ none
  | some q ↦ push_each topic ids v (set_queue b topic id (Queue.push q v))
]

-- A panic in the loop ends the handler where it stands.
abbrev store_brokers : Option Brokers → Handler (Unit {0})
store_brokers none = panic
store_brokers (some b) = set_brokers b

-- The critical section of one round of `Publish`, which visits the subscribers in `order`.
unfoldable pub broadcast : List SubscriptionId → PublishRequest → Handler (Unit {0})
unfolding lock_brokers unlock_brokers
broadcast order req = do
  lock_brokers
  b ← get_brokers
  store_brokers (push_each req.topic_name order req.value b)
  unlock_brokers

abbrev pub published : PublishRequest → PublishResponse
published req = record {
  response = concat "Published: " (concat req.value (concat " to Topic: " req.topic_name));
}

-- One round of the loop of `Publish`: what `Recv` returns, the order of the `range`, and the error
-- of `Send`, if it fails.
pub record Round : Type 0 where
  pub received : Received PublishRequest
  pub order : List SubscriptionId
  pub send_error : Option String

abbrev sent_first : {A : Type 0} → A → Served A → Served A
sent_first a r = record r { sent = a ∷ r.sent }

-- The rest of a round, after the broadcast: the acknowledgement, and the next rounds.
abbrev acknowledge :
    PublishRequest
    → Option String
    → Handler (Served PublishResponse)
    → Handler (Served PublishResponse)
acknowledge req (some e) rest = pure (record { sent = []; ending = broken e })
acknowledge req none rest = do r ← rest; pure (sent_first (published req) r)

-- Where no round is left the handler waits in `Recv`.
unfoldable pub publish : List Round → Handler (Served PublishResponse)
publish [] = pure (record { sent = []; ending = waiting })
publish (r ∷ rounds) = elim r.received [
  | eof ↦ pure (record { sent = []; ending = finished })
  | failed e ↦ pure (record { sent = []; ending = broken e })
  | message req ↦ do broadcast r.order req; acknowledge req r.send_error (publish rounds)
]

-- What the loop of `Consume` leaves: the queue, what was sent, and the error of the `Send` that
-- broke it off.
pub record Drained : Type 0 where
  pub queue : Queue
  pub responses : List ConsumeResponse
  pub send_error : Option String

-- After one `Send`: its error ends the loop, and else the value stands before what is sent next.
unfoldable pub after_send : String → Queue → Option String → Option Drained → Option Drained
after_send val rest (some e) more =
    some (record { queue = rest; responses = []; send_error = some e })
after_send val rest none none = none
after_send val rest none (some d) =
    some (record d { responses = record { response = val } ∷ d.responses })

-- The loop: `rounds` times a `Pop` and a `Send`. `send i` is the error of the `i`-th `Send`, and
-- `none` as a result is the panic of a `Pop` from an empty queue.
unfoldable pub drain : ℕ → ℕ → (ℕ → Option String) → Queue → Option Drained
unfolding after_send
drain zero i send q = some (record { queue = q; responses = []; send_error = none })
drain (suc rounds) i send q = elim (Queue.pop q) [
  | none ↦ none
  | some (val, rest) ↦ after_send val rest (send i) (drain rounds (suc i) send rest)
]

-- `i < count` on an int: the rounds of a loop up to the number that the pattern stands for.
abbrev pub rounds_below : ℕ → ℕ
rounds_below count = if ltb count (2 ^ 63) then count else 0

-- The return from `Consume`: on a failed `Send` it comes before the `Unlock`.
unfoldable pub leave : List ConsumeResponse → Option String → Handler (Served ConsumeResponse)
unfolding unlock_brokers
leave responses (some e) = pure (record { sent = responses; ending = broken e })
leave responses none = do unlock_brokers; pure (record { sent = responses; ending = finished })

-- What the loop did to the queue is done to the queue of the map.
unfoldable pub write_back :
    ConsumeRequest → Brokers → Option Drained → Handler (Served ConsumeResponse)
unfolding leave
write_back req b none = panic
write_back req b (some d) = do
  set_brokers (set_queue b req.topic_name req.subscriber_id d.queue)
  leave d.responses d.send_error

-- A nil queue panics in `Count`.
unfoldable pub take_all :
    ConsumeRequest → (ℕ → Option String) → Brokers → Option Queue → Handler (Served ConsumeResponse)
unfolding write_back Queue.count
take_all req send b none = panic
take_all req send b (some q) = write_back req b (drain (rounds_below (Queue.count q)) 0 send q)

-- From the `Lock` on.
unfoldable pub consume_queue :
    ConsumeRequest → (ℕ → Option String) → Handler (Served ConsumeResponse)
unfolding lock_brokers take_all
consume_queue req send = do
  lock_brokers
  b ← get_brokers
  take_all req send b (queue_at b req.topic_name req.subscriber_id)

unfoldable pub consume :
    Received ConsumeRequest → (ℕ → Option String) → Handler (Served ConsumeResponse)
unfolding consume_queue
consume eof send = pure (record { sent = []; ending = finished })
consume (failed e) send = pure (record { sent = []; ending = broken e })
consume (message req) send = consume_queue req send
