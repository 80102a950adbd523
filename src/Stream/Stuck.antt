-- ===== src/Stream/Stuck.antt =====
-- The two ways in which one `Consume` takes the server down.
use quash.Broker.Slots.{AllCounted, CountedAt, mailbox}
use quash.Stream.Publishing.{round_of}
use quash.Queue.{Queue}
use quash.Stream.Consuming.{section_lem, consumed, ending_with, consume_lem}
use quash.Stream.Draining.{drain-SendsFront, response_of, delivery}
use quash.Structs.{SubscriptionId}
use quash.Queue.Fifo.{IsCounted, to_list}
use quash.Stream.{Served, rounds_below, Round, broadcast, broken, consume, message, publish}
use quash.Prelude.{
  arith, map, refl, subst, ◌++◌, ◌≤◌, ap, ◌∙◌, List, Option, String, false, length, none, some,
  true, ℕ, ◌<◌, ◌^◌, ◌∷◌, ◌≡◌,
}
use quash.Handler.{Outcome, State, blocked, panicked, returned}
use quash.Messages.{
  ConsumeResponse, AddSubscriberRequest, ConsumeRequest, CreateTopicRequest, PublishRequest,
  RemoveSubscriberRequest, RemoveTopicRequest,
}
use quash.Broker.{add_subscriber, create_topic, queue_at, remove_subscriber, remove_topic}

rounds_below-length : (q : Queue) → IsCounted q → rounds_below q.counter ≤ length (to_list q)
rounds_below-length q c = ground (arith, c)

-- What a `Consume` does by the subscription's values: it panics where there is no subscription, and
-- else returns, having sent a front of them in order.
abbrev pub PanicsOrSends : Option (List String) → Outcome (Served ConsumeResponse) → Type 0
PanicsOrSends none o = o ≡ panicked
PanicsOrSends (some l) o =
    (r : Served ConsumeResponse) × (s' : State) × (o ≡ returned r s')
    × (rest : List ConsumeResponse) × (map response_of l ≡ r.sent ++ rest)

-- From a state whose `brokersLock` is free and whose queues are counted, a `Consume` panics if the
-- topic or the subscriber is unknown, and in no other case: else it returns, whatever its `Send`s
-- give and however many values wait, and what it has sent is a front of them, in order.
pub consume_panics_exactly :
    (s : State) (req : ConsumeRequest) (send : ℕ → Option String)
    → s.brokers_locked ≡ false
    → AllCounted s.brokers
    → PanicsOrSends
        (mailbox s.brokers req.topic_name req.subscriber_id)
        (consume (message req) send s)
unfolding consume
consume_panics_exactly s req send free counted =
    by_queue (queue_at s.brokers req.topic_name req.subscriber_id) refl
      (counted req.topic_name req.subscriber_id)
  where
    by_queue :
        (o : Option Queue)
        → queue_at s.brokers req.topic_name req.subscriber_id ≡ o
        → CountedAt (queue_at s.brokers req.topic_name req.subscriber_id)
        → PanicsOrSends
            (mailbox s.brokers req.topic_name req.subscriber_id)
            (consume (message req) send s)
    by_queue none missing c = rw (free, missing) refl
    by_queue (some q) there c =
        let (d, drained, kept, front) =
          drain-SendsFront (rounds_below q.counter) 0 send q
            (rounds_below-length q (subst CountedAt there c)) in
        rw there (_, _, section_lem s free req send q d there drained, kept, front)

-- A state whose `brokersLock` is held blocks every handler that wants it, and none of them changes
-- the state.
pub record IsStuck (s : State) : Type 0 where
  pub create : (req : CreateTopicRequest) → create_topic req s ≡ blocked s
  pub remove : (req : RemoveTopicRequest) → remove_topic req s ≡ blocked s
  pub add : (id : SubscriptionId) (req : AddSubscriberRequest) → add_subscriber id req s ≡ blocked s
  pub unsubscribe : (req : RemoveSubscriberRequest) → remove_subscriber req s ≡ blocked s
  pub publishing :
      (req : PublishRequest) (order : List SubscriptionId) (e : Option String) (rounds : List Round)
      → publish (round_of (message req) order e ∷ rounds) s ≡ blocked s
  pub consuming :
      (req : ConsumeRequest) (send : ℕ → Option String) → consume (message req) send s ≡ blocked s

held-IsStuck : (s : State) → s.brokers_locked ≡ true → IsStuck s
unfolding create_topic remove_topic add_subscriber remove_subscriber publish broadcast consume
held-IsStuck s held = record {
  create = λ req. rw held;
  remove = λ req. rw held;
  add = λ id req. rw held;
  unsubscribe = λ req. rw held;
  publishing = λ req order e rounds. rw held;
  consuming = λ req send. rw held;
}

-- From a state whose `brokersLock` is free, a `Consume` of a counted queue with fewer than 2 ^ 63
-- values, one `Send` of which fails, returns the error with the lock still held: from then on
-- every handler that takes `brokersLock` blocks and changes nothing.
pub consume_send_fails :
    (s : State) (req : ConsumeRequest) (send : ℕ → Option String) (q : Queue) (e : String)
    → s.brokers_locked ≡ false
    → queue_at s.brokers req.topic_name req.subscriber_id ≡ some q
    → IsCounted q
    → length (to_list q) < 2 ^ 63
    → (delivery send 0 (to_list q)).error ≡ some e
    → (s' : State) × (consume (message req) send s
        ≡ returned (record { sent = (delivery send 0 (to_list q)).sent; ending = broken e }) s')
      × IsStuck s'
consume_send_fails s req send q e free there c small fails =
    let w = consume_lem s free req send q there c small in
    let sent = (delivery send 0 (to_list q)).sent in
    let s' = consumed s req w.rest (delivery send 0 (to_list q)).error in
    (
      s',
      w.ran
          ∙ ap (λ (o : Option String). returned (record { sent = sent; ending = ending_with o }) s')
              fails,
      held-IsStuck s' (rw fails),
    )
