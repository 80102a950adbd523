-- ===== src/Stream/RoundTrip.antt =====
-- `Publish` and then `Consume`: what was published is what is delivered, in order and once.
use quash.GoMap
use quash.GoMap.{GoMap}
use quash.Stream.Publishing.{
  AllVisit, Sendings, Stop, acknowledged, appended, delivered, ending_of, publish_lem, rounds_of,
  values_for,
}
use quash.Messages.{ConsumeResponse, ConsumeRequest}
use quash.Broker.Run.{with_brokers}
use quash.Stream.Draining.{Delivery, delivery, response_of}
use quash.Broker.{queue_at, set_queue}
use quash.Stream.{publish, published, Served, consume, finished, message}
use quash.Stream.Consuming.{consumed, ending_with, consume_lem}
use quash.Handler.{Outcome, Brokers, State, returned}
use quash.Queue.Fifo.{to_list}
use quash.Structs.{SubscriptionId, Topic}
use quash.Queue.{Queue}
use quash.Broker.Slots.{
  CountedAt-if, has-set_queue, AllCounted, CountedAt, mailbox, queue_at-set_queue,
}
use quash.Prelude.{
  sym, eq_refl, ◌++◌, ap, List, Option, Option-cases, String, [], arith, false, if◌then◌else◌, inl,
  inr, is_some, length, map, none, refl, some, subst, suc, true, ℕ, ◌&&◌, ◌<◌, ◌==◌, ◌^◌, ◌∙◌, ◌∷◌,
  ◌≡◌,
}

abbrev pub AllSent : (ℕ → Option String) → Type 0
AllSent send = (i : ℕ) → send i ≡ none

delivery_all :
    (send : ℕ → Option String) (i : ℕ) (vs : List String)
    → AllSent send
    → delivery send i vs ≡ record { sent = map response_of vs; left = []; error = none }
unfolding delivery
delivery_all send i [] h = refl
delivery_all send i (v ∷ vs) h = rw (h i, delivery_all send (suc i) vs h)

mailbox-set_queue :
    (b : Brokers) (topic : Topic) (id : SubscriptionId) (q : Queue)
    → is_some (queue_at b topic id) ≡ true
    → (t : Topic) (i : SubscriptionId)
    → mailbox (set_queue b topic id q) t i
      ≡ (if topic == t && id == i then some (to_list q) else mailbox b t i)
mailbox-set_queue b topic id q there t i =
    rw (queue_at-set_queue b topic id q t i there) (ground arith)

mailbox-queue :
    (b : Brokers) (topic : Topic) (id : SubscriptionId) (l : List String)
    → mailbox b topic id ≡ some l
    → (q : Queue) × (queue_at b topic id ≡ some q) × (to_list q ≡ l)
mailbox-queue b topic id l h = elim (Option-cases (queue_at b topic id)) [
  | inl e ↦ absurd (ground (arith, e, h))
  | inr (q, e) ↦ (q, e, ground (arith, e, h))
]

result_with : State → ConsumeRequest → Queue → Delivery → Outcome (Served ConsumeResponse)
result_with s req q d =
    returned (record { sent = d.sent; ending = ending_with d.error }) (consumed s req q d.error)

abbrev done_with : State → List String → Outcome (Served ConsumeResponse)
done_with s l = returned (record { sent = map response_of l; ending = finished }) s

freed :
    (s : State) (req : ConsumeRequest) (rest : Queue) (l : List String)
    → s.brokers_locked ≡ false
    → result_with s req rest (record { sent = map response_of l; left = []; error = none })
      ≡ done_with (with_brokers s (set_queue s.brokers req.topic_name req.subscriber_id rest)) l
unfolding result_with
freed s req rest l free = rw free

-- What a whole `Consume` does: everything queued is sent, and the queue is empty afterwards.
pub record ConsumesAll (s : State) (req : ConsumeRequest) (send : ℕ → Option String)
    (l : List String) : Type 0 where
  pub brokers : Brokers
  pub ran : consume (message req) send s ≡ done_with (with_brokers s brokers) l
  pub boxes :
      (t : Topic) (i : SubscriptionId)
      → mailbox brokers t i
        ≡ (if req.topic_name == t && req.subscriber_id == i then some [] else mailbox s.brokers t i)
  pub topics : (t : Topic) → GoMap.has brokers t ≡ GoMap.has s.brokers t
  pub counted : AllCounted brokers

-- From a state whose `brokersLock` is free and whose queues are counted, a `Consume` of an
-- existing subscription with fewer than 2 ^ 63 values queued, no `Send` of which fails, sends all
-- of them, oldest first, leaves its queue empty, leaves every other queue and the topics as they
-- were, the lock free and every queue counted.
pub consume_all :
    (s : State) (req : ConsumeRequest) (send : ℕ → Option String) (l : List String)
    → s.brokers_locked ≡ false
    → AllCounted s.brokers
    → AllSent send
    → mailbox s.brokers req.topic_name req.subscriber_id ≡ some l
    → length l < 2 ^ 63
    → ConsumesAll s req send l
unfolding result_with
consume_all s req send l free counted works holds small =
    let topic = req.topic_name in
    let id = req.subscriber_id in
    let (q, there, is) = mailbox-queue s.brokers topic id l holds in
    let w =
      consume_lem s free req send q there (subst CountedAt there (counted topic id))
        (rw is small) in
    let all = delivery_all send 0 (to_list q) works in
    let b' = set_queue s.brokers topic id w.rest in
    record {
      brokers = b';
      ran =
          w.ran
          ∙ ap (result_with s req w.rest) all
          ∙ freed s req w.rest (to_list q) free
          ∙ ap (done_with (with_brokers s b')) is;
      boxes = λ t i. mailbox-set_queue s.brokers topic id w.rest (rw there) t i ∙ rw (w.left, all);
      topics = λ t. has-set_queue s.brokers topic id w.rest t;
      counted = λ t i.
          subst CountedAt (sym (queue_at-set_queue s.brokers topic id w.rest t i (rw there))) (
            CountedAt-if (topic == t && id == i) (some w.rest) (queue_at s.brokers t i) w.counted
              (counted t i));
    }

-- A `Publish` stream, however it stops, and then a `Consume` of an existing subscription, no
-- `Send` of which fails: the consumer gets what was queued before and then the values of the
-- stream for its topic, in order, each once, and its queue is empty afterwards. The stream starts
-- from a state whose `brokersLock` is free and whose queues are counted, its `range` loops visit
-- every subscriber once, and fewer than 2 ^ 63 values wait at the `Consume`.
pub publish-consume :
    (ms : Sendings) (stop : Stop) (s : State) (req : ConsumeRequest) (send : ℕ → Option String)
    (l : List String)
    → s.brokers_locked ≡ false
    → AllCounted s.brokers
    → AllVisit (delivered ms stop) s.brokers
    → AllSent send
    → mailbox s.brokers req.topic_name req.subscriber_id ≡ some l
    → length (l ++ values_for req.topic_name (delivered ms stop)) < 2 ^ 63
    → (b1 b2 : Brokers) × (publish (rounds_of ms stop) s
        ≡ returned (record { sent = acknowledged ms; ending = ending_of stop }) (with_brokers s b1))
      × (consume (message req) send (with_brokers s b1)
          ≡ returned
              (record {
                sent = map response_of (l ++ values_for req.topic_name (delivered ms stop));
                ending = finished;
              })
              (with_brokers s b2))
      × (mailbox b2 req.topic_name req.subscriber_id ≡ some [])
publish-consume ms stop s req send l free counted visits works holds small =
    let (b1, published, d, counted') = publish_lem ms stop s free counted visits in
    let c =
      consume_all (with_brokers s b1) req send _ free counted' works
        (d.boxes req.topic_name req.subscriber_id ∙ ap (appended _) holds) small in
    (b1, c.brokers, published, c.ran, c.boxes req.topic_name req.subscriber_id ∙ simp eq_refl)
