-- ===== src/PubSub/Boxes.antt =====
-- What waits for a subscription, and the loops of `Publish` and `Consume` on it.
use quash.Queue
use quash.Stream.Draining.{response_of}
use quash.PubSub.Consuming.{drain-empty, drain-value}
use quash.PubSub.Serial.{push_each-none, push_each-some}
use quash.Queue.{Queue}
use quash.Broker.{set_queue, queue_at}
use quash.Stream.Publishing.{delivered}
use quash.Structs.{SubscriptionId, Topic}
use quash.Messages.{ConsumeResponse}
use quash.Stream.{Drained, after_send, drain, published, push_each}
use quash.Queue.Fifo.{to_list-push, pop-Pops, to_list}
use quash.Handler.{Brokers}
use quash.PubSub.Concurrent.{
  counting, BrokerAnswer, BrokerCall, adding, broadcasting, consuming, creating, on_consume,
  removing, unsubscribing,
}
use quash.Prelude.{
  append_assoc, eq_iff, refl, sym, ◌∙◌, List, Option, Option-cases, String, [], append-nil, arith,
  false, if◌then◌else◌, inl, inr, none, some, suc, zero, ℕ, ◌&&◌, ◌++◌, ◌==◌, ◌∷◌, ◌≡◌,
}
use quash.Broker.Slots.{queue_at-set_queue, mailbox}

-- A call leaves the subscription there: it does not remove the topic or the subscriber, and does not
-- make the subscriber anew.
abbrev pub Keeps : Topic → SubscriptionId → BrokerCall → Type 0
Keeps topic id (removing req) = (req.topic_name == topic) ≡ false
Keeps topic id (adding i req) = (req.topic_name == topic && i == id) ≡ false
Keeps topic id (unsubscribing req) = (req.topic_name == topic && req.subscriber_id == id) ≡ false
Keeps topic id (creating req) = Unit
Keeps topic id (broadcasting order req) = Unit
Keeps topic id (consuming req send) = Unit
Keeps topic id (counting order orders) = Unit

-- A value for each visit that the loop of a round pays to the subscriber.
abbrev pub visits : SubscriptionId → String → List SubscriptionId → List String
visits id v [] = []
visits id v (j ∷ order) = let more = visits id v order in if j == id then v ∷ more else more

-- What a call publishes to the subscription.
abbrev pub published_by : Topic → SubscriptionId → BrokerCall → List String
published_by topic id (broadcasting order req) =
    if req.topic_name == topic then visits id req.value order else []
published_by topic id c = []

abbrev pub values_in : List ConsumeResponse → List String
values_in [] = []
values_in (r ∷ rs) = r.response ∷ values_in rs

abbrev pub answered : BrokerAnswer → List String
answered (on_consume served) = values_in served.sent
answered a = []

-- What a call delivers of the subscription.
abbrev pub delivered_by : Topic → SubscriptionId → BrokerCall → BrokerAnswer → List String
delivered_by topic id (consuming req send) a =
    if req.topic_name == topic && req.subscriber_id == id then answered a else []
delivered_by topic id c a = []

-- `l` waits before, and `published` is what comes: what is delivered and what waits then is the
-- same, in the same order.
abbrev pub Conserves : Option (List String) → List String → List String → List String → Type 0
Conserves box l published delivered =
    (rest : List String) × (box ≡ some rest) × (l ++ published ≡ delivered ++ rest)

-- Nothing published and nothing delivered.
pub same_box : (box : Option (List String)) (l : List String) → box ≡ some l → Conserves box l [] []
same_box box l e = (l, e, append-nil l)

-- One more value in the loop of a round, for the subscription or for another.
push-mailbox :
    (topic t : Topic) (id j : SubscriptionId) (v : String) (b : Brokers) (q : Queue)
    (l : List String)
    → mailbox b topic id ≡ some l
    → queue_at b t j ≡ some q
    → mailbox (set_queue b t j (Queue.push q v)) topic id
      ≡ some (if t == topic && j == id then l ++ v ∷ [] else l)
push-mailbox topic t id j v b q l boxed there = ground (
  arith,
  boxed,
  there,
  eq_iff t topic,
  eq_iff j id,
  to_list-push q v,
  queue_at-set_queue b t j (Queue.push q v) topic id,
)

module _ (topic t : Topic) (id : SubscriptionId) (v : String) where
  -- The loop of a round of `Publish`.
  pub push_each-mailbox :
      (order : List SubscriptionId) (b b' : Brokers) (l : List String)
      → mailbox b topic id ≡ some l
      → push_each t order v b ≡ some b'
      → mailbox b' topic id ≡ some (l ++ (if t == topic then visits id v order else []))
  unfolding push_each
  push_each-mailbox [] b b' l boxed ran = ground (arith, boxed, ran, append-nil l)
  push_each-mailbox (j ∷ order) b b' l boxed ran = elim (Option-cases (queue_at b t j)) [
    | inl e ↦ absurd (ground (arith, push_each-none t v j b order e, ran))
    | inr (q, e) ↦ ground (
      arith,
      append_assoc l (v ∷ []) (visits id v order),
      push_each-mailbox order (set_queue b t j (Queue.push q v)) b'
          (if t == topic && j == id then l ++ v ∷ [] else l)
          (push-mailbox topic t id j v b q l boxed e)
          (sym (push_each-some t v j b order q e) ∙ ran),
    )
  ]

-- A round of the loop of `Consume` that was not broken off, and the rounds after it.
pub record Sends (x : String) (o : Option Drained) (d : Drained) : Type 0 where
  pub more : Drained
  pub went_on : o ≡ some more
  pub fine : more.send_error ≡ none
  pub responses : d.responses ≡ response_of x ∷ more.responses
  pub queue : d.queue ≡ more.queue

pub after_send-Sends :
    (x : String) (rest : Queue) (e : Option String) (o : Option Drained) (d : Drained)
    → after_send x rest e o ≡ some d
    → d.send_error ≡ none
    → Sends x o d
unfolding after_send
after_send-Sends x rest (some err) o d ran fine = absurd (ground (arith, ran, fine))
after_send-Sends x rest none none d ran fine = absurd (ground (arith, ran))
after_send-Sends x rest none (some m) d ran fine = record {
  more = m;
  went_on = refl;
  fine = ground (arith, ran, fine);
  responses = ground (arith, ran);
  queue = ground (arith, ran);
}

-- The loop of `Consume`.
pub drain-values :
    (rounds i : ℕ) (send : ℕ → Option String) (q : Queue) (d : Drained)
    → drain rounds i send q ≡ some d
    → d.send_error ≡ none
    → to_list q ≡ values_in d.responses ++ to_list d.queue
unfolding drain
drain-values zero i send q d ran fine = ground (arith, ran)
drain-values (suc rounds) i send q d ran fine = elim (pop-Pops q) [
  | inl (empty, e) ↦ absurd (ground (arith, drain-empty rounds i send q e, ran))
  | inr (x, rest, split, popped, counted) ↦
      let s =
        after_send-Sends x rest (send i) (drain rounds (suc i) send rest) d
          (sym (drain-value rounds i send q x rest popped) ∙ ran) fine in
      let ih = drain-values rounds (suc i) send rest s.more s.went_on s.fine in
      ground (arith, split, ih, s.responses, s.queue)
]
