-- ===== src/Stream/Broadcast.antt =====
-- One message of `Publish`: every subscriber of the topic gets one copy, at the end of its queue.
use quash.Messages.{PublishRequest}
use quash.Broker.Run.{with_brokers}
use quash.Handler.{State, returned, Brokers}
use quash.GoMap.{GoMap}
use quash.Queue.{Queue}
use quash.GoMap.Range.{Uniq, contains}
use quash.Broker.Slots.{queue_at-set_queue, has-set_queue}
use quash.Stream.{broadcast, push_each}
use quash.Structs.{SubscriptionId, Topic}
use quash.Prelude.{
  eq_iff, eq_refl, false, sym, List, Option, Option-cases, String, [], arith, if◌then◌else◌, inl,
  inr, is_some, none, refl, some, true, ◌&&◌, ◌==◌, ◌∙◌, ◌∷◌, ◌≡◌,
}
use quash.Broker.{queue_at, set_queue}
use quash.GoMap
use quash.Queue

-- An order of the `range` over the subscribers of a topic.
abbrev pub Visits : List SubscriptionId → Brokers → Topic → Type 0
Visits order b topic =
    Uniq order × ((i : SubscriptionId) → contains order i ≡ is_some (queue_at b topic i))

abbrev pub pushed : String → Option Queue → Option Queue
pushed v none = none
pushed v (some q) = some (Queue.push q v)

-- After the loop over `ids`, just they have one more element.
abbrev Pushes : Topic → List SubscriptionId → String → Brokers → Type 0
Pushes topic ids v b =
    (b' : Brokers) × (push_each topic ids v b ≡ some b')
    × ((t : Topic) (i : SubscriptionId)
        → queue_at b' t i
          ≡ (if topic == t && contains ids i then pushed v (queue_at b t i) else queue_at b t i))
    × ((t : Topic) → GoMap.has b' t ≡ GoMap.has b t)

push_each-Pushes :
    (topic : Topic) (ids : List SubscriptionId) (v : String) (b : Brokers)
    → Uniq ids
    → ((i : SubscriptionId) → contains ids i ≡ true → is_some (queue_at b topic i) ≡ true)
    → Pushes topic ids v b
unfolding push_each
push_each-Pushes topic [] v b uniq there = (b, refl, λ t i. ground arith, λ t. refl)
push_each-Pushes topic (id ∷ ids) v b uniq there = elim (Option-cases (queue_at b topic id)) [
  | inl e ↦ absurd (ground (arith, e, there id (ground (arith, eq_refl id))))
  | inr (q, e) ↦
      let b1 = set_queue b topic id (Queue.push q v) in
      let slot : (t : Topic) (i : SubscriptionId)
          → queue_at b1 t i
            ≡ (if topic == t && id == i then some (Queue.push q v) else queue_at b t i) =
        λ t i. queue_at-set_queue b topic id (Queue.push q v) t i (rw e) in
      let (b', ran, slots, tops) =
        push_each-Pushes topic ids v b1 uniq.1
          (λ i h. ground (arith, slot topic i, there i (ground (arith, h)))) in
      (
        b',
        rw (e, push_each) ran,
        λ t i. ground (arith, slots t i, slot t i, eq_iff topic t, eq_iff id i, e, uniq.0),
        λ t. tops t ∙ has-set_queue b topic id (Queue.push q v) t,
      )
]

-- From a state whose `brokersLock` is free, a broadcast whose `range` visits every subscriber of
-- the topic once, in any order, returns with the lock free and one more copy of the value at the
-- end of the queue of every subscriber of the topic, and with nothing else changed.
pub broadcast_lem :
    (s : State) (order : List SubscriptionId) (req : PublishRequest)
    → s.brokers_locked ≡ false
    → Visits order s.brokers req.topic_name
    → (b' : Brokers) × (broadcast order req s ≡ returned tt (with_brokers s b'))
      × ((t : Topic) (i : SubscriptionId)
          → queue_at b' t i ≡ (
              if req.topic_name == t
              then pushed req.value (queue_at s.brokers t i)
              else queue_at s.brokers t i))
      × ((t : Topic) → GoMap.has b' t ≡ GoMap.has s.brokers t)
unfolding broadcast
broadcast_lem s order req free (uniq, all) =
    let (b', ran, slots, tops) =
      push_each-Pushes req.topic_name order req.value s.brokers uniq (λ i h. sym (all i) ∙ h) in
    (b', rw (free, ran), λ t i. ground (arith, slots t i, all i, eq_iff req.topic_name t), tops)
