-- ===== src/PubSub/Serial.antt =====
-- The broker under any interleaving of its goroutines.
use quash.Telemetry.{count_topic, count_topics}
use quash.PubSub.Consuming.{
  Shown, consuming-none, consuming_lem, drained_answer, drained_at, drained_brokers, drained_holds,
  shows,
}
use quash.Goroutines.Serial.{line-keeps, Performs}
use quash.Messages.{PublishRequest}
use quash.Queue
use quash.GoMap
use quash.GoMap.{GoMap}
use quash.Stream.{push_each}
use quash.Goroutines.{line, perform}
use quash.Handler.{Brokers, ok}
use quash.Broker.{add_to, create, queue_at, remove_from, set_queue}
use quash.Queue.{Queue}
use quash.Structs.{SubscriptionId, Topic}
use quash.Prelude.{
  Bool, ap₂, false, sym, ◌∙◌, List, Option, Option-cases, String, [], ap, arith, concat, inl, inr,
  none, refl, some, ◌++◌, ◌∷◌, ◌≡◌,
}
use quash.PubSub.Concurrent.{
  count_accesses, count_one, counting, on_count, broker_code, consuming, BrokerAnswer, BrokerCall,
  BrokerLocal, add_if, adding, broadcasting, create_if, creating, died, hear, on_add, on_broadcast,
  on_create, on_remove, on_unsubscribe, push_accesses, push_at, removing, unsubscribing,
}

abbrev pub broadcast_answer : Option Brokers → BrokerAnswer
broadcast_answer none = died
broadcast_answer (some b) = on_broadcast

-- The answer of a whole call, and the brokers that it leaves.
unfoldable pub broker_answer : BrokerCall → Option Brokers → BrokerAnswer
broker_answer c none = died
broker_answer (creating req) (some b) = on_create (create req.topic_name b).0
broker_answer (removing req) (some b) =
    on_remove (ok (record { response = concat "Topic deleted: " req.topic_name }))
broker_answer (adding id req) (some b) = on_add (add_to id req.topic_name b).0
broker_answer (unsubscribing req) (some b) =
    on_unsubscribe (ok (record { response = concat "Removed: " req.subscriber_id }))
broker_answer (broadcasting order req) (some b) =
    broadcast_answer (push_each req.topic_name order req.value b)
broker_answer (consuming req send) (some b) = drained_answer (drained_at req send b)
broker_answer (counting order orders) (some b) = on_count (count_topics order orders b [])

unfoldable pub broker_next : BrokerCall → Option Brokers → Option Brokers
broker_next c none = none
broker_next (creating req) (some b) = some (create req.topic_name b).1
broker_next (removing req) (some b) = some (GoMap.delete b req.topic_name)
broker_next (adding id req) (some b) = some (add_to id req.topic_name b).1
broker_next (unsubscribing req) (some b) = some (remove_from req.subscriber_id req.topic_name b)
broker_next (broadcasting order req) (some b) = push_each req.topic_name order req.value b
broker_next (consuming req send) (some b) = drained_brokers req b (drained_at req send b)
broker_next (counting order orders) (some b) = some b

-- Whether a call keeps the mutex: a `Consume` whose `Send` fails does.
unfoldable pub broker_holds : BrokerCall → Option Brokers → Bool
broker_holds (consuming req send) (some b) = drained_holds (drained_at req send b)
broker_holds (consuming req send) none = false
broker_holds (creating req) o = false
broker_holds (removing req) o = false
broker_holds (adding id req) o = false
broker_holds (unsubscribing req) o = false
broker_holds (broadcasting order req) o = false
broker_holds (counting order orders) o = false

pushed_dead :
    (topic : Topic) (v : String) (order : List SubscriptionId) (l : BrokerLocal)
    → perform (line (push_accesses topic v order)) none l ≡ (none, hear died l)
unfolding push_at
pushed_dead topic v [] l = refl
pushed_dead topic v (id ∷ order) l = pushed_dead topic v order l

-- A push to a queue that is there, and to one that is not.
module _ (topic : Topic) (v : String) (id : SubscriptionId) (b : Brokers) where
  push_at-none : queue_at b topic id ≡ none → push_at topic v id (some b) ≡ none
  unfolding push_at
  push_at-none e = ground (arith, e)

  push_at-some :
      (q : Queue)
      → queue_at b topic id ≡ some q
      → push_at topic v id (some b) ≡ some (set_queue b topic id (Queue.push q v))
  unfolding push_at
  push_at-some q e = ground (arith, e)

  pub push_each-none :
      (order : List SubscriptionId)
      → queue_at b topic id ≡ none
      → push_each topic (id ∷ order) v b ≡ none
  unfolding push_each
  push_each-none order e = ground (arith, e)

  pub push_each-some :
      (order : List SubscriptionId) (q : Queue)
      → queue_at b topic id ≡ some q
      → push_each topic (id ∷ order) v b
        ≡ push_each topic order v (set_queue b topic id (Queue.push q v))
  unfolding push_each
  push_each-some order q e = ground (arith, e)

pushed_all :
    (topic : Topic) (v : String) (order : List SubscriptionId) (b : Brokers) (l : BrokerLocal)
    → perform (line (push_accesses topic v order)) (some b) l
      ≡ (push_each topic order v b, hear (broadcast_answer (push_each topic order v b)) l)
unfolding push_each
pushed_all topic v [] b l = refl
pushed_all topic v (id ∷ order) b l =
    let go = λ (o : Option Brokers). perform (line (push_accesses topic v order)) o l in
    elim (Option-cases (queue_at b topic id)) [
      | inl e ↦
          ap go (push_at-none topic v id b e)
          ∙ pushed_dead topic v order l
          ∙ ap (λ o. (o, hear (broadcast_answer o) l)) (sym (push_each-none topic v id b order e))
      | inr (q, e) ↦
          ap go (push_at-some topic v id b q e)
          ∙ pushed_all topic v order (set_queue b topic id (Queue.push q v)) l
          ∙ ap (λ o. (o, hear (broadcast_answer o) l)) (sym (push_each-some topic v id b order q e))
    ]

created_if :
    (topic : Topic) (b : Brokers)
    → create_if (GoMap.has b topic) topic b ≡ (on_create (create topic b).0, (create topic b).1)
unfolding create_if create
created_if topic b = ground arith

added_if :
    (id : SubscriptionId) (topic : Topic) (b : Brokers)
    → add_if (GoMap.has b topic) id topic b ≡ (on_add (add_to id topic b).0, (add_to id topic b).1)
unfolding add_if add_to
added_if id topic b = ground arith

-- What the loop of `Snapshot` leaves.
counted_dead :
    (orders : Topic → List SubscriptionId) (order : List Topic) (l : BrokerLocal)
    → shows (line (count_accesses orders order)) none l ≡ ((none, l.heard ++ died ∷ []), false)
unfolding count_one
counted_dead orders [] l = refl
counted_dead orders (name ∷ order) l = counted_dead orders order l

counted_all :
    (orders : Topic → List SubscriptionId) (order : List Topic) (b : Brokers) (l : BrokerLocal)
    → shows (line (count_accesses orders order)) (some b) l
      ≡ ((some b, l.heard ++ on_count (count_topics order orders b l.counts) ∷ []), false)
unfolding count_one count_topics
counted_all orders [] b l = refl
counted_all orders (name ∷ order) b l =
    counted_all orders order b (record l { counts = count_topic (orders name) b l.counts name })

-- All accesses of a call together.
abbrev whole_of : BrokerCall → Option Brokers → List BrokerAnswer → Shown
whole_of c o heard = ((broker_next c o, heard ++ broker_answer c o ∷ []), broker_holds c o)

-- What a broadcast leaves, once it is known what its accesses do.
broadcast_shows :
    (order : List SubscriptionId) (req : PublishRequest) (o o' : Option Brokers) (l : BrokerLocal)
    (answer : BrokerAnswer)
    → perform (line (push_accesses req.topic_name req.value order)) o l ≡ (o', hear answer l)
    → shows (line (push_accesses req.topic_name req.value order)) o l
      ≡ ((o', l.heard ++ answer ∷ []), false)
broadcast_shows order req o o' l answer e =
    ap₂ (λ (x : Option Brokers × BrokerLocal) (k : Bool). ((x.0, x.1.heard), k)) e
      (line-keeps (push_accesses req.topic_name req.value order) o l)

performed :
    (c : BrokerCall) (o : Option Brokers) (l : BrokerLocal)
    → shows (broker_code c) o l ≡ whole_of c o l.heard
unfolding broker_code broker_answer broker_next broker_holds
performed (creating req) none l = refl
performed (removing req) none l = refl
performed (adding id req) none l = refl
performed (unsubscribing req) none l = refl
performed (broadcasting order req) none l =
    broadcast_shows order req none none l died (pushed_dead req.topic_name req.value order l)
performed (consuming req send) none l = consuming-none req send l
performed (counting order orders) none l = counted_dead orders order (record l { counts = [] })
performed (creating req) (some b) l =
    ap (λ (d : BrokerAnswer × Brokers). ((some d.1, l.heard ++ d.0 ∷ []), false))
      (created_if req.topic_name b)
performed (removing req) (some b) l = refl
performed (adding id req) (some b) l =
    ap (λ (d : BrokerAnswer × Brokers). ((some d.1, l.heard ++ d.0 ∷ []), false))
      (added_if id req.topic_name b)
performed (unsubscribing req) (some b) l = refl
performed (broadcasting order req) (some b) l =
    broadcast_shows order req (some b) _ l _ (pushed_all req.topic_name req.value order b l)
performed (consuming req send) (some b) l = consuming_lem req send b l
performed (counting order orders) (some b) l = counted_all orders order b (record l { counts = [] })

pub broker_code-Performs :
    Performs broker_code (λ l. l.heard) broker_answer broker_next broker_holds
broker_code-Performs = record {
  leaves = λ c o l. ap (λ (x : Shown). x.0.0) (performed c o l);
  hears = λ c o l. ap (λ (x : Shown). x.0.1) (performed c o l);
  leaves_lock = λ c o l. ap (λ (x : Shown). x.1) (performed c o l);
}
