-- ===== src/PubSub/Spec.antt =====
-- What the broker promises: a set of topics, and for each subscription the values that it has not
-- consumed. Neither maps nor queues nor locks show.
use quash.GoMap.{GoMap}
use quash.Broker.Slots.{mailbox}
use quash.Structs.{SubscriptionId, Topic}
use quash.Stream.{finished}
use quash.Stream.Draining.{response_of}
use quash.GoMap.Range.{Uniq, contains}
use quash.Prelude.{
  Bool, List, Option, String, [], concat, false, if◌then◌else◌, is_some, length, map, none, some,
  true, ℕ, ◌&&◌, ◌<◌, ◌==◌, ◌^◌, ◌∷◌, ◌≡◌,
}
use quash.Stream.Publishing.{Sendings, acknowledged, appended, delivered, ending_of, values_for}
use quash.Handler.{Brokers, error, ok}
use quash.GoMap
use quash.PubSub.{
  Call, Answer, creates, removes, adds, unsubscribes, publishes, consumes, created, removed, added,
  unsubscribed, acked, got,
}

pub record View : Type 0 where
  pub topics : Topic → Bool
  pub box : Topic → SubscriptionId → Option (List String)

abbrev set_topic : View → Topic → Bool → Topic → Bool
set_topic v topic there t = if topic == t then there else v.topics t

abbrev set_box :
    View
    → Topic
    → SubscriptionId
    → Option (List String)
    → Topic
    → SubscriptionId
    → Option (List String)
set_box v topic id o t i = if topic == t && id == i then o else v.box t i

abbrev pub or_empty : Option (List String) → List String
or_empty none = []
or_empty (some l) = l

unfoldable pub answer_of : View → Call → Answer
answer_of v (creates req) = created (
    if v.topics req.topic_name
    then error "topic already exists"
    else ok (record { response = concat "Topic created: " req.topic_name }))
answer_of v (removes req) =
    removed (ok (record { response = concat "Topic deleted: " req.topic_name }))
answer_of v (adds id req) = added (
    if v.topics req.topic_name
    then ok (record { response = "Subscriber added"; subscriber_id = id })
    else error "topic does not exist")
answer_of v (unsubscribes req) =
    unsubscribed (ok (record { response = concat "Removed: " req.subscriber_id }))
answer_of v (publishes ms stop) = acked (record { sent = acknowledged ms; ending = ending_of stop })
answer_of v (consumes req send) = got (record {
  sent = map response_of (or_empty (v.box req.topic_name req.subscriber_id));
  ending = finished;
})

-- A new topic has no subscribers; a topic that goes takes its subscriptions with it; a new
-- subscription is empty, and an old one of the same identifier would be emptied.
unfoldable pub next_view : View → Call → View
next_view v (creates req) = record v { topics = set_topic v req.topic_name true }
next_view v (removes req) = record {
  topics = set_topic v req.topic_name false;
  box = λ t i. if req.topic_name == t then none else v.box t i;
}
next_view v (adds id req) = record v {
  box = λ t i.
      if v.topics req.topic_name && (req.topic_name == t && id == i) then some [] else v.box t i;
}
next_view v (unsubscribes req) = record v { box = set_box v req.topic_name req.subscriber_id none }
next_view v (publishes ms stop) = record v {
  box = λ t i. appended (values_for t (delivered ms stop)) (v.box t i);
}
next_view v (consumes req send) = record v {
  box = set_box v req.topic_name req.subscriber_id (some []);
}

unfoldable pub answers : View → List Call → List Answer
answers v [] = []
answers v (call ∷ calls) = answer_of v call ∷ answers (next_view v call) calls

unfoldable pub last_view : View → List Call → View
last_view v [] = v
last_view v (call ∷ calls) = last_view (next_view v call) calls

-- Each message visits the subscribers of its topic, each once.
abbrev pub VisitsAll : Sendings → View → Type 0
VisitsAll [] v = Unit {0}
VisitsAll ((req, order) ∷ ms) v =
    (Uniq order × ((i : SubscriptionId) → contains order i ≡ is_some (v.box req.topic_name i)))
    × VisitsAll ms v

-- What a call needs: a `Consume` is of a subscription that exists, with fewer than 2 ^ 63 values
-- queued, and its stream does not fail.
abbrev pub Allowed : View → Call → Type 0
Allowed v (publishes ms stop) = VisitsAll (delivered ms stop) v
Allowed v (consumes req send) =
    (l : List String) × (v.box req.topic_name req.subscriber_id ≡ some l)
    × (length l < 2 ^ 63)
    × ((i : ℕ) → send i ≡ none)
Allowed v _ = Unit

abbrev pub AllAllowed : View → List Call → Type 0
AllAllowed v [] = Unit {0}
AllAllowed v (call ∷ calls) = Allowed v call × AllAllowed (next_view v call) calls

pub record SeenAs (b : Brokers) (v : View) : Type 0 where
  pub topics : (t : Topic) → GoMap.has b t ≡ v.topics t
  pub boxes : (t : Topic) (i : SubscriptionId) → mailbox b t i ≡ v.box t i
