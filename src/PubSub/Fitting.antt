-- ===== src/PubSub/Fitting.antt =====
-- What the goroutines of the broker are told, and what the specification shows then.
pub mod Steps
pub mod Answers
pub mod Loops
pub mod Rounds
use quash.GoMap
use quash.GoMap.{GoMap}
use quash.Stream.{finished}
use quash.Telemetry.Exact.{reported}
use quash.Messages.{ConsumeResponse}
use quash.Handler.{error, ok}
use quash.PubSub.Spec.{View, next_view}
use quash.GoMap.Range.{contains}
use quash.Stream.Publishing.{appended}
use quash.PubSub.Boxes.{answered, values_in, visits}
use quash.PubSub.{adds, creates, removes, unsubscribes}
use quash.Structs.{SubscriptionId, Topic}
use quash.PubSub.Concurrent.{
  BrokerAnswer, BrokerCall, adding, broadcasting, consuming, counting, creating, on_add,
  on_broadcast, on_consume, on_count, on_create, on_remove, on_unsubscribe, removing, unsubscribing,
}
use quash.Prelude.{
  List, Option, String, [], concat, if◌then◌else◌, is_some, length, none, some, true, ℕ, ◌%◌, ◌&&◌,
  ◌++◌, ◌==◌, ◌^◌, ◌∷◌, ◌≡◌, ◌≤◌, ◌⊎◌,
}

-- The rest of a mailbox, behind what was delivered of it.
abbrev pub behind : List String → List String → List String
behind [] l = l
behind (v ∷ vs) [] = []
behind (v ∷ vs) (x ∷ l) = behind vs l

abbrev pub left_behind : List String → Option (List String) → Option (List String)
left_behind vs none = none
left_behind vs (some l) = some (behind vs l)

-- How many values wait, as an int64 tells it.
abbrev pub count_in : Option (List String) → Option ℕ
count_in none = none
count_in (some l) = some (length l % 2 ^ 64)

-- Every subscriber that a round visits is there.
abbrev pub AllThere : View → Topic → List SubscriptionId → Type 0
AllThere v topic [] = Unit {0}
AllThere v topic (id ∷ order) = (is_some (v.box topic id) ≡ true) × AllThere v topic order

-- A `Consume` that was not broken off delivers what waits, from the oldest on; something stays only
-- where the count does not fit.
pub record Delivers (l : List String) (a : BrokerAnswer) : Type 0 where
  pub sent : List ConsumeResponse
  pub rest : List String
  pub told : a ≡ on_consume (record { sent = sent; ending = finished })
  pub split : l ≡ values_in sent ++ rest
  pub all : (rest ≡ []) ⊎ (2 ^ 63 ≤ length l)

-- The counts that `Snapshot` takes: of the topics and subscribers that its loops visit.
pub record Counts (v : View) (order : List Topic) (orders : Topic → List SubscriptionId)
    (a : BrokerAnswer) : Type 0 where
  pub shown : GoMap (GoMap ℕ)
  pub told : a ≡ on_count shown
  pub topics : (t : Topic) → GoMap.has shown t ≡ contains order t && v.topics t
  pub counts :
      (t : Topic) (i : SubscriptionId)
      → reported shown t i
        ≡ (if contains order t && contains (orders t) i then count_in (v.box t i) else none)

-- An answer that the specification gives in this view.
abbrev pub FitsView : View → BrokerCall → BrokerAnswer → Type 0
FitsView v (creating req) a =
    a
    ≡ on_create (
        if v.topics req.topic_name
        then error "topic already exists"
        else ok (record { response = concat "Topic created: " req.topic_name }))
FitsView v (removing req) a =
    a ≡ on_remove (ok (record { response = concat "Topic deleted: " req.topic_name }))
FitsView v (adding id req) a =
    a
    ≡ on_add (
        if v.topics req.topic_name
        then ok (record { response = "Subscriber added"; subscriber_id = id })
        else error "topic does not exist")
FitsView v (unsubscribing req) a =
    a ≡ on_unsubscribe (ok (record { response = concat "Removed: " req.subscriber_id }))
FitsView v (broadcasting order req) a = (a ≡ on_broadcast) × AllThere v req.topic_name order
FitsView v (consuming req send) a =
    (l : List String) × (v.box req.topic_name req.subscriber_id ≡ some l) × Delivers l a
FitsView v (counting order orders) a = Counts v order orders a

-- What the call leaves of it, by its answer.
unfoldable pub view_after : View → BrokerCall → BrokerAnswer → View
unfolding next_view
view_after v (creating req) a = next_view v (creates req)
view_after v (removing req) a = next_view v (removes req)
view_after v (adding id req) a = next_view v (adds id req)
view_after v (unsubscribing req) a = next_view v (unsubscribes req)
view_after v (broadcasting order req) a = record v {
  box = λ t i. appended (if req.topic_name == t then visits i req.value order else []) (v.box t i);
}
view_after v (consuming req send) a = record v {
  box = λ t i.
      if req.topic_name == t && req.subscriber_id == i
      then left_behind (answered a) (v.box t i)
      else v.box t i;
}
view_after v (counting order orders) a = v

abbrev pub AllFitView : View → List BrokerCall → List BrokerAnswer → Type 0
AllFitView v [] answers = Unit {0}
AllFitView v (c ∷ cs) [] = ⊥
AllFitView v (c ∷ cs) (a ∷ answers) = FitsView v c a × AllFitView (view_after v c a) cs answers

abbrev pub view_at_end : View → List BrokerCall → List BrokerAnswer → View
view_at_end v [] answers = v
view_at_end v (c ∷ cs) [] = v
view_at_end v (c ∷ cs) (a ∷ answers) = view_at_end (view_after v c a) cs answers
