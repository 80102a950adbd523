-- ===== src/Stream/Tests.antt =====
-- The streams at concrete inputs.
use quash.Queue.Fifo.{to_list}
use quash.Broker.{queue_at}
use quash.Stream.Broadcast.{Visits, broadcast_lem, pushed}
use quash.GoMap.{GoMap}
use quash.Stream.Stuck.{IsStuck, consume_panics_exactly, consume_send_fails}
use quash.Queue.{Queue, nil, node}
use quash.Structs.{SubscriptionId, Topic}
use quash.Handler.{Brokers, State, panicked, returned, start}
use quash.Messages.{ConsumeRequest, PublishRequest}
use quash.Stream.Publishing.{
  AllVisit, Delivers, Sendings, acknowledged, closes, delivered, publish_lem, rounds_of, values_for,
}
use quash.Broker.Run.{with_brokers}
use quash.Stream.Draining.{delivery, response_of}
use quash.Stream.RoundTrip.{ConsumesAll, consume_all, publish-consume}
use quash.Stream.{broadcast, broken, consume, finished, message, publish}
use quash.Broker.Slots.{AllCounted, CountedAt, mailbox}
use quash.Prelude.{
  Option, String, [], arith, if◌then◌else◌, map, none, refl, some, ℕ, ◌==◌, ◌∷◌, ◌≡◌,
}
use quash.GoMap

-- One topic with two subscribers, the first with a value that waits.
abbrev old_queue : Queue
old_queue = record { root = node "old" nil; counter = 1 }

abbrev empty_queue : Queue
empty_queue = record { root = nil; counter = 0 }

abbrev news : State
news = record start { brokers = ("news", ("s1", old_queue) ∷ ("s2", empty_queue) ∷ []) ∷ [] }

abbrev item : String → PublishRequest
item v = record { topic_name = "news"; value = v }

news-AllCounted : AllCounted news.brokers
unfolding queue_at GoMap.get to_list
news-AllCounted topic id = counted (queue_at news.brokers topic id) refl
  where
    counted : (o : Option Queue) → queue_at news.brokers topic id ≡ o → CountedAt o
    counted none e = tt
    counted (some q) e = ground (arith, e)

news-Visits : Visits ("s2" ∷ "s1" ∷ []) news.brokers "news"
unfolding queue_at GoMap.get
news-Visits = ((refl, (refl, tt)), λ i. ground arith)

abbrev two_items : Sendings
two_items = (item "a", "s2" ∷ "s1" ∷ []) ∷ (item "b", "s2" ∷ "s1" ∷ []) ∷ []

two_items-AllVisit : AllVisit (delivered two_items closes) news.brokers
two_items-AllVisit = (news-Visits, (news-Visits, tt))

abbrev s1 : ConsumeRequest
s1 = record { topic_name = "news"; subscriber_id = "s1" }

abbrev s1_queue : queue_at news.brokers "news" "s1" ≡ some old_queue
unfolding queue_at GoMap.get
s1_queue = refl

broadcast_lem_example :
    (b' : Brokers) × (broadcast ("s2" ∷ "s1" ∷ []) (item "a") news
      ≡ returned tt (with_brokers news b'))
    × ((t : Topic) (i : SubscriptionId)
        → queue_at b' t i ≡ (
            if "news" == t
            then pushed "a" (queue_at news.brokers t i)
            else queue_at news.brokers t i))
    × ((t : Topic) → GoMap.has b' t ≡ GoMap.has news.brokers t)
broadcast_lem_example = broadcast_lem news ("s2" ∷ "s1" ∷ []) (item "a") refl news-Visits

publish_lem_example :
    (b' : Brokers) × (publish (rounds_of two_items closes) news
      ≡ returned
          (record { sent = acknowledged two_items; ending = finished })
          (with_brokers news b'))
    × Delivers (λ t. values_for t (delivered two_items closes)) news.brokers b'
    × AllCounted b'
publish_lem_example = publish_lem two_items closes news refl news-AllCounted two_items-AllVisit

consume_all_example : ConsumesAll news s1 (λ i. none) ("old" ∷ [])
unfolding queue_at GoMap.get to_list
consume_all_example =
    consume_all news s1 (λ i. none) ("old" ∷ []) refl news-AllCounted (λ i. refl) refl (omega arith)

publish-consume_example :
    (b1 b2 : Brokers) × (publish (rounds_of two_items closes) news
      ≡ returned
          (record { sent = acknowledged two_items; ending = finished })
          (with_brokers news b1))
    × (consume (message s1) (λ i. none) (with_brokers news b1)
        ≡ returned
            (record {
              sent = map response_of ("old" ∷ values_for "news" (delivered two_items closes));
              ending = finished;
            })
            (with_brokers news b2))
    × (mailbox b2 "news" "s1" ≡ some [])
unfolding queue_at GoMap.get to_list
publish-consume_example =
    publish-consume two_items closes news s1 (λ i. none) ("old" ∷ []) refl news-AllCounted
      two_items-AllVisit (λ i. refl) refl (omega arith)

abbrev failing : ℕ → Option String
failing i = some "transport is closing"

consume_send_fails_example :
    (s' : State) × (consume (message s1) failing news
      ≡ returned
          (record {
            sent = (delivery failing 0 (to_list old_queue)).sent;
            ending = broken "transport is closing";
          })
          s')
    × IsStuck s'
unfolding queue_at GoMap.get to_list delivery
consume_send_fails_example =
    consume_send_fails news s1 failing old_queue "transport is closing" refl refl refl (omega arith)
      refl

-- The topic is unknown.
consume_panics_exactly_example :
    consume (message (record { topic_name = "sport"; subscriber_id = "s1" })) (λ i. none) news
    ≡ panicked
unfolding queue_at GoMap.get
consume_panics_exactly_example =
    consume_panics_exactly news (record { topic_name = "sport"; subscriber_id = "s1" }) (λ i. none)
      refl news-AllCounted
