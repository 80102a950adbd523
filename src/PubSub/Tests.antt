-- ===== src/PubSub/Tests.antt =====
-- The broker's specification at a concrete session.
use quash.Messages.{ConsumeRequest}
use quash.Stream.{finished}
use quash.Broker.{queue_at}
use quash.Stream.Publishing.{closes}
use quash.Handler.{error, ok, start}
use quash.PubSub.Refine.{Implements, session-Implements}
use quash.PubSub.Spec.{AllAllowed, View, answer_of, answers, next_view}
use quash.Prelude.{List, [], arith, false, none, refl, ◌∷◌, ◌≡◌}
use quash.PubSub.{Call, acked, added, adds, consumes, created, creates, got, publishes}
use quash.GoMap.{GoMap}
use quash.GoMap

abbrev empty_view : View
empty_view = record { topics = λ t. false; box = λ t i. none }

abbrev in_news : ConsumeRequest
in_news = record { topic_name = "news"; subscriber_id = "s1" }

abbrev calls : List Call
calls =
    creates (record { topic_name = "news" })
    ∷ adds "s1" (record { topic_name = "news" })
    ∷ publishes ((record { topic_name = "news"; value = "a" }, "s1" ∷ []) ∷ []) closes
    ∷ consumes in_news (λ i. none)
    ∷ creates (record { topic_name = "news" })
    ∷ []

calls-AllAllowed : AllAllowed empty_view calls
unfolding next_view
calls-AllAllowed = (
  tt,
  (
    tt,
    ((((refl, tt), λ i. ground arith), tt), (("a" ∷ [], refl, omega arith, λ i. refl), (tt, tt))),
  ),
)

session-Implements_example : Implements start empty_view calls
unfolding queue_at GoMap.get
session-Implements_example =
    session-Implements calls start empty_view refl
      (record { topics = λ t. refl; boxes = λ t i. refl }) (λ t i. tt) calls-AllAllowed

answers_run :
    answers empty_view calls
    ≡ created (ok (record { response = "Topic created: news" }))
      ∷ added (ok (record { response = "Subscriber added"; subscriber_id = "s1" }))
      ∷ acked (record {
        sent = record { response = "Published: a to Topic: news" } ∷ [];
        ending = finished;
      })
      ∷ got (record { sent = record { response = "a" } ∷ []; ending = finished })
      ∷ created (error "topic already exists")
      ∷ []
unfolding answers answer_of next_view
answers_run = refl
