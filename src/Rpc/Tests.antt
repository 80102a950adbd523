-- ===== src/Rpc/Tests.antt =====
-- The bindings at concrete inputs.
use quash.GoMap
use quash.Messages.{CreateTopicRequest}
use quash.Rpc.Loopback.{loopback}
use quash.Broker.{create, create_topic}
use quash.Prelude.Int.{pos}
use quash.GoMap.{GoMap}
use quash.Rpc.{QuashServiceServer, create_topic_rpc, stub}
use quash.Prelude.{[], refl, ◌∷◌, ◌≡◌}
use quash.Rpc.Reaching.{seen, stub_reaches}
use quash.Handler.{ok, returned, start}
use quash.Rpc.Serving.{call}
use quash.Rpc.Quash.{quash_server}

abbrev server : QuashServiceServer
server = quash_server (pos 5) (1 ∷ 2 ∷ [])

abbrev news_request : CreateTopicRequest
news_request = record { topic_name = "news" }

created :
    call server create_topic_rpc news_request start
    ≡ returned
        (ok (record { response = "Topic created: news" }))
        (record start { brokers = ("news", []) ∷ [] })
unfolding quash_server create_topic create GoMap.put GoMap.get
created = refl

stub_reaches_example : stub (loopback server).invoke create_topic_rpc news_request start ≡ (
  seen (loopback server).status (ok (record { response = "Topic created: news" })),
  record start { brokers = ("news", []) ∷ [] },
)
stub_reaches_example =
    stub_reaches server (loopback server) create_topic_rpc news_request start
      (record start { brokers = ("news", []) ∷ [] })
      (ok (record { response = "Topic created: news" })) created
