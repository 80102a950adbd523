-- ===== src/Client/Tests.antt =====
-- The client at concrete inputs, over a connection without a network.
use quash.Client.NoRoom.{client_consume_waits}
use quash.Rpc.Reaching.{seen}
use quash.GoMap
use quash.Queue.Fifo.{to_list}
use quash.Rpc.Quash.{quash_server}
use quash.Messages.{GetKvResponse, ConsumeRequest, ConsumeResponse, GetKvRequest, PublishResponse}
use quash.Queue.{Queue, nil, node}
use quash.Kv.{get_kv}
use quash.Structs.{Topic}
use quash.Broker.{queue_at}
use quash.Client.RoundTrip.{client_round_trip}
use quash.Rpc.{Method, QuashServiceServer, Request, get_kv_rpc}
use quash.Prelude.Int.{pos}
use quash.GoMap.{GoMap}
use quash.Stream.{Received, waiting, Served, consume, finished, message, publish}
use quash.Handler.{Outcome, Reply, State, error, ok, returned, start}
use quash.Broker.Slots.{AllCounted, CountedAt, mailbox}
use quash.Rpc.Loopback.{loopback-invoke, loopback-seen, invoke_local, loopback}
use quash.Prelude.{List, sym, Option, [], ap, arith, none, refl, some, ◌∷◌, ◌≡◌}
use quash.Rpc.Serving.{call}
use quash.Stream.Publishing.{closes, rounds_of}
use quash.Client.{shut_out, waits, Grpc, came_back, client_call, held, unlocked}
use quash.Client.EndToEnd.{
  CarriesPublish, heard_of, stop_of, Values, all_published, exchanges, messages_then_eof, sendings,
  values_of,
}
use quash.Client.Serving.{GrpcTo, client_call_reaches}
use quash.Client.Streams.{
  SendSide, put_in, ConsumeAnswers, Opens, PublishAnswers, client_consume, client_publish, only,
}
use quash.Stream.Broadcast.{Visits}

abbrev server : QuashServiceServer
server = quash_server (pos 5) (1 ∷ 2 ∷ [])

abbrev local : Grpc State
local = record {
  dial = λ s. (none, s);
  close = λ s. s;
  close_nil = λ s. none;
  invoke = invoke_local server;
}

local-GrpcTo : GrpcTo local (loopback server)
local-GrpcTo = record {
  dials = λ s. refl;
  closes = λ s. refl;
  same_invoke = sym (loopback-invoke server);
}

abbrev missing_key : GetKvRequest
missing_key = record { key = "k" }

not_there : call server get_kv_rpc missing_key start ≡ returned (error "key doesn't exist") start
unfolding quash_server get_kv GoMap.get
not_there = refl

client_call_reaches_example :
    client_call local get_kv_rpc missing_key (unlocked start)
    ≡ came_back (seen (loopback server).status (error "key doesn't exist")) (unlocked start)
client_call_reaches_example =
    client_call_reaches local server (loopback server) local-GrpcTo get_kv_rpc missing_key start
      start (error "key doesn't exist") not_there

-- What `seen` says there.
seen_missing :
    seen {A = GetKvResponse} (loopback server).status (error "key doesn't exist")
    ≡ error "key doesn't exist"
seen_missing = loopback-seen server (error "key doesn't exist")

-- Streams that run the server's handler in place. What comes after the acknowledgements is what the
-- handler comes to where the stream is closed, and where it is not.
abbrev ended : Outcome (Served PublishResponse) → List (Received PublishResponse)
ended (returned r s) = heard_of r.ending
ended _ = []

abbrev after_values : Topic → Values → State → SendSide → List (Received PublishResponse)
after_values topic vs s side = ended (publish (rounds_of (sendings topic vs) (stop_of side)) s)

abbrev publish_answers :
    Values
    → (SendSide → List (Received PublishResponse))
    → Outcome (Served PublishResponse)
    → Reply PublishAnswers × State
publish_answers vs after (returned r s) =
    (ok (exchanges (values_of vs) r.sent, some (none, after)), s)
publish_answers vs after _ = (error "unavailable", start)

abbrev publish_local : Topic → Values → Opens State PublishAnswers
publish_local topic vs s =
    publish_answers vs (after_values topic vs s) (publish (rounds_of (sendings topic vs) closes) s)

local-CarriesPublish :
    (topic : Topic) (vs : Values) → CarriesPublish topic vs (publish_local topic vs)
local-CarriesPublish topic vs = record {
  after = after_values topic vs;
  carries = λ s s' rs ran. ap (publish_answers vs (after_values topic vs s)) ran;
  ends = λ side s s' rs e ran. ap ended ran;
}

abbrev consume_answers : Outcome (Served ConsumeResponse) → Reply ConsumeAnswers × State
consume_answers (returned r s) = (ok (none, (none, messages_then_eof r.sent)), s)
consume_answers _ = (error "unavailable", start)

abbrev consume_local : ConsumeRequest → Opens State ConsumeAnswers
consume_local req s = consume_answers (consume (message req) (λ i. none) s)

-- A topic with one subscriber, for whom a value waits.
abbrev old_queue : Queue
old_queue = record { root = node "old" nil; counter = 1 }

abbrev news : State
news = record start { brokers = ("news", ("s1", old_queue) ∷ []) ∷ [] }

abbrev s1 : ConsumeRequest
s1 = record { topic_name = "news"; subscriber_id = "s1" }

abbrev two_values : Values
two_values = ("a", "s1" ∷ []) ∷ ("b", "s1" ∷ []) ∷ []

news-AllCounted : AllCounted news.brokers
unfolding queue_at GoMap.get to_list
news-AllCounted topic id = counted_at (queue_at news.brokers topic id) refl
  where
    counted_at : (o : Option Queue) → queue_at news.brokers topic id ≡ o → CountedAt o
    counted_at none e = tt
    counted_at (some q) e = ground (arith, e)

news-Visits : Visits ("s1" ∷ []) news.brokers "news"
unfolding queue_at GoMap.get
news-Visits = ((refl, tt), λ i. ground arith)

waits_old : mailbox news.brokers "news" "s1" ≡ some ("old" ∷ [])
unfolding queue_at GoMap.get to_list
waits_old = refl

client_round_trip_example :
    (s1' s2' : State) × (client_publish local
        (publish_local "news" two_values)
        "news"
        (some 2)
        (unlocked news)
      ≡ came_back (all_published "news" ("a" ∷ "b" ∷ [])) (unlocked s1'))
    × (client_consume local (consume_local s1) s1 (some 3) (unlocked s1')
        ≡ came_back
            (record { requests = s1 ∷ []; responses = "old" ∷ "a" ∷ "b" ∷ []; ending = finished })
            (unlocked s2'))
    × (mailbox s2'.brokers "news" "s1" ≡ some [])
client_round_trip_example =
    client_round_trip local "news" "s1" two_values (publish_local "news" two_values)
      (consume_local s1) news ("old" ∷ []) 2 3 (record { dials = λ s. refl; closes = λ s. refl })
      (local-CarriesPublish "news" two_values)
      (record { carries = λ s s' rs ran. ap consume_answers ran }) refl news-AllCounted
      (news-Visits, (news-Visits, tt)) waits_old (omega arith) (omega arith) (omega arith)

-- A channel that takes one value only, with nobody to receive from it.
full_waits :
    put_in (some 0) "b" (record { requests = s1 ∷ []; responses = []; ending = finished })
    ≡ only [] waiting
unfolding put_in
full_waits = refl

-- The value that waits finds no room in a channel without a buffer.
client_consume_waits_example :
    (s' : State) × (client_consume local (consume_local s1) s1 (some 0) (unlocked news)
      ≡ waits (record { requests = s1 ∷ []; responses = []; ending = waiting }) (held s'))
    × (mailbox s'.brokers "news" "s1" ≡ some [])
    × ((m : Method) (later : Request m) → client_call local m later (held s') ≡ shut_out (held s'))
client_consume_waits_example =
    client_consume_waits local s1 (consume_local s1) news [] "old" []
      (record { dials = λ s. refl; closes = λ s. refl })
      (record { carries = λ s s' rs ran. ap consume_answers ran }) refl news-AllCounted waits_old
      (omega arith)
