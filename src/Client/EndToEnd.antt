-- ===== src/Client/EndToEnd.antt =====
-- `Publish` and `Consume` of the client against those of the server, with grpc's streams between.
use quash.Client.{Grpc, came_back, unlocked}
use quash.Messages.{ConsumeRequest, ConsumeResponse, PublishRequest, PublishResponse}
use quash.Client.Streams.{
  SendSide, half_closed, unclosed, await_eof, only, put_in, ConsumeAnswers, Exchange, Opens,
  PublishAnswers, Spoken, after_recv, consume_loop, finish, publish_loop, request_of, said_of,
  stream_dialled, streaming_call,
}
use quash.Structs.{SubscriptionId, Topic}
use quash.Stream.Publishing.{
  Stop, stays, Sendings, acknowledged, closes, delivered, rounds_of, values_for,
}
use quash.Stream.{
  broken, failed, waiting, Ending, Received, consume, eof, finished, message, publish, published,
}
use quash.Handler.{Reply, State, ok, returned}
use quash.Prelude.{
  arith, length, suc, zero, ℕ, ◌≤◌, List, String, [], ap, eq_refl, map, none, refl, some, ◌++◌, ◌∙◌,
  ◌∷◌, ◌≡◌,
}
use quash.Stream.Draining.{response_of}

-- Each value of the channel `req`, and the order in which the server visits the subscribers.
abbrev pub Values : Type 0
Values = List (String × List SubscriptionId)

abbrev pub values_of : Values → List String
values_of vs = map (λ v. v.0) vs

-- The rounds of the server for the values of the client.
abbrev pub sendings : Topic → Values → Sendings
sendings topic vs = map (λ v. (request_of topic v.0, v.1)) vs

-- The rounds of the client for the acknowledgements of the server.
abbrev pub exchanges : List String → List PublishResponse → List Exchange
exchanges [] rs = []
exchanges (v ∷ vs) [] = []
exchanges (v ∷ vs) (r ∷ rs) =
    record { value = v; send_error = none; received = message r } ∷ exchanges vs rs

abbrev pub messages_then_eof : List ConsumeResponse → List (Received ConsumeResponse)
messages_then_eof rs = map message rs ++ eof ∷ []

-- What the server's `Recv` comes to after the values, by whether the client has called `CloseSend`.
abbrev pub stop_of : SendSide → Stop
stop_of half_closed = closes
stop_of unclosed = stays

-- What the client's `Recv` returns after the acknowledgements, by how the handler has ended.
abbrev pub heard_of : Ending → List (Received PublishResponse)
heard_of finished = eof ∷ []
heard_of (broken err) = failed err ∷ []
heard_of waiting = []

-- What the code relies on from a `Publish` stream of grpc: every `Send` reaches a `Recv` at the
-- other end, in order; the server's `Recv` comes to `io.EOF` where `CloseSend` has been called and
-- waits where it has not; the client's `Recv` comes to `io.EOF` where the handler has returned nil
-- and waits where the handler does; and the server is left as the handler leaves it.
pub record CarriesPublish (topic : Topic) (vs : Values) (opens : Opens State PublishAnswers)
    : Type 0 where
  pub after : State → SendSide → List (Received PublishResponse)
  pub carries :
      (s s' : State) (rs : List PublishResponse)
      → publish (rounds_of (sendings topic vs) closes) s
        ≡ returned (record { sent = rs; ending = finished }) s'
      → opens s ≡ (ok (exchanges (values_of vs) rs, some (none, after s)), s')
  pub ends :
      (side : SendSide) (s s' : State) (rs : List PublishResponse) (e : Ending)
      → publish (rounds_of (sendings topic vs) (stop_of side)) s
        ≡ returned (record { sent = rs; ending = e }) s'
      → after s side ≡ heard_of e

-- The same from a `Consume` stream: the client's request reaches the server's one `Recv`, each `Send`
-- of the server returns, since grpc keeps what the client has not received yet, and reaches a `Recv`
-- of the client, in order, and the handler's `return nil` is an `io.EOF` there. The handler does not
-- wait for `CloseSend`.
pub record CarriesConsume (req : ConsumeRequest) (opens : Opens State ConsumeAnswers) : Type 0 where
  pub carries :
      (s s' : State) (rs : List ConsumeResponse)
      → consume (message req) (λ i. none) s ≡ returned (record { sent = rs; ending = finished }) s'
      → opens s ≡ (ok (none, (none, messages_then_eof rs)), s')

abbrev pub told : Topic → String → String
told topic v = (published (request_of topic v)).response

abbrev pub all_published : Topic → List String → Spoken PublishRequest
all_published topic vs = record {
  requests = map (request_of topic) vs;
  responses = map (told topic) vs;
  ending = finished;
}

pub publish_loop-all :
    (topic : Topic) (vs : Values) (room : ℕ) (after : SendSide → List (Received PublishResponse))
    → after half_closed ≡ eof ∷ []
    → length vs ≤ room
    → publish_loop
        (some room)
        topic
        (exchanges (values_of vs) (acknowledged (sendings topic vs)))
        (some (none, after))
      ≡ all_published topic (values_of vs)
unfolding publish_loop
publish_loop-all topic [] room after closed enough = ap (λ rs. only [] (await_eof rs)) closed
publish_loop-all topic (v ∷ vs) zero after closed enough = absurd (omega (arith, enough))
publish_loop-all topic (v ∷ vs) (suc n) after closed enough =
    ap
      (after_recv (some (suc n)) (request_of topic v.0)
        (message (published (request_of topic v.0))))
      (publish_loop-all topic vs n after closed (omega (arith, enough)))

pub consume_loop-all :
    (l : List String) (room : ℕ)
    → length l ≤ room
    → consume_loop (some room) (messages_then_eof (map response_of l))
      ≡ record { requests = []; responses = l; ending = finished }
unfolding consume_loop
consume_loop-all [] room enough = refl
consume_loop-all (v ∷ l) zero enough = absurd (omega (arith, enough))
consume_loop-all (v ∷ l) (suc n) enough =
    ap (put_in (some (suc n)) v) (consume_loop-all l n (omega (arith, enough)))

pub values_for-sendings :
    (topic : Topic) (vs : Values)
    → values_for topic (delivered (sendings topic vs) closes) ≡ values_of vs
values_for-sendings topic [] = refl
values_for-sendings topic (v ∷ vs) =
    rw (eq_refl topic) (ap (◌∷◌ v.0) (values_for-sendings topic vs))

finished_with :
    {A : Type 0} (g : Grpc State) (said : Spoken A) (w : State)
    → said.ending ≡ finished
    → finish g said w ≡ came_back said (unlocked (g.close w))
unfolding finish
finished_with g said w is = rw is refl

-- A streaming call that opens its stream and says all that it has to.
pub streamed :
    {A : Type 0} (g : Grpc State) (talk : Opens State (Spoken A)) (s s' : State) (said : Spoken A)
    → g.dial s ≡ (none, s)
    → g.close s' ≡ s'
    → talk s ≡ (ok said, s')
    → said.ending ≡ finished
    → streaming_call g talk (unlocked s) ≡ came_back said (unlocked s')
unfolding streaming_call
streamed g talk s s' said dials closed talked is =
    ap (stream_dialled g talk) dials
    ∙ ap (λ (o : Reply (Spoken _) × State). finish g (said_of o.0) o.1) talked
    ∙ finished_with g said s' is
    ∙ ap (λ w. came_back said (unlocked w)) closed

-- A stream that is closed delivers all of its messages.
pub delivered-closes : (ms : Sendings) → delivered ms closes ≡ ms
delivered-closes [] = refl
delivered-closes (m ∷ ms) = ap (◌∷◌ m) (delivered-closes ms)
