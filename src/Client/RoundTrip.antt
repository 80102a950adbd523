-- ===== src/Client/RoundTrip.antt =====
-- What a client publishes and what a client then consumes, through the server.
use quash.Stream.Publishing.{closes, AllVisit, acknowledged, rounds_of}
use quash.Messages.{ConsumeRequest, PublishRequest}
use quash.Broker.Run.{with_brokers}
use quash.Stream.Draining.{response_of}
use quash.Structs.{SubscriptionId, Topic}
use quash.Broker.Slots.{AllCounted, mailbox}
use quash.Handler.{Reply, State, ok, returned}
use quash.Stream.{consume, finished, message, publish}
use quash.Stream.RoundTrip.{publish-consume}
use quash.Client.Streams.{
  half_closed, consume_loop, ConsumeAnswers, Opens, PublishAnswers, Spoken, client_consume,
  client_publish, consume_stream, consume_talk, on_stream, publish_loop, publish_talk,
}
use quash.Prelude.{
  ℕ, ◌≤◌, List, String, [], ap, false, length, map, none, refl, some, subst, sym, ◌++◌, ◌<◌, ◌^◌,
  ◌∙◌, ◌∷◌, ◌≡◌,
}
use quash.Client.{Grpc, came_back, unlocked}
use quash.Client.EndToEnd.{
  messages_then_eof, CarriesConsume, CarriesPublish, Values, all_published, consume_loop-all,
  delivered-closes, publish_loop-all, sendings, streamed, values_for-sendings, values_of,
}

-- `Dial` succeeds and leaves the server as it is, and so does `Close`.
pub record Connects (g : Grpc State) : Type 0 where
  pub dials : (s : State) → g.dial s ≡ (none, s)
  pub closes : (s : State) → g.close s ≡ s

-- What a `Consume` says, by what its loop says to the server's values.
pub consume_talk-carried :
    (req : ConsumeRequest) (opens : Opens State ConsumeAnswers) (room : ℕ) (s s' : State)
    (l : List String) (got : Spoken ConsumeRequest)
    → CarriesConsume req opens
    → consume (message req) (λ i. none) s
      ≡ returned (record { sent = map response_of l; ending = finished }) s'
    → consume_loop (some room) (messages_then_eof (map response_of l)) ≡ got
    → consume_talk opens req (some room) s ≡ (ok (record got { requests = req ∷ got.requests }), s')
unfolding consume_stream
consume_talk-carried req opens room s s' l got c ran says =
    ap
      (λ (o : Reply ConsumeAnswers × State).
        (on_stream (λ a. consume_stream (some room) req a.0 a.1.0 a.1.1) o.0, o.1))
      (c.carries s s' _ ran)
    ∙ ap (λ (got : Spoken ConsumeRequest). (ok (record got { requests = req ∷ got.requests }), s'))
        says

module _ (g : Grpc State) (connects : Connects g) where
  publish_served :
      (topic : Topic) (vs : Values) (opens : Opens State PublishAnswers) (room : ℕ)
      → CarriesPublish topic vs opens
      → length vs ≤ room
      → (s s' : State)
      → publish (rounds_of (sendings topic vs) closes) s
        ≡ returned (record { sent = acknowledged (sendings topic vs); ending = finished }) s'
      → client_publish g opens topic (some room) (unlocked s)
        ≡ came_back (all_published topic (values_of vs)) (unlocked s')
  unfolding client_publish
  publish_served topic vs opens room c enough s s' ran =
      streamed g (publish_talk opens topic (some room)) s s' (all_published topic (values_of vs))
        (connects.dials s) (connects.closes s')
        (ap
            (λ (o : Reply PublishAnswers × State).
              (on_stream (λ a. publish_loop (some room) topic a.0 a.1) o.0, o.1))
            (c.carries s s' _ ran)
          ∙ ap (λ (said : Spoken PublishRequest). (ok said, s'))
              (publish_loop-all topic vs room (c.after s) (c.ends half_closed s s' _ _ ran) enough))
        refl

  consume_served :
      (req : ConsumeRequest) (opens : Opens State ConsumeAnswers) (room : ℕ)
      → CarriesConsume req opens
      → (s s' : State) (l : List String) → length l ≤ room
      → consume (message req) (λ i. none) s
        ≡ returned (record { sent = map response_of l; ending = finished }) s'
      → client_consume g opens req (some room) (unlocked s)
        ≡ came_back (record { requests = req ∷ []; responses = l; ending = finished }) (unlocked s')
  unfolding client_consume
  consume_served req opens room c s s' l enough ran =
      streamed g (consume_talk opens req (some room)) s s'
        (record { requests = req ∷ []; responses = l; ending = finished }) (connects.dials s)
        (connects.closes s')
        (consume_talk-carried req opens room s s' l _ c ran (consume_loop-all l room enough)) refl

-- A client publishes the values `vs` to a topic and closes its channel, and a client consumes a
-- subscription of the topic: `Publish` comes back without an error, with an acknowledgement for
-- each value, `Consume` comes back without an error, with what was queued before and then `vs`, in
-- order, each once, in its channel, and the subscription's queue is empty. Each channel `resp` takes
-- all that is put into it, by its buffer or because another goroutine receives from it, and nobody
-- closes it meanwhile. The client's mutex and `brokersLock` are free at the start, `Dial` and the
-- streams do not fail, the server's queues are counted, its `range` loops visit every subscriber
-- once, and fewer than 2 ^ 63 values wait.
pub client_round_trip :
    (g : Grpc State) (topic : Topic) (id : SubscriptionId) (vs : Values)
    (up : Opens State PublishAnswers) (down : Opens State ConsumeAnswers) (s : State)
    (l : List String) (room room' : ℕ)
    → Connects g
    → CarriesPublish topic vs up
    → CarriesConsume (record { topic_name = topic; subscriber_id = id }) down
    → s.brokers_locked ≡ false
    → AllCounted s.brokers
    → AllVisit (sendings topic vs) s.brokers
    → mailbox s.brokers topic id ≡ some l
    → length (l ++ values_of vs) < 2 ^ 63
    → length vs ≤ room
    → length (l ++ values_of vs) ≤ room'
    → (s1 s2 : State) × (client_publish g up topic (some room) (unlocked s)
        ≡ came_back (all_published topic (values_of vs)) (unlocked s1))
      × (client_consume g down
            (record { topic_name = topic; subscriber_id = id })
            (some room')
            (unlocked s1)
          ≡ came_back
              (record {
                requests = record { topic_name = topic; subscriber_id = id } ∷ [];
                responses = l ++ values_of vs;
                ending = finished;
              })
              (unlocked s2))
      × (mailbox s2.brokers topic id ≡ some [])
client_round_trip g topic id vs up down s l room room' connects carries_up carried free counted
      visits holds small enough enough' =
    let req : ConsumeRequest = record { topic_name = topic; subscriber_id = id } in
    let same = values_for-sendings topic vs in
    let (b1, b2, ran1, ran2, empty) =
      publish-consume (sendings topic vs) closes s req (λ i. none) l free counted
        (subst (λ d. AllVisit d s.brokers) (sym (delivered-closes (sendings topic vs))) visits)
        (λ i. refl) holds (rw same small) in
    (
      with_brokers s b1,
      with_brokers s b2,
      publish_served g connects topic vs up room carries_up enough s (with_brokers s b1) ran1,
      consume_served g connects req down room' carried (with_brokers s b1) (with_brokers s b2)
          (l ++ values_of vs) enough'
          (ran2
            ∙ ap
                (λ (k : List String).
                  returned (record { sent = map response_of (l ++ k); ending = finished })
                    (with_brokers s b2))
                same),
      empty,
    )
