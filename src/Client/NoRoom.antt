-- ===== src/Client/NoRoom.antt =====
-- `Consume` of client/client.go with a channel that takes less than what is queued, such as one
-- without a buffer that nobody receives from before the call comes back.
use quash.Broker.Run.{with_brokers}
use quash.Stream.RoundTrip.{consume_all}
use quash.Client.RoundTrip.{Connects, consume_talk-carried}
use quash.Messages.{ConsumeRequest}
use quash.Client.{Grpc, client_call, held, shut_out, unary_call, unlocked, waits}
use quash.Stream.Draining.{response_of}
use quash.Stream.{waiting}
use quash.Prelude.{
  List, String, [], ap, eq_refl, false, length, map, none, refl, some, suc, ◌++◌, ◌<◌, ◌^◌, ◌∙◌,
  ◌∷◌, ◌≡◌,
}
use quash.Rpc.{
  Method, Request, add_subscriber_rpc, create_topic_rpc, delete_kv_rpc, get_kv_rpc,
  remove_subscriber_rpc, remove_topic_rpc, set_kv_rpc,
}
use quash.Client.Streams.{
  ConsumeAnswers, Opens, Spoken, client_consume, consume_loop, consume_talk, finish, put_in,
  said_of, stream_dialled, streaming_call,
}
use quash.Handler.{Reply, State, ok}
use quash.Broker.Slots.{AllCounted, mailbox}
use quash.Client.EndToEnd.{CarriesConsume, messages_then_eof}

waiting_with :
    {A : Type 0} (g : Grpc State) (said : Spoken A) (w : State)
    → said.ending ≡ waiting
    → finish g said w ≡ waits said (held w)
unfolding finish
waiting_with g said w is = rw is refl

-- A streaming call that opens its stream and comes to wait.
stuck_in :
    {A : Type 0} (g : Grpc State) (talk : Opens State (Spoken A)) (s s' : State) (said : Spoken A)
    → g.dial s ≡ (none, s)
    → talk s ≡ (ok said, s')
    → said.ending ≡ waiting
    → streaming_call g talk (unlocked s) ≡ waits said (held s')
unfolding streaming_call
stuck_in g talk s s' said dials talked is =
    ap (stream_dialled g talk) dials
    ∙ ap (λ (o : Reply (Spoken _) × State). finish g (said_of o.0) o.1) talked
    ∙ waiting_with g said s' is

-- The loop puts in as many values as the channel takes, and waits with the next one.
consume_loop-short :
    (l : List String) (x : String) (more : List String)
    → consume_loop (some (length l)) (messages_then_eof (map response_of (l ++ x ∷ more)))
      ≡ record { requests = []; responses = l; ending = waiting }
unfolding consume_loop put_in
consume_loop-short [] x more = refl
consume_loop-short (v ∷ l) x more =
    ap (put_in (some (suc (length l))) v) (consume_loop-short l x more)

held-shut_out :
    (g : Grpc State) (m : Method) (req : Request m) (s : State)
    → client_call g m req (held s) ≡ shut_out (held s)
unfolding client_call unary_call
held-shut_out g set_kv_rpc req s = refl
held-shut_out g get_kv_rpc req s = refl
held-shut_out g delete_kv_rpc req s = refl
held-shut_out g create_topic_rpc req s = refl
held-shut_out g remove_topic_rpc req s = refl
held-shut_out g add_subscriber_rpc req s = refl
held-shut_out g remove_subscriber_rpc req s = refl

-- A client consumes a subscription for which the values `l`, then `x` and then `more` wait, into a
-- channel that takes as many values as `l` has, and no other: the call never comes back. It puts `l`
-- into the channel, in order, and waits with `x`, the client's mutex held, so that no later call of
-- the client gets in; at the server the subscription's queue is empty, so that `x` and `more` reach
-- nobody. Both mutexes are free at the start, `Dial` and the stream do not fail, the stream keeps
-- what the client has not received, so that the server's `Send`s return, the server's queues are
-- counted, and fewer than 2 ^ 63 values wait.
pub client_consume_waits :
    (g : Grpc State) (req : ConsumeRequest) (down : Opens State ConsumeAnswers) (s : State)
    (l : List String) (x : String) (more : List String)
    → Connects g
    → CarriesConsume req down
    → s.brokers_locked ≡ false
    → AllCounted s.brokers
    → mailbox s.brokers req.topic_name req.subscriber_id ≡ some (l ++ x ∷ more)
    → length (l ++ x ∷ more) < 2 ^ 63
    → (s' : State) × (client_consume g down req (some (length l)) (unlocked s)
        ≡ waits (record { requests = req ∷ []; responses = l; ending = waiting }) (held s'))
      × (mailbox s'.brokers req.topic_name req.subscriber_id ≡ some [])
      × ((m : Method) (later : Request m) → client_call g m later (held s') ≡ shut_out (held s'))
unfolding client_consume
client_consume_waits g req down s l x more connects carried free counted holds small =
    let c = consume_all s req (λ i. none) (l ++ x ∷ more) free counted (λ i. refl) holds small in
    let s' = with_brokers s c.brokers in
    (
      s',
      stuck_in g (consume_talk down req (some (length l))) s s'
          (record { requests = req ∷ []; responses = l; ending = waiting }) (connects.dials s)
          (consume_talk-carried req down (length l) s s' (l ++ x ∷ more) _ carried c.ran
            (consume_loop-short l x more))
          refl,
      c.boxes req.topic_name req.subscriber_id ∙ simp eq_refl,
      λ m later. held-shut_out g m later s',
    )
