-- ===== src/Stream/Publishing.antt =====
-- A whole `Publish` stream.
use quash.Broker.{queue_at}
use quash.Broker.Run.{with_brokers}
use quash.Queue.{Queue}
use quash.Queue.Fifo.{push-IsCounted, to_list, to_list-push}
use quash.GoMap
use quash.Handler.{>>=-returned, State, returned, Brokers}
use quash.Broker.Slots.{is_some-contents, CountedAt, contents, AllCounted, mailbox}
use quash.Stream.Broadcast.{broadcast_lem, pushed, Visits}
use quash.GoMap.{GoMap}
use quash.Structs.{SubscriptionId, Topic}
use quash.Messages.{PublishRequest, PublishResponse}
use quash.Prelude.{
  is_some, Bool, append_assoc, arith, false, subst, true, ◌∙◌, List, Option, String, [], ap,
  append-nil, if◌then◌else◌, none, refl, some, sym, ◌++◌, ◌==◌, ◌∷◌, ◌≡◌,
}
use quash.Stream.{
  publish, broadcast, Ending, Received, Round, broken, eof, failed, finished, message, published,
  waiting,
}

-- The messages of a stream, each with the order in which its `range` visits the subscribers.
abbrev pub Sendings : Type 0
Sendings = List (PublishRequest × List SubscriptionId)

-- How a stream stops: the client closes it, `Recv` fails, or the `Send` of an acknowledgement
-- fails; or it does not, and the handler waits for more.
pub data Stop : Type 0 where
  closes : Stop
  recv_fails : String → Stop
  send_fails : PublishRequest → List SubscriptionId → String → Stop
  stays : Stop

abbrev pub round_of : Received PublishRequest → List SubscriptionId → Option String → Round
round_of r order e = record { received = r; order = order; send_error = e }

abbrev pub last_rounds : Stop → List Round
last_rounds closes = round_of eof [] none ∷ []
last_rounds (recv_fails e) = round_of (failed e) [] none ∷ []
last_rounds (send_fails req order e) = round_of (message req) order (some e) ∷ []
last_rounds stays = []

abbrev pub rounds_of : Sendings → Stop → List Round
rounds_of [] stop = last_rounds stop
rounds_of ((req, order) ∷ rest) stop = round_of (message req) order none ∷ rounds_of rest stop

abbrev pub ending_of : Stop → Ending
ending_of closes = finished
ending_of (recv_fails e) = broken e
ending_of (send_fails req order e) = broken e
ending_of stays = waiting

-- What reaches the subscribers: a message whose acknowledgement fails does too.
abbrev pub delivered : Sendings → Stop → Sendings
delivered [] (send_fails req order e) = (req, order) ∷ []
delivered [] _ = []
delivered (m ∷ rest) stop = m ∷ delivered rest stop

abbrev pub acknowledged : Sendings → List PublishResponse
acknowledged [] = []
acknowledged ((req, order) ∷ rest) = published req ∷ acknowledged rest

-- The values for one topic, in the order of the stream.
abbrev pub values_for : Topic → Sendings → List String
values_for topic [] = []
values_for topic ((req, order) ∷ rest) =
    let more = values_for topic rest in if req.topic_name == topic then req.value ∷ more else more

abbrev pub appended : List String → Option (List String) → Option (List String)
appended vs none = none
appended vs (some l) = some (l ++ vs)

abbrev pub AllVisit : Sendings → Brokers → Type 0
AllVisit [] b = Unit {0}
AllVisit ((req, order) ∷ rest) b = Visits order b req.topic_name × AllVisit rest b

-- From `b` to `b'` the values came in, and nothing else happened.
pub record Delivers (vs : Topic → List String) (b b' : Brokers) : Type 0 where
  pub boxes : (t : Topic) (i : SubscriptionId) → mailbox b' t i ≡ appended (vs t) (mailbox b t i)
  pub tops : (t : Topic) → GoMap.has b' t ≡ GoMap.has b t

Delivers-none : (b : Brokers) → Delivers (λ t. []) b b
Delivers-none b = record { boxes = λ t i. nothing (mailbox b t i); tops = λ t. refl }
  where
    nothing : (o : Option (List String)) → o ≡ appended [] o
    nothing none = refl
    nothing (some l) = ap some (sym (append-nil l))

Delivers-trans :
    (vs ws : Topic → List String) {a b c : Brokers}
    → Delivers vs a b
    → Delivers ws b c
    → Delivers (λ t. vs t ++ ws t) a c
Delivers-trans vs ws {a} {b} {c} d e = record {
  boxes =
      λ t i. e.boxes t i ∙ ap (appended (ws t)) (d.boxes t i) ∙ twice (vs t) (ws t) (mailbox a t i);
  tops = λ t. e.tops t ∙ d.tops t;
}
  where
    twice :
        (l m : List String) (o : Option (List String))
        → appended m (appended l o) ≡ appended (l ++ m) o
    twice l m none = refl
    twice l m (some k) = ap some (append_assoc k l m)

Delivers-cong :
    (vs ws : Topic → List String) {a b : Brokers}
    → ((t : Topic) → vs t ≡ ws t)
    → Delivers vs a b
    → Delivers ws a b
Delivers-cong vs ws {a} {b} h d = record {
  boxes = λ t i. d.boxes t i ∙ ap (λ l. appended l (mailbox a t i)) (h t);
  tops = d.tops;
}

-- One message, as `Delivers` sees it.
abbrev one_value : PublishRequest → Topic → List String
one_value req t = if req.topic_name == t then req.value ∷ [] else []

box-pushed :
    (req : PublishRequest) (t : Topic) (o : Option Queue)
    → contents (if req.topic_name == t then pushed req.value o else o)
      ≡ appended (one_value req t) (contents o)
box-pushed req t none = ground arith
box-pushed req t (some q) = ground (arith, to_list-push q req.value, append-nil (to_list q))

CountedAt-pushed :
    (b : Bool) (v : String) (o : Option Queue)
    → CountedAt o
    → CountedAt (if b then pushed v o else o)
CountedAt-pushed true v none c = tt
CountedAt-pushed true v (some q) c = push-IsCounted q v c
CountedAt-pushed false v o c = c

broadcast-Delivers :
    (s : State) (req : PublishRequest) (order : List SubscriptionId)
    → s.brokers_locked ≡ false
    → AllCounted s.brokers
    → Visits order s.brokers req.topic_name
    → (b' : Brokers) × (broadcast order req s ≡ returned tt (with_brokers s b'))
      × Delivers (one_value req) s.brokers b'
      × AllCounted b'
broadcast-Delivers s req order free c v =
    let (b', ran, slots, tops) = broadcast_lem s order req free v in
    (
      b',
      ran,
      record {
        boxes = λ t i. ap contents (slots t i) ∙ box-pushed req t (queue_at s.brokers t i);
        tops = tops;
      },
      λ t i.
          subst CountedAt (sym (slots t i))
            (CountedAt-pushed (req.topic_name == t) req.value (queue_at s.brokers t i) (c t i)),
    )

is_some-appended :
    (vs : List String) (o : Option (List String)) → is_some (appended vs o) ≡ is_some o
is_some-appended vs none = refl
is_some-appended vs (some l) = refl

-- No subscription comes or goes.
pub Delivers-is_some :
    (vs : Topic → List String) {b b' : Brokers} (t : Topic) (i : SubscriptionId)
    → Delivers vs b b'
    → is_some (queue_at b' t i) ≡ is_some (queue_at b t i)
Delivers-is_some vs {b} {b'} t i d =
    sym (is_some-contents (queue_at b' t i))
    ∙ ap is_some (d.boxes t i)
    ∙ is_some-appended (vs t) (mailbox b t i)
    ∙ is_some-contents (queue_at b t i)

AllVisit-later :
    (ms : Sendings) (vs : Topic → List String) {b b' : Brokers}
    → Delivers vs b b'
    → AllVisit ms b
    → AllVisit ms b'
AllVisit-later [] vs d h = tt
AllVisit-later ((req, order) ∷ ms) vs d h = (
  (h.0.0, λ i. h.0.1 i ∙ sym (Delivers-is_some vs req.topic_name i d)),
  AllVisit-later ms vs d h.1,
)

values_for-one :
    (req : PublishRequest) (order : List SubscriptionId) (rest : Sendings) (t : Topic)
    → one_value req t ++ values_for t rest ≡ values_for t ((req, order) ∷ rest)
values_for-one req order rest t = ground arith

-- A `Publish` stream, however it stops, acknowledges each message whose `Send` did not fail, and
-- appends the values of its messages for a topic, in their order, to the queue of every subscriber
-- of that topic. It changes nothing else, and leaves the lock free and every queue counted. It
-- assumes that the lock is free, that the queues are counted, and that each `range` visits every
-- subscriber of the message's topic once.
pub publish_lem :
    (ms : Sendings) (stop : Stop) (s : State)
    → s.brokers_locked ≡ false
    → AllCounted s.brokers
    → AllVisit (delivered ms stop) s.brokers
    → (b' : Brokers) × (publish (rounds_of ms stop) s
        ≡ returned (record { sent = acknowledged ms; ending = ending_of stop }) (with_brokers s b'))
      × Delivers (λ t. values_for t (delivered ms stop)) s.brokers b'
      × AllCounted b'
unfolding publish
publish_lem [] closes s free c v = (s.brokers, refl, Delivers-none s.brokers, c)
publish_lem [] (recv_fails e) s free c v = (s.brokers, refl, Delivers-none s.brokers, c)
publish_lem [] stays s free c v = (s.brokers, refl, Delivers-none s.brokers, c)
publish_lem [] (send_fails req order e) s free c v =
    let (b', ran, d, c') = broadcast-Delivers s req order free c v.0 in
    (b', >>=-returned (broadcast order req) _ s ran, d, c')
publish_lem ((req, order) ∷ ms) stop s free c v =
    let (b1, ran1, d1, c1) = broadcast-Delivers s req order free c v.0 in
    let (b', ran, d, c') =
      publish_lem ms stop (with_brokers s b1) free c1
        (AllVisit-later (delivered ms stop) (one_value req) d1 v.1) in
    (
      b',
      >>=-returned (broadcast order req) _ s ran1
          ∙ >>=-returned (publish (rounds_of ms stop)) _ (with_brokers s b1) ran,
      Delivers-cong _ _ (values_for-one req order (delivered ms stop))
          (Delivers-trans (one_value req) (λ t. values_for t (delivered ms stop)) d1 d),
      c',
    )
