-- ===== src/PubSub/Conserving.antt =====
-- No call of the broker loses, doubles or reorders what waits for a subscription.
use quash.PubSub.Boxes.{
  Conserves, Keeps, delivered_by, drain-values, published_by, push_each-mailbox, same_box,
}
use quash.Goroutines.Serial.{Legal}
use quash.PubSub.Sessions.{held_after, replayed, replayed-none}
use quash.Goroutines.{keeps}
use quash.Queue
use quash.PubSub.Consuming.{drained_answer, drained_brokers, drained_holds, drained_of}
use quash.PubSub.Serial.{broker_answer, broker_holds, broker_next}
use quash.Queue.{Queue}
use quash.Broker.{queue_at}
use quash.Structs.{SubscriptionId, Topic}
use quash.Messages.{ConsumeRequest}
use quash.Stream.{rounds_below, Drained}
use quash.Queue.Fifo.{to_list}
use quash.Handler.{Brokers}
use quash.PubSub.Concurrent.{
  counting, BrokerAnswer, BrokerCall, adding, broadcasting, consuming, creating, removing,
  unsubscribing,
}
use quash.Prelude.{
  Bool, ap, append_assoc, eq_iff, refl, sym, ◌∙◌, List, Option, Option-cases, String, [],
  append-nil, arith, false, if◌then◌else◌, inl, inr, none, some, ℕ, ◌&&◌, ◌++◌, ◌==◌, ◌∷◌, ◌≡◌,
}
use quash.Broker.Slots.{
  queue_at-add_to, queue_at-create, queue_at-delete, queue_at-remove_from, queue_at-set_queue,
  mailbox,
}

module _ (topic : Topic) (id : SubscriptionId) (b : Brokers) (l : List String)
    (boxed : mailbox b topic id ≡ some l) where
  -- A call that neither publishes to the subscription nor consumes it.
  untouched-Conserves :
      (next b' : Brokers)
      → some next ≡ some b'
      → queue_at next topic id ≡ queue_at b topic id
      → Conserves (mailbox b' topic id) l [] []
  untouched-Conserves next b' ran same =
      same_box (mailbox b' topic id) l (ground (arith, ran, same, boxed))

  -- `Consume` of the subscription, or of another, not broken off.
  consuming-Conserves :
      (req : ConsumeRequest) (send : ℕ → Option String) (q : Option Queue) (o : Option Drained)
      (b' : Brokers)
      → queue_at b req.topic_name req.subscriber_id ≡ q
      → drained_of send q ≡ o
      → drained_brokers req b o ≡ some b'
      → drained_holds o ≡ false
      → Conserves
          (mailbox b' topic id)
          l
          []
          (delivered_by topic id (consuming req send) (drained_answer o))
  consuming-Conserves req send q none b' there e ran fine = absurd (ground (arith, ran))
  consuming-Conserves req send none (some d) b' there e ran fine = absurd (ground (arith, e))
  consuming-Conserves req send (some q) (some d) b' there e ran fine =
      let t = req.topic_name in
      let i = req.subscriber_id in
      let values =
        drain-values (rounds_below (Queue.count q)) 0 send q d e (ground (arith, fine)) in
      (
        if t == topic && i == id then to_list d.queue else l,
        ground (arith, ran, there, boxed, queue_at-set_queue b t i d.queue topic id),
        ground (arith, values, there, boxed, eq_iff t topic, eq_iff i id, append-nil l),
      )

  call-Conserves :
      (c : BrokerCall) (b' : Brokers)
      → Keeps topic id c
      → broker_next c (some b) ≡ some b'
      → broker_holds c (some b) ≡ false
      → Conserves
          (mailbox b' topic id)
          l
          (published_by topic id c)
          (delivered_by topic id c (broker_answer c (some b)))
  unfolding broker_next broker_holds broker_answer
  call-Conserves (creating req) b' keeps ran fine =
      untouched-Conserves _ b' ran (queue_at-create b req.topic_name topic id)
  call-Conserves (removing req) b' keeps ran fine =
      untouched-Conserves _ b' ran
        (queue_at-delete b req.topic_name topic id ∙ ground (arith, keeps))
  call-Conserves (adding i req) b' keeps ran fine =
      untouched-Conserves _ b' ran
        (queue_at-add_to b req.topic_name i topic id ∙ ground (arith, keeps))
  call-Conserves (unsubscribing req) b' keeps ran fine =
      untouched-Conserves _ b' ran
        (queue_at-remove_from b req.topic_name req.subscriber_id topic id ∙ ground (arith, keeps))
  call-Conserves (broadcasting order req) b' keeps ran fine =
      (_, push_each-mailbox topic req.topic_name id req.value order b b' l boxed ran, refl)
  call-Conserves (consuming req send) b' keeps ran fine =
      consuming-Conserves req send _ _ b' refl refl ran fine
  call-Conserves (counting order orders) b' keeps ran fine = untouched-Conserves b b' ran refl

abbrev pub AllKeep : Topic → SubscriptionId → List BrokerCall → Type 0
AllKeep topic id [] = Unit {0}
AllKeep topic id (c ∷ cs) = Keeps topic id c × AllKeep topic id cs

-- What calls publish to the subscription, and what they deliver of it, in order.
abbrev pub all_published : Topic → SubscriptionId → List BrokerCall → List String
all_published topic id [] = []
all_published topic id (c ∷ cs) = published_by topic id c ++ all_published topic id cs

abbrev pub all_delivered :
    Topic → SubscriptionId → List BrokerCall → List BrokerAnswer → List String
all_delivered topic id [] answers = []
all_delivered topic id (c ∷ cs) [] = []
all_delivered topic id (c ∷ cs) (a ∷ answers) =
    delivered_by topic id c a ++ all_delivered topic id cs answers

-- One call and the calls after it.
append-Conserves :
    (box : Option (List String)) (l p ps d ds mid : List String)
    → l ++ p ≡ d ++ mid
    → Conserves box mid ps ds
    → Conserves box l (p ++ ps) (d ++ ds)
append-Conserves box l p ps d ds mid one (rest, boxed, more) = (
  rest,
  boxed,
  sym (append_assoc l p ps)
      ∙ ap (λ x. x ++ ps) one
      ∙ append_assoc d mid ps
      ∙ ap (λ x. d ++ x) more
      ∙ sym (append_assoc d ds rest),
)

-- What waits for a subscription, in a process that lives.
abbrev pub box_of : Topic → SubscriptionId → Option Brokers → Option (List String)
box_of topic id none = none
box_of topic id (some b) = mailbox b topic id

-- Where the mutex is free after calls, it was before.
pub Legal-free :
    (k : Bool) (cs : List BrokerCall) (o : Option Brokers)
    → Legal broker_next broker_holds k cs o
    → held_after k cs o ≡ false
    → k ≡ false
Legal-free k [] o legal fine = fine
Legal-free k (c ∷ cs) o legal fine = legal.0

-- Calls one after the other, of which the process is left alive and the mutex free.
pub calls-Conserve :
    (topic : Topic) (id : SubscriptionId) (cs : List BrokerCall) (k : Bool) (o : Option Brokers)
    (b' : Brokers) (l : List String)
    → box_of topic id o ≡ some l
    → AllKeep topic id cs
    → Legal broker_next broker_holds k cs o
    → held_after k cs o ≡ false
    → (replayed cs o).1 ≡ some b'
    → Conserves
        (mailbox b' topic id)
        l
        (all_published topic id cs)
        (all_delivered topic id cs (replayed cs o).0)
calls-Conserve topic id [] k o b' l boxed keeps legal fine ran =
    same_box (mailbox b' topic id) l (ap (box_of topic id) (sym ran) ∙ boxed)
calls-Conserve topic id (c ∷ cs) k none b' l boxed keeps legal fine ran = cc
calls-Conserve topic id (c ∷ cs) k (some b) b' l boxed keeps legal fine ran =
    elim (Option-cases (broker_next c (some b))) [
      | inl e ↦ absurd (ground (arith, ap (λ o. (replayed cs o).1) e, replayed-none cs, ran))
      | inr (mid, e) ↦
          let now_free =
            Legal-free (broker_holds c (some b)) cs (broker_next c (some b)) legal.1 fine in
          let (l', boxed', one) = call-Conserves topic id b l boxed c mid keeps.0 e now_free in
          append-Conserves (mailbox b' topic id) l (published_by topic id c) _
            (delivered_by topic id c (broker_answer c (some b))) _ l' one
            (calls-Conserve topic id cs (broker_holds c (some b)) (broker_next c (some b)) b' l'
              (ap (box_of topic id) e ∙ boxed') keeps.1 legal.1 fine ran)
    ]
