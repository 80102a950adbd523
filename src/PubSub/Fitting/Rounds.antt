-- ===== src/PubSub/Fitting/Rounds.antt =====
-- What a round of `Publish` does to the view.
use quash.Queue
use quash.GoMap
use quash.PubSub.Boxes.{visits}
use quash.Stream.{push_each}
use quash.PubSub.Concurrent.{broadcasting}
use quash.Stream.Publishing.{appended}
use quash.PubSub.Spec.{SeenAs, View}
use quash.PubSub.Serial.{broadcast_answer, push_each-none, push_each-some}
use quash.GoMap.{GoMap}
use quash.Queue.{Queue}
use quash.PubSub.Fitting.{AllThere, view_after}
use quash.PubSub.Fitting.Steps.{FitsAfter}
use quash.Messages.{PublishRequest}
use quash.Structs.{SubscriptionId, Topic}
use quash.Queue.Fifo.{push-IsCounted, to_list, to_list-push}
use quash.Broker.{queue_at, set_queue}
use quash.Handler.{Brokers}
use quash.Broker.Slots.{
  AllCounted, CountedAt, CountedAt-if, contents, contents-if, has-set_queue, mailbox,
  queue_at-set_queue,
}
use quash.Prelude.{
  Bool, List, Option, Option-cases, String, [], ap, append-nil, append_assoc, arith, eq_iff, false,
  if◌then◌else◌, inl, inr, is_some, none, refl, some, subst, sym, true, ◌&&◌, ◌++◌, ◌==◌, ◌∙◌, ◌∷◌,
  ◌≡◌,
}

-- Every subscriber that the round visits is there.
abbrev AllAt : Brokers → Topic → List SubscriptionId → Type 0
AllAt b topic [] = Unit {0}
AllAt b topic (id ∷ order) = (is_some (mailbox b topic id) ≡ true) × AllAt b topic order

AllAt-same :
    (b c : Brokers) (topic : Topic) (order : List SubscriptionId)
    → ((id : SubscriptionId) → is_some (mailbox b topic id) ≡ is_some (mailbox c topic id))
    → AllAt b topic order
    → AllAt c topic order
AllAt-same b c topic [] same h = tt
AllAt-same b c topic (id ∷ order) same h =
    (sym (same id) ∙ h.0, AllAt-same b c topic order same h.1)

appended-appended :
    (vs ws : List String) (o : Option (List String))
    → appended ws (appended vs o) ≡ appended (vs ++ ws) o
appended-appended vs ws none = refl
appended-appended vs ws (some l) = ap some (append_assoc l vs ws)

is_some-appended :
    (vs : List String) (o : Option (List String)) → is_some (appended vs o) ≡ is_some o
is_some-appended vs none = refl
is_some-appended vs (some l) = refl

appended-nil : (o : Option (List String)) → o ≡ appended [] o
appended-nil none = refl
appended-nil (some l) = ap some (sym (append-nil l))

record Pushed (topic : Topic) (val : String) (order : List SubscriptionId) (b b' : Brokers)
    : Type 0 where
  pub tops : (t : Topic) → GoMap.has b' t ≡ GoMap.has b t
  pub boxes :
      (t : Topic) (i : SubscriptionId)
      → mailbox b' t i ≡ appended (if topic == t then visits i val order else []) (mailbox b t i)
  pub counted : AllCounted b'
  pub all_at : AllAt b topic order

module _ (topic : Topic) (val : String) where
  -- The mailbox that a push is for, and the others.
  pushed_box :
      (o : Option Queue) (q : Queue) (c : Bool)
      → (c ≡ true → o ≡ some q)
      → (if c then some (to_list (Queue.push q val)) else contents o)
        ≡ appended (if c then val ∷ [] else []) (contents o)
  pushed_box o q true is = rw (is refl) (ap some (to_list-push q val))
  pushed_box o q false is = appended-nil (contents o)

  one_push :
      (b : Brokers) (j : SubscriptionId) (q : Queue)
      → queue_at b topic j ≡ some q
      → (t : Topic) (i : SubscriptionId)
      → mailbox (set_queue b topic j (Queue.push q val)) t i
        ≡ appended (if topic == t && j == i then val ∷ [] else []) (mailbox b t i)
  one_push b j q there t i =
      ap contents (queue_at-set_queue b topic j (Queue.push q val) t i (rw there refl))
      ∙ contents-if (topic == t && j == i) (some (Queue.push q val)) (queue_at b t i)
      ∙ pushed_box (queue_at b t i) q (topic == t && j == i)
          (λ is. ground (arith, is, there, eq_iff topic t, eq_iff j i))

  one_counted :
      (b : Brokers) (j : SubscriptionId) (q : Queue)
      → queue_at b topic j ≡ some q
      → AllCounted b
      → AllCounted (set_queue b topic j (Queue.push q val))
  one_counted b j q there counted t i =
      subst CountedAt (sym (queue_at-set_queue b topic j (Queue.push q val) t i (rw there refl))) (
        CountedAt-if (topic == t && j == i) (some (Queue.push q val)) (queue_at b t i)
          (push-IsCounted q val (subst CountedAt there (counted topic j))) (counted t i))

  push_each-Pushed :
      (order : List SubscriptionId) (b b' : Brokers)
      → AllCounted b
      → push_each topic order val b ≡ some b'
      → Pushed topic val order b b'
  unfolding push_each
  push_each-Pushed [] b b' counted ran =
      let same : b ≡ b' = cc in
      rw (← same) (record {
        tops = λ t. refl;
        boxes = λ t i. appended-nil (mailbox b t i) ∙ ground arith;
        counted = counted;
        all_at = tt;
      })
  push_each-Pushed (j ∷ order) b b' counted ran = elim (Option-cases (queue_at b topic j)) [
    | inl e ↦ absurd (ground (arith, push_each-none topic val j b order e, ran))
    | inr (q, e) ↦
        let b1 = set_queue b topic j (Queue.push q val) in
        let more =
          push_each-Pushed order b1 b' (one_counted b j q e counted)
            (sym (push_each-some topic val j b order q e) ∙ ran) in
        record {
          tops = λ t. more.tops t ∙ has-set_queue b topic j (Queue.push q val) t;
          boxes = λ t i.
              more.boxes t i
              ∙ ap (appended _) (one_push b j q e t i)
              ∙ appended-appended _ _ (mailbox b t i)
              ∙ ap (λ vs. appended vs (mailbox b t i)) (ground arith);
          counted = more.counted;
          all_at = (
            rw e refl,
            AllAt-same b1 b topic order
                (λ i.
                  ap is_some (one_push b j q e topic i) ∙ is_some-appended _ (mailbox b topic i))
                more.all_at,
          );
        }
  ]

AllAt-AllThere :
    (b : Brokers) (v : View) (seen : SeenAs b v) (topic : Topic) (order : List SubscriptionId)
    → AllAt b topic order
    → AllThere v topic order
AllAt-AllThere b v seen topic [] h = tt
AllAt-AllThere b v seen topic (id ∷ order) h =
    (ap is_some (sym (seen.boxes topic id)) ∙ h.0, AllAt-AllThere b v seen topic order h.1)

pub broadcasting-FitsAfter :
    (b : Brokers) (v : View)
    → SeenAs b v
    → AllCounted b
    → (order : List SubscriptionId) (req : PublishRequest) (b' : Brokers)
    → push_each req.topic_name order req.value b ≡ some b'
    → FitsAfter v
        (broadcasting order req)
        (broadcast_answer (push_each req.topic_name order req.value b))
        b'
unfolding view_after
broadcasting-FitsAfter b v seen counted order req b' ran =
    let p = push_each-Pushed req.topic_name req.value order b b' counted ran in
    rw ran (record {
      fits = (refl, AllAt-AllThere b v seen req.topic_name order p.all_at);
      seen = record {
        topics = λ t. p.tops t ∙ seen.topics t;
        boxes = λ t i. p.boxes t i ∙ ap (appended _) (seen.boxes t i);
      };
      counted = p.counted;
    })
