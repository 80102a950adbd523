-- ===== src/Broker/Slots.antt =====
-- The laws of `brokers[topic][id]` under the writes of the handlers.
use quash.Queue.Fifo.{IsCounted, to_list}
use quash.Broker.{add_to, create, queue_at, remove_from, set_queue}
use quash.GoMap.{GoMap}
use quash.Handler.{Brokers}
use quash.Kv.Live.{found}
use quash.Queue.{Queue, new_queue}
use quash.Structs.{SubscriptionId, Topic}
use quash.GoMap.Laws.{put-put, put-same, get-nil, get-delete, get-put}
use quash.Prelude.{
  eq_refl, Bool, false, refl, List, Option, String, [], arith, eq_iff, if◌then◌else◌, is_some, none,
  some, true, ◌&&◌, ◌==◌, ◌||◌, ◌≡◌,
}
use quash.GoMap

-- The subscribers of a topic; a missing topic has none.
abbrev pub subs_of : Brokers → Topic → GoMap Queue
subs_of b topic = elim (GoMap.get b topic) [ none ↦ [] | some subs ↦ subs ]

abbrev put_sub : Brokers → Topic → SubscriptionId → Queue → GoMap Queue
put_sub b topic id q = GoMap.put (subs_of b topic) id q

module _ (b : Brokers) (topic : Topic) (id : SubscriptionId) where
  -- A write through the pointer of an existing subscription is seen there alone.
  pub queue_at-set_queue :
      (q : Queue) (t : Topic) (i : SubscriptionId)
      → is_some (queue_at b topic id) ≡ true
      → queue_at (set_queue b topic id q) t i
        ≡ (if topic == t && id == i then some q else queue_at b t i)
  unfolding queue_at set_queue
  queue_at-set_queue q t i found = ground (
    arith,
    eq_iff topic t,
    get-put b topic (put_sub b topic id q) t,
    get-put (subs_of b topic) id q i,
  )

  -- The last write counts, and a write of what is there changes nothing.
  pub set_queue-set_queue :
      (q r : Queue) → set_queue (set_queue b topic id q) topic id r ≡ set_queue b topic id r
  unfolding set_queue
  set_queue-set_queue q r = ground (
    arith,
    eq_refl topic,
    get-put b topic (put_sub b topic id q) topic,
    put-put b topic (put_sub b topic id q) (GoMap.put (put_sub b topic id q) id r),
    put-put (subs_of b topic) id q r,
  )

  pub set_queue-same : (q : Queue) → queue_at b topic id ≡ some q → set_queue b topic id q ≡ b
  unfolding set_queue queue_at
  set_queue-same q there =
      ground (arith, there, put-same (subs_of b topic) id q, put-same b topic (subs_of b topic))

  pub has-set_queue : (q : Queue) (t : Topic) → GoMap.has (set_queue b topic id q) t ≡ GoMap.has b t
  unfolding set_queue
  has-set_queue q t = ground (arith, eq_iff topic t, get-put b topic (put_sub b topic id q) t)

  pub queue_at-remove_from :
      (t : Topic) (i : SubscriptionId)
      → queue_at (remove_from id topic b) t i
        ≡ (if topic == t && id == i then none else queue_at b t i)
  unfolding queue_at remove_from
  queue_at-remove_from t i = ground (
    arith,
    eq_iff topic t,
    get-put b topic (GoMap.delete (subs_of b topic) id) t,
    get-delete (subs_of b topic) id i,
  )

  pub has-remove_from : (t : Topic) → GoMap.has (remove_from id topic b) t ≡ GoMap.has b t
  unfolding remove_from
  has-remove_from t =
      ground (arith, eq_iff topic t, get-put b topic (GoMap.delete (subs_of b topic) id) t)

  pub queue_at-add_to :
      (t : Topic) (i : SubscriptionId)
      → queue_at (add_to id topic b).1 t i
        ≡ (if GoMap.has b topic && (topic == t && id == i) then some new_queue else queue_at b t i)
  unfolding queue_at add_to
  queue_at-add_to t i = ground (
    arith,
    eq_iff topic t,
    get-put b topic (put_sub b topic id new_queue) t,
    get-put (subs_of b topic) id new_queue i,
  )

  pub has-add_to : (t : Topic) → GoMap.has (add_to id topic b).1 t ≡ GoMap.has b t
  unfolding add_to
  has-add_to t = ground (arith, eq_iff topic t, get-put b topic (put_sub b topic id new_queue) t)

module _ (b : Brokers) (topic : Topic) where
  pub queue_at-create :
      (t : Topic) (i : SubscriptionId) → queue_at (create topic b).1 t i ≡ queue_at b t i
  unfolding queue_at create
  queue_at-create t i = ground (arith, eq_iff topic t, get-put b topic [] t, get-nil {V = Queue} i)

  pub has-create : (t : Topic) → GoMap.has (create topic b).1 t ≡ (topic == t || GoMap.has b t)
  unfolding create
  has-create t = ground (arith, eq_iff topic t, get-put b topic [] t)

  pub queue_at-delete :
      (t : Topic) (i : SubscriptionId)
      → queue_at (GoMap.delete b topic) t i ≡ (if topic == t then none else queue_at b t i)
  unfolding queue_at
  queue_at-delete t i = ground (arith, eq_iff topic t, get-delete b topic t)

-- What a subscriber has not consumed yet, oldest first; `none` where there is no subscription.
abbrev pub contents : Option Queue → Option (List String)
contents none = none
contents (some q) = some (to_list q)

abbrev pub mailbox : Brokers → Topic → SubscriptionId → Option (List String)
mailbox b topic id = contents (queue_at b topic id)

-- Every queue counts its elements.
abbrev pub CountedAt : Option Queue → Type 0
CountedAt none = Unit
CountedAt (some q) = IsCounted q

abbrev pub AllCounted : Brokers → Type 0
AllCounted b = (topic : Topic) (id : SubscriptionId) → CountedAt (queue_at b topic id)

pub CountedAt-if :
    (c : Bool) (o p : Option Queue) → CountedAt o → CountedAt p → CountedAt (if c then o else p)
CountedAt-if true o p h k = h
CountedAt-if false o p h k = k

pub is_some-contents : (o : Option Queue) → is_some (contents o) ≡ is_some o
is_some-contents none = refl
is_some-contents (some q) = refl

pub contents-if :
    (c : Bool) (o p : Option Queue)
    → contents (if c then o else p) ≡ (if c then contents o else contents p)
contents-if true o p = refl
contents-if false o p = refl
