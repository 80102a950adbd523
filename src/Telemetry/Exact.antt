-- ===== src/Telemetry/Exact.antt =====
-- What a snapshot says of the server.
use quash.Broker.{queue_at}
use quash.Handler.{State, returned, Brokers}
use quash.Broker.Slots.{AllCounted, CountedAt, contents, mailbox}
use quash.Queue
use quash.GoMap
use quash.Structs.{SrvData, Topic, SubscriptionId}
use quash.GoMap.Laws.{get-nil, get-put}
use quash.GoMap.{GoMap}
use quash.Queue.{Queue}
use quash.GoMap.Range.{contains}
use quash.Telemetry.{
  measured, Gauges, snapshot, srv_data, count_sub, count_topic, count_topics, count_subs,
}
use quash.Prelude.{
  sym, ap, false, Option-cases, String, inl, inr, length, ◌<◌, ◌==◌, ◌^◌, List, Option, [], arith,
  eq_iff, if◌then◌else◌, is_some, none, refl, some, ℕ, ◌&&◌, ◌∙◌, ◌∷◌, ◌≡◌,
}

abbrev pub counted_of : Option Queue → Option ℕ
counted_of none = none
counted_of (some q) = some (Queue.count q)

get-count_sub :
    (subs : GoMap Queue) (counts : GoMap ℕ) (j i : SubscriptionId)
    → GoMap.get (count_sub subs counts j) i ≡ (
        if j == i && is_some (GoMap.get subs i)
        then counted_of (GoMap.get subs i)
        else GoMap.get counts i)
unfolding count_sub
get-count_sub subs counts j i = elim (Option-cases (GoMap.get subs j)) [
  | inl e ↦ ground (arith, e, eq_iff j i)
  | inr (q, e) ↦ ground (arith, e, eq_iff j i, get-put counts j (Queue.count q) i)
]

get-count_subs :
    (order : List SubscriptionId) (subs : GoMap Queue) (counts : GoMap ℕ) (i : SubscriptionId)
    → GoMap.get (count_subs order subs counts) i ≡ (
        if contains order i && is_some (GoMap.get subs i)
        then counted_of (GoMap.get subs i)
        else GoMap.get counts i)
unfolding count_subs
get-count_subs [] subs counts i = refl
get-count_subs (j ∷ order) subs counts i =
    ground
      (arith, get-count_subs order subs (count_sub subs counts j) i, get-count_sub subs counts j i)

-- The counts of a topic's queues, where every subscriber is visited.
get-count_subs_all :
    (order : List SubscriptionId) (subs : GoMap Queue) (i : SubscriptionId)
    → contains order i ≡ GoMap.has subs i
    → GoMap.get (count_subs order subs []) i ≡ counted_of (GoMap.get subs i)
get-count_subs_all order subs i all =
    get-count_subs order subs [] i ∙ ground (arith, all, get-nil {V = ℕ} i)

abbrev counts_of : (Topic → List SubscriptionId) → Topic → Option (GoMap Queue) → Option (GoMap ℕ)
counts_of orders t none = none
counts_of orders t (some subs) = some (count_subs (orders t) subs [])

get-count_topic :
    (orders : Topic → List SubscriptionId) (b : Brokers) (topics : GoMap (GoMap ℕ)) (n t : Topic)
    → GoMap.get (count_topic (orders n) b topics n) t ≡ (
        if n == t && is_some (GoMap.get b t)
        then counts_of orders t (GoMap.get b t)
        else GoMap.get topics t)
unfolding count_topic
get-count_topic orders b topics n t = elim (Option-cases (GoMap.get b n)) [
  | inl e ↦ ground (arith, e, eq_iff n t)
  | inr (subs, e) ↦
      ground (arith, e, eq_iff n t, get-put topics n (count_subs (orders n) subs []) t)
]

get-count_topics :
    (order : List Topic) (orders : Topic → List SubscriptionId) (b : Brokers)
    (topics : GoMap (GoMap ℕ)) (t : Topic)
    → GoMap.get (count_topics order orders b topics) t ≡ (
        if contains order t && is_some (GoMap.get b t)
        then counts_of orders t (GoMap.get b t)
        else GoMap.get topics t)
unfolding count_topics
get-count_topics [] orders b topics t = refl
get-count_topics (n ∷ order) orders b topics t = ground (
  arith,
  get-count_topics order orders b (count_topic (orders n) b topics n) t,
  get-count_topic orders b topics n t,
)

-- The number that the snapshot gives for a subscription.
abbrev pub reported : GoMap (GoMap ℕ) → Topic → SubscriptionId → Option ℕ
reported topics t i = elim (GoMap.get topics t) [ none ↦ none | some counts ↦ GoMap.get counts i ]

-- What the loops of `Snapshot` give in any orders.
pub has-count_topics :
    (order : List Topic) (orders : Topic → List SubscriptionId) (b : Brokers) (t : Topic)
    → GoMap.has (count_topics order orders b []) t ≡ contains order t && GoMap.has b t
has-count_topics order orders b t =
    ap is_some (get-count_topics order orders b [] t) ∙ ground (arith, get-nil {V = GoMap ℕ} t)

pub reported-count_topics :
    (order : List Topic) (orders : Topic → List SubscriptionId) (b : Brokers) (t : Topic)
    (i : SubscriptionId)
    → reported (count_topics order orders b []) t i
      ≡ (if contains order t && contains (orders t) i then counted_of (queue_at b t i) else none)
unfolding queue_at
reported-count_topics order orders b t i = elim (Option-cases (GoMap.get b t)) [
  | inl e ↦ ground (arith, e, get-count_topics order orders b [] t, get-nil {V = GoMap ℕ} t)
  | inr (m, e) ↦ ground (
    arith,
    e,
    get-count_topics order orders b [] t,
    get-nil {V = GoMap ℕ} t,
    get-count_subs (orders t) m [] i,
    get-nil {V = ℕ} i,
  )
]

-- How many values wait in a mailbox.
abbrev pub waiting_in : Option (List String) → Option ℕ
waiting_in none = none
waiting_in (some l) = some (length l)

abbrev pub FitsAt : Option (List String) → Type 0
FitsAt none = Unit
FitsAt (some l) = length l < 2 ^ 63

-- No queue is so long that its count does not fit.
abbrev pub Fits : Brokers → Type 0
Fits b = (t : Topic) (i : SubscriptionId) → FitsAt (mailbox b t i)

-- The loops of `Snapshot`, in orders that visit every topic and every subscriber.
module _ (b : Brokers) (order : List Topic) (orders : Topic → List SubscriptionId)
    (tops : (t : Topic) → contains order t ≡ GoMap.has b t)
    (subs : (t : Topic) (i : SubscriptionId)
      → contains (orders t) i ≡ is_some (queue_at b t i)) where
  get-topics :
      (t : Topic)
      → GoMap.get (count_topics order orders b []) t ≡ counts_of orders t (GoMap.get b t)
  get-topics t =
      get-count_topics order orders b [] t ∙ ground (arith, tops t, get-nil {V = GoMap ℕ} t)

  has-topics : (t : Topic) → GoMap.has (count_topics order orders b []) t ≡ GoMap.has b t
  has-topics t = ap is_some (get-topics t) ∙ ground arith

  reported-topics :
      (t : Topic) (i : SubscriptionId)
      → reported (count_topics order orders b []) t i ≡ counted_of (queue_at b t i)
  unfolding queue_at
  reported-topics t i = elim (Option-cases (GoMap.get b t)) [
    | inl e ↦ ground (arith, e, get-topics t)
    | inr (m, e) ↦
        let inner : contains (orders t) i ≡ GoMap.has m i = ground (arith, subs t i, e) in
        ground (arith, e, get-topics t, get-count_subs_all (orders t) m i inner)
  ]

counted_of-waiting :
    (o : Option Queue) → CountedAt o → FitsAt (contents o) → counted_of o ≡ waiting_in (contents o)
unfolding Queue.count
counted_of-waiting none c f = refl
counted_of-waiting (some q) c f = ap some (omega arith)

-- A state in which `kvLock` is free is the one that `Snapshot` leaves to the others.
pub kv_unlocked : (s : State) → s.kv_locked ≡ false → record s { kv_locked = false } ≡ s
kv_unlocked s kv_free = ap (λ k. record s { kv_locked = k }) (sym kv_free)

-- Between its two critical sections the others may do anything. Where `kvLock` is free at the start
-- and `brokersLock` is when the others are done, whose queues are then counted and hold fewer than
-- 2 ^ 63 values, a snapshot whose loops visit every topic and every subscriber of that time and
-- whose gauges can be read returns, and changes nothing itself. It gives the size that the key-value
-- map had at the start, and lists exactly the topics that exist when the others are done and for
-- each of them exactly its subscribers, each with the number of the values that wait for it.
pub snapshot_exact :
    {Float64 : Type 0} (zero_float : Float64) (s s' : State) (between : State → State)
    (order : List Topic) (orders : Topic → List SubscriptionId) (g : Gauges Float64)
    (ram cpu : Float64) (more : List Float64)
    → s.kv_locked ≡ false
    → between s ≡ s'
    → s'.brokers_locked ≡ false
    → AllCounted s'.brokers
    → Fits s'.brokers
    → ((t : Topic) → contains order t ≡ GoMap.has s'.brokers t)
    → ((t : Topic) (i : SubscriptionId) → contains (orders t) i ≡ is_some (queue_at s'.brokers t i))
    → g.used_percent ≡ some ram
    → g.percents ≡ cpu ∷ more
    → (d : SrvData Float64) × (snapshot zero_float between order orders g s ≡ returned d s')
      × (d.kv_map_length ≡ GoMap.len s.kv_map)
      × ((t : Topic) → GoMap.has d.topics t ≡ GoMap.has s'.brokers t)
      × ((t : Topic) (i : SubscriptionId)
          → reported d.topics t i ≡ waiting_in (mailbox s'.brokers t i))
unfolding snapshot srv_data
snapshot_exact zero_float s s' between order orders g ram cpu more kv_free found free counted fits
      tops subs has_ram has_cpu =
    (
      measured zero_float ram cpu g (GoMap.len s.kv_map) (count_topics order orders s'.brokers []),
      rw (kv_free, kv_unlocked s kv_free, found, free, has_ram, has_cpu),
      refl,
      λ t. has-topics s'.brokers order orders tops subs t,
      λ t i.
          reported-topics s'.brokers order orders tops subs t i
          ∙ counted_of-waiting (queue_at s'.brokers t i) (counted t i) (fits t i),
    )
