-- ===== src/PubSub/Fitting/Loops.antt =====
-- What the loops of `Consume` and of `Snapshot` do to the view.
use quash.Queue
use quash.Telemetry.{count_topics}
use quash.GoMap.{len}
use quash.Handler.{Brokers}
use quash.Queue.{Queue}
use quash.Telemetry.Exact.{counted_of, has-count_topics, reported-count_topics}
use quash.PubSub.Fitting.Steps.{FitsAfter}
use quash.PubSub.Boxes.{values_in, after_send-Sends, drain-values}
use quash.Messages.{ConsumeRequest}
use quash.GoMap.Range.{contains}
use quash.Stream.{Drained, drain, rounds_below}
use quash.PubSub.Concurrent.{consuming, counting, on_count}
use quash.PubSub.Spec.{SeenAs, View}
use quash.Structs.{SubscriptionId, Topic}
use quash.Queue.Fifo.{IsCounted, pop-Pops, to_list}
use quash.PubSub.Fitting.{left_behind, behind, count_in, view_after}
use quash.PubSub.Consuming.{
  drain-empty, drain-value, drained_answer, drained_brokers, drained_holds, drained_of,
}
use quash.Broker.{queue_at, set_queue}
use quash.Broker.Slots.{
  contents-if, AllCounted, CountedAt, CountedAt-if, contents, has-set_queue, queue_at-set_queue,
}
use quash.Prelude.{
  Bool, eq_iff, true, Bool-cases, List, Option, String, [], ap, arith, false, if◌then◌else◌, inl,
  inr, length, ltb, none, refl, some, subst, suc, sym, zero, ℕ, ◌&&◌, ◌++◌, ◌+◌, ◌==◌, ◌^◌, ◌∙◌,
  ◌∷◌, ◌≡◌, ◌≤◌, ◌⊎◌,
}

behind-append : (vs rest : List String) → behind vs (vs ++ rest) ≡ rest
behind-append [] rest = refl
behind-append (v ∷ vs) rest = behind-append vs rest

length-none : (l : List String) → length l ≡ 0 → l ≡ []
length-none [] e = refl
length-none (x ∷ l) e = absurd (omega (arith, e))

-- So many rounds of the loop of `Consume`, none of which was broken off, take so many values.
drain-length :
    (rounds i : ℕ) (send : ℕ → Option String) (q : Queue) (d : Drained)
    → drain rounds i send q ≡ some d
    → d.send_error ≡ none
    → (length (to_list q) ≡ rounds + length (to_list d.queue)) × (IsCounted q → IsCounted d.queue)
unfolding drain
drain-length zero i send q d ran fine =
    let same : q ≡ d.queue = ground (arith, ran) in
    (omega (arith, ap (λ x. length (to_list x)) same), subst IsCounted same)
drain-length (suc rounds) i send q d ran fine = elim (pop-Pops q) [
  | inl (empty, e) ↦ absurd (ground (arith, drain-empty rounds i send q e, ran))
  | inr (x, rest, split, popped, counted) ↦
      let s =
        after_send-Sends x rest (send i) (drain rounds (suc i) send rest) d
          (sym (drain-value rounds i send q x rest popped) ∙ ran) fine in
      let (len, kept) = drain-length rounds (suc i) send rest s.more s.went_on s.fine in
      (
        ap length split ∙ ground (arith, len, s.queue),
        λ c. subst IsCounted (sym s.queue) (kept (counted c)),
      )
]

-- Where the count fits, nothing stays.
nothing_left :
    (send : ℕ → Option String) (q : Queue) (d : Drained)
    → IsCounted q
    → drain (rounds_below (Queue.count q)) 0 send q ≡ some d
    → d.send_error ≡ none
    → (to_list d.queue ≡ []) ⊎ (2 ^ 63 ≤ length (to_list q))
unfolding Queue.count
nothing_left send q d counted ran fine =
    let (len, kept) = drain-length (rounds_below q.counter) 0 send q d ran fine in
    elim (Bool-cases (ltb (length (to_list q)) (2 ^ 63))) [
      | inl small ↦ inl (length-none (to_list d.queue) (ground (arith, len, small, counted)))
      | inr large ↦ inr (ground (arith, large))
    ]

-- The mailbox that a `Consume` is of, and the others.
left_box :
    (c : Bool) (o : Option Queue) (box : Option (List String)) (q rest : Queue) (vs : List String)
    → contents o ≡ box
    → (c ≡ true → o ≡ some q)
    → to_list q ≡ vs ++ to_list rest
    → (if c then some (to_list rest) else contents o) ≡ (if c then left_behind vs box else box)
left_box true o box q rest vs e is split =
    sym (ap some (behind-append vs (to_list rest)))
    ∙ ap (λ l. some (behind vs l)) (sym split)
    ∙ ap (λ x. left_behind vs (contents x)) (sym (is refl))
    ∙ ap (left_behind vs) e
left_box false o box q rest vs e is split = e

module _ (b : Brokers) (v : View) (seen : SeenAs b v) (counted : AllCounted b) where
  pub consuming-FitsAfter :
      (req : ConsumeRequest) (send : ℕ → Option String) (q : Option Queue) (o : Option Drained)
      (b' : Brokers)
      → queue_at b req.topic_name req.subscriber_id ≡ q
      → drained_of send q ≡ o
      → drained_brokers req b o ≡ some b'
      → drained_holds o ≡ false
      → FitsAfter v (consuming req send) (drained_answer o) b'
  unfolding view_after
  consuming-FitsAfter req send q none b' there e ran fine = absurd (ground (arith, ran))
  consuming-FitsAfter req send none (some d) b' there e ran fine = absurd (ground (arith, e))
  consuming-FitsAfter req send (some q) (some d) b' there e ran fine =
      let t = req.topic_name in
      let i = req.subscriber_id in
      let same : set_queue b t i d.queue ≡ b' = ground (arith, ran) in
      let clean : d.send_error ≡ none = ground (arith, fine) in
      let values = drain-values (rounds_below (Queue.count q)) 0 send q d e clean in
      let cq : IsCounted q = subst CountedAt there (counted t i) in
      let box : v.box t i ≡ some (to_list q) = sym (seen.boxes t i) ∙ ap contents there in
      subst (FitsAfter v (consuming req send) (drained_answer (some d))) same (record {
        fits = (
          to_list q,
          box,
          record {
            sent = d.responses;
            rest = to_list d.queue;
            told = rw clean refl;
            split = values;
            all = nothing_left send q d cq e clean;
          },
        );
        seen = record {
          topics = λ u. has-set_queue b t i d.queue u ∙ seen.topics u;
          boxes = λ u j.
              ap contents (queue_at-set_queue b t i d.queue u j (rw there refl))
              ∙ contents-if (t == u && i == j) (some d.queue) (queue_at b u j)
              ∙ left_box (t == u && i == j) (queue_at b u j) (v.box u j) q d.queue
                  (values_in d.responses) (seen.boxes u j)
                  (λ is. ground (arith, is, there, eq_iff t u, eq_iff i j)) values;
        };
        counted = λ u j.
            subst CountedAt (sym (queue_at-set_queue b t i d.queue u j (rw there refl))) (
              CountedAt-if (t == u && i == j) (some d.queue) (queue_at b u j)
                ((drain-length (rounds_below (Queue.count q)) 0 send q d e clean).1 cq)
                (counted u j));
      })

  counted_of-count_in :
      (o : Option Queue) (box : Option (List String))
      → CountedAt o
      → contents o ≡ box
      → counted_of o ≡ count_in box
  unfolding Queue.count
  counted_of-count_in none box c e = rw (← e) refl
  counted_of-count_in (some q) box c e = rw (← e) (ap some c)

  pub counting-FitsAfter :
      (order : List Topic) (orders : Topic → List SubscriptionId)
      → FitsAfter v (counting order orders) (on_count (count_topics order orders b [])) b
  unfolding view_after
  counting-FitsAfter order orders = record {
    fits = record {
      shown = count_topics order orders b [];
      told = refl;
      topics =
          λ t. has-count_topics order orders b t ∙ ap (λ x. contains order t && x) (seen.topics t);
      counts = λ t i.
          reported-count_topics order orders b t i
          ∙ ap (λ x. if contains order t && contains (orders t) i then x else none)
              (counted_of-count_in (queue_at b t i) (v.box t i) (counted t i) (seen.boxes t i));
    };
    seen = seen;
    counted = counted;
  }
