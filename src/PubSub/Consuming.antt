-- ===== src/PubSub/Consuming.antt =====
-- `Consume` an access at a time does what the whole handler does.
use quash.Queue
use quash.Handler.{Brokers}
use quash.Goroutines.{keeps, perform}
use quash.Queue.{Queue}
use quash.Broker.Slots.{queue_at-set_queue, set_queue-same, set_queue-set_queue}
use quash.Messages.{ConsumeRequest, ConsumeResponse}
use quash.Stream.Consuming.{ending_with}
use quash.Broker.{queue_at, set_queue}
use quash.Stream.{rounds_below, broken, finished, Drained, after_send, drain}
use quash.PubSub.Concurrent.{
  broker_code, consuming, count_at, count_of, count_then, send_then, BrokerAnswer, BrokerCode,
  BrokerLocal, died, on_consume, pop_at, pop_rounds,
}
use quash.Prelude.{
  Option-cases, ap, append-nil, arith, eq_refl, inl, inr, sym, true, ◌∙◌, Bool, List, Option,
  String, [], append_assoc, ap₂, false, is_some, none, refl, some, suc, zero, ℕ, ◌++◌, ◌∷◌, ◌≡◌,
}

-- What a call leaves: the brokers, what its goroutine has heard, and whether the mutex is held.
abbrev pub Shown : Type 0
Shown = (Option Brokers × List BrokerAnswer) × Bool

abbrev pub shows : BrokerCode → Option Brokers → BrokerLocal → Shown
shows code o l = (((perform code o l).0, (perform code o l).1.heard), keeps code o l)

-- What should be left, by what the loop of the handler did to the queue.
abbrev pub drained_answer : Option Drained → BrokerAnswer
drained_answer none = died
drained_answer (some d) =
    on_consume (record { sent = d.responses; ending = ending_with d.send_error })

abbrev pub drained_brokers : ConsumeRequest → Brokers → Option Drained → Option Brokers
drained_brokers req b none = none
drained_brokers req b (some d) = some (set_queue b req.topic_name req.subscriber_id d.queue)

abbrev pub drained_holds : Option Drained → Bool
drained_holds none = false
drained_holds (some d) = is_some d.send_error

abbrev pub verdict : ConsumeRequest → Brokers → List BrokerAnswer → Option Drained → Shown
verdict req b heard o = ((drained_brokers req b o, heard ++ drained_answer o ∷ []), drained_holds o)

-- What was sent before comes first.
abbrev after_sent : List ConsumeResponse → Option Drained → Option Drained
after_sent responses none = none
after_sent responses (some d) = some (record d { responses = responses ++ d.responses })

module _ (req : ConsumeRequest) (b : Brokers) where
  abbrev with_rest : Queue → Brokers
  with_rest rest = set_queue b req.topic_name req.subscriber_id rest

  pop_at-empty :
      (l : BrokerLocal) (q : Queue)
      → queue_at b req.topic_name req.subscriber_id ≡ some q
      → Queue.pop q ≡ none
      → pop_at req.topic_name req.subscriber_id (some b) l ≡ (some b, record l { popped = none })
  unfolding pop_at
  pop_at-empty l q there empty = ground (arith, there, empty)

  pop_at-value :
      (l : BrokerLocal) (q : Queue) (val : String) (rest : Queue)
      → queue_at b req.topic_name req.subscriber_id ≡ some q
      → Queue.pop q ≡ some (val, rest)
      → pop_at req.topic_name req.subscriber_id (some b) l
        ≡ (some (with_rest rest), record l { popped = some val })
  unfolding pop_at
  pop_at-value l q val rest there popped = ground (arith, there, popped)

  -- The rest of the loop, after a value that was sent.
  verdict-after :
      (heard : List BrokerAnswer) (responses : List ConsumeResponse) (val : String) (rest : Queue)
      (o : Option Drained)
      → verdict req
          (with_rest rest)
          heard
          (after_sent (responses ++ record { response = val } ∷ []) o)
        ≡ verdict req b heard (after_sent responses (after_send val rest none o))
  unfolding after_send
  verdict-after heard responses val rest none = refl
  verdict-after heard responses val rest (some d) =
      ap₂
        (λ (x : Brokers) (rs : List ConsumeResponse). (
          (
            some x,
            heard ++ on_consume (record { sent = rs; ending = ending_with d.send_error }) ∷ [],
          ),
          is_some d.send_error,
        ))
        (set_queue-set_queue b req.topic_name req.subscriber_id rest d.queue)
        (append_assoc responses (record { response = val } ∷ []) d.responses)

queue_at-rest :
    (req : ConsumeRequest) (b : Brokers) (q rest : Queue)
    → queue_at b req.topic_name req.subscriber_id ≡ some q
    → queue_at (with_rest req b rest) req.topic_name req.subscriber_id ≡ some rest
queue_at-rest req b q rest there = ground (
  arith,
  there,
  eq_refl req.topic_name,
  eq_refl req.subscriber_id,
  queue_at-set_queue b req.topic_name req.subscriber_id rest req.topic_name req.subscriber_id,
)

-- A value that was popped, whose `Send` comes next.
after_pop :
    (req : ConsumeRequest) (b : Brokers) (l : BrokerLocal) (val : String) (rest : Queue)
    (more : BrokerCode) (o : Option Drained) (e : Option String)
    → shows more
        (some (with_rest req b rest))
        (record l { popped = some val; responses = l.responses ++ record { response = val } ∷ [] })
      ≡ verdict req
          (with_rest req b rest)
          l.heard
          (after_sent (l.responses ++ record { response = val } ∷ []) o)
    → shows
        (send_then more e (some val))
        (some (with_rest req b rest))
        (record l { popped = some val })
      ≡ verdict req b l.heard (after_sent l.responses (after_send val rest e o))
unfolding send_then after_send
after_pop req b l val rest more o none ih = ih ∙ verdict-after req b l.heard l.responses val rest o
after_pop req b l val rest more o (some err) ih =
    ap
      (λ (rs : List ConsumeResponse). (
        (
          some (with_rest req b rest),
          l.heard ++ on_consume (record { sent = rs; ending = broken err }) ∷ [],
        ),
        true,
      ))
      (sym (append-nil l.responses))

-- The loop of the handler, by what its first `Pop` gives.
module _ (rounds i : ℕ) (send : ℕ → Option String) (q : Queue) where
  pub drain-empty : Queue.pop q ≡ none → drain (suc rounds) i send q ≡ none
  unfolding drain
  drain-empty empty = ground (arith, empty)

  pub drain-value :
      (val : String) (rest : Queue)
      → Queue.pop q ≡ some (val, rest)
      → drain (suc rounds) i send q ≡ after_send val rest (send i) (drain rounds (suc i) send rest)
  unfolding drain
  drain-value val rest popped = ground (arith, popped)

rounds_lem :
    (req : ConsumeRequest) (send : ℕ → Option String) (rounds i : ℕ) (b : Brokers) (q : Queue)
    (l : BrokerLocal)
    → queue_at b req.topic_name req.subscriber_id ≡ some q
    → shows (pop_rounds req send rounds i) (some b) l
      ≡ verdict req b l.heard (after_sent l.responses (drain rounds i send q))
unfolding pop_rounds drain
rounds_lem req send zero i b q l there =
    ap₂
      (λ (x : Brokers) (rs : List ConsumeResponse).
        ((some x, l.heard ++ on_consume (record { sent = rs; ending = finished }) ∷ []), false))
      (sym (set_queue-same b req.topic_name req.subscriber_id q there))
      (sym (append-nil l.responses))
rounds_lem req send (suc rounds) i b q l there =
    let more = pop_rounds req send rounds (suc i) in
    let go =
      λ (x : Option Brokers × BrokerLocal). shows (send_then more (send i) x.1.popped) x.0 x.1 in
    let said = λ (o : Option Drained). verdict req b l.heard (after_sent l.responses o) in
    elim (Option-cases (Queue.pop q)) [
      | inl empty ↦
          ap go (pop_at-empty req b l q there empty)
          ∙ ap said (sym (drain-empty rounds i send q empty))
      | inr ((val, rest), popped) ↦
          ap go (pop_at-value req b l q val rest there popped)
          ∙ after_pop req b l val rest more (drain rounds (suc i) send rest) (send i) (
              rounds_lem req send rounds (suc i) (with_rest req b rest) rest _
                (queue_at-rest req b q rest there))
          ∙ ap said (sym (drain-value rounds i send q val rest popped))
    ]

-- What the loop of a whole call does; a nil queue panics.
abbrev pub drained_of : (ℕ → Option String) → Option Queue → Option Drained
drained_of send none = none
drained_of send (some q) = drain (rounds_below (Queue.count q)) 0 send q

abbrev pub drained_at : ConsumeRequest → (ℕ → Option String) → Brokers → Option Drained
drained_at req send b = drained_of send (queue_at b req.topic_name req.subscriber_id)

after_sent-nil : (o : Option Drained) → after_sent [] o ≡ o
after_sent-nil none = refl
after_sent-nil (some d) = refl

counted_code :
    (req : ConsumeRequest) (send : ℕ → Option String) (b : Brokers) (l : BrokerLocal)
    (o : Option Queue)
    → queue_at b req.topic_name req.subscriber_id ≡ o
    → shows (broker_code (consuming req send)) (some b) l
      ≡ verdict req b l.heard (drained_of send o)
unfolding broker_code count_at count_then
counted_code req send b l none missing =
    ap
      (λ x.
        shows (count_then req send (count_of x)) (some b)
          (record l { counted = count_of x; responses = [] }))
      missing
counted_code req send b l (some q) there =
    ap
      (λ x.
        shows (count_then req send (count_of x)) (some b)
          (record l { counted = count_of x; responses = [] }))
      there
    ∙ rounds_lem req send (rounds_below (Queue.count q)) 0 b q _ there
    ∙ ap (verdict req b l.heard) (after_sent-nil _)

pub consuming_lem :
    (req : ConsumeRequest) (send : ℕ → Option String) (b : Brokers) (l : BrokerLocal)
    → shows (broker_code (consuming req send)) (some b) l
      ≡ verdict req b l.heard (drained_at req send b)
consuming_lem req send b l =
    counted_code req send b l (queue_at b req.topic_name req.subscriber_id) refl

-- A call of a process that has died.
pub consuming-none :
    (req : ConsumeRequest) (send : ℕ → Option String) (l : BrokerLocal)
    → shows (broker_code (consuming req send)) none l ≡ ((none, l.heard ++ died ∷ []), false)
unfolding broker_code count_at count_then
consuming-none req send l = refl
