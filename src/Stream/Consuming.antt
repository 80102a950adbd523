-- ===== src/Stream/Consuming.antt =====
-- `Consume`: what a call delivers, and what it leaves behind.
use quash.Stream.Draining.{Drains, drain-Drains, delivery}
use quash.Messages.{ConsumeResponse, ConsumeRequest}
use quash.Queue.Fifo.{IsCounted, to_list}
use quash.Broker.{queue_at, set_queue}
use quash.Stream.{leave, Drained, Ending, broken, consume, drain, finished, message, rounds_below}
use quash.Handler.{State, returned}
use quash.Prelude.{
  List, refl, true, Option, String, arith, false, is_some, length, none, some, ℕ, ◌<◌, ◌^◌, ◌≡◌,
}
use quash.Queue.{Queue}

abbrev pub ending_with : Option String → Ending
ending_with none = finished
ending_with (some e) = broken e

-- The state after a `Consume` that leaves `q` and ended with the error, if any: only a call without
-- one gets to its `Unlock`.
abbrev pub consumed : State → ConsumeRequest → Queue → Option String → State
consumed s req q e = record s {
  brokers = set_queue s.brokers req.topic_name req.subscriber_id q;
  brokers_locked = is_some e;
}

-- What a call does with a subscription's queue, all told.
pub record Consumes (s : State) (req : ConsumeRequest) (send : ℕ → Option String) (q : Queue)
    : Type 0 where
  pub rest : Queue
  pub ran :
      consume (message req) send s
      ≡ returned
          (record {
            sent = (delivery send 0 (to_list q)).sent;
            ending = ending_with (delivery send 0 (to_list q)).error;
          })
          (consumed s req rest (delivery send 0 (to_list q)).error)
  pub left : to_list rest ≡ (delivery send 0 (to_list q)).left
  pub counted : IsCounted rest

rounds_below-count :
    (q : Queue)
    → IsCounted q
    → length (to_list q) < 2 ^ 63
    → rounds_below q.counter ≡ length (to_list q)
rounds_below-count q c small = ground arith

leave_lem :
    (s : State) (responses : List ConsumeResponse) (e : Option String)
    → s.brokers_locked ≡ true
    → leave responses e s
      ≡ returned
          (record { sent = responses; ending = ending_with e })
          (record s { brokers_locked = is_some e })
unfolding leave
leave_lem s responses none held = rw held
leave_lem s responses (some e) held = rw held

module _ (s : State) (free : s.brokers_locked ≡ false) (req : ConsumeRequest)
    (send : ℕ → Option String) where
  pub section_lem :
      (q : Queue) (d : Drained)
      → queue_at s.brokers req.topic_name req.subscriber_id ≡ some q
      → drain (rounds_below q.counter) 0 send q ≡ some d
      → consume (message req) send s
        ≡ returned
            (record { sent = d.responses; ending = ending_with d.send_error })
            (consumed s req d.queue d.send_error)
  unfolding consume
  section_lem q d there drained =
      rw (free, there, drained) (leave_lem _ d.responses d.send_error refl)

  pub consume_lem :
      (q : Queue)
      → queue_at s.brokers req.topic_name req.subscriber_id ≡ some q
      → IsCounted q
      → length (to_list q) < 2 ^ 63
      → Consumes s req send q
  consume_lem q there c small = of_drain (drain-Drains (to_list q) 0 send q refl)
    where
      of_drain :
          Drains (drain (length (to_list q)) 0 send q) (delivery send 0 (to_list q)) q
          → Consumes s req send q
      of_drain d = record {
        rest = d.result.queue;
        ran =
            rw (← d.sent, ← d.error)
              (section_lem q d.result there (rw (rounds_below-count q c small) d.returns));
        left = d.left;
        counted = d.counted c;
      }
