-- ===== src/Stream/Draining.antt =====
-- The loop of `Consume` against the list of what is queued.
use quash.Queue.{Queue}
use quash.Queue.Fifo.{IsCounted, pop-Pops, to_list}
use quash.Messages.{ConsumeResponse}
use quash.Stream.{after_send, Drained, drain}
use quash.Prelude.{
  map, zero, ◌++◌, ◌∙◌, ◌≤◌, ap, List, Option, String, [], arith, inl, inr, length, none, refl,
  some, suc, ℕ, ◌∷◌, ◌≡◌,
}

abbrev pub response_of : String → ConsumeResponse
response_of v = record { response = v }

-- What should become of the queued values: those that are sent, those that stay, and the error that
-- broke the sending off. The value whose `Send` fails is in neither list.
pub record Delivery : Type 0 where
  pub sent : List ConsumeResponse
  pub left : List String
  pub error : Option String

unfoldable pub deliver_one : String → List String → Option String → Delivery → Delivery
deliver_one v vs (some e) more = record { sent = []; left = vs; error = some e }
deliver_one v vs none more = record more { sent = response_of v ∷ more.sent }

unfoldable pub delivery : (ℕ → Option String) → ℕ → List String → Delivery
unfolding deliver_one
delivery send i [] = record { sent = []; left = []; error = none }
delivery send i (v ∷ vs) = deliver_one v vs (send i) (delivery send (suc i) vs)

pub record Drains (o : Option Drained) (w : Delivery) (q : Queue) : Type 0 where
  pub result : Drained
  pub returns : o ≡ some result
  pub sent : result.responses ≡ w.sent
  pub left : to_list result.queue ≡ w.left
  pub error : result.send_error ≡ w.error
  pub counted : IsCounted q → IsCounted result.queue

after_send-Drains :
    (v : String) (vs : List String) (q rest : Queue) (err : Option String) {o : Option Drained}
    {w : Delivery}
    → to_list rest ≡ vs
    → (IsCounted q → IsCounted rest)
    → Drains o w rest
    → Drains (after_send v rest err o) (deliver_one v vs err w) q
unfolding after_send deliver_one
after_send-Drains v vs q rest (some e) kept counted d = record {
  result = record { queue = rest; responses = []; send_error = some e };
  returns = refl;
  sent = refl;
  left = kept;
  error = refl;
  counted = counted;
}
after_send-Drains v vs q rest none kept counted d = record {
  result = record d.result { responses = response_of v ∷ d.result.responses };
  returns = rw d.returns;
  sent = ap (◌∷◌ (response_of v)) d.sent;
  left = d.left;
  error = d.error;
  counted = λ c. d.counted (counted c);
}

-- The loop does not panic, and what it sends is the front of what is queued.
abbrev pub SendsFront : Queue → Option Drained → Type 0
SendsFront q o =
    (d : Drained) × (o ≡ some d)
    × (rest : List ConsumeResponse) × (map response_of (to_list q) ≡ d.responses ++ rest)

after_send-SendsFront :
    (v : String) (q rest : Queue) (err : Option String) {o : Option Drained}
    → to_list q ≡ v ∷ to_list rest
    → SendsFront rest o
    → SendsFront q (after_send v rest err o)
unfolding after_send
after_send-SendsFront v q rest (some e) split front = (
  record { queue = rest; responses = []; send_error = some e },
  refl,
  map response_of (to_list q),
  refl,
)
after_send-SendsFront v q rest none split (d, is, kept, all) = (
  record d { responses = response_of v ∷ d.responses },
  rw is,
  kept,
  ap (map response_of) split ∙ ap (◌∷◌ (response_of v)) all,
)

-- At most as many rounds as the queue has elements never pop an empty queue.
pub drain-SendsFront :
    (rounds i : ℕ) (send : ℕ → Option String) (q : Queue)
    → rounds ≤ length (to_list q)
    → SendsFront q (drain rounds i send q)
unfolding drain
drain-SendsFront zero i send q enough = (
  record { queue = q; responses = []; send_error = none },
  refl,
  map response_of (to_list q),
  refl,
)
drain-SendsFront (suc n) i send q enough = elim (pop-Pops q) [
  | inl (empty, _) ↦ absurd (ground (arith, enough, empty))
  | inr (x, rest, split, popped, counted) ↦
      rw (popped, drain)
        (after_send-SendsFront x q rest (send i) split
          (drain-SendsFront n (suc i) send rest (ground (arith, enough, split))))
]

-- As many rounds of the loop as the queue has elements never pop an empty queue. They send, keep
-- and drop what `delivery` says.
pub drain-Drains :
    (vs : List String) (i : ℕ) (send : ℕ → Option String) (q : Queue)
    → to_list q ≡ vs
    → Drains (drain (length vs) i send q) (delivery send i vs) q
unfolding drain delivery
drain-Drains [] i send q e = record {
  result = record { queue = q; responses = []; send_error = none };
  returns = refl;
  sent = refl;
  left = e;
  error = refl;
  counted = λ c. c;
}
drain-Drains (v ∷ vs) i send q e = elim (pop-Pops q) [
  | inl (empty, _) ↦ absurd (ground (arith, e, empty))
  | inr (x, rest, split, popped, counted) ↦
      let head : x ≡ v = ground (arith, e, split) in
      let tail : to_list rest ≡ vs = ground (arith, e, split) in
      rw (popped, drain, head)
        (after_send-Drains v vs q rest (send i) tail counted
          (drain-Drains vs (suc i) send rest tail))
]
