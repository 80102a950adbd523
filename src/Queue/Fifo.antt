-- ===== src/Queue/Fifo.antt =====
-- queue.go as a first-in first-out list with a count.
use quash.Prelude.{
  append-nil, append_assoc, sym, ◌∙◌, suc, zero, ℕ, ◌+◌, ◌%◌, ◌^◌, ◌⊎◌, inl, inr, String, ◌≡◌, refl,
  ap, Option, none, some, List, [], ◌∷◌, ◌++◌, arith, length, length-append,
}
use quash.Queue.{count, Node, nil, node, Queue, new_queue, hang, push_node, push, pop_node, pop}

abbrev pub elements : Node → List String
elements nil = []
elements (node e rest) = e ∷ elements rest

-- The abstract queue: its elements, oldest first.
unfoldable pub to_list : Queue → List String
to_list q = elements q.root

-- The counter is the number of elements, as far as an int64 can tell.
abbrev pub IsCounted : Queue → Type 0
IsCounted q = q.counter ≡ length (to_list q) % 2 ^ 64

elements-hang : (n : Node) (i : String) → elements (hang n (node i nil)) ≡ elements n ++ i ∷ []
unfolding hang
elements-hang nil i = refl
elements-hang (node e nil) i = refl
elements-hang (node e (node f rest)) i = ap (◌∷◌ e) (elements-hang (node f rest) i)

elements-push_node :
    (n : Node) (i : String) → elements (push_node n (node i nil)) ≡ elements n ++ i ∷ []
unfolding push_node
elements-push_node nil i = refl
elements-push_node (node e rest) i = elements-hang (node e rest) i

-- A new element goes to the end.
pub to_list-push : (q : Queue) (i : String) → to_list (push q i) ≡ to_list q ++ i ∷ []
unfolding to_list push
to_list-push q i = elements-push_node q.root i

counter-push : (q : Queue) (i : String) → (push q i).counter ≡ (q.counter + 1) % 2 ^ 64
unfolding push
counter-push q i = refl

pub push-IsCounted : (q : Queue) (i : String) → IsCounted q → IsCounted (push q i)
push-IsCounted q i c =
    rw (to_list-push, counter-push) (omega (arith, length-append (to_list q) (i ∷ [])))

-- `pop` fails on the empty queue only, and otherwise splits off the oldest element.
abbrev pub Pops : Queue → Option (String × Queue) → Type 0
Pops q r =
    ((to_list q ≡ []) × (r ≡ none))
    ⊎ ((x : String) × (rest : Queue) × (to_list q ≡ x ∷ to_list rest)
        × (r ≡ some (x, rest))
        × (IsCounted q → IsCounted rest))

pop_node-Pops : (n : Node) (c : ℕ) → Pops (record { root = n; counter = c }) (pop_node n c)
unfolding pop_node to_list
pop_node-Pops nil c = inl (refl, refl)
pop_node-Pops (node e rest) c = inr (e, _, refl, refl, λ h. omega arith)

pub pop-Pops : (q : Queue) → Pops q (pop q)
unfolding pop
pop-Pops q = pop_node-Pops q.root q.counter

pub new_queue-IsCounted : IsCounted new_queue
unfolding new_queue to_list
new_queue-IsCounted = omega arith

pub to_list-new_queue : to_list new_queue ≡ []
unfolding new_queue to_list
to_list-new_queue = refl

unfoldable pub push_all : Queue → List String → Queue
push_all q [] = q
push_all q (x ∷ xs) = push_all (push q x) xs

abbrev and_then : String → Option (List String × Queue) → Option (List String × Queue)
and_then x none = none
and_then x (some (xs, q)) = some (x ∷ xs, q)

-- So many calls of `pop`: the elements, and the queue that is left.
unfoldable pub pop_n : ℕ → Queue → Option (List String × Queue)
pop_n zero q = some ([], q)
pop_n (suc n) q = elim (pop q) [ none ↦ none | some (x, rest) ↦ and_then x (pop_n n rest) ]

to_list-push_all : (q : Queue) (xs : List String) → to_list (push_all q xs) ≡ to_list q ++ xs
unfolding push_all
to_list-push_all q [] = sym (append-nil (to_list q))
to_list-push_all q (x ∷ xs) =
    to_list-push_all (push q x) xs ∙ rw (to_list-push q x) (append_assoc (to_list q) (x ∷ []) xs)

push_all-IsCounted : (q : Queue) (xs : List String) → IsCounted q → IsCounted (push_all q xs)
unfolding push_all
push_all-IsCounted q [] c = c
push_all-IsCounted q (x ∷ xs) c = push_all-IsCounted (push q x) xs (push-IsCounted q x c)

pop_n-suc :
    (n : ℕ) (q rest q' : Queue) (x : String) (xs : List String)
    → pop q ≡ some (x, rest)
    → pop_n n rest ≡ some (xs, q')
    → pop_n (suc n) q ≡ some (x ∷ xs, q')
unfolding pop_n
pop_n-suc n q rest q' x xs popped ran = rw (popped, pop_n, ran)

pop_n_all :
    (ys : List String) (q : Queue)
    → to_list q ≡ ys
    → IsCounted q
    → (q' : Queue) × (pop_n (length ys) q ≡ some (ys, q')) × (to_list q' ≡ []) × (count q' ≡ 0)
unfolding pop_n count
pop_n_all [] q e c = (q, refl, e, c ∙ ap (λ l. length l % 2 ^ 64) e)
pop_n_all (y ∷ ys) q e c = elim (pop-Pops q) [
  | inl (empty, _) ↦ absurd (ground (arith, e, empty))
  | inr (x, rest, split, popped, counted) ↦
      let head : x ≡ y = ground (arith, e, split) in
      let (q', ran, empty, zeroed) = pop_n_all ys rest (ground (arith, e, split)) (counted c) in
      (
        q',
        pop_n-suc (length ys) q rest q' x ys popped ran ∙ ap (λ z. some (z ∷ ys, q')) head,
        empty,
        zeroed,
      )
]

-- First in, first out: after pushes of `xs` on a queue that counts its elements, as many pops as
-- there are elements return the old elements and then `xs`, in order, and leave the queue empty,
-- its counter at 0.
pub pop_n-push_all :
    (q : Queue) (xs : List String)
    → IsCounted q
    → (q' : Queue) × (pop_n (length (to_list q ++ xs)) (push_all q xs) ≡ some (to_list q ++ xs, q'))
      × (to_list q' ≡ [])
      × (count q' ≡ 0)
pop_n-push_all q xs c =
    pop_n_all (to_list q ++ xs) (push_all q xs) (to_list-push_all q xs) (push_all-IsCounted q xs c)
