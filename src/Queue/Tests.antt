-- ===== src/Queue/Tests.antt =====
-- A queue at a concrete input.
use quash.Queue.Memory.{push_memory, Header, Memory, write}
use quash.Queue.InPlace.{PopsAs, Pushes, Stands, pop_in_place, push_in_place, push_spares}
use quash.Queue.Fifo.{IsCounted, pop_n, pop_n-push_all, push_all, to_list}
use quash.Prelude.{arith, none, [], length, refl, some, ◌++◌, ◌∷◌, ◌≡◌}
use quash.Queue.{pop, Queue, count, nil, node, push}

abbrev one_left : Queue
one_left = record { root = node "x" nil; counter = 1 }

one_left-IsCounted : IsCounted one_left
unfolding to_list
one_left-IsCounted = refl

pop_n-push_all_example :
    (q' : Queue) × (pop_n
        (length (to_list one_left ++ "y" ∷ "z" ∷ []))
        (push_all one_left ("y" ∷ "z" ∷ []))
      ≡ some (to_list one_left ++ "y" ∷ "z" ∷ [], q'))
    × (to_list q' ≡ [])
    × (count q' ≡ 0)
pop_n-push_all_example = pop_n-push_all one_left ("y" ∷ "z" ∷ []) one_left-IsCounted

push_run :
    push (push one_left "y") "z" ≡ record { root = node "x" (node "y" (node "z" nil)); counter = 3 }
unfolding push
push_run = refl

-- The same queue in memory, at the address 4, beside another at the address 9.
abbrev two_queues : Memory
two_queues =
    write (write (λ b. none) 4 (record { element = "x"; next = none })) 9
      (record { element = "other"; next = none })

abbrev x_header : Header
x_header = record { root = some 4; counter = 1 }

abbrev other_header : Header
other_header = record { root = some 9; counter = 1 }

abbrev other_left : Queue
other_left = record { root = node "other" nil; counter = 1 }

x_header-Stands : Stands two_queues x_header ((4, "x") ∷ []) one_left
x_header-Stands = record { chain = (none, refl, refl, refl, refl); root = refl; counter = refl }

other_header-Stands : Stands two_queues other_header ((9, "other") ∷ []) other_left
other_header-Stands = record { chain = (none, refl, refl, refl, refl); root = refl; counter = refl }

push_in_place_example : Pushes 1 5 "y" two_queues x_header ((4, "x") ∷ []) one_left
push_in_place_example =
    push_in_place 1 5 "y" two_queues x_header ((4, "x") ∷ []) one_left x_header-Stands refl
      (omega arith)

pop_in_place_example : PopsAs two_queues x_header (pop one_left)
pop_in_place_example = pop_in_place two_queues x_header ((4, "x") ∷ []) one_left x_header-Stands

push_spares_example :
    (m' : Memory) × (h' : Header) × (push_memory 1 5 "y" two_queues x_header ≡ some (m', h'))
    × Stands m' h' ((4, "x") ∷ (5, "y") ∷ []) (push one_left "y")
    × Stands m' other_header ((9, "other") ∷ []) other_left
push_spares_example =
    push_spares 1 5 "y" two_queues x_header other_header ((4, "x") ∷ []) ((9, "other") ∷ [])
      one_left other_left x_header-Stands refl (omega arith) other_header-Stands
      (λ b h. ground (arith, h))
