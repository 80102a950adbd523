-- ===== src/Queue.antt =====
-- server/queue/queue.go: the mailbox of one subscriber.
pub mod Fifo
pub mod Memory
pub mod Chain
pub mod Hang
pub mod InPlace
mod Tests
use quash.Prelude.{ℕ, ◌+◌, ◌-◌, ◌%◌, ◌^◌, String, Option, none, some, List, [], ◌∷◌}

-- A `*Node`: nil, or an element and its `Next`.
pub data Node : Type 0 where
  nil : Node
  node : String → Node → Node

-- `Counter` is an int64, here its bit pattern, below 2 ^ 64.
pub record Queue : Type 0 where
  pub root : Node
  pub counter : ℕ

unfoldable pub new_queue : Queue
new_queue = record { root = nil; counter = 0 }

-- The loop of `Push`: go to the node whose `Next` is nil and hang `nd` there.
unfoldable pub hang : Node → Node → Node
hang nil nd = nd
hang (node e nil) nd = node e nd
hang (node e (node f rest)) nd = node e (hang (node f rest) nd)

-- The new root: `nd` itself where `Root` was nil.
unfoldable pub push_node : Node → Node → Node
unfolding hang
push_node nil nd = nd
push_node (node e rest) nd = hang (node e rest) nd

unfoldable pub push : Queue → String → Queue
unfolding push_node
push q i = record { root = push_node q.root (node i nil); counter = (q.counter + 1) % 2 ^ 64 }

-- `none` is the panic on the nil `Root` of an empty queue.
unfoldable pub pop_node : Node → ℕ → Option (String × Queue)
pop_node nil counter = none
pop_node (node first next) counter =
    some (first, record { root = next; counter = (counter + (2 ^ 64 - 1)) % 2 ^ 64 })

unfoldable pub pop : Queue → Option (String × Queue)
unfolding pop_node
pop q = pop_node q.root q.counter

unfoldable pub count : Queue → ℕ
count q = q.counter
