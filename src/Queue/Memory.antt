-- ===== src/Queue/Memory.antt =====
-- The queue of server/queue/queue.go with its nodes in memory: `*Node` is nil or an address, and
-- `Push` writes the `Next` of the last node in place.
use quash.Prelude.{Option, String, eqb, if◌then◌else◌, none, some, suc, zero, ℕ, ◌%◌, ◌+◌, ◌-◌, ◌^◌}

-- A `Node`: `none` is nil.
pub record Cell : Type 0 where
  pub element : String
  pub next : Option ℕ

abbrev pub Memory : Type 0
Memory = ℕ → Option Cell

abbrev pub write : Memory → ℕ → Cell → Memory
write m a c b = if eqb a b then some c else m b

-- The `Queue` that a `*Queue` points to.
pub record Header : Type 0 where
  pub root : Option ℕ
  pub counter : ℕ

-- `for start.Next != nil { start = start.Next }`, in at most so many rounds; `none` where these do
-- not do, or a pointer dangles.
unfoldable pub last_from : ℕ → Memory → ℕ → Option ℕ
last_from zero m origin = none
last_from (suc rounds) m origin = elim (m origin) [
  | none ↦ none
  | some c ↦ elim c.next [ none ↦ some origin | some a ↦ last_from rounds m a ]
]

-- `start.Next = nd`
unfoldable pub link : Memory → ℕ → ℕ → Memory
link m origin nd = elim (m origin) [
  | none ↦ m
  | some c ↦ write m origin (record c { next = some nd })
]

abbrev count_up : ℕ → ℕ
count_up counter = (counter + 1) % 2 ^ 64

abbrev count_down : ℕ → ℕ
count_down counter = (counter + (2 ^ 64 - 1)) % 2 ^ 64

-- `Push`, whose new node stands at the address `nd`.
unfoldable pub push_memory : ℕ → ℕ → String → Memory → Header → Option (Memory × Header)
unfolding last_from link
push_memory rounds nd i m q =
    let m' = write m nd (record { element = i; next = none }) in
    elim q.root [
      | none ↦ some (m', record { root = some nd; counter = count_up q.counter })
      | some origin ↦ elim (last_from rounds m' origin) [
        | none ↦ none
        | some a ↦ some (link m' a nd, record q { counter = count_up q.counter })
      ]
    ]

-- `Pop`; `none` is the panic on a nil `Root`, or a pointer that dangles.
unfoldable pub pop_memory : Memory → Header → Option (String × Header)
pop_memory m q = elim q.root [
  | none ↦ none
  | some a ↦ elim (m a) [
    | none ↦ none
    | some c ↦ some (c.element, record { root = c.next; counter = count_down q.counter })
  ]
]
