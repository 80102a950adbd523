-- ===== src/Queue/InPlace.antt =====
-- `Push` and `Pop` in memory do what they do to the chain of nodes.
use quash.Queue.Hang.{hangs}
use quash.Queue
use quash.Queue.{nil, node, pop_node, push_node, Queue}
use quash.Queue.Chain.{Chain-frame, push_node-nodes, nodes, Chain, Cells, occupies}
use quash.Queue.Memory.{pop_memory, write, Header, push_memory, Memory, link}
use quash.Prelude.{
  true, ◌%◌, ◌+◌, ◌-◌, ◌^◌, Option, ◌++◌, ◌||◌, ap, subst, sym, length, ◌∙◌, ◌≤◌, String, [], arith,
  eqb, false, none, refl, some, ℕ, ◌∷◌, ◌≡◌,
}

-- In memory `m` the header `h` is the queue `q`, whose nodes stand at the addresses of the cells.
pub record Stands (m : Memory) (h : Header) (cs : Cells) (q : Queue) : Type 0 where
  pub chain : Chain m h.root cs
  pub root : q.root ≡ nodes cs
  pub counter : h.counter ≡ q.counter

-- What a `Push` does: it runs, leaves the queue with the value behind the others, and writes to no
-- address but its own.
pub record Pushes (k nd : ℕ) (i : String) (m : Memory) (h : Header) (cs : Cells) (q : Queue)
    : Type 0 where
  pub memory : Memory
  pub header : Header
  pub ran : push_memory k nd i m h ≡ some (memory, header)
  pub stands : Stands memory header (cs ++ (nd, i) ∷ []) (Queue.push q i)
  pub elsewhere : (b : ℕ) → (occupies cs b || eqb nd b) ≡ false → memory b ≡ m b

module _ (k nd : ℕ) (i : String) (m : Memory) (h : Header) (q : Queue) where
  pushed_root : (cs : Cells) → Stands m h cs q → (Queue.push q i).root ≡ nodes (cs ++ (nd, i) ∷ [])
  unfolding Queue.push
  pushed_root cs s = ap (λ n. push_node n (node i nil)) s.root ∙ push_node-nodes cs nd i

  counted_up : (cs : Cells) → Stands m h cs q → (h.counter + 1) % 2 ^ 64 ≡ (Queue.push q i).counter
  unfolding Queue.push
  counted_up cs s = ap (λ (n : ℕ). (n + 1) % 2 ^ 64) s.counter

  pushed_from :
      (p : Option ℕ) (cs : Cells)
      → h.root ≡ p
      → Stands m h cs q
      → occupies cs nd ≡ false
      → length cs ≤ k
      → Pushes k nd i m h cs q
  unfolding push_memory
  pushed_from none [] e s apart enough = record {
    memory = write m nd (record { element = i; next = none });
    header = record { root = some nd; counter = (h.counter + 1) % 2 ^ 64 };
    ran = rw e;
    stands = record {
      chain = (none, refl, ground arith, refl, refl);
      root = pushed_root [] s;
      counter = counted_up [] s;
    };
    elsewhere = λ b out. ground (arith, out);
  }
  pushed_from none ((a, f) ∷ cs) e s apart enough = absurd (ground (arith, e, s.chain.1))
  pushed_from (some origin) cs e s apart enough =
      let r = hangs nd i m k origin cs (subst (λ p. Chain m p cs) e s.chain) apart enough in
      record {
        memory = link (write m nd (record { element = i; next = none })) r.last nd;
        header = record h { counter = (h.counter + 1) % 2 ^ 64 };
        ran = ground (arith, e, r.found);
        stands = record {
          chain =
              subst
                (λ p.
                  Chain (link (write m nd (record { element = i; next = none })) r.last nd) p
                    (cs ++ (nd, i) ∷ []))
                (sym e) r.chain;
          root = pushed_root cs s;
          counter = counted_up cs s;
        };
        elsewhere = r.elsewhere;
      }

-- A `Push` with its nodes in memory, at an address that the queue does not use, and with as many
-- rounds of its loop as the queue has nodes, runs without a nil dereference and does what `push`
-- does to the chain of nodes; it writes to no address but the queue's own and the new one.
pub push_in_place :
    (k nd : ℕ) (i : String) (m : Memory) (h : Header) (cs : Cells) (q : Queue)
    → Stands m h cs q
    → occupies cs nd ≡ false
    → length cs ≤ k
    → Pushes k nd i m h cs q
push_in_place k nd i m h cs q s apart enough =
    pushed_from k nd i m h q h.root cs refl s apart enough

-- What `Pop` does where `pop` gives `o`: both panic, or both return the same value, and what is
-- left of the queue stands in the same memory.
abbrev pub PopsAs : Memory → Header → Option (String × Queue) → Type 0
PopsAs m h none = pop_memory m h ≡ none
PopsAs m h (some (v, q')) =
    (h' : Header) × (cs' : Cells) × (pop_memory m h ≡ some (v, h')) × Stands m h' cs' q'

popped :
    (m : Memory) (h : Header) (cs : Cells) (n : ℕ)
    → Chain m h.root cs
    → h.counter ≡ n
    → PopsAs m h (pop_node (nodes cs) n)
unfolding pop_memory pop_node
popped m h [] n c e = rw c
popped m h ((a, f) ∷ cs) n (next, at, holds, own, rest) e = (
  record { root = next; counter = (h.counter + (2 ^ 64 - 1)) % 2 ^ 64 },
  cs,
  ground (arith, at, holds),
  record { chain = rest; root = refl; counter = ap (λ (x : ℕ). (x + (2 ^ 64 - 1)) % 2 ^ 64) e },
)

-- A `Pop` with its nodes in memory panics just where `pop` does, and else returns the same value
-- and leaves, in the same memory, the queue that `pop` leaves.
pub pop_in_place :
    (m : Memory) (h : Header) (cs : Cells) (q : Queue) → Stands m h cs q → PopsAs m h (Queue.pop q)
unfolding Queue.pop
pop_in_place m h cs q s =
    subst (λ n. PopsAs m h (pop_node n q.counter)) (sym s.root)
      (popped m h cs q.counter s.chain s.counter)

-- A `Push` in memory, at a new address and with enough rounds, to a queue that stands beside another
-- whose nodes are at other addresses, runs, and leaves both in one memory: its own queue with the
-- value behind the others, and the other queue as it was.
pub push_spares :
    (k nd : ℕ) (i : String) (m : Memory) (h h2 : Header) (cs cs2 : Cells) (q q2 : Queue)
    → Stands m h cs q
    → occupies cs nd ≡ false
    → length cs ≤ k
    → Stands m h2 cs2 q2
    → ((b : ℕ) → occupies cs2 b ≡ true → (occupies cs b || eqb nd b) ≡ false)
    → (m' : Memory) × (h' : Header) × (push_memory k nd i m h ≡ some (m', h'))
      × Stands m' h' (cs ++ (nd, i) ∷ []) (Queue.push q i)
      × Stands m' h2 cs2 q2
push_spares k nd i m h h2 cs cs2 q q2 s fresh enough s2 apart =
    let p = push_in_place k nd i m h cs q s fresh enough in
    (
      p.memory,
      p.header,
      p.ran,
      p.stands,
      record {
        chain = Chain-frame m p.memory h2.root cs2 (λ b at. p.elsewhere b (apart b at)) s2.chain;
        root = s2.root;
        counter = s2.counter;
      },
    )
