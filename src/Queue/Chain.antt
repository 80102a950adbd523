-- ===== src/Queue/Chain.antt =====
-- Chains of nodes in memory, and the list of nodes that they stand for.
use quash.Queue.Memory.{Memory, last_from, link, write}
use quash.Queue.{Node, hang, nil, node, push_node}
use quash.Prelude.{
  Bool, List, Option, String, [], ap, arith, eqb, false, none, refl, some, true, ℕ, ◌++◌, ◌||◌, ◌∙◌,
  ◌∷◌, ◌≡◌,
}

-- Addresses with their elements, in order.
abbrev pub Cells : Type 0
Cells = List (ℕ × String)

abbrev pub occupies : Cells → ℕ → Bool
occupies [] b = false
occupies ((a, e) ∷ cs) b = eqb a b || occupies cs b

-- From `p` the pointers lead through the cells, at addresses of their own, to nil.
abbrev pub Chain : Memory → Option ℕ → Cells → Type 0
Chain m p [] = p ≡ none
Chain m p ((a, e) ∷ cs) =
    (next : Option ℕ) × (p ≡ some a)
    × (m a ≡ some (record { element = e; next = next }))
    × (occupies cs a ≡ false)
    × Chain m next cs

-- The `*Node` of the model without memory.
abbrev pub nodes : Cells → Node
nodes [] = nil
nodes ((a, e) ∷ cs) = node e (nodes cs)

-- Two memories agree at the cells.
abbrev pub AgreeAt : Cells → Memory → Memory → Type 0
AgreeAt cs m m' = (b : ℕ) → occupies cs b ≡ true → m' b ≡ m b

pub Chain-frame :
    (m m' : Memory) (p : Option ℕ) (cs : Cells) → AgreeAt cs m m' → Chain m p cs → Chain m' p cs
Chain-frame m m' p [] same h = h
Chain-frame m m' p ((a, e) ∷ cs) same (next, at, holds, own, rest) = (
  next,
  at,
  same a (ground arith) ∙ holds,
  own,
  Chain-frame m m' next cs (λ b h. same b (ground (arith, h))) rest,
)

pub occupies-append :
    (cs ds : Cells) (b : ℕ) → occupies (cs ++ ds) b ≡ (occupies cs b || occupies ds b)
occupies-append [] ds b = refl
occupies-append ((a, e) ∷ cs) ds b = ground (arith, occupies-append cs ds b)

pub push_node-nodes :
    (cs : Cells) (a : ℕ) (e : String)
    → push_node (nodes cs) (node e nil) ≡ nodes (cs ++ (a, e) ∷ [])
unfolding push_node
push_node-nodes [] a e = refl
push_node-nodes ((b, f) ∷ cs) a e = hang_lem b f cs
  where
    hang_lem :
        (b : ℕ) (f : String) (cs : Cells)
        → hang (node f (nodes cs)) (node e nil) ≡ node f (nodes (cs ++ (a, e) ∷ []))
    hang_lem b f [] = refl
    hang_lem b f ((c, g) ∷ cs) = ap (node f) (hang_lem c g cs)

-- What a push to a chain that is not empty does: `z` is its last node.
pub record Hangs (rounds nd : ℕ) (i : String) (m : Memory) (origin : ℕ) (cs : Cells) : Type 0 where
  pub last : ℕ
  pub found : last_from rounds (write m nd (record { element = i; next = none })) origin ≡ some last
  pub chain :
      Chain
        (link (write m nd (record { element = i; next = none })) last nd)
        (some origin)
        (cs ++ (nd, i) ∷ [])
  pub elsewhere :
      (b : ℕ)
      → (occupies cs b || eqb nd b) ≡ false
      → link (write m nd (record { element = i; next = none })) last nd b ≡ m b
