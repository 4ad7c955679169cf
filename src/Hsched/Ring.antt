-- ===== src/Hsched/Ring.antt =====
-- When the ring of kernel/src/hsched.rs holds a queue of words, and one step on either end of it.
use hxnu.Base.{
  ℕ, zero, suc, ◌+◌, ◌%◌, ◌^◌, ◌≤◌, ◌<◌, ◌≡◌, refl, List, [], ◌∷◌, ◌++◌, arith, length, get_or,
  get_or-set_self, get_or-set_other, set,
}
use hxnu.Hsched.{Node, Scheduler, node_at, no_node, ring_size}

module _ {ℓ} {A : Type ℓ} where
  pub get_or-append :
      (xs : List A) (y : A) (i : ℕ) (d : A)
      → i < length xs
      → get_or (xs ++ y ∷ []) i d ≡ get_or xs i d
  get_or-append [] y i d h = absurd (omega arith)
  get_or-append (x ∷ xs) y zero d h = refl
  get_or-append (x ∷ xs) y (suc i) d h = get_or-append xs y i d (omega arith)

  pub get_or-append_last : (xs : List A) (y : A) (d : A) → get_or (xs ++ y ∷ []) (length xs) d ≡ y
  get_or-append_last [] y d = refl
  get_or-append_last (x ∷ xs) y d = get_or-append_last xs y d

-- The ring holds `q`, the oldest word first: its nodes are numbered one past their positions, the
-- free ones by their positions. No position is near the wrap-around.
pub record Holds (s : Scheduler) (q : List ℕ) : Type 0 where
  pub sized : length s.buffer ≡ ring_size
  pub count : s.tail ≡ s.head + length q
  pub few : length q ≤ ring_size
  pub room : s.tail < 2 ^ 62
  pub pending :
      (i : ℕ)
      → i < length q
      → ((node_at s (s.head + i)).sequence ≡ s.head + i + 1)
        × ((node_at s (s.head + i)).word ≡ get_or q i 0)
  pub free : (i : ℕ) → length q ≤ i → i < ring_size → (node_at s (s.head + i)).sequence ≡ s.head + i

-- The node of a position after a write at another.
pub set_node_here :
    (s : Scheduler) (pos : ℕ) (node : Node)
    → length s.buffer ≡ ring_size
    → get_or (set s.buffer (pos % ring_size) node) (pos % ring_size) no_node ≡ node
set_node_here s pos node sized =
    get_or-set_self s.buffer (pos % ring_size) node no_node (omega (arith, sized))

pub set_node_there :
    (s : Scheduler) (pos other : ℕ) (node : Node)
    → pos < other
    → other < pos + ring_size
    → get_or (set s.buffer (pos % ring_size) node) (other % ring_size) no_node
      ≡ get_or s.buffer (other % ring_size) no_node
set_node_there s pos other node after near =
    get_or-set_other s.buffer (pos % ring_size) (other % ring_size) node no_node (omega arith)

pub set_node_before :
    (s : Scheduler) (pos other : ℕ) (node : Node)
    → other < pos
    → pos < other + ring_size
    → get_or (set s.buffer (pos % ring_size) node) (other % ring_size) no_node
      ≡ get_or s.buffer (other % ring_size) no_node
set_node_before s pos other node before near =
    get_or-set_other s.buffer (pos % ring_size) (other % ring_size) node no_node (omega arith)
