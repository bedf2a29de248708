-- ===== src/Heap.antt =====
-- The minimum heap with an index of its nodes that two classes of the repository share in code:
-- ServerHeap of NetDisk-Server/LoadBalancing/code/serverheap/ServerHeap.cpp and Timer of
-- NetDisk-Server/Server/code/timer/Timer.cpp. Their loops are the same, text for text; what differs
-- (node, key, checks) is in the modules ServerHeap and Timer.
-- `none` is a failed `assert`, an access out of range, or a loop that has run out of fuel.
pub mod Array
pub mod Laws
pub mod Index
pub mod Up
pub mod Down
pub mod Fix
pub mod Delete
use qt_asio_net_disk.Base.{
  ℕ, zero, suc, ◌+◌, ◌-◌, ◌*◌, ◌/◌, List, Option, none, some, Bool, length, ltb, ◌==◌, ◌&&◌,
  if◌then◌else◌,
}
use Array.{at, swap}

-- What the loops need of a node: what `operator<` compares, the key of the node in `index_map_`,
-- and a default-constructed node.
pub record HeapNode (A : Type 0) : Type 0 where
  pub key : A → ℕ
  pub ident : A → ℕ
  pub fresh : A

-- `heap_` and `index_map_`; a socket or timer id that the code accepts is not negative.
pub record Heap (A : Type 0) : Type 0 where
  pub nodes : List A
  pub index_map : ℕ → Option ℕ

infixl 5 ◌>>=◌
abbrev pub ◌>>=◌ : {A B : Type 0} → Option A → (A → Option B) → Option B
none >>= f = none
some a >>= f = f a

-- `index_map_[k] = i`
unfoldable pub insert : (ℕ → Option ℕ) → ℕ → ℕ → ℕ → Option ℕ
insert m k i j = if k == j then some i else m j

-- `index_map_.erase(k)`
unfoldable pub erase : (ℕ → Option ℕ) → ℕ → ℕ → Option ℕ
erase m k j = if k == j then none else m j

abbrev pub parent : ℕ → ℕ
parent i = (i - 1) / 2

module _ {A : Type 0} ⦃n : HeapNode A⦄ where
  -- The key of `heap_[i]`.
  abbrev pub key_at : List A → ℕ → ℕ
  key_at xs i = n.key (at n.fresh xs i)

  abbrev pub ident_at : List A → ℕ → ℕ
  ident_at xs i = n.ident (at n.fresh xs i)

  -- `heap_[i] < heap_[j]`
  unfoldable pub less : List A → ℕ → ℕ → Option Bool
  less xs i j =
      if ltb i (length xs) && ltb j (length xs)
      then some (ltb (key_at xs i) (key_at xs j))
      else none

  -- The two nodes change places, and the map follows them.
  unfoldable pub swapped : Heap A → ℕ → ℕ → Heap A
  unfolding insert swap
  swapped h i j =
      let nodes = swap n.fresh h.nodes i j in
      record {
        nodes = nodes;
        index_map = insert (insert h.index_map (ident_at nodes i) i) (ident_at nodes j) j;
      }

  -- __swapnode with its assert
  unfoldable pub swap_node : Heap A → ℕ → ℕ → Option (Heap A)
  swap_node h i j =
      if ltb i (length h.nodes) && ltb j (length h.nodes) then some (swapped h i j) else none

  -- The loop of __siftup.
  unfoldable pub siftup_loop : ℕ → Heap A → ℕ → Option (Heap A)
  siftup_loop zero h i = none
  siftup_loop (suc fuel) h i =
      let rise = swap_node h i (parent i) >>= λ g. siftup_loop fuel g (parent i) in
      let round = less h.nodes (parent i) i >>= λ settled. if settled then some h else rise in
      if ltb 0 i then round else some h

  -- The smaller child, where a left child is in range.
  unfoldable pub smaller_child : List A → ℕ → ℕ → Option ℕ
  smaller_child xs i size =
      let j = i * 2 + 1 in
      let choose = less xs (j + 1) j >>= λ right. some (if right then j + 1 else j) in
      if ltb (j + 1) size then choose else some j

  -- The loop of __siftdown over the first `size` nodes; it returns the last `i` too.
  unfoldable pub siftdown_loop : ℕ → Heap A → ℕ → ℕ → Option (Heap A × ℕ)
  siftdown_loop zero h i size = none
  siftdown_loop (suc fuel) h i size =
      let sink = λ (j : ℕ). swap_node h i j >>= λ g. siftdown_loop fuel g j size in
      let round = smaller_child h.nodes i size >>= λ j.
      less h.nodes i j >>= λ settled. if settled then some (h, i) else sink j in
      if ltb (i * 2 + 1) size then round else some (h, i)
