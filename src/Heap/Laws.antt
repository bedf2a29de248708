-- ===== src/Heap/Laws.antt =====
-- The order of the heap, and what moving nodes about in it keeps.
use mathlib.Core.List.Perm
use qt_asio_net_disk.Base.{
  ℕ, zero, suc, ◌≤◌, ◌<◌, ◌≡◌, refl, ◌∙◌, List, Perm, some, arith, length, ltb, lt→ltb,
}
use qt_asio_net_disk.Heap.Array.{at, at-swap, length-swap, swap-perm}
use qt_asio_net_disk.Heap.Index.{IsIndexed, swapped-IsIndexed}
use qt_asio_net_disk.Heap.{HeapNode, Heap, key_at, less, swapped, swap_node, parent}

module _ {A : Type 0} ⦃n : HeapNode A⦄ where
  -- No node of the first `size` is below its parent.
  abbrev pub IsOrdered : ℕ → List A → Type 0
  IsOrdered size xs = (c : ℕ) → 0 < c → c < size → key_at xs (parent c) ≤ key_at xs c

  root_least_below :
      (fuel size : ℕ) (xs : List A) (i : ℕ)
      → IsOrdered size xs
      → i < fuel
      → i < size
      → key_at xs 0 ≤ key_at xs i
  root_least_below zero size xs i h f p = absurd (omega arith)
  root_least_below (suc fuel) size xs zero h f p = omega arith
  root_least_below (suc fuel) size xs (suc i) h f p =
      let above = root_least_below fuel size xs (parent (suc i)) h (omega arith) (omega arith) in
      omega (arith, above, h (suc i) (omega arith) p)

  -- The root has the least key.
  pub root_least :
      (size : ℕ) (xs : List A) (i : ℕ) → IsOrdered size xs → i < size → key_at xs 0 ≤ key_at xs i
  root_least size xs i h p = root_least_below (suc i) size xs i h (omega arith) p

  pub less_lem :
      (xs : List A) (i j : ℕ)
      → i < length xs
      → j < length xs
      → less xs i j ≡ some (ltb (key_at xs i) (key_at xs j))
  unfolding less
  less_lem xs i j hi hj = rw (lt→ltb i (length xs) hi, lt→ltb j (length xs) hj)

  pub swap_node_lem :
      (h : Heap A) (i j : ℕ)
      → i < length h.nodes
      → j < length h.nodes
      → swap_node h i j ≡ some (swapped h i j)
  unfolding swap_node
  swap_node_lem h i j hi hj = rw (lt→ltb i (length h.nodes) hi, lt→ltb j (length h.nodes) hj)

  -- `g` has the nodes of `h`, those from `size` on in their places, and a good index if `h` has one.
  pub record Keeps (size : ℕ) (h g : Heap A) : Type 0 where
    pub perm : Perm g.nodes h.nodes
    pub same_length : length g.nodes ≡ length h.nodes
    pub rest : (c : ℕ) → size ≤ c → at n.fresh g.nodes c ≡ at n.fresh h.nodes c
    pub index : IsIndexed h → IsIndexed g

  pub Keeps-refl : (size : ℕ) (h : Heap A) → Keeps size h h
  Keeps-refl size h = record {
    perm = Perm.refl h.nodes;
    same_length = refl;
    rest = λ c p. refl;
    index = λ v. v;
  }

  pub Keeps-trans : {size : ℕ} {h g f : Heap A} → Keeps size h g → Keeps size g f → Keeps size h f
  Keeps-trans a b = record {
    perm = Perm.trans b.perm a.perm;
    same_length = b.same_length ∙ a.same_length;
    rest = λ c p. b.rest c p ∙ a.rest c p;
    index = λ v. b.index (a.index v);
  }

  pub swapped-Keeps :
      (size : ℕ) (h : Heap A) (i j : ℕ)
      → i < size
      → j < size
      → size ≤ length h.nodes
      → Keeps size h (swapped h i j)
  unfolding swapped
  swapped-Keeps size h i j hi hj fits =
      let inside_i : i < length h.nodes = omega arith in
      let inside_j : j < length h.nodes = omega arith in
      record {
        perm = swap-perm n.fresh h.nodes i j inside_i inside_j;
        same_length = length-swap n.fresh h.nodes i j;
        rest = λ c p. ground (arith, at-swap n.fresh h.nodes i j inside_i inside_j c);
        index = swapped-IsIndexed h i j inside_i inside_j;
      }
