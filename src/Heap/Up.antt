-- ===== src/Heap/Up.antt =====
-- The loop of __siftup: it ends, and puts a node that stands too low into its place.
use qt_asio_net_disk.Base.{
  ℕ, zero, suc, ◌≤◌, ◌<◌, ◌≡◌, ◌≢◌, refl, inl, inr, List, some, arith, length, ltb, lt→ltb, ltb→le,
  Bool-cases,
}
use qt_asio_net_disk.Heap.Array.{at-swap}
use qt_asio_net_disk.Heap.Laws.{
  IsOrdered, less_lem, swap_node_lem, Keeps, Keeps-refl, Keeps-trans, swapped-Keeps,
}
use qt_asio_net_disk.Heap.{HeapNode, Heap, key_at, parent, swapped, siftup_loop}

module _ {A : Type 0} ⦃n : HeapNode A⦄ where
  -- The children of `i` are not below the parent of `i`.
  abbrev pub IsBridged : ℕ → List A → ℕ → Type 0
  IsBridged size xs i =
      (c : ℕ) → 0 < c → c < size → parent c ≡ i → 0 < i → key_at xs (parent i) ≤ key_at xs c

  -- At most the edge above `i` is out of order.
  pub record UpInv (size : ℕ) (xs : List A) (i : ℕ) : Type 0 where
    pub edges : (c : ℕ) → 0 < c → c < size → c ≢ i → key_at xs (parent c) ≤ key_at xs c
    pub bridged : IsBridged size xs i

  swapped-UpInv :
      (size : ℕ) (h : Heap A) (i : ℕ)
      → UpInv size h.nodes i
      → 0 < i
      → i < size
      → size ≤ length h.nodes
      → key_at h.nodes i ≤ key_at h.nodes (parent i)
      → UpInv size (swapped h i (parent i)).nodes (parent i)
  unfolding swapped
  swapped-UpInv size h i v pos hi fits below =
      let look = at-swap n.fresh h.nodes i (parent i) (omega arith) (omega arith) in
      record {
        edges = λ c p q ne.
            ground (arith, look c, look (parent c), v.edges c, v.edges (parent i), v.bridged c);
        bridged = λ c p q e pos'.
            ground
              (arith, look c, look (parent (parent i)), v.edges c, v.edges (parent i), v.bridged c);
      }

  -- What __siftup is to do.
  abbrev pub Ordered : ℕ → Heap A → Heap A → Type 0
  Ordered size h g = Keeps size h g × IsOrdered size g.nodes

  pub siftup_loop_orders :
      (fuel size : ℕ) (h : Heap A) (i : ℕ)
      → i < fuel
      → i < size
      → size ≤ length h.nodes
      → UpInv size h.nodes i
      → (g : Heap A) × (siftup_loop fuel h i ≡ some g) × Ordered size h g
  unfolding siftup_loop
  siftup_loop_orders zero size h i f hi fits v = absurd (omega arith)
  siftup_loop_orders (suc fuel) size h zero f hi fits v =
      (h, refl, (Keeps-refl size h, λ c p q. v.edges c p q (omega arith)))
  siftup_loop_orders (suc fuel) size h (suc k) f hi fits v =
      let i : ℕ = suc k in
      let inside : i < length h.nodes = omega arith in
      let above : parent i < length h.nodes = omega arith in
      let test = less_lem h.nodes (parent i) i above inside in
      let moved = swap_node_lem h i (parent i) inside above in
      elim (Bool-cases (ltb (key_at h.nodes (parent i)) (key_at h.nodes i))) [
        | inl settled ↦ (
          h,
          rw (lt→ltb 0 i (omega arith), test, settled),
          (Keeps-refl size h, λ c p q. ground (arith, v.edges c)),
        )
        | inr low ↦
            let step = swapped-Keeps size h i (parent i) hi (omega arith) fits in
            let (g, run, sorted) =
              siftup_loop_orders fuel size (swapped h i (parent i)) (parent i) (omega arith)
                (omega arith) (omega (arith, step.same_length))
                (swapped-UpInv size h i v (omega arith) hi fits (ltb→le _ _ low)) in
            (
              g,
              rw (lt→ltb 0 i (omega arith), test, low, moved) run,
              (Keeps-trans step sorted.0, sorted.1),
            )
      ]
