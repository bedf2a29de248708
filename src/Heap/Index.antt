-- ===== src/Heap/Index.antt =====
-- The index of the heap: `index_map_` has exactly the nodes of the vector, at their positions.
use qt_asio_net_disk.Base.{ℕ, ◌<◌, ◌≡◌, some, arith, length}
use qt_asio_net_disk.Heap.Array.{at-swap, length-swap}
use qt_asio_net_disk.Heap.{HeapNode, Heap, insert, ident_at, swapped}

module _ {A : Type 0} ⦃n : HeapNode A⦄ where
  pub record IsIndexed (h : Heap A) : Type 0 where
    pub forward : (i : ℕ) → i < length h.nodes → h.index_map (ident_at h.nodes i) ≡ some i
    pub backward :
        (k i : ℕ) → h.index_map k ≡ some i → (i < length h.nodes) × (ident_at h.nodes i ≡ k)

  pub swapped-IsIndexed :
      (h : Heap A) (i j : ℕ)
      → i < length h.nodes
      → j < length h.nodes
      → IsIndexed h
      → IsIndexed (swapped h i j)
  unfolding swapped insert
  swapped-IsIndexed h i j hi hj v =
      let size = length-swap n.fresh h.nodes i j in
      let look = at-swap n.fresh h.nodes i j hi hj in
      record {
        forward = λ c hc.
            ground (arith, size, look c, look i, look j, v.forward c, v.forward i, v.forward j);
        backward = λ k c e. ground (arith, size, look c, look i, look j, v.backward k c);
      }
