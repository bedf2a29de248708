-- ===== src/Heap/Fix.antt =====
-- What the two classes do with the loops: put one changed node into its place, by sinking it and,
-- if it has not moved, raising it; change a node; append one; drop the last one.
use qt_asio_net_disk.Base.{
  ℕ, suc, ◌-◌, ◌≤◌, ◌<◌, ◌≡◌, ◌≢◌, ap₂, subst, ◌∙◌, dec_lt, ℕ_discrete, List, [], ◌∷◌, ◌++◌, none,
  some, arith, length, length-append, length-set, length-take, set, take,
}
use qt_asio_net_disk.Heap.Array.{at-set, at-take, at-append_left, at-append_last}
use qt_asio_net_disk.Heap.Index.{IsIndexed}
use qt_asio_net_disk.Heap.Laws.{IsOrdered}
use qt_asio_net_disk.Heap.Up.{IsBridged, UpInv, Ordered, siftup_loop_orders}
use qt_asio_net_disk.Heap.Down.{DownInv, Sunk, siftdown_loop_settles}
use qt_asio_net_disk.Heap.{
  HeapNode, Heap, insert, erase, key_at, ident_at, parent, siftup_loop, siftdown_loop,
}

module _ {A : Type 0} ⦃n : HeapNode A⦄ where
  -- The invariant of both classes.
  pub record IsValid (h : Heap A) : Type 0 where
    pub ordered : IsOrdered (length h.nodes) h.nodes
    pub indexed : IsIndexed h

  -- Only edges at `i` are out of order.
  pub record FixInv (size : ℕ) (xs : List A) (i : ℕ) : Type 0 where
    pub edges :
        (c : ℕ) → 0 < c → c < size → parent c ≢ i → c ≢ i → key_at xs (parent c) ≤ key_at xs c
    pub bridged : IsBridged size xs i

  -- Sinking moves the node and restores the order, or it changes nothing and raising restores it.
  pub data Fixes (size : ℕ) (h : Heap A) (i : ℕ) : Type 0 where
    sinks :
        (g : Heap A) (end : ℕ)
        → siftdown_loop (suc (size - i)) h i size ≡ some (g, end)
        → i < end
        → Ordered size h g
        → Fixes size h i
    rises :
        (f : Heap A)
        → siftdown_loop (suc (size - i)) h i size ≡ some (h, i)
        → siftup_loop (suc i) h i ≡ some f
        → Ordered size h f
        → Fixes size h i

  Sunk-UpInv :
      (size : ℕ) (h g : Heap A) (i end : ℕ) → Sunk i size i h g end → end ≡ i → UpInv size h.nodes i
  Sunk-UpInv size h g i end s e =
      subst (λ k. UpInv size k.nodes i) (s.still e)
        (record {
          edges = λ c p q ne. s.settled.edges c p q (λ same. absurd (ne (same ∙ e)));
          bridged = λ c p q child pos. ground (arith, s.settled.bridged c);
        })

  -- Sinking alone is enough for a node that is not below its parent.
  pub Sunk-IsOrdered :
      (size : ℕ) (h g : Heap A) (i end : ℕ)
      → Sunk i size i h g end
      → (0 < i → key_at h.nodes (parent i) ≤ key_at h.nodes i)
      → IsOrdered size g.nodes
  Sunk-IsOrdered size h g i end s above c p q = elim (dec_lt i end) [
    | yes moved ↦ s.settled.edges c p q (λ e. moved)
    | no unmoved ↦
        let e : end ≡ i = omega (arith, s.down) in
        elim (ℕ_discrete c i) [
          | yes here ↦
              let raised : key_at g.nodes (parent i) ≤ key_at g.nodes i =
                rw (s.still e) (above (omega arith)) in
              rw here raised
          | no elsewhere ↦ s.settled.edges c p q (λ end_here. absurd (elsewhere (end_here ∙ e)))
        ]
  ]

  pub fix_lem :
      (size : ℕ) (h : Heap A) (i : ℕ)
      → i < size
      → size ≤ length h.nodes
      → FixInv size h.nodes i
      → Fixes size h i
  fix_lem size h i hi fits v =
      let start : DownInv i size h.nodes i = record {
        edges = λ c p q ne moved. v.edges c p q ne (λ e. absurd (omega (arith, moved e)));
        bridged = v.bridged;
      } in
      let (g, end, run, s) =
        siftdown_loop_settles (suc (size - i)) i size h i (omega arith) hi (omega arith) fits
          start in
      elim (dec_lt i end) [
        | yes moved ↦ sinks g end run moved (s.kept, λ c p q. s.settled.edges c p q (λ e. moved))
        | no still ↦
            let e : end ≡ i = omega (arith, s.down) in
            let (f, up, sorted) =
              siftup_loop_orders (suc i) size h i (omega arith) hi fits
                (Sunk-UpInv size h g i end s e) in
            rises f (run ∙ ap₂ (λ k j. some (k, j)) (s.still e) e) up sorted
      ]

  -- A node is written over.
  unfoldable pub update_node : Heap A → ℕ → A → Heap A
  update_node h i v = record h { nodes = set h.nodes i v }

  pub update_node-FixInv :
      (h : Heap A) (i : ℕ) (v : A)
      → IsValid h
      → i < length h.nodes
      → FixInv (length h.nodes) (update_node h i v).nodes i
  unfolding update_node
  update_node-FixInv h i v valid hi =
      let look = λ (c : ℕ). at-set n.fresh h.nodes i c v hi in
      record {
        edges = λ c p q ne same. ground (arith, look c, look (parent c), valid.ordered c);
        bridged = λ c p q e pos.
            ground (arith, look c, look (parent i), valid.ordered c, valid.ordered i);
      }

  pub update_node-IsIndexed :
      (h : Heap A) (i : ℕ) (v : A)
      → IsIndexed h
      → i < length h.nodes
      → n.ident v ≡ ident_at h.nodes i
      → IsIndexed (update_node h i v)
  unfolding update_node
  update_node-IsIndexed h i v valid hi same =
      let look = λ (c : ℕ). at-set n.fresh h.nodes i c v hi in
      let size = length-set h.nodes i v in
      record {
        forward = λ c p. ground (arith, look c, size, valid.forward c, valid.forward i);
        backward = λ k c e. ground (arith, look c, size, valid.backward k c);
      }

  -- A node goes to the end, and into the index.
  unfoldable pub push_node : Heap A → A → Heap A
  unfolding insert
  push_node h v = record {
    nodes = h.nodes ++ v ∷ [];
    index_map = insert h.index_map (n.ident v) (length h.nodes);
  }

  pub push_node-UpInv :
      (h : Heap A) (v : A)
      → IsValid h
      → UpInv (length (push_node h v).nodes) (push_node h v).nodes (length h.nodes)
  unfolding push_node
  push_node-UpInv h v valid =
      let size = length-append h.nodes (v ∷ []) in
      let look = at-append_left n.fresh h.nodes (v ∷ []) in
      record {
        edges = λ c p q ne. ground (arith, size, look c, look (parent c), valid.ordered c);
        bridged = λ c p q e pos. absurd (omega (arith, size));
      }

  pub push_node-IsIndexed :
      (h : Heap A) (v : A)
      → IsIndexed h
      → h.index_map (n.ident v) ≡ none
      → IsIndexed (push_node h v)
  unfolding push_node insert
  push_node-IsIndexed h v valid new =
      let size = length-append h.nodes (v ∷ []) in
      let look = at-append_left n.fresh h.nodes (v ∷ []) in
      let last = at-append_last n.fresh h.nodes v in
      record {
        forward = λ c p. elim (dec_lt c (length h.nodes)) [
          | yes old ↦ ground (arith, size, look c, valid.forward c)
          | no end ↦ let e : c ≡ length h.nodes = omega (arith, size) in rw e (ground (arith, last))
        ];
        backward = λ k c e. elim (dec_lt c (length h.nodes)) [
          | yes old ↦ ground (arith, size, look c, valid.backward k c)
          | no end ↦ ground (arith, size, last, valid.backward k c)
        ];
      }

  -- The last node goes, from the vector and from the index.
  unfoldable pub drop_last : Heap A → Heap A
  unfolding erase
  drop_last h = record {
    nodes = take (length h.nodes - 1) h.nodes;
    index_map = erase h.index_map (ident_at h.nodes (length h.nodes - 1));
  }

  pub drop_last-IsValid :
      (h : Heap A) (size : ℕ)
      → length h.nodes ≡ suc size
      → IsIndexed h
      → IsOrdered size h.nodes
      → IsValid (drop_last h)
  unfolding drop_last erase
  drop_last-IsValid h size total valid order =
      let last : length h.nodes - 1 ≡ size = omega arith in
      let left : length (take size h.nodes) ≡ size = length-take size h.nodes (omega arith) in
      let look = at-take n.fresh h.nodes size in
      rw last (record {
        ordered = λ c p q. ground (arith, left, look c, look (parent c), order c);
        indexed = record {
          forward = λ c p. ground (arith, left, look c, valid.forward c, valid.forward size);
          backward = λ k c e. ground (arith, left, look c, valid.backward k c);
        };
      })
