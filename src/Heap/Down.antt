-- ===== src/Heap/Down.antt =====
-- The loop of __siftdown: it ends, and puts a node that stands too high into its place.
use qt_asio_net_disk.Base.{
  ℕ, zero, suc, ◌+◌, ◌-◌, ◌*◌, ◌≤◌, ◌<◌, ◌≡◌, ◌≢◌, ◌⊎◌, refl, inl, inr, List, some, arith, length,
  ltb, ltb→lt, ltb→le, Bool-cases,
}
use qt_asio_net_disk.Heap.Array.{at-swap}
use qt_asio_net_disk.Heap.Laws.{
  less_lem, swap_node_lem, Keeps, Keeps-refl, Keeps-trans, swapped-Keeps,
}
use qt_asio_net_disk.Heap.Up.{IsBridged}
use qt_asio_net_disk.Heap.{HeapNode, Heap, key_at, parent, swapped, smaller_child, siftdown_loop}

module _ {A : Type 0} ⦃n : HeapNode A⦄ where
  -- Only edges at `i` are out of order, and the one above `i` only if the node has not moved from
  -- `start`.
  pub record DownInv (start size : ℕ) (xs : List A) (i : ℕ) : Type 0 where
    pub edges :
        (c : ℕ)
        → 0 < c
        → c < size
        → parent c ≢ i
        → (c ≡ i → start < i)
        → key_at xs (parent c) ≤ key_at xs c
    pub bridged : IsBridged size xs i

  -- The edges below `i` are in order too.
  pub record Settled (start size : ℕ) (xs : List A) (i : ℕ) : Type 0 where
    pub edges :
        (c : ℕ) → 0 < c → c < size → (c ≡ i → start < i) → key_at xs (parent c) ≤ key_at xs c
    pub bridged : IsBridged size xs i

  pub record IsSmaller (size : ℕ) (xs : List A) (i j : ℕ) : Type 0 where
    pub inside : j < size
    pub child : (j ≡ i * 2 + 1) ⊎ (j ≡ i * 2 + 2)
    pub least : (c : ℕ) → 0 < c → c < size → parent c ≡ i → key_at xs j ≤ key_at xs c

  pub smaller_child_lem :
      (xs : List A) (i size : ℕ)
      → i * 2 + 1 < size
      → size ≤ length xs
      → (j : ℕ) × (smaller_child xs i size ≡ some j) × IsSmaller size xs i j
  unfolding smaller_child
  smaller_child_lem xs i size left fits = elim (Bool-cases (ltb (i * 2 + 1 + 1) size)) [
    | inl both ↦
        let two : i * 2 + 1 + 1 < size = ltb→lt _ _ both in
        let test = less_lem xs (i * 2 + 1 + 1) (i * 2 + 1) (omega arith) (omega arith) in
        elim (Bool-cases (ltb (key_at xs (i * 2 + 1 + 1)) (key_at xs (i * 2 + 1)))) [
          | inl right ↦ (
            i * 2 + 1 + 1,
            rw (both, test, right),
            record {
              inside = two;
              child = inr (omega arith);
              least = λ c p q e. ground (arith, children c e p);
            },
          )
          | inr not_right ↦ (
            i * 2 + 1,
            rw (both, test, not_right),
            record {
              inside = left;
              child = inl refl;
              least = λ c p q e. ground (arith, children c e p);
            },
          )
        ]
    | inr one ↦ (
      i * 2 + 1,
      rw one,
      record {
        inside = left;
        child = inl refl;
        least = λ c p q e. let only : c ≡ i * 2 + 1 = omega (arith, ltb→le _ _ one) in ground arith;
      },
    )
  ]
    where
      children : (c : ℕ) → parent c ≡ i → 0 < c → (c ≡ i * 2 + 1) ⊎ (c ≡ i * 2 + 1 + 1)
      children c e p = ground arith

  swapped-DownInv :
      (start size : ℕ) (h : Heap A) (i j : ℕ)
      → DownInv start size h.nodes i
      → start ≤ i
      → IsSmaller size h.nodes i j
      → size ≤ length h.nodes
      → key_at h.nodes j ≤ key_at h.nodes i
      → DownInv start size (swapped h i j).nodes j
  unfolding swapped
  swapped-DownInv start size h i j v from s fits below =
      let inside : i < length h.nodes = omega (arith, s.inside) in
      let look = at-swap n.fresh h.nodes i j inside (omega (arith, s.inside)) in
      record {
        edges = λ c p q ne moved.
            ground (arith, look c, look (parent c), v.edges c, v.bridged j, s.least c);
        bridged = λ c p q e pos. ground (arith, look c, look (parent j), v.edges c);
      }

  -- The result of the loop from `i`: the node has come to rest at `end`, and where that is `i`
  -- nothing has moved.
  pub record Sunk (start size i : ℕ) (h g : Heap A) (end : ℕ) : Type 0 where
    pub kept : Keeps size h g
    pub settled : Settled start size g.nodes end
    pub down : i ≤ end
    pub inside : end < size
    pub still : end ≡ i → g ≡ h

  pub siftdown_loop_settles :
      (fuel start size : ℕ) (h : Heap A) (i : ℕ)
      → size - i < fuel
      → i < size
      → start ≤ i
      → size ≤ length h.nodes
      → DownInv start size h.nodes i
      → (g : Heap A) × (end : ℕ) × (siftdown_loop fuel h i size ≡ some (g, end))
        × Sunk start size i h g end
  unfolding siftdown_loop
  siftdown_loop_settles zero start size h i f hi from fits v = absurd (omega arith)
  siftdown_loop_settles (suc fuel) start size h i f hi from fits v =
      elim (Bool-cases (ltb (i * 2 + 1) size)) [
        | inl left ↦
            let (j, chosen, s) = smaller_child_lem h.nodes i size (ltb→lt _ _ left) fits in
            let inside : i < length h.nodes = omega arith in
            let child : j < length h.nodes = omega (arith, s.inside) in
            let test = less_lem h.nodes i j inside child in
            elim (Bool-cases (ltb (key_at h.nodes i) (key_at h.nodes j))) [
              | inl settled ↦ (
                h,
                i,
                rw (left, chosen, test, settled),
                record {
                  kept = Keeps-refl size h;
                  settled = record {
                    edges = λ c p q moved. ground (arith, v.edges c, s.least c);
                    bridged = v.bridged;
                  };
                  down = omega arith;
                  inside = hi;
                  still = λ e. refl;
                },
              )
              | inr high ↦
                  let step = swapped-Keeps size h i j hi s.inside fits in
                  let (g, end, run, sunk) =
                    siftdown_loop_settles fuel start size (swapped h i j) j
                      (omega (arith, s.inside, s.child)) s.inside (omega (arith, s.child))
                      (omega (arith, step.same_length))
                      (swapped-DownInv start size h i j v from s fits (ltb→le _ _ high)) in
                  (
                    g,
                    end,
                    rw (left, chosen, test, high, swap_node_lem h i j inside child) run,
                    record {
                      kept = Keeps-trans step sunk.kept;
                      settled = sunk.settled;
                      down = omega (arith, s.child, sunk.down);
                      inside = sunk.inside;
                      still = λ e. absurd (omega (arith, s.child, sunk.down));
                    },
                  )
            ]
        | inr leaf ↦ (
          h,
          i,
          rw leaf,
          record {
            kept = Keeps-refl size h;
            settled = record {
              edges = λ c p q moved. v.edges c p q (λ e. omega (arith, ltb→le _ _ leaf)) moved;
              bridged = v.bridged;
            };
            down = omega arith;
            inside = hi;
            still = λ e. refl;
          },
        )
      ]
