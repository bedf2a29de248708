-- ===== src/ServerHeap/Restore.antt =====
-- `settle` and `__del` over a heap of servers.
use mathlib.Core.List.Perm
use qt_asio_net_disk.Base.{
  ℕ, suc, ◌-◌, ◌≤◌, ◌<◌, ◌≡◌, ap, some, arith, length, lt→ltb, le→leb, le→ltb, dec_lt,
}
use qt_asio_net_disk.Heap.Array.{at, length-swap}
use qt_asio_net_disk.Heap.Laws.{swap_node_lem}
use qt_asio_net_disk.Heap.Up.{Ordered}
use qt_asio_net_disk.Heap.Fix.{IsValid, FixInv, sinks, rises, fix_lem, drop_last}
use qt_asio_net_disk.Heap.Delete.{swapped-FixInv, Deleted, drop_last-Deleted, swapped-Deleted}
use qt_asio_net_disk.Heap.{swapped}
use qt_asio_net_disk.ServerHeap.{server_node, no_server, ServerHeap, siftup, siftdown, settle, del}

pub settle_lem :
    (h : ServerHeap) (i n : ℕ)
    → i < n
    → n ≤ length h.nodes
    → FixInv n h.nodes i
    → (g : ServerHeap) × (settle h i n ≡ some g) × Ordered n h g
unfolding settle siftup siftdown
settle_lem h i n hi fits v = elim (fix_lem n h i hi fits v) [
  | sinks g end run moved sorted ↦
      (g, rw (lt→ltb i n hi, le→leb n (length h.nodes) fits, run, lt→ltb i end moved), sorted)
  | rises f run up sorted ↦ (
    f,
    rw
        (
          lt→ltb i n hi,
          le→leb n (length h.nodes) fits,
          run,
          le→ltb i i (omega arith),
          lt→ltb i (length h.nodes) (omega arith),
        )
        up,
    sorted,
  )
]

-- __del takes any node of a valid heap out of it.
pub del_lem :
    (h : ServerHeap) (i : ℕ)
    → IsValid h
    → i < length h.nodes
    → (g : ServerHeap) × (del h i ≡ some g) × Deleted h i g
unfolding del
del_lem h i v hi =
    let last : ℕ = length h.nodes - 1 in
    let size : length h.nodes ≡ suc last = omega arith in
    elim (dec_lt i last) [
      | yes inner ↦
          let (f, run, sorted) =
            settle_lem (swapped h i last) i last inner
              (unfold swapped in omega (arith, length-swap no_server h.nodes i last))
              (swapped-FixInv h i last v.ordered inner size) in
          (
            drop_last f,
            rw (
              lt→ltb i last inner,
              swap_node_lem h i last hi (omega arith),
              run,
              lt→ltb i (length h.nodes) hi,
            ),
            swapped-Deleted h f i last v inner size sorted,
          )
      | no outer ↦
          let same : last ≡ i = omega arith in
          (
            drop_last h,
            rw (le→ltb i last (omega arith), lt→ltb i (length h.nodes) hi),
            drop_last-Deleted h h i last size v.indexed (λ c p q. v.ordered c p (omega arith))
                (Perm.refl h.nodes) (ap (at no_server h.nodes) same),
          )
    ]
