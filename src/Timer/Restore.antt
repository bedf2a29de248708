-- ===== src/Timer/Restore.antt =====
-- `settle` and `__del` over a heap of timers.
use mathlib.Core.List.Perm
use qt_asio_net_disk.Base.{
  ℕ, zero, suc, ◌+◌, ◌-◌, ◌*◌, ◌≤◌, ◌<◌, ◌≡◌, refl, ◌∙◌, some, arith, length, ltb, lt→ltb, le→leb,
  lt→leb, le→ltb, false, ◌==◌, if◌then◌else◌,
}
use qt_asio_net_disk.Heap.Array.{at, at-swap, length-swap}
use qt_asio_net_disk.Heap.Laws.{swapped-Keeps, swap_node_lem, less_lem}
use qt_asio_net_disk.Heap.Up.{Ordered, UpInv, siftup_loop_orders}
use qt_asio_net_disk.Heap.Fix.{IsValid, FixInv, sinks, rises, fix_lem, drop_last}
use qt_asio_net_disk.Heap.Delete.{swapped-FixInv, Deleted, drop_last-Deleted, swapped-Deleted}
use qt_asio_net_disk.Heap.{key_at, parent, swapped, siftup_loop, siftdown_loop}
use qt_asio_net_disk.Timer.{timer_node, no_timer, TimerHeap, siftup, siftdown, settle, del}

pub settle_lem :
    (h : TimerHeap) (i n : ℕ)
    → i < n
    → n ≤ length h.nodes
    → FixInv n h.nodes i
    → (g : TimerHeap) × (settle h i n ≡ some g) × Ordered n h g
unfolding settle siftup siftdown
settle_lem h i n hi fits v = elim (fix_lem n h i hi fits v) [
  | sinks g end run moved sorted ↦ (
    g,
    rw (
      lt→ltb i (length h.nodes) (omega arith),
      le→leb n (length h.nodes) fits,
      run,
      lt→ltb i end moved,
    ),
    sorted,
  )
  | rises f run up sorted ↦ (
    f,
    rw
        (
          lt→ltb i (length h.nodes) (omega arith),
          le→leb n (length h.nodes) fits,
          run,
          le→ltb i i (omega arith),
          lt→ltb i (length h.nodes) (omega arith),
        )
        up,
    sorted,
  )
]

-- A node that is not the last one is deleted.
pub del-inner :
    (h : TimerHeap) (i last : ℕ)
    → IsValid h
    → length h.nodes ≡ suc last
    → i < last
    → (g : TimerHeap) × (del h i ≡ some g) × Deleted h i g
unfolding del
del-inner h i last v size inner =
    let end : length h.nodes - 1 ≡ last = omega arith in
    let (f, run, sorted) =
      settle_lem (swapped h i last) i last inner
        (unfold swapped in omega (arith, length-swap no_timer h.nodes i last))
        (swapped-FixInv h i last v.ordered inner size) in
    (
      drop_last f,
      rw (
        lt→leb (length h.nodes) i (omega arith),
        end,
        swap_node_lem h i last (omega arith) (omega arith),
        run,
      ),
      swapped-Deleted h f i last v inner size sorted,
    )

-- What `settle` does with the last node, behind which there is nothing to sink to.
settle-last :
    (g : TimerHeap) (last : ℕ)
    → length g.nodes ≡ suc last
    → settle g last last ≡ siftup_loop (suc last) g last
unfolding settle siftdown siftup siftdown_loop
settle-last g last size =
    let none_left : last - last ≡ 0 = omega arith in
    rw (
      lt→ltb last (length g.nodes) (omega arith),
      le→leb last (length g.nodes) (omega arith),
      none_left,
      siftdown_loop,
      le→ltb (last * 2 + 1) last (omega arith),
      le→ltb last last (omega arith),
      lt→ltb last (length g.nodes) (omega arith),
    )

-- A node that changes places with itself leaves all nodes as they are.
at-swapped_self :
    (h : TimerHeap) (i c : ℕ)
    → i < length h.nodes
    → at no_timer (swapped h i i).nodes c ≡ at no_timer h.nodes c
unfolding swapped
at-swapped_self h i c hi = ground (arith, at-swap no_timer h.nodes i i hi hi c)

del-last_run :
    (h f : TimerHeap) (last : ℕ)
    → length h.nodes ≡ suc last
    → siftup_loop (suc last) (swapped h last last) last ≡ some f
    → del h last ≡ some (drop_last f)
unfolding del
del-last_run h f last size run =
    let end : length h.nodes - 1 ≡ last = omega arith in
    rw (
      lt→leb (length h.nodes) last (omega arith),
      end,
      swap_node_lem h last last (omega arith) (omega arith),
      settle-last (swapped h last last) last
          (unfold swapped in length-swap no_timer h.nodes last last ∙ size),
      run,
    )

siftup_still :
    (fuel : ℕ) (g : TimerHeap) (i : ℕ)
    → i < length g.nodes
    → (0 < i → key_at g.nodes (parent i) < key_at g.nodes i)
    → siftup_loop (suc fuel) g i ≡ some g
unfolding siftup_loop
siftup_still fuel g zero hi later = refl
siftup_still fuel g (suc k) hi later = rw (
  lt→ltb 0 (suc k) (omega arith),
  less_lem g.nodes (parent (suc k)) (suc k) (omega arith) hi,
  lt→ltb _ _ (later (omega arith)),
)

-- The last node is deleted if it is the root or strictly later than its parent.
pub del-last :
    (h : TimerHeap) (last : ℕ)
    → IsValid h
    → length h.nodes ≡ suc last
    → (0 < last → key_at h.nodes (parent last) < key_at h.nodes last)
    → (g : TimerHeap) × (del h last ≡ some g) × Deleted h last g
del-last h last v size later =
    let g = swapped h last last in
    let kept =
      swapped-Keeps (length h.nodes) h last last (omega arith) (omega arith) (omega arith) in
    let same = λ (c : ℕ). at-swapped_self h last c (omega arith) in
    (
      drop_last g,
      del-last_run h g last size (
          siftup_still last g last (omega (arith, kept.same_length))
            (λ p. ground (arith, later, same last, same (parent last)))),
      drop_last-Deleted h g last last (kept.same_length ∙ size) (kept.index v.indexed)
          (λ c p q. ground (arith, same c, same (parent c), v.ordered c)) kept.perm (same last),
    )

-- Where the last node times out together with its parent, its parent is deleted instead.
pub del-last_tie :
    (h : TimerHeap) (last : ℕ)
    → IsValid h
    → length h.nodes ≡ suc last
    → 0 < last
    → key_at h.nodes (parent last) ≡ key_at h.nodes last
    → (g : TimerHeap) × (del h last ≡ some g) × Deleted h (parent last) g
del-last_tie h last v size pos tie =
    let up : ℕ = parent last in
    let g = swapped h last last in
    let same = λ (c : ℕ). at-swapped_self h last c (omega arith) in
    let kept =
      swapped-Keeps (length h.nodes) h last last (omega arith) (omega arith) (omega arith) in
    let k = swapped g last up in
    let total : length g.nodes ≡ suc last = kept.same_length ∙ size in
    let moved =
      swapped-Keeps (length g.nodes) g last up (omega arith) (omega arith) (omega arith) in
    let look = λ (c : ℕ).
      let seen : at no_timer k.nodes c ≡ (
          if up == c
          then at no_timer g.nodes last
          else if last == c
          then at no_timer g.nodes up
          else at no_timer g.nodes c) =
        unfold swapped in at-swap no_timer g.nodes last up (omega arith) (omega arith) c in
      seen in
    let start : UpInv last k.nodes up = record {
      edges = λ c p q ne.
          ground (arith, look c, look (parent c), same c, same (parent c), same last, v.ordered c);
      bridged = λ c p q e above.
          ground
            (arith, look c, look (parent up), same c, same (parent up), v.ordered c, v.ordered up);
    } in
    let (f, run, sorted) =
      siftup_loop_orders last last k up (omega arith) (omega arith)
        (omega (arith, moved.same_length, total)) start in
    let not_later : ltb (key_at g.nodes up) (key_at g.nodes last) ≡ false =
      le→ltb _ _ (ground (arith, same up, same last)) in
    let first : siftup_loop (suc last) g last ≡ some f =
      unfold siftup_loop in
      rw
        (
          siftup_loop,
          lt→ltb 0 last pos,
          less_lem g.nodes up last (omega arith) (omega arith),
          not_later,
          swap_node_lem g last up (omega arith) (omega arith),
        )
        run in
    let there : at no_timer f.nodes last ≡ at no_timer h.nodes up =
      ground (arith, sorted.0.rest last, look last, same up) in
    (
      drop_last f,
      del-last_run h f last size first,
      drop_last-Deleted h f up last (sorted.0.same_length ∙ moved.same_length ∙ total)
          (sorted.0.index (moved.index (kept.index v.indexed))) sorted.1
          (Perm.trans sorted.0.perm (Perm.trans moved.perm kept.perm)) there,
    )
