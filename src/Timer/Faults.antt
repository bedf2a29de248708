-- ===== src/Timer/Faults.antt =====
-- Where Timer does not do what its comments say: `getNextTick` at a timeout, `doing` for two
-- timers of one time, and `adjust` to an earlier time.
use qt_asio_net_disk.Base.{
  ℕ, suc, ◌+◌, ◌-◌, ◌*◌, ◌%◌, ◌^◌, ◌<◌, ◌≡◌, inl, inr, none, some, true, arith, length, length-set,
  ltb, lt→ltb, le→leb, Bool-cases, ◌==◌, if◌then◌else◌,
}
use qt_asio_net_disk.Heap.Array.{at, at-set}
use qt_asio_net_disk.Heap.Laws.{IsOrdered, less_lem}
use qt_asio_net_disk.Heap.Down.{smaller_child_lem}
use qt_asio_net_disk.Heap.Fix.{IsValid, update_node}
use qt_asio_net_disk.Heap.Delete.{Deleted}
use qt_asio_net_disk.Heap.{key_at, parent, siftdown_loop}
use qt_asio_net_disk.Timer.{
  timer_node, no_timer, TimerHeap, ms, siftdown, write_node, adjust, doing, pop, pending, tick_loop,
  tick, get_next_tick, left_ms,
}
use qt_asio_net_disk.Timer.Restore.{del-last_tie}
use qt_asio_net_disk.Timer.Correct.{delayed}

-- `getNextTick` gives -1 where there is no timer, and the time that is left where the first one is
-- not due; where a timer is due it locks the mutex a second time.
pub get_next_tick_lem :
    (clock : ℕ → ℕ) (now : ℕ) (h : TimerHeap)
    → get_next_tick clock now h ≡ (
        if length h.nodes == 0
        then some (h, 2 ^ 32 - 1)
        else if pending (at no_timer h.nodes 0) (clock 0)
        then some (h, left_ms (at no_timer h.nodes 0).expires now % 2 ^ 32)
        else none)
unfolding get_next_tick tick tick_loop pop
get_next_tick_lem clock now h = elim (Bool-cases (length h.nodes == 0)) [
  | inl empty ↦ rw (get_next_tick, tick, tick_loop, empty, empty)
  | inr some_left ↦ elim (Bool-cases (pending (at no_timer h.nodes 0) (clock 0))) [
    | inl later ↦ rw (get_next_tick, tick, tick_loop, some_left, later, some_left)
    | inr due ↦ rw (get_next_tick, tick, tick_loop, some_left, due)
  ]
]

-- Where a timer is the last of a valid heap, not the root, and times out together with its
-- parent there, `doing` runs its callback and takes the timer of the parent out of the heap
-- instead.
pub doing-last_tie :
    (h : TimerHeap) (id i : ℕ)
    → IsValid h
    → h.index_map id ≡ some i
    → length h.nodes ≡ suc i
    → 0 < i
    → (at no_timer h.nodes (parent i)).expires ≡ (at no_timer h.nodes i).expires
    → (g : TimerHeap) × (doing h id ≡ some (g, some (at no_timer h.nodes i).cb))
      × Deleted h (parent i) g
unfolding doing
doing-last_tie h id i v found size pos tie =
    let (g, run, gone) = del-last_tie h i v size pos tie in (g, rw (doing, found, run), gone)

-- A node that is earlier than all its children stays where it is under `__siftdown`.
siftdown_loop_still :
    (fuel : ℕ) (h : TimerHeap) (i : ℕ)
    → i < length h.nodes
    → ((c : ℕ) → 0 < c → c < length h.nodes → parent c ≡ i → key_at h.nodes i < key_at h.nodes c)
    → siftdown_loop (suc fuel) h i (length h.nodes) ≡ some (h, i)
unfolding siftdown_loop
siftdown_loop_still fuel h i hi early = elim (Bool-cases (ltb (i * 2 + 1) (length h.nodes))) [
  | inl left ↦
      let (j, chosen, s) =
        smaller_child_lem h.nodes i (length h.nodes) (ground arith) (omega arith) in
      let first : key_at h.nodes i < key_at h.nodes j =
        early j (omega (arith, s.child)) s.inside (omega (arith, s.child)) in
      rw (siftdown_loop, left, chosen, less_lem h.nodes i j hi s.inside, lt→ltb _ _ first)
  | inr leaf ↦ rw (siftdown_loop, leaf)
]

-- `adjust` of a timer of a valid heap that is not the root to a time before that of its parent
-- leaves a heap that is out of order.
pub adjust-earlier :
    (h : TimerHeap) (id add_time now i : ℕ)
    → IsValid h
    → h.index_map id ≡ some i
    → 0 < i
    → now + ms add_time < (at no_timer h.nodes (parent i)).expires
    → (g : TimerHeap) × (adjust h id add_time now ≡ some (g, true))
      × ¬ IsOrdered (length g.nodes) g.nodes
unfolding adjust write_node siftdown
adjust-earlier h id add_time now i v found pos early =
    let time : ℕ = now + ms add_time in
    let there = v.indexed.backward id i found in
    let changed = update_node h i (delayed h i time) in
    let size : length changed.nodes ≡ length h.nodes =
      unfold update_node in length-set h.nodes i (delayed h i time) in
    let look = λ (c : ℕ).
      let seen : at no_timer changed.nodes c
          ≡ (if i == c then delayed h i time else at no_timer h.nodes c) =
        unfold update_node in at-set no_timer h.nodes i c (delayed h i time) there.0 in
      seen in
    let same_map : changed.index_map id ≡ some i = unfold update_node in found in
    let inside : i < length changed.nodes = omega (arith, there.0) in
    let still =
      siftdown_loop_still (length changed.nodes - i) changed i inside
        (λ c p q e. ground (arith, look c, look i, v.ordered c, v.ordered i)) in
    (
      changed,
      rw (
        adjust,
        found,
        lt→ltb i (length h.nodes) there.0,
        same_map,
        lt→ltb i (length changed.nodes) inside,
        le→leb (length changed.nodes) (length changed.nodes) (omega arith),
        still,
      ),
      λ order. ground (arith, order i pos inside, look i, look (parent i)),
    )
