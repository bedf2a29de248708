-- ===== src/Timer/Correct.antt =====
-- What `add`, `adjust`, `doing` and `pop` of Timer do to a valid heap.
use mathlib.Core.List.Perm
use qt_asio_net_disk.Base.{
  ℕ, suc, ◌+◌, ◌-◌, ◌≤◌, ◌<◌, ◌≡◌, ◌⊎◌, refl, ap, subst, inl, inr, [], ◌∷◌, Perm, none, some, true,
  false, arith, length, length-append, length-set, set, lt→ltb, le→leb, dec_lt,
}
use qt_asio_net_disk.Heap.Array.{at, at-set, append-last-perm}
use qt_asio_net_disk.Heap.Up.{Ordered, siftup_loop_orders}
use qt_asio_net_disk.Heap.Down.{DownInv, siftdown_loop_settles}
use qt_asio_net_disk.Heap.Index.{IsIndexed}
use qt_asio_net_disk.Heap.Fix.{
  IsValid, update_node, update_node-FixInv, update_node-IsIndexed, Sunk-IsOrdered, push_node,
  push_node-UpInv, push_node-IsIndexed,
}
use qt_asio_net_disk.Heap.Delete.{Deleted}
use qt_asio_net_disk.Heap.{key_at, parent}
use qt_asio_net_disk.Timer.{
  TimerNode, timer_node, no_timer, new_node, TimerHeap, ms, siftup, siftdown, write_node, adjust,
  add, del, doing, pop,
}
use qt_asio_net_disk.Timer.Restore.{settle_lem, del-inner, del-last}

Ordered-IsValid : (h g : TimerHeap) → IsIndexed h → Ordered (length h.nodes) h g → IsValid g
Ordered-IsValid h g index sorted = record {
  ordered = λ c p q. sorted.1 c p (omega (arith, sorted.0.same_length));
  indexed = sorted.0.index index;
}

-- The timer with a new time.
abbrev pub delayed : TimerHeap → ℕ → ℕ → TimerNode
delayed h i expires = record (at no_timer h.nodes i) { expires = expires }

-- `adjust` of a timer in a valid heap that does not bring its time forward sets it, and leaves a
-- valid heap with the same timers otherwise.
pub adjust-later :
    (h : TimerHeap) (id add_time now i : ℕ)
    → IsValid h
    → h.index_map id ≡ some i
    → (at no_timer h.nodes i).expires ≤ now + ms add_time
    → (g : TimerHeap) × (adjust h id add_time now ≡ some (g, true))
      × IsValid g
      × Perm g.nodes (set h.nodes i (delayed h i (now + ms add_time)))
unfolding adjust write_node siftdown
adjust-later h id add_time now i v found later =
    let time : ℕ = now + ms add_time in
    let there = v.indexed.backward id i found in
    let changed = update_node h i (delayed h i time) in
    let size : length changed.nodes ≡ length h.nodes =
      unfold update_node in length-set h.nodes i (delayed h i time) in
    let index : IsIndexed changed =
      update_node-IsIndexed h i (delayed h i time) v.indexed there.0 refl in
    let fix = update_node-FixInv h i (delayed h i time) v there.0 in
    let same_map : changed.index_map id ≡ some i = unfold update_node in found in
    let above : 0 < i → key_at changed.nodes (parent i) ≤ key_at changed.nodes i = λ p.
      unfold update_node in
      ground (
        arith,
        at-set no_timer h.nodes i i (delayed h i time) there.0,
        at-set no_timer h.nodes i (parent i) (delayed h i time) there.0,
        v.ordered i,
      ) in
    let start : DownInv i (length changed.nodes) changed.nodes i = record {
      edges = λ c p q ne moved.
          fix.edges c p (omega (arith, size)) ne (λ e. absurd (omega (arith, moved e)));
      bridged = λ c p q. fix.bridged c p (omega (arith, size));
    } in
    let (g, end, run, s) =
      siftdown_loop_settles (suc (length changed.nodes - i)) i (length changed.nodes) changed i
        (omega arith) (omega (arith, there.0)) (omega arith) (omega arith) start in
    (
      g,
      rw (
        adjust,
        found,
        lt→ltb i (length h.nodes) there.0,
        same_map,
        lt→ltb i (length changed.nodes) (omega (arith, there.0)),
        le→leb (length changed.nodes) (length changed.nodes) (omega arith),
        run,
      ),
      Ordered-IsValid changed g index
          (s.kept, Sunk-IsOrdered (length changed.nodes) changed g i end s above),
      (unfold update_node in s.kept.perm),
    )

-- `add` of an id that a valid heap does not have puts its timer into the heap beside the others,
-- and leaves it valid.
pub add-new_timer :
    (h : TimerHeap) (id timeout cb now : ℕ)
    → IsValid h
    → h.index_map id ≡ none
    → (g : TimerHeap) × (add h id timeout cb now ≡ some g)
      × IsValid g
      × Perm g.nodes (new_node id (now + ms timeout) cb ∷ h.nodes)
unfolding add siftup
add-new_timer h id timeout cb now v absent =
    let node = new_node id (now + ms timeout) cb in
    let grown = push_node h node in
    let size : length grown.nodes ≡ length h.nodes + 1 =
      unfold push_node in omega (arith, length-append h.nodes (node ∷ [])) in
    let (g, run, sorted) =
      siftup_loop_orders (suc (length h.nodes)) (length grown.nodes) grown (length h.nodes)
        (omega arith) (omega arith) (omega arith) (push_node-UpInv h node v) in
    (
      g,
      rw (add, absent, lt→ltb (length h.nodes) (length grown.nodes) (omega arith)) run,
      Ordered-IsValid grown g (push_node-IsIndexed h node v.indexed absent) sorted,
      Perm.trans sorted.0.perm (unfold push_node in append-last-perm no_timer h.nodes node),
    )

-- `add` of an id that a valid heap has gives its timer the new time and callback, and leaves a
-- valid heap with the same timers otherwise.
pub add-present_timer :
    (h : TimerHeap) (id timeout cb now i : ℕ)
    → IsValid h
    → h.index_map id ≡ some i
    → (g : TimerHeap) × (add h id timeout cb now ≡ some g)
      × IsValid g
      × Perm g.nodes (set h.nodes i (new_node id (now + ms timeout) cb))
unfolding add write_node
add-present_timer h id timeout cb now i v found =
    let there = v.indexed.backward id i found in
    let node : TimerNode = record (at no_timer h.nodes i) { expires = now + ms timeout; cb = cb } in
    let changed = update_node h i node in
    let size : length changed.nodes ≡ length h.nodes =
      unfold update_node in length-set h.nodes i node in
    let (g, run, sorted) =
      settle_lem changed i (length changed.nodes) (omega (arith, there.0)) (omega arith)
        (rw size (update_node-FixInv h i node v there.0)) in
    let placed : Perm g.nodes (set h.nodes i node) = unfold update_node in sorted.0.perm in
    let named : node ≡ new_node id (now + ms timeout) cb =
      ap (λ k. new_node k (now + ms timeout) cb) there.1 in
    (
      g,
      rw (add, found, lt→ltb i (length h.nodes) there.0) run,
      Ordered-IsValid changed g (update_node-IsIndexed h i node v.indexed there.0 refl) sorted,
      subst (λ t. Perm g.nodes (set h.nodes i t)) named placed,
    )

-- The case in which __del removes the node that it is asked to: it is not the last one, or it is
-- the root, or it is strictly later than its parent.
abbrev pub Deletable : TimerHeap → ℕ → Type 0
Deletable h i = (i + 1 < length h.nodes) ⊎ (0 < i → key_at h.nodes (parent i) < key_at h.nodes i)

pub del_timer_lem :
    (h : TimerHeap) (i : ℕ)
    → IsValid h
    → i < length h.nodes
    → Deletable h i
    → (g : TimerHeap) × (del h i ≡ some g) × Deleted h i g
del_timer_lem h i v hi deletable = elim (dec_lt (i + 1) (length h.nodes)) [
  | yes inner ↦ del-inner h i (length h.nodes - 1) v (omega arith) (omega arith)
  | no outer ↦ elim deletable [
    | inl inner ↦ absurd (omega arith)
    | inr later ↦ del-last h i v (omega arith) later
  ]
]

-- `doing` of a timer of a valid heap that can be deleted runs its callback and takes exactly that
-- timer out of the heap, which stays valid.
pub doing-present :
    (h : TimerHeap) (id i : ℕ)
    → IsValid h
    → h.index_map id ≡ some i
    → Deletable h i
    → (g : TimerHeap) × (doing h id ≡ some (g, some (at no_timer h.nodes i).cb)) × Deleted h i g
unfolding doing
doing-present h id i v found deletable =
    let (g, run, gone) = del_timer_lem h i v (v.indexed.backward id i found).0 deletable in
    (g, rw (doing, found, run), gone)

-- `pop` without the mutex takes the first timer out of the heap.
pub pop_timer_lem :
    (h : TimerHeap)
    → IsValid h
    → 0 < length h.nodes
    → (g : TimerHeap) × (pop false h ≡ some g) × Deleted h 0 g
unfolding pop
pop_timer_lem h v some_left =
    let (g, run, gone) = del_timer_lem h 0 v some_left (inr (λ p. absurd (omega arith))) in
    (g, ground (arith, run), gone)
