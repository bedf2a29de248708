-- ===== src/Timer.antt =====
-- Timer of NetDisk-Server/Server/code/timer/Timer.cpp and Timer.h: the connections of the server,
-- the one that times out first in front. `add` refuses negative ids, and the ids here are those it
-- takes; __swap_node, which returns -1 out of range, has its indices in range at each call. Times are nanoseconds of the clock, a reading of which
-- each function takes as an argument; timeouts are not negative; a callback is a number, and the
-- callbacks that a function has run are part of its result. `none` is an access out of range, a
-- loop out of fuel, or a lock of the mutex by the thread that holds it, which C++ leaves undefined
-- (and which blocks for good where it is a plain futex lock).
pub mod Restore
pub mod Correct
pub mod Tick
pub mod Faults
mod Examples
use qt_asio_net_disk.Base.{
  ℕ, zero, suc, ◌+◌, ◌-◌, ◌*◌, ◌/◌, ◌%◌, ◌^◌, List, [], ◌∷◌, ◌++◌, Option, none, some, Bool, true,
  false, length, ltb, leb, ◌&&◌, ◌==◌, if◌then◌else◌,
}
use qt_asio_net_disk.Heap.Array.{at}
use qt_asio_net_disk.Heap.Fix.{update_node, push_node, drop_last}
use qt_asio_net_disk.Heap.{HeapNode, Heap, swap_node, siftup_loop, siftdown_loop, ◌>>=◌}

pub record TimerNode : Type 0 where
  pub id : ℕ
  pub expires : ℕ
  pub cb : ℕ

abbrev pub no_timer : TimerNode
no_timer = record { id = 0; expires = 0; cb = 0 }

-- `operator<` compares the times, and the map goes by the id.
instance abbrev pub timer_node : HeapNode TimerNode
timer_node = record { key = λ t. t.expires; ident = λ t. t.id; fresh = no_timer }

abbrev pub TimerHeap : Type 0
TimerHeap = Heap TimerNode

-- MS(n)
abbrev pub ms : ℕ → ℕ
ms n = n * 1000000

-- The Boolean that __siftup returns is not used.
unfoldable pub siftup : TimerHeap → ℕ → Option TimerHeap
siftup h i = if ltb i (length h.nodes) then siftup_loop (suc i) h i else some h

unfoldable pub siftdown : TimerHeap → ℕ → ℕ → Option (TimerHeap × Bool)
siftdown h i n =
    let run = siftdown_loop (suc (n - i)) h i n >>= λ r. some (r.0, ltb i r.1) in
    if ltb i (length h.nodes) && leb n (length h.nodes) then run else some (h, false)

-- `if(!__siftdown(i, n)) __siftup(i);`
unfoldable pub settle : TimerHeap → ℕ → ℕ → Option TimerHeap
settle h i n = siftdown h i n >>= λ r. if r.1 then some r.0 else siftup r.0 i

unfoldable pub write_node : TimerHeap → ℕ → TimerNode → Option TimerHeap
write_node h i t = if ltb i (length h.nodes) then some (update_node h i t) else none

-- 0, and -1 as `false`: `adjust` of an id that is not there changes nothing.
unfoldable pub adjust : TimerHeap → ℕ → ℕ → ℕ → Option (TimerHeap × Bool)
adjust h id add_time now = elim (h.index_map id) [
  | none ↦ some (h, false)
  | some i ↦
      write_node h i (record (at no_timer h.nodes i) { expires = now + ms add_time }) >>= λ g.
      g.index_map id >>= λ j. siftdown g j (length g.nodes) >>= λ r. some (r.0, true)
]

abbrev pub new_node : ℕ → ℕ → ℕ → TimerNode
new_node id expires cb = record { id = id; expires = expires; cb = cb }

unfoldable pub add : TimerHeap → ℕ → ℕ → ℕ → ℕ → Option TimerHeap
add h id timeout cb now =
    let node = new_node id (now + ms timeout) cb in
    elim (h.index_map id) [
      | none ↦ siftup (push_node h node) (length h.nodes)
      | some i ↦
          write_node h i (record (at no_timer h.nodes i) { expires = now + ms timeout; cb = cb })
          >>= λ g. settle g i (length g.nodes)
    ]

-- __del: the order is restored around `i` also where the node is the last one itself.
unfoldable pub del : TimerHeap → ℕ → Option TimerHeap
del h i =
    let n = length h.nodes - 1 in
    let moved = swap_node h i n >>= λ g. settle g i n >>= λ f. some (drop_last f) in
    if leb (length h.nodes) i then some h else moved

-- The callback that is run, and `none` for the result -1.
unfoldable pub doing : TimerHeap → ℕ → Option (TimerHeap × Option ℕ)
doing h id = elim (h.index_map id) [
  | none ↦ some (h, none)
  | some i ↦ del h i >>= λ g. some (g, some (at no_timer h.nodes i).cb)
]

-- `held` says whether the thread holds the mutex already.
unfoldable pub pop : Bool → TimerHeap → Option TimerHeap
pop held h = if held then none else if length h.nodes == 0 then some h else del h 0

-- duration_cast<MS>(node.expires - now).count() > 0: the difference is rounded towards 0.
abbrev pub pending : TimerNode → ℕ → Bool
pending t now = ltb 0 ((t.expires - now) / 1000000)

-- The rounds of tick: `clock k` is the k-th reading of the clock. The list has the nodes whose
-- callbacks have run, in their order; `cnt` is its length.
unfoldable pub tick_loop : ℕ → Bool → (ℕ → ℕ) → TimerHeap → Option (TimerHeap × List TimerNode)
tick_loop zero held clock h = none
tick_loop (suc fuel) held clock h =
    let root = at no_timer h.nodes 0 in
    let fire = pop held h >>= λ g.
    tick_loop fuel held (λ k. clock (suc k)) g >>= λ r. some (r.0, root ∷ r.1) in
    if length h.nodes == 0
    then some (h, [])
    else if pending root (clock 0)
    then some (h, [])
    else fire

unfoldable pub tick : Bool → (ℕ → ℕ) → TimerHeap → Option (TimerHeap × List TimerNode)
tick held clock h = tick_loop (suc (length h.nodes)) held clock h

-- `duration_cast<MS>(...).count()` as a `size_t`, where a time that has passed wraps round.
abbrev pub left_ms : ℕ → ℕ → ℕ
left_ms expires now =
    if leb now expires
    then (expires - now) / 1000000
    else (2 ^ 64 - (now - expires) / 1000000) % 2 ^ 64

-- The `int` that is returned, as its 32 bits; the mutex is locked before `tick` is called.
unfoldable pub get_next_tick : (ℕ → ℕ) → ℕ → TimerHeap → Option (TimerHeap × ℕ)
get_next_tick clock now h = tick true clock h >>= λ r.
    if length r.0.nodes == 0
    then some (r.0, 2 ^ 32 - 1)
    else some (r.0, left_ms (at no_timer r.0.nodes 0).expires now % 2 ^ 32)

unfoldable pub clear : TimerHeap → TimerHeap
clear h = record { nodes = []; index_map = λ k. none }
