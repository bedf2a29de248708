-- ===== src/Timer/Examples.antt =====
-- The operations of Timer at two timers, of different times and of one time.
use qt_asio_net_disk.Base.{
  inl, ℕ, ◌≡◌, refl, subst, List, [], Option, none, some, true, false, arith, length,
}
use qt_asio_net_disk.Heap.Array.{at, swap}
use qt_asio_net_disk.Heap.Laws.{IsOrdered}
use qt_asio_net_disk.Heap.Fix.{IsValid, push_node}
use qt_asio_net_disk.Heap.Delete.{Deleted}
use qt_asio_net_disk.Heap.{parent, siftup_loop, less, swap_node, swapped, insert}
use qt_asio_net_disk.Timer.{
  TimerNode, timer_node, no_timer, TimerHeap, ms, siftup, adjust, add, doing, tick, clear,
}
use qt_asio_net_disk.Timer.Correct.{Deletable, add-new_timer}
use qt_asio_net_disk.Timer.Tick.{Ticked, tick_lem}
use qt_asio_net_disk.Timer.Faults.{doing-last_tie, adjust-earlier}

abbrev no_timers : TimerHeap
no_timers = record { nodes = []; index_map = λ k. none }

no_timers-IsValid : IsValid no_timers
no_timers-IsValid = record {
  ordered = λ c p q. absurd (omega arith);
  indexed = record { forward = λ i p. absurd (omega arith); backward = λ k i e. absurd (cc) };
}

-- The heap that an `add` leads to.
abbrev after : Option TimerHeap → TimerHeap
after none = no_timers
after (some h) = h

added-IsValid :
    (h g : TimerHeap) (id timeout cb now : ℕ)
    → IsValid h
    → h.index_map id ≡ none
    → add h id timeout cb now ≡ some g
    → IsValid g
added-IsValid h g id timeout cb now v absent e =
    let (k, run, valid, content) = add-new_timer h id timeout cb now v absent in
    let same : k ≡ g = cc (run, e) in subst IsValid same valid

abbrev one_timer : TimerHeap
one_timer = after (add no_timers 3 5 30 0)

abbrev two_timers : TimerHeap
two_timers = after (add one_timer 4 9 40 0)

abbrev tied_timers : TimerHeap
tied_timers = after (add one_timer 4 5 40 0)

one_timer-IsValid : IsValid one_timer
unfolding add clear siftup push_node siftup_loop less at swap_node swapped insert swap
one_timer-IsValid = added-IsValid no_timers one_timer 3 5 30 0 no_timers-IsValid refl refl

two_timers-IsValid : IsValid two_timers
unfolding add clear siftup push_node siftup_loop less at swap_node swapped insert swap
two_timers-IsValid = added-IsValid one_timer two_timers 4 9 40 0 one_timer-IsValid refl refl

tied_timers-IsValid : IsValid tied_timers
unfolding add clear siftup push_node siftup_loop less at swap_node swapped insert swap
tied_timers-IsValid = added-IsValid one_timer tied_timers 4 5 40 0 one_timer-IsValid refl refl

found_3 : two_timers.index_map 3 ≡ some 0
unfolding add clear siftup push_node siftup_loop less at swap_node swapped insert swap
found_3 = refl

found_4 : two_timers.index_map 4 ≡ some 1
unfolding add clear siftup push_node siftup_loop less at swap_node swapped insert swap
found_4 = refl

absent_7 : two_timers.index_map 7 ≡ none
unfolding add clear siftup push_node siftup_loop less at swap_node swapped insert swap
absent_7 = refl

tied_3 : tied_timers.index_map 3 ≡ some 1
unfolding add clear siftup push_node siftup_loop less at swap_node swapped insert swap
tied_3 = refl

tied_size : length tied_timers.nodes ≡ 2
unfolding add clear siftup push_node siftup_loop less at swap_node swapped insert swap
tied_size = refl

same_time :
    (at no_timer tied_timers.nodes (parent 1)).expires ≡ (at no_timer tied_timers.nodes 1).expires
unfolding add clear siftup push_node siftup_loop less at swap_node swapped insert swap
same_time = refl

first_time : (at no_timer two_timers.nodes 0).expires ≡ 5000000
unfolding add clear siftup push_node siftup_loop less at swap_node swapped insert swap
first_time = refl

parent_time : (at no_timer two_timers.nodes (parent 1)).expires ≡ 5000000
unfolding add clear siftup push_node siftup_loop less at swap_node swapped insert swap
parent_time = refl

two_timers-Deletable : Deletable two_timers 0
unfolding add clear siftup push_node siftup_loop less at swap_node swapped insert swap
two_timers-Deletable = inl (omega arith)

tick_example :
    (g : TimerHeap) × (fired : List TimerNode) × (tick false (λ k. ms 6) two_timers
      ≡ some (g, fired))
    × Ticked (λ k. ms 6) two_timers g fired
tick_example = tick_lem (λ k. ms 6) two_timers two_timers-IsValid

doing-last_tie_example :
    (g : TimerHeap) × (doing tied_timers 3 ≡ some (g, some (at no_timer tied_timers.nodes 1).cb))
    × Deleted tied_timers (parent 1) g
doing-last_tie_example =
    doing-last_tie tied_timers 3 1 tied_timers-IsValid tied_3 tied_size (omega arith) same_time

adjust-earlier_example :
    (g : TimerHeap) × (adjust two_timers 4 1 0 ≡ some (g, true))
    × ¬ IsOrdered (length g.nodes) g.nodes
adjust-earlier_example =
    adjust-earlier two_timers 4 1 0 1 two_timers-IsValid found_4 (omega arith)
      (omega (arith, parent_time))
