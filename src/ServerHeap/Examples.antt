-- ===== src/ServerHeap/Examples.antt =====
-- The operations of ServerHeap at three servers.
use qt_asio_net_disk.Base.{arith, ◌<◌, ◌≡◌, ◌≢◌, refl, [], Option, none, some, length}
use qt_asio_net_disk.Heap.Array.{at, swap}
use qt_asio_net_disk.Heap.Fix.{IsValid, push_node}
use qt_asio_net_disk.Heap.{siftup_loop, less, swap_node, swapped, insert}
use qt_asio_net_disk.ServerHeap.{server_node, ServerHeap, siftup, add, clear}
use qt_asio_net_disk.ServerHeap.History.{adjusts, adds, Reach, start, next, step, step_total}

abbrev no_servers : ServerHeap
no_servers = record { nodes = []; index_map = λ k. none }

-- The heap that a call leads to.
abbrev after : Option ServerHeap → ServerHeap
after none = no_servers
after (some h) = h

abbrev one_server : ServerHeap
one_server = after (step (clear no_servers) (adds 5 [] 80 81 12 []))

abbrev two_servers : ServerHeap
two_servers = after (step one_server (adds 6 [] 80 81 9 []))

abbrev three_servers : ServerHeap
three_servers = after (step two_servers (adds 8 [] 80 81 10 []))

three_servers-Reach : Reach three_servers
unfolding step add clear siftup push_node siftup_loop less at swap_node swapped insert swap
three_servers-Reach =
    next
      (next (next (start no_servers) (adds 5 [] 80 81 12 []) tt refl) (adds 6 [] 80 81 9 []) tt
        refl)
      (adds 8 [] 80 81 10 []) tt refl

found_6 : three_servers.index_map 6 ≡ some 0
unfolding step add clear siftup push_node siftup_loop less at swap_node swapped insert swap
found_6 = refl

absent_7 : three_servers.index_map 7 ≡ none
unfolding step add clear siftup push_node siftup_loop less at swap_node swapped insert swap
absent_7 = refl

some_servers : 0 < length three_servers.nodes
unfolding step add clear siftup push_node siftup_loop less at swap_node swapped insert swap
some_servers = omega arith

is_there : three_servers.index_map 6 ≢ none
is_there e = absurd (cc (e, found_6))

step_total_example :
    (g : ServerHeap) × (step three_servers (adjusts 6 20) ≡ some g) × Reach g × IsValid g
step_total_example = step_total three_servers (adjusts 6 20) three_servers-Reach is_there
