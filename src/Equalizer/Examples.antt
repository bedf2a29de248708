-- ===== src/Equalizer/Examples.antt =====
-- The balancer with one server.
use qt_asio_net_disk.Base.{
  ℕ, ◌≡◌, refl, List, [], Option, none, some, arith, length-replicate, replicate, ◌∷◌, Perm, set,
}
use qt_asio_net_disk.Heap.Array.{at, swap}
use qt_asio_net_disk.Heap.Fix.{IsValid, push_node}
use qt_asio_net_disk.Heap.{siftup_loop, less, swap_node, swapped, insert}
use qt_asio_net_disk.ServerHeap.{server_node, ServerHeap, siftup, add, clear}
use qt_asio_net_disk.ServerHeap.History.{start, next, step, adds, Reach-IsValid}
use qt_asio_net_disk.Wire.Put.{ok}
use qt_asio_net_disk.Protocol.{ServerState, IsServerState}
use qt_asio_net_disk.Serializer.ServerState.{serialize_server_state}
use qt_asio_net_disk.ServerHeap.Correct.{counted}
use qt_asio_net_disk.Heap.Delete.{Deleted}
use qt_asio_net_disk.Equalizer.{recv_server_state, unwatches, closes}
use qt_asio_net_disk.Equalizer.Laws.{recv_server_state-counts, recv_server_state-leaves}

abbrev no_servers : ServerHeap
no_servers = record { nodes = []; index_map = λ k. none }

abbrev after : Option ServerHeap → ServerHeap
after none = no_servers
after (some h) = h

abbrev one_server : ServerHeap
one_server = after (step (clear no_servers) (adds 5 [] 80 81 12 []))

one_server-IsValid : IsValid one_server
unfolding step add clear siftup push_node siftup_loop less at swap_node swapped insert swap
one_server-IsValid = Reach-IsValid (next (start no_servers) (adds 5 [] 80 81 12 []) tt refl)

found_5 : one_server.index_map 5 ≡ some 0
unfolding step add clear siftup push_node siftup_loop less at swap_node swapped insert swap
found_5 = refl

abbrev busy : ServerState
busy = record {
  header = record { type = 11; body_len = 12; version = 1; reserved = 0 };
  code = 0;
  cur_con_count = 30;
}

busy-IsServerState : IsServerState busy
busy-IsServerState = record {
  header_valid = record {
    type_is = refl;
    body_len_is = refl;
    type_fits = omega arith;
    body_len_fits = omega arith;
    version_fits = omega arith;
    reserved_fits = omega arith;
  };
  code_fits = omega arith;
  cur_con_count_fits = omega arith;
}

abbrev leaving : ServerState
leaving = record busy { code = 1 }

leaving-IsServerState : IsServerState leaving
leaving-IsServerState = record {
  header_valid = busy-IsServerState.header_valid;
  code_fits = omega arith;
  cur_con_count_fits = omega arith;
}

recv_server_state-counts_example :
    (out : List ℕ) × (g : ServerHeap) × (serialize_server_state (replicate 8192 7) busy ≡ ok out)
    × (recv_server_state one_server 5 out ≡ some (g, []))
    × IsValid g
    × Perm g.nodes (set one_server.nodes 0 (counted one_server 0 30))
recv_server_state-counts_example =
    recv_server_state-counts one_server 5 0 busy (replicate 8192 7) one_server-IsValid (omega arith)
      found_5 busy-IsServerState (length-replicate {A = ℕ} 8192 7) refl

recv_server_state-leaves_example :
    (out : List ℕ) × (g : ServerHeap) × (serialize_server_state (replicate 8192 7) leaving ≡ ok out)
    × (recv_server_state one_server 5 out ≡ some (g, unwatches 5 ∷ closes 5 ∷ []))
    × Deleted one_server 0 g
recv_server_state-leaves_example =
    recv_server_state-leaves one_server 5 0 leaving (replicate 8192 7) one_server-IsValid
      (omega arith) found_5 leaving-IsServerState (length-replicate {A = ℕ} 8192 7) refl
