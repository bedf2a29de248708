-- ===== src/Equalizer/Laws.antt =====
-- The balancer and the bytes that a server sends.
use qt_asio_net_disk.Base.{ℕ, ◌<◌, ◌≡◌, List, [], ◌∷◌, Perm, some, arith, length, set, lt→ltb}
use qt_asio_net_disk.Heap.Fix.{IsValid}
use qt_asio_net_disk.Heap.Delete.{Deleted}
use qt_asio_net_disk.ServerHeap.{server_node, ServerHeap}
use qt_asio_net_disk.ServerHeap.Correct.{counted, adjust_lem, pop-present}
use qt_asio_net_disk.Wire.Put.{ok}
use qt_asio_net_disk.Protocol.{ServerState, IsServerState}
use qt_asio_net_disk.Serializer.ServerState.{
  serialize_server_state, deserialize_server_state-serialize_server_state,
}
use qt_asio_net_disk.Equalizer.{
  unwatches, closes, update_server_state, del_server, no_state, handle_state, apply_state,
  recv_server_state,
}

-- The buffer into which a server of a valid heap serializes a valid state of code 0 makes the
-- balancer set the number of connections of that server, and leaves a valid heap with the same
-- servers otherwise.
pub recv_server_state-counts :
    (h : ServerHeap) (sock i : ℕ) (p : ServerState) (buf : List ℕ)
    → IsValid h
    → 0 < sock
    → h.index_map sock ≡ some i
    → IsServerState p
    → length buf ≡ 8192
    → p.code ≡ 0
    → (out : List ℕ) × (g : ServerHeap) × (serialize_server_state buf p ≡ ok out)
      × (recv_server_state h sock out ≡ some (g, []))
      × IsValid g
      × Perm g.nodes (set h.nodes i (counted h i p.cur_con_count))
unfolding recv_server_state handle_state apply_state update_server_state
recv_server_state-counts h sock i p buf v pos found valid size zero =
    let (out, sent, whole, read) =
      deserialize_server_state-serialize_server_state p no_state buf 20 valid size (omega arith) in
    let positive = lt→ltb 0 sock pos in
    let (g, run, good, same) = adjust_lem h sock p.cur_con_count i v found in
    (
      out,
      g,
      sent,
      rw (
        recv_server_state, positive, read, handle_state, apply_state, zero, update_server_state,
        positive, run,
      ),
      good,
      same,
    )

-- The buffer into which a server of a valid heap serializes a valid state of code 1 makes the
-- balancer remove exactly that server from its heap, stop watching its socket and close it.
pub recv_server_state-leaves :
    (h : ServerHeap) (sock i : ℕ) (p : ServerState) (buf : List ℕ)
    → IsValid h
    → 0 < sock
    → h.index_map sock ≡ some i
    → IsServerState p
    → length buf ≡ 8192
    → p.code ≡ 1
    → (out : List ℕ) × (g : ServerHeap) × (serialize_server_state buf p ≡ ok out)
      × (recv_server_state h sock out ≡ some (g, unwatches sock ∷ closes sock ∷ []))
      × Deleted h i g
unfolding recv_server_state handle_state apply_state del_server
recv_server_state-leaves h sock i p buf v pos found valid size one =
    let (out, sent, whole, read) =
      deserialize_server_state-serialize_server_state p no_state buf 20 valid size (omega arith) in
    let positive = lt→ltb 0 sock pos in
    let (g, run, gone) = pop-present h sock i v found in
    (
      out,
      g,
      sent,
      rw (
        recv_server_state, positive, read, handle_state, apply_state, one, del_server, positive,
        run,
      ),
      gone,
    )
