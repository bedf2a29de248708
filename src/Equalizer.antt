-- ===== src/Equalizer.antt =====
-- Equalizer of NetDisk-Server/LoadBalancing/code/equalizer/Equalizer.cpp: what it does to its
-- servers. `recv` is given by the bytes of the buffer after it; epoll and `close` are effects, and
-- `none` is a failed `assert` or an access out of range. Its serializer,
-- NetDisk-Server/LoadBalancing/code/tool/Serializer.cpp, is a copy of functions of the server's.
pub mod Laws
pub mod Register
mod Examples
use qt_asio_net_disk.Base.{
  ℕ, ◌+◌, List, [], ◌∷◌, Option, none, some, true, false, ltb, ◌==◌, if◌then◌else◌,
}
use qt_asio_net_disk.Heap.{◌>>=◌}
use qt_asio_net_disk.ServerHeap.{ServerHeap, adjust, add, pop}
use qt_asio_net_disk.Wire.Get.{Decoded, done, overrun}
use qt_asio_net_disk.Protocol.{ProtocolHeader, ServerState, header_len, server_state_body_len}
use qt_asio_net_disk.Serializer.ServerState.{deserialize_server_state}

pub data Effect : Type 0 where
  unwatches closes : ℕ → Effect

unfoldable pub update_server_state : ServerHeap → ℕ → ℕ → Option ServerHeap
update_server_state h sock new_con_count = if ltb 0 sock then adjust h sock new_con_count else none

unfoldable pub add_server : ServerHeap → ℕ → ℕ → List ℕ → ℕ → ℕ → List ℕ → Option ServerHeap
add_server h sock count addr s_port l_port server_name =
    if ltb 0 sock then add h sock addr s_port l_port count server_name else none

unfoldable pub del_server : ServerHeap → ℕ → Option (ServerHeap × List Effect)
del_server h sock =
    let dropped = pop h sock >>= λ g. some (g, unwatches sock ∷ closes sock ∷ []) in
    if ltb 0 sock then dropped else none

-- ServerState()
abbrev pub no_state : ServerState
no_state = record {
  header = record { type = 0; body_len = 0; version = 0; reserved = 0 };
  code = 0;
  cur_con_count = 0;
}

-- The two codes that a server sends, and any other.
unfoldable pub apply_state : ServerHeap → ℕ → ServerState → Option (ServerHeap × List Effect)
apply_state h sock state =
    let updated = update_server_state h sock state.cur_con_count >>= λ g. some (g, []) in
    let deleted = if state.code == 1 then del_server h sock else some (h, []) in
    if state.code == 0 then updated else deleted

-- What follows the deserialization.
unfoldable pub handle_state :
    ServerHeap → ℕ → Decoded ServerState → Option (ServerHeap × List Effect)
handle_state h sock (done true state) = apply_state h sock state
handle_state h sock (done false state) = some (h, [])
handle_state h sock overrun = none

unfoldable pub recv_server_state : ServerHeap → ℕ → List ℕ → Option (ServerHeap × List Effect)
recv_server_state h sock buf =
    let read =
      handle_state h sock
        (deserialize_server_state buf (header_len + server_state_body_len) no_state) in
    if ltb 0 sock then read else none
