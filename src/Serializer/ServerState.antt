-- ===== src/Serializer/ServerState.antt =====
-- ServerState in NetDisk-Server/Server/code/tool/Serializer.cpp: `serialize` and `deserialize`.
use qt_asio_net_disk.Base.{
  ℕ, ◌+◌, ◌≤◌, ◌≡◌, ◌∙◌, List, ◌++◌, arith, append_assoc, length, length-append, length-drop, drop,
  true,
}
use qt_asio_net_disk.Wire.Order.{be, htonl, htonll, length-be}
use qt_asio_net_disk.Wire.Put.{
  Outcome, ok, Put, ◌>>◌, write_int, Emits, seq-Emits, write_swapped-Emits, write_64-Emits,
}
use qt_asio_net_disk.Wire.Get.{
  Get, Decoded, done, ◌>>=◌, return, read_net, read_net_64, read_then, Yields, bind-Yields,
  last-Yields, read_net-Yields, read_net_64-Yields, read_then_lem,
}
use qt_asio_net_disk.Protocol.{ServerState, IsServerState, server_state_type, server_state_body_len}
use qt_asio_net_disk.Serializer.Frame.{
  write_header, encode_header, length-encode_header, write_header-Emits, serialize_frame,
  serialize_frame_lem, deserialize_frame, deserialize_frame_lem,
}

-- The writes of `serialize`, header first.
unfoldable pub write_server_state : ServerState → Put
write_server_state p = do
  write_header p.header
  write_int 4 (htonl p.code)
  write_int 8 (htonll p.cur_con_count)

unfoldable pub serialize_server_state : List ℕ → ServerState → Outcome (List ℕ)
serialize_server_state buf p =
    serialize_frame p.header server_state_type (server_state_body_len) (write_server_state p) buf

-- The reads of the body into the object.
unfoldable pub read_server_state : ServerState → Get ServerState
read_server_state p = do
  code ← read_net 4
  cur_con_count ← read_net_64
  return (record p { code = code; cur_con_count = cur_con_count })

unfoldable pub deserialize_server_state : List ℕ → ℕ → ServerState → Decoded ServerState
deserialize_server_state buf len p =
    deserialize_frame server_state_type buf len p (λ h. record p { header = h })
      λ q rest. read_then (read_server_state q) rest λ r _. done true r

-- The layout of the body on the network.
unfoldable pub encode_body : ServerState → List ℕ
encode_body p = be 4 p.code ++ (be 8 p.cur_con_count)

pub length-encode_body : (p : ServerState) → IsServerState p → length (encode_body p) ≡ 12
unfolding encode_body
length-encode_body p v = simp (length-append, length-be) (omega arith)

pub write_server_state-Emits :
    (p : ServerState)
    → IsServerState p
    → Emits (write_server_state p) (encode_header p.header ++ encode_body p)
unfolding write_server_state encode_body
write_server_state-Emits p v = seq-Emits _ _ _ _ (write_header-Emits p.header) (
    seq-Emits _ _ _ _ (write_swapped-Emits 4 p.code)
      (write_64-Emits p.cur_con_count v.cur_con_count_fits))

read_server_state-Yields :
    (p old : ServerState)
    → IsServerState p
    → Yields
        (read_server_state old)
        (encode_body p)
        (record old { code = p.code; cur_con_count = p.cur_con_count })
unfolding read_server_state encode_body
read_server_state-Yields p old v =
    bind-Yields _ _ _ _ _ _ (read_net-Yields 4 p.code v.code_fits)
      (last-Yields _ _ _ _ (read_net_64-Yields p.cur_con_count v.cur_con_count_fits))

-- A valid ServerState goes into any buffer of 8192 bytes, and reading the buffer back, with at least the
-- message's length, gives the structure.
pub deserialize_server_state-serialize_server_state :
    (p old : ServerState) (buf : List ℕ) (len : ℕ)
    → IsServerState p
    → length buf ≡ 8192
    → 8 + (server_state_body_len) ≤ len
    → (out : List ℕ) × (serialize_server_state buf p ≡ ok out)
      × (length out ≡ 8192)
      × (deserialize_server_state out len old ≡ done true p)
unfolding serialize_server_state deserialize_server_state
deserialize_server_state-serialize_server_state p old buf len v size fits =
    let message : List ℕ = encode_header p.header ++ encode_body p in
    let total : length message ≡ 8 + (12) =
      length-append (encode_header p.header) (encode_body p)
      ∙ rw (length-encode_header p.header, length-encode_body p v) in
    let tail : List ℕ = drop (length message) buf in
    (
      message ++ tail,
      serialize_frame_lem p.header server_state_type (server_state_body_len) (write_server_state p)
          message buf v.header_valid (omega arith) (write_server_state-Emits p v) (omega arith),
      omega (arith, length-append message tail, length-drop (length message) buf),
      rw (append_assoc (encode_header p.header) (encode_body p) tail) (
          deserialize_frame_lem p.header server_state_type (server_state_body_len) len
            (encode_body p ++ tail) old _ _ v.header_valid fits
          ∙ read_then_lem _ (encode_body p) tail _ _
              (read_server_state-Yields p (record old { header = p.header }) v)),
    )
