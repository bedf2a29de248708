-- ===== src/Serializer/TranControlPdu.antt =====
-- TranControlPdu in NetDisk-Server/Server/code/tool/Serializer.cpp: `serialize` and `deserialize`.
use qt_asio_net_disk.Base.{
  ℕ, ◌+◌, ◌≤◌, ◌≡◌, ◌∙◌, List, [], ◌++◌, arith, append_assoc, length, length-append, length-drop,
  drop, true,
}
use qt_asio_net_disk.Wire.Order.{be, htonl, length-be}
use qt_asio_net_disk.Wire.Put.{
  Outcome, ok, Put, ◌>>◌, write_int, write_some, c_str, Emits, seq-Emits, write_swapped-Emits,
  write_string-Emits,
}
use qt_asio_net_disk.Wire.Get.{
  Get, Decoded, done, ◌>>=◌, return, read_net, read_string, read_then, Yields, bind-Yields,
  last-Yields, read_net-Yields, read_string-Yields, read_then_lem,
}
use qt_asio_net_disk.Protocol.{
  TranControlPdu, IsTranControlPdu, tran_control_pdu_type, tran_control_pdu_body_len,
}
use qt_asio_net_disk.Serializer.Frame.{
  write_header, encode_header, length-encode_header, write_header-Emits, serialize_frame,
  serialize_frame_lem, deserialize_frame, deserialize_frame_lem,
}

-- The writes of `serialize`, header first.
unfoldable pub write_tran_control_pdu : TranControlPdu → Put
write_tran_control_pdu p = do
  write_header p.header
  write_int 4 (htonl p.code)
  write_int 4 (htonl p.action)
  write_int 4 (htonl p.msg_len)
  write_some (c_str p.msg) p.msg_len

unfoldable pub serialize_tran_control_pdu : List ℕ → TranControlPdu → Outcome (List ℕ)
serialize_tran_control_pdu buf p =
    serialize_frame p.header tran_control_pdu_type (tran_control_pdu_body_len + p.msg_len)
      (write_tran_control_pdu p) buf

-- The reads of the body into the object.
unfoldable pub read_tran_control_pdu : TranControlPdu → Get TranControlPdu
read_tran_control_pdu p = do
  code ← read_net 4
  action ← read_net 4
  msg_len ← read_net 4
  msg ← read_string p.msg msg_len
  return (record p { code = code; action = action; msg_len = msg_len; msg = msg })

unfoldable pub deserialize_tran_control_pdu : List ℕ → ℕ → TranControlPdu → Decoded TranControlPdu
deserialize_tran_control_pdu buf len p =
    deserialize_frame tran_control_pdu_type buf len p (λ h. record p { header = h })
      λ q rest. read_then (read_tran_control_pdu q) rest λ r _. done true r

-- The layout of the body on the network.
unfoldable pub encode_body : TranControlPdu → List ℕ
encode_body p = be 4 p.code ++ (be 4 p.action ++ (be 4 p.msg_len ++ (p.msg)))

pub length-encode_body :
    (p : TranControlPdu) → IsTranControlPdu p → length (encode_body p) ≡ 12 + p.msg_len
unfolding encode_body
length-encode_body p v = simp (length-append, length-be, v.msg_size) (omega arith)

pub write_tran_control_pdu-Emits :
    (p : TranControlPdu)
    → IsTranControlPdu p
    → Emits (write_tran_control_pdu p) (encode_header p.header ++ encode_body p)
unfolding write_tran_control_pdu encode_body
write_tran_control_pdu-Emits p v = seq-Emits _ _ _ _ (write_header-Emits p.header) (
    seq-Emits _ _ _ _ (write_swapped-Emits 4 p.code) (
      seq-Emits _ _ _ _ (write_swapped-Emits 4 p.action) (
        seq-Emits _ _ _ _ (write_swapped-Emits 4 p.msg_len)
          (write_string-Emits p.msg p.msg_len v.msg_size))))

read_tran_control_pdu-Yields :
    (p old : TranControlPdu)
    → IsTranControlPdu p
    → old.msg ≡ []
    → Yields
        (read_tran_control_pdu old)
        (encode_body p)
        (record old { code = p.code; action = p.action; msg_len = p.msg_len; msg = p.msg })
unfolding read_tran_control_pdu encode_body
read_tran_control_pdu-Yields p old v fresh =
    bind-Yields _ _ _ _ _ _ (read_net-Yields 4 p.code v.code_fits) (
      bind-Yields _ _ _ _ _ _ (read_net-Yields 4 p.action v.action_fits) (
        bind-Yields _ _ _ _ _ _ (read_net-Yields 4 p.msg_len v.msg_len_fits)
          (last-Yields _ _ _ _ (read_string-Yields old.msg p.msg p.msg_len v.msg_size fresh))))

-- A buffer with the message in front is read back, whatever is behind it.
pub deserialize_tran_control_pdu-encode :
    (p old : TranControlPdu) (tail : List ℕ) (len : ℕ)
    → IsTranControlPdu p
    → old.msg ≡ []
    → 8 + (tran_control_pdu_body_len + p.msg_len) ≤ len
    → deserialize_tran_control_pdu (encode_header p.header ++ (encode_body p ++ tail)) len old
      ≡ done true p
unfolding deserialize_tran_control_pdu
deserialize_tran_control_pdu-encode p old tail len v fresh fits =
    deserialize_frame_lem p.header tran_control_pdu_type (tran_control_pdu_body_len + p.msg_len) len
      (encode_body p ++ tail) old _ _ v.header_valid fits
    ∙ read_then_lem _ (encode_body p) tail _ _
        (read_tran_control_pdu-Yields p (record old { header = p.header }) v fresh)

-- The buffer after the message is written: its bytes are in front, the others stay.
pub serialize_tran_control_pdu-encode :
    (p : TranControlPdu) (buf : List ℕ)
    → IsTranControlPdu p
    → length buf ≡ 8192
    → serialize_tran_control_pdu buf p
      ≡ ok (
          (encode_header p.header ++ encode_body p)
          ++ drop (length (encode_header p.header ++ encode_body p)) buf)
unfolding serialize_tran_control_pdu
serialize_tran_control_pdu-encode p buf v size =
    let message : List ℕ = encode_header p.header ++ encode_body p in
    let total : length message ≡ 8 + (12 + p.msg_len) =
      length-append (encode_header p.header) (encode_body p)
      ∙ rw (length-encode_header p.header, length-encode_body p v) in
    serialize_frame_lem p.header tran_control_pdu_type (tran_control_pdu_body_len + p.msg_len)
      (write_tran_control_pdu p) message buf v.header_valid (omega arith)
      (write_tran_control_pdu-Emits p v) (omega arith)

-- A valid TranControlPdu goes into any buffer of 8192 bytes, and reading the buffer back, with at least the
-- message's length, into an object whose string is empty, gives the structure.
pub deserialize_tran_control_pdu-serialize_tran_control_pdu :
    (p old : TranControlPdu) (buf : List ℕ) (len : ℕ)
    → IsTranControlPdu p
    → length buf ≡ 8192
    → old.msg ≡ []
    → 8 + (tran_control_pdu_body_len + p.msg_len) ≤ len
    → (out : List ℕ) × (serialize_tran_control_pdu buf p ≡ ok out)
      × (length out ≡ 8192)
      × (deserialize_tran_control_pdu out len old ≡ done true p)
deserialize_tran_control_pdu-serialize_tran_control_pdu p old buf len v size fresh fits =
    let message : List ℕ = encode_header p.header ++ encode_body p in
    let total : length message ≡ 8 + (12 + p.msg_len) =
      length-append (encode_header p.header) (encode_body p)
      ∙ rw (length-encode_header p.header, length-encode_body p v) in
    let tail : List ℕ = drop (length message) buf in
    (
      message ++ tail,
      serialize_tran_control_pdu-encode p buf v size,
      omega (arith, length-append message tail, length-drop (length message) buf),
      rw (append_assoc (encode_header p.header) (encode_body p) tail)
          (deserialize_tran_control_pdu-encode p old tail len v fresh fits),
    )
