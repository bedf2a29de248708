-- ===== src/Serializer/PduRespond.antt =====
-- PDURespond in NetDisk-Server/Server/code/tool/Serializer.cpp: `serialize` and `deserialize`.
use qt_asio_net_disk.Base.{
  ℕ, ◌+◌, ◌≤◌, ◌≡◌, ◌∙◌, List, [], ◌++◌, arith, append_assoc, length, length-append, length-drop,
  drop, true,
}
use qt_asio_net_disk.Wire.Order.{be, htonl, length-be}
use qt_asio_net_disk.Wire.Put.{
  Outcome, ok, Put, ◌>>◌, write_int, write_some, c_str, Emits, seq-Emits, write_swapped-Emits,
  write_string-Emits,
}
use qt_asio_net_disk.Wire.Get.{
  Get, Decoded, done, ◌>>=◌, return, read_net, read_string, read_then, Yields, bind-Yields,
  last-Yields, read_net-Yields, read_string-Yields, read_then_lem,
}
use qt_asio_net_disk.Protocol.{PduRespond, IsPduRespond, pdu_respond_type, pdu_respond_body_len}
use qt_asio_net_disk.Serializer.Frame.{
  write_header, encode_header, length-encode_header, write_header-Emits, serialize_frame,
  serialize_frame_lem, deserialize_frame, deserialize_frame_lem,
}

-- The writes of `serialize`, header first.
unfoldable pub write_pdu_respond : PduRespond → Put
write_pdu_respond p = do
  write_header p.header
  write_int 4 (htonl p.code)
  write_int 4 (htonl p.status)
  write_int 4 (htonl p.msg_amount)
  write_int 4 (htonl p.msg_len)
  write_some (c_str p.msg) p.msg_len

unfoldable pub serialize_pdu_respond : List ℕ → PduRespond → Outcome (List ℕ)
serialize_pdu_respond buf p =
    serialize_frame p.header pdu_respond_type (pdu_respond_body_len + p.msg_len)
      (write_pdu_respond p) buf

-- The reads of the body into the object.
unfoldable pub read_pdu_respond : PduRespond → Get PduRespond
read_pdu_respond p = do
  code ← read_net 4
  status ← read_net 4
  msg_amount ← read_net 4
  msg_len ← read_net 4
  msg ← read_string p.msg msg_len
  return (record p {
    code = code;
    status = status;
    msg_amount = msg_amount;
    msg_len = msg_len;
    msg = msg;
  })

unfoldable pub deserialize_pdu_respond : List ℕ → ℕ → PduRespond → Decoded PduRespond
deserialize_pdu_respond buf len p =
    deserialize_frame pdu_respond_type buf len p (λ h. record p { header = h })
      λ q rest. read_then (read_pdu_respond q) rest λ r _. done true r

-- The layout of the body on the network.
unfoldable pub encode_body : PduRespond → List ℕ
encode_body p = be 4 p.code ++ (be 4 p.status ++ (be 4 p.msg_amount ++ (be 4 p.msg_len ++ (p.msg))))

pub length-encode_body : (p : PduRespond) → IsPduRespond p → length (encode_body p) ≡ 16 + p.msg_len
unfolding encode_body
length-encode_body p v = simp (length-append, length-be, v.msg_size) (omega arith)

pub write_pdu_respond-Emits :
    (p : PduRespond)
    → IsPduRespond p
    → Emits (write_pdu_respond p) (encode_header p.header ++ encode_body p)
unfolding write_pdu_respond encode_body
write_pdu_respond-Emits p v = seq-Emits _ _ _ _ (write_header-Emits p.header) (
    seq-Emits _ _ _ _ (write_swapped-Emits 4 p.code) (
      seq-Emits _ _ _ _ (write_swapped-Emits 4 p.status) (
        seq-Emits _ _ _ _ (write_swapped-Emits 4 p.msg_amount) (
          seq-Emits _ _ _ _ (write_swapped-Emits 4 p.msg_len)
            (write_string-Emits p.msg p.msg_len v.msg_size)))))

read_pdu_respond-Yields :
    (p old : PduRespond)
    → IsPduRespond p
    → old.msg ≡ []
    → Yields (read_pdu_respond old) (encode_body p) (record old {
      code = p.code;
      status = p.status;
      msg_amount = p.msg_amount;
      msg_len = p.msg_len;
      msg = p.msg;
    })
unfolding read_pdu_respond encode_body
read_pdu_respond-Yields p old v fresh =
    bind-Yields _ _ _ _ _ _ (read_net-Yields 4 p.code v.code_fits) (
      bind-Yields _ _ _ _ _ _ (read_net-Yields 4 p.status v.status_fits) (
        bind-Yields _ _ _ _ _ _ (read_net-Yields 4 p.msg_amount v.msg_amount_fits) (
          bind-Yields _ _ _ _ _ _ (read_net-Yields 4 p.msg_len v.msg_len_fits)
            (last-Yields _ _ _ _ (read_string-Yields old.msg p.msg p.msg_len v.msg_size fresh)))))

-- The buffer after the message is written: its bytes are in front, the others stay.
pub serialize_pdu_respond-encode :
    (p : PduRespond) (buf : List ℕ)
    → IsPduRespond p
    → length buf ≡ 8192
    → serialize_pdu_respond buf p
      ≡ ok (
          (encode_header p.header ++ encode_body p)
          ++ drop (length (encode_header p.header ++ encode_body p)) buf)
unfolding serialize_pdu_respond
serialize_pdu_respond-encode p buf v size =
    let message : List ℕ = encode_header p.header ++ encode_body p in
    let total : length message ≡ 8 + (16 + p.msg_len) =
      length-append (encode_header p.header) (encode_body p)
      ∙ rw (length-encode_header p.header, length-encode_body p v) in
    serialize_frame_lem p.header pdu_respond_type (pdu_respond_body_len + p.msg_len)
      (write_pdu_respond p) message buf v.header_valid (omega arith) (write_pdu_respond-Emits p v)
      (omega arith)

-- A valid PDURespond goes into any buffer of 8192 bytes, and reading the buffer back, with at least the
-- message's length, into an object whose string is empty, gives the structure.
pub deserialize_pdu_respond-serialize_pdu_respond :
    (p old : PduRespond) (buf : List ℕ) (len : ℕ)
    → IsPduRespond p
    → length buf ≡ 8192
    → old.msg ≡ []
    → 8 + (pdu_respond_body_len + p.msg_len) ≤ len
    → (out : List ℕ) × (serialize_pdu_respond buf p ≡ ok out)
      × (length out ≡ 8192)
      × (deserialize_pdu_respond out len old ≡ done true p)
unfolding deserialize_pdu_respond
deserialize_pdu_respond-serialize_pdu_respond p old buf len v size fresh fits =
    let message : List ℕ = encode_header p.header ++ encode_body p in
    let total : length message ≡ 8 + (16 + p.msg_len) =
      length-append (encode_header p.header) (encode_body p)
      ∙ rw (length-encode_header p.header, length-encode_body p v) in
    let tail : List ℕ = drop (length message) buf in
    (
      message ++ tail,
      serialize_pdu_respond-encode p buf v size,
      omega (arith, length-append message tail, length-drop (length message) buf),
      rw (append_assoc (encode_header p.header) (encode_body p) tail) (
          deserialize_frame_lem p.header pdu_respond_type (pdu_respond_body_len + p.msg_len) len
            (encode_body p ++ tail) old _ _ v.header_valid fits
          ∙ read_then_lem _ (encode_body p) tail _ _
              (read_pdu_respond-Yields p (record old { header = p.header }) v fresh)),
    )
