-- ===== src/Serializer/TranFinishPdu.antt =====
-- TranFinishPdu in NetDisk-Server/Server/code/tool/Serializer.cpp: `serialize` and `deserialize`.
use qt_asio_net_disk.Base.{
  ℕ, ◌+◌, ◌≤◌, ◌≡◌, ◌∙◌, List, ◌++◌, arith, append_assoc, length, length-append, length-drop, drop,
  true,
}
use qt_asio_net_disk.Wire.Order.{be, htonl, htonll, length-be}
use qt_asio_net_disk.Wire.Put.{
  Outcome, ok, Put, ◌>>◌, write_data, write_int, Emits, seq-Emits, write_data-Emits,
  write_swapped-Emits, write_64-Emits,
}
use qt_asio_net_disk.Wire.Get.{
  Get, Decoded, done, ◌>>=◌, return, read_data, read_net, read_net_64, read_then, Yields,
  bind-Yields, last-Yields, read_data-Yields, read_net-Yields, read_net_64-Yields, read_then_lem,
}
use qt_asio_net_disk.Protocol.{
  TranFinishPdu, IsTranFinishPdu, tran_finish_pdu_type, tran_finish_pdu_body_len,
}
use qt_asio_net_disk.Serializer.Frame.{
  write_header, encode_header, length-encode_header, write_header-Emits, serialize_frame,
  serialize_frame_lem, deserialize_frame, deserialize_frame_lem,
}

-- The writes of `serialize`, header first.
unfoldable pub write_tran_finish_pdu : TranFinishPdu → Put
write_tran_finish_pdu p = do
  write_header p.header
  write_int 4 (htonl p.code)
  write_int 8 (htonll p.file_size)
  write_data p.file_md5

unfoldable pub serialize_tran_finish_pdu : List ℕ → TranFinishPdu → Outcome (List ℕ)
serialize_tran_finish_pdu buf p =
    serialize_frame p.header tran_finish_pdu_type (tran_finish_pdu_body_len)
      (write_tran_finish_pdu p) buf

-- The reads of the body into the object.
unfoldable pub read_tran_finish_pdu : TranFinishPdu → Get TranFinishPdu
read_tran_finish_pdu p = do
  code ← read_net 4
  file_size ← read_net_64
  file_md5 ← read_data 100
  return (record p { code = code; file_size = file_size; file_md5 = file_md5 })

unfoldable pub deserialize_tran_finish_pdu : List ℕ → ℕ → TranFinishPdu → Decoded TranFinishPdu
deserialize_tran_finish_pdu buf len p =
    deserialize_frame tran_finish_pdu_type buf len p (λ h. record p { header = h })
      λ q rest. read_then (read_tran_finish_pdu q) rest λ r _. done true r

-- The layout of the body on the network.
unfoldable pub encode_body : TranFinishPdu → List ℕ
encode_body p = be 4 p.code ++ (be 8 p.file_size ++ (p.file_md5))

pub length-encode_body : (p : TranFinishPdu) → IsTranFinishPdu p → length (encode_body p) ≡ 112
unfolding encode_body
length-encode_body p v = simp (length-append, length-be, v.file_md5_size) (omega arith)

pub write_tran_finish_pdu-Emits :
    (p : TranFinishPdu)
    → IsTranFinishPdu p
    → Emits (write_tran_finish_pdu p) (encode_header p.header ++ encode_body p)
unfolding write_tran_finish_pdu encode_body
write_tran_finish_pdu-Emits p v = seq-Emits _ _ _ _ (write_header-Emits p.header) (
    seq-Emits _ _ _ _ (write_swapped-Emits 4 p.code) (
      seq-Emits _ _ _ _ (write_64-Emits p.file_size v.file_size_fits)
        (write_data-Emits p.file_md5)))

read_tran_finish_pdu-Yields :
    (p old : TranFinishPdu)
    → IsTranFinishPdu p
    → Yields
        (read_tran_finish_pdu old)
        (encode_body p)
        (record old { code = p.code; file_size = p.file_size; file_md5 = p.file_md5 })
unfolding read_tran_finish_pdu encode_body
read_tran_finish_pdu-Yields p old v =
    bind-Yields _ _ _ _ _ _ (read_net-Yields 4 p.code v.code_fits) (
      bind-Yields _ _ _ _ _ _ (read_net_64-Yields p.file_size v.file_size_fits)
        (last-Yields _ _ _ _ (read_data-Yields p.file_md5 100 v.file_md5_size)))

-- A buffer with the message in front is read back, whatever is behind it.
pub deserialize_tran_finish_pdu-encode :
    (p old : TranFinishPdu) (tail : List ℕ) (len : ℕ)
    → IsTranFinishPdu p
    → 8 + (tran_finish_pdu_body_len) ≤ len
    → deserialize_tran_finish_pdu (encode_header p.header ++ (encode_body p ++ tail)) len old
      ≡ done true p
unfolding deserialize_tran_finish_pdu
deserialize_tran_finish_pdu-encode p old tail len v fits =
    deserialize_frame_lem p.header tran_finish_pdu_type (tran_finish_pdu_body_len) len
      (encode_body p ++ tail) old _ _ v.header_valid fits
    ∙ read_then_lem _ (encode_body p) tail _ _
        (read_tran_finish_pdu-Yields p (record old { header = p.header }) v)

-- The buffer after the message is written: its bytes are in front, the others stay.
pub serialize_tran_finish_pdu-encode :
    (p : TranFinishPdu) (buf : List ℕ)
    → IsTranFinishPdu p
    → length buf ≡ 8192
    → serialize_tran_finish_pdu buf p
      ≡ ok (
          (encode_header p.header ++ encode_body p)
          ++ drop (length (encode_header p.header ++ encode_body p)) buf)
unfolding serialize_tran_finish_pdu
serialize_tran_finish_pdu-encode p buf v size =
    let message : List ℕ = encode_header p.header ++ encode_body p in
    let total : length message ≡ 8 + (112) =
      length-append (encode_header p.header) (encode_body p)
      ∙ rw (length-encode_header p.header, length-encode_body p v) in
    serialize_frame_lem p.header tran_finish_pdu_type (tran_finish_pdu_body_len)
      (write_tran_finish_pdu p) message buf v.header_valid (omega arith)
      (write_tran_finish_pdu-Emits p v) (omega arith)

-- A valid TranFinishPdu goes into any buffer of 8192 bytes, and reading the buffer back, with at least the
-- message's length, gives the structure.
pub deserialize_tran_finish_pdu-serialize_tran_finish_pdu :
    (p old : TranFinishPdu) (buf : List ℕ) (len : ℕ)
    → IsTranFinishPdu p
    → length buf ≡ 8192
    → 8 + (tran_finish_pdu_body_len) ≤ len
    → (out : List ℕ) × (serialize_tran_finish_pdu buf p ≡ ok out)
      × (length out ≡ 8192)
      × (deserialize_tran_finish_pdu out len old ≡ done true p)
deserialize_tran_finish_pdu-serialize_tran_finish_pdu p old buf len v size fits =
    let message : List ℕ = encode_header p.header ++ encode_body p in
    let total : length message ≡ 8 + (112) =
      length-append (encode_header p.header) (encode_body p)
      ∙ rw (length-encode_header p.header, length-encode_body p v) in
    let tail : List ℕ = drop (length message) buf in
    (
      message ++ tail,
      serialize_tran_finish_pdu-encode p buf v size,
      omega (arith, length-append message tail, length-drop (length message) buf),
      rw (append_assoc (encode_header p.header) (encode_body p) tail)
          (deserialize_tran_finish_pdu-encode p old tail len v fits),
    )
