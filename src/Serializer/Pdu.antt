-- ===== src/Serializer/Pdu.antt =====
-- PDU in NetDisk-Server/Server/code/tool/Serializer.cpp: `serialize` and `deserialize`.
use qt_asio_net_disk.Base.{
  ℕ, ◌+◌, ◌≤◌, ◌≡◌, ◌∙◌, List, ◌++◌, arith, append_assoc, length, length-append, length-take,
  length-drop, take, drop, true,
}
use qt_asio_net_disk.Wire.Order.{be, htonl, length-be}
use qt_asio_net_disk.Wire.Put.{
  Outcome, ok, Put, ◌>>◌, write_data, write_int, write_some, Emits, seq-Emits, write_data-Emits,
  write_swapped-Emits, write_some-Emits,
}
use qt_asio_net_disk.Wire.Get.{
  Get, Decoded, done, ◌>>=◌, return, read_data, read_net, read_array, read_then, Yields,
  bind-Yields, last-Yields, read_data-Yields, read_net-Yields, read_array-Yields, read_then_lem,
}
use qt_asio_net_disk.Protocol.{Pdu, IsPdu, pdu_type, pdu_body_len}
use qt_asio_net_disk.Serializer.Frame.{
  write_header, encode_header, length-encode_header, write_header-Emits, serialize_frame,
  serialize_frame_lem, deserialize_frame, deserialize_frame_lem,
}

-- The writes of `serialize`, header first.
unfoldable pub write_pdu : Pdu → Put
write_pdu p = do
  write_header p.header
  write_int 4 (htonl p.code)
  write_data p.user
  write_data p.pwd
  write_data p.file_name
  write_int 4 (htonl p.msg_len)
  write_some p.msg p.msg_len

unfoldable pub serialize_pdu : List ℕ → Pdu → Outcome (List ℕ)
serialize_pdu buf p = serialize_frame p.header pdu_type (pdu_body_len + p.msg_len) (write_pdu p) buf

-- The reads of the body into the object.
unfoldable pub read_pdu : Pdu → Get Pdu
read_pdu p = do
  code ← read_net 4
  user ← read_data 20
  pwd ← read_data 20
  file_name ← read_data 100
  msg_len ← read_net 4
  msg ← read_array p.msg msg_len
  return (record p {
    code = code;
    user = user;
    pwd = pwd;
    file_name = file_name;
    msg_len = msg_len;
    msg = msg;
  })

unfoldable pub deserialize_pdu : List ℕ → ℕ → Pdu → Decoded Pdu
deserialize_pdu buf len p =
    deserialize_frame pdu_type buf len p (λ h. record p { header = h })
      λ q rest. read_then (read_pdu q) rest λ r _. done true r

-- The layout of the body on the network.
unfoldable pub encode_body : Pdu → List ℕ
encode_body p =
    be 4 p.code
    ++ (p.user ++ (p.pwd ++ (p.file_name ++ (be 4 p.msg_len ++ (take p.msg_len p.msg)))))

pub length-encode_body : (p : Pdu) → IsPdu p → length (encode_body p) ≡ 148 + p.msg_len
unfolding encode_body
length-encode_body p v =
    simp
      (
        length-append,
        length-be,
        v.user_size,
        v.pwd_size,
        v.file_name_size,
        length-take p.msg_len p.msg (omega arith),
      )
      (omega arith)

pub write_pdu-Emits :
    (p : Pdu) → IsPdu p → Emits (write_pdu p) (encode_header p.header ++ encode_body p)
unfolding write_pdu encode_body
write_pdu-Emits p v = seq-Emits _ _ _ _ (write_header-Emits p.header) (
    seq-Emits _ _ _ _ (write_swapped-Emits 4 p.code) (
      seq-Emits _ _ _ _ (write_data-Emits p.user) (
        seq-Emits _ _ _ _ (write_data-Emits p.pwd) (
          seq-Emits _ _ _ _ (write_data-Emits p.file_name) (
            seq-Emits _ _ _ _ (write_swapped-Emits 4 p.msg_len)
              (write_some-Emits p.msg p.msg_len (omega arith)))))))

read_pdu-Yields :
    (p old : Pdu)
    → IsPdu p
    → length old.msg ≡ 200
    → Yields (read_pdu old) (encode_body p) (record old {
      code = p.code;
      user = p.user;
      pwd = p.pwd;
      file_name = p.file_name;
      msg_len = p.msg_len;
      msg = take p.msg_len p.msg ++ drop p.msg_len old.msg;
    })
unfolding read_pdu encode_body
read_pdu-Yields p old v fresh = bind-Yields _ _ _ _ _ _ (read_net-Yields 4 p.code v.code_fits) (
    bind-Yields _ _ _ _ _ _ (read_data-Yields p.user 20 v.user_size) (
      bind-Yields _ _ _ _ _ _ (read_data-Yields p.pwd 20 v.pwd_size) (
        bind-Yields _ _ _ _ _ _ (read_data-Yields p.file_name 100 v.file_name_size) (
          bind-Yields _ _ _ _ _ _ (read_net-Yields 4 p.msg_len v.msg_len_fits) (
            last-Yields _ _ _ _ (
              read_array-Yields old.msg (take p.msg_len p.msg) p.msg_len
                (length-take p.msg_len p.msg (omega arith)) (omega arith)))))))

-- A buffer with the message in front is read back, whatever is behind it.
pub deserialize_pdu-encode :
    (p old : Pdu) (tail : List ℕ) (len : ℕ)
    → IsPdu p
    → length old.msg ≡ 200
    → 8 + (pdu_body_len + p.msg_len) ≤ len
    → deserialize_pdu (encode_header p.header ++ (encode_body p ++ tail)) len old
      ≡ done true (record p { msg = take p.msg_len p.msg ++ drop p.msg_len old.msg })
unfolding deserialize_pdu
deserialize_pdu-encode p old tail len v fresh fits =
    deserialize_frame_lem p.header pdu_type (pdu_body_len + p.msg_len) len (encode_body p ++ tail)
      old _ _ v.header_valid fits
    ∙ read_then_lem _ (encode_body p) tail _ _
        (read_pdu-Yields p (record old { header = p.header }) v fresh)

-- The buffer after the message is written: its bytes are in front, the others stay.
pub serialize_pdu-encode :
    (p : Pdu) (buf : List ℕ)
    → IsPdu p
    → length buf ≡ 8192
    → serialize_pdu buf p
      ≡ ok (
          (encode_header p.header ++ encode_body p)
          ++ drop (length (encode_header p.header ++ encode_body p)) buf)
unfolding serialize_pdu
serialize_pdu-encode p buf v size =
    let message : List ℕ = encode_header p.header ++ encode_body p in
    let total : length message ≡ 8 + (148 + p.msg_len) =
      length-append (encode_header p.header) (encode_body p)
      ∙ rw (length-encode_header p.header, length-encode_body p v) in
    serialize_frame_lem p.header pdu_type (pdu_body_len + p.msg_len) (write_pdu p) message buf
      v.header_valid (omega arith) (write_pdu-Emits p v) (omega arith)

-- A valid PDU goes into any buffer of 8192 bytes, and reading the buffer back, with at least the
-- message's length, into an object with an array of 200 bytes, gives the structure. The array behind the `msg_len` bytes of the message keeps what the object had there.
pub deserialize_pdu-serialize_pdu :
    (p old : Pdu) (buf : List ℕ) (len : ℕ)
    → IsPdu p
    → length buf ≡ 8192
    → length old.msg ≡ 200
    → 8 + (pdu_body_len + p.msg_len) ≤ len
    → (out : List ℕ) × (serialize_pdu buf p ≡ ok out)
      × (length out ≡ 8192)
      × (deserialize_pdu out len old
          ≡ done true (record p { msg = take p.msg_len p.msg ++ drop p.msg_len old.msg }))
deserialize_pdu-serialize_pdu p old buf len v size fresh fits =
    let message : List ℕ = encode_header p.header ++ encode_body p in
    let total : length message ≡ 8 + (148 + p.msg_len) =
      length-append (encode_header p.header) (encode_body p)
      ∙ rw (length-encode_header p.header, length-encode_body p v) in
    let tail : List ℕ = drop (length message) buf in
    (
      message ++ tail,
      serialize_pdu-encode p buf v size,
      omega (arith, length-append message tail, length-drop (length message) buf),
      rw (append_assoc (encode_header p.header) (encode_body p) tail)
          (deserialize_pdu-encode p old tail len v fresh fits),
    )
