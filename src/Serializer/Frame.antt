-- ===== src/Serializer/Frame.antt =====
-- The parts that the functions of Serializer.cpp repeat: the checks before a message is written or
-- read, and its header.
use qt_asio_net_disk.Base.{
  ℕ, ◌+◌, ◌≤◌, ◌≡◌, List, ◌++◌, arith, length, length-append, drop, ltb, le→ltb, ==_refl, ◌==◌,
  false, not, if◌then◌else◌,
}
use qt_asio_net_disk.Wire.Bytes.{to_le, length-to_le}
use qt_asio_net_disk.Wire.Order.{be, htons, htonl, length-be}
use qt_asio_net_disk.Wire.Put.{
  Outcome, ok, thrown, buffer_too_small, wrong_type, wrong_body_len, Put, ◌>>◌, write_int, Emits,
  seq-Emits, write_int-Emits, write_swapped-Emits, finish, finish_lem,
}
use qt_asio_net_disk.Wire.Get.{
  Get, Decoded, done, ◌>>=◌, return, read_int, read_net, read_then, Yields, bind-Yields,
  last-Yields, read_net-Yields, read_byte-Yields, read_then_lem,
}
use qt_asio_net_disk.Protocol.{ProtocolHeader, IsHeader, header_len}

-- The size of every buffer of the pool of the server, the default argument of its constructor.
abbrev pub buffer_size : ℕ
buffer_size = 8192

unfoldable pub write_header : ProtocolHeader → Put
write_header h = do
  write_int 2 (htons h.type)
  write_int 4 (htonl h.body_len)
  write_int 1 h.version
  write_int 1 h.reserved

unfoldable pub read_header : Get ProtocolHeader
read_header = do
  type ← read_net 2
  body_len ← read_net 4
  version ← read_int 1
  reserved ← read_int 1
  return (record { type = type; body_len = body_len; version = version; reserved = reserved })

-- The layout of a header on the network.
unfoldable pub encode_header : ProtocolHeader → List ℕ
encode_header h = be 2 h.type ++ (be 4 h.body_len ++ (to_le 1 h.version ++ to_le 1 h.reserved))

pub length-encode_header : (h : ProtocolHeader) → length (encode_header h) ≡ 8
unfolding encode_header
length-encode_header h = simp (length-append, length-be, length-to_le)

pub write_header-Emits : (h : ProtocolHeader) → Emits (write_header h) (encode_header h)
unfolding write_header encode_header
write_header-Emits h = seq-Emits _ _ _ _ (write_swapped-Emits 2 h.type) (
    seq-Emits _ _ _ _ (write_swapped-Emits 4 h.body_len)
      (seq-Emits _ _ _ _ (write_int-Emits 1 h.version) (write_int-Emits 1 h.reserved)))

pub read_header-Yields :
    (h : ProtocolHeader) {type body_len : ℕ}
    → IsHeader h type body_len
    → Yields read_header (encode_header h) h
unfolding read_header encode_header
read_header-Yields h v = bind-Yields _ _ _ _ _ _ (read_net-Yields 2 h.type v.type_fits) (
    bind-Yields _ _ _ _ _ _ (read_net-Yields 4 h.body_len v.body_len_fits) (
      bind-Yields _ _ _ _ _ _ (read_byte-Yields h.version v.version_fits)
        (last-Yields _ _ _ _ (read_byte-Yields h.reserved v.reserved_fits))))

-- The three checks in their order, then the writes into a buffer of the pool.
unfoldable pub serialize_frame : ProtocolHeader → ℕ → ℕ → Put → List ℕ → Outcome (List ℕ)
serialize_frame h type body_len writes buf =
    if ltb buffer_size (header_len + h.body_len)
    then thrown buffer_too_small
    else if not (h.type == type)
    then thrown wrong_type
    else if not (h.body_len == body_len)
    then thrown wrong_body_len
    else finish writes buf

pub serialize_frame_lem :
    (h : ProtocolHeader) (type body_len : ℕ) (writes : Put) (bs buf : List ℕ)
    → IsHeader h type body_len
    → header_len + body_len ≤ buffer_size
    → Emits writes bs
    → length bs ≤ length buf
    → serialize_frame h type body_len writes buf ≡ ok (bs ++ drop (length bs) buf)
unfolding serialize_frame
serialize_frame_lem h type body_len writes bs buf v fits e room =
    rw
      (
        v.type_is,
        v.body_len_is,
        le→ltb buffer_size (header_len + body_len) fits,
        ==_refl type,
        ==_refl body_len,
      )
      (finish_lem writes bs buf e room)

-- The checks behind the header, at the object that holds it.
unfoldable pub deserialize_checked :
    {A : Type 0} → ℕ → ℕ → ProtocolHeader → A → Decoded A → Decoded A
deserialize_checked type len h old body =
    if not (h.type == type)
    then done false old
    else if ltb len (header_len + h.body_len)
    then done false old
    else body

-- A deserialize function: `with_header` stores the header into the object, `body` is what follows.
unfoldable pub deserialize_frame :
    {A : Type 0} → ℕ → List ℕ → ℕ → A → (ProtocolHeader → A) → (A → List ℕ → Decoded A) → Decoded A
unfolding deserialize_checked
deserialize_frame type buf len old with_header body =
    if ltb len header_len
    then done false old
    else read_then read_header buf
        λ h rest. deserialize_checked type len h (with_header h) (body (with_header h) rest)

pub deserialize_frame_lem :
    {A : Type 0} (h : ProtocolHeader) (type body_len len : ℕ) (rest : List ℕ) (old : A)
    (with_header : ProtocolHeader → A) (body : A → List ℕ → Decoded A)
    → IsHeader h type body_len
    → header_len + body_len ≤ len
    → deserialize_frame type (encode_header h ++ rest) len old with_header body
      ≡ body (with_header h) rest
unfolding deserialize_frame
deserialize_frame_lem h type body_len len rest old with_header body v fits = rw (
  le→ltb len header_len (omega arith),
  read_then_lem read_header (encode_header h) rest h _ (read_header-Yields h v),
  deserialize_checked,
  v.type_is,
  ==_refl type,
  v.body_len_is,
  le→ltb len (header_len + body_len) fits,
)
