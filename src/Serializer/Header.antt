-- ===== src/Serializer/Header.antt =====
-- ProtocolHeader alone, in NetDisk-Server/Server/code/tool/Serializer.cpp: `serialize` and
-- `deserialize`.
use qt_asio_net_disk.Base.{
  ℕ, ◌≤◌, ◌≡◌, List, ◌++◌, arith, length, length-append, length-drop, drop, ltb, le→ltb, true,
  false, if◌then◌else◌,
}
use qt_asio_net_disk.Wire.Put.{Outcome, ok, thrown, buffer_too_small, finish, finish_lem}
use qt_asio_net_disk.Wire.Get.{Decoded, done, read_then, read_then_lem}
use qt_asio_net_disk.Protocol.{ProtocolHeader, IsHeader, header_len}
use qt_asio_net_disk.Serializer.Frame.{
  buffer_size, write_header, read_header, encode_header, length-encode_header, write_header-Emits,
  read_header-Yields,
}

unfoldable pub serialize_header : List ℕ → ProtocolHeader → Outcome (List ℕ)
serialize_header buf h =
    if ltb buffer_size header_len then thrown buffer_too_small else finish (write_header h) buf

unfoldable pub deserialize_header : List ℕ → ℕ → ProtocolHeader → Decoded ProtocolHeader
deserialize_header buf len old =
    if ltb len header_len then done false old else read_then read_header buf λ h _. done true h

-- Any header whose fields fit their widths, whatever its type, goes into a buffer of 8192 bytes, and
-- comes back from at least eight of them.
pub deserialize_header-serialize_header :
    (h old : ProtocolHeader) (buf : List ℕ) (len type body_len : ℕ)
    → IsHeader h type body_len
    → length buf ≡ 8192
    → 8 ≤ len
    → (out : List ℕ) × (serialize_header buf h ≡ ok out)
      × (length out ≡ 8192)
      × (deserialize_header out len old ≡ done true h)
unfolding serialize_header deserialize_header
deserialize_header-serialize_header h old buf len type body_len v size enough =
    let tail : List ℕ = drop (length (encode_header h)) buf in
    let room : length (encode_header h) ≤ length buf = omega (arith, length-encode_header h) in
    (
      encode_header h ++ tail,
      finish_lem (write_header h) (encode_header h) buf (write_header-Emits h) room,
      omega
          (arith, length-append (encode_header h) tail, length-drop (length (encode_header h)) buf),
      rw (
        le→ltb len header_len enough,
        read_then_lem read_header (encode_header h) tail h _ (read_header-Yields h v),
      ),
    )
