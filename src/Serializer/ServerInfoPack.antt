-- ===== src/Serializer/ServerInfoPack.antt =====
-- ServerInfoPack in NetDisk-Server/Server/code/tool/Serializer.cpp: `serialize` and `deserialize`.
use qt_asio_net_disk.Base.{
  ℕ, ◌+◌, ◌≤◌, ◌≡◌, ◌∙◌, List, ◌++◌, arith, append_assoc, length, length-append, length-drop, drop,
  true,
}
use qt_asio_net_disk.Wire.Order.{be, htonl, htonll, length-be}
use qt_asio_net_disk.Wire.Put.{
  Outcome, ok, Put, ◌>>◌, write_data, write_int, Emits, seq-Emits, write_data-Emits,
  write_swapped-Emits, write_64-Emits,
}
use qt_asio_net_disk.Wire.Get.{
  Get, Decoded, done, ◌>>=◌, return, read_data, read_net, read_net_64, read_then, Yields,
  bind-Yields, last-Yields, read_data-Yields, read_net-Yields, read_net_64-Yields, read_then_lem,
}
use qt_asio_net_disk.Protocol.{
  ServerInfoPack, IsServerInfoPack, server_info_pack_type, server_info_pack_body_len,
}
use qt_asio_net_disk.Serializer.Frame.{
  write_header, encode_header, length-encode_header, write_header-Emits, serialize_frame,
  serialize_frame_lem, deserialize_frame, deserialize_frame_lem,
}

-- The writes of `serialize`, header first.
unfoldable pub write_server_info_pack : ServerInfoPack → Put
write_server_info_pack p = do
  write_header p.header
  write_data p.name
  write_data p.ip
  write_int 4 (htonl p.sport)
  write_int 4 (htonl p.lport)
  write_int 8 (htonll p.cur_con_count)

unfoldable pub serialize_server_info_pack : List ℕ → ServerInfoPack → Outcome (List ℕ)
serialize_server_info_pack buf p =
    serialize_frame p.header server_info_pack_type (server_info_pack_body_len)
      (write_server_info_pack p) buf

-- The reads of the body into the object.
unfoldable pub read_server_info_pack : ServerInfoPack → Get ServerInfoPack
read_server_info_pack p = do
  name ← read_data 31
  ip ← read_data 21
  sport ← read_net 4
  lport ← read_net 4
  cur_con_count ← read_net_64
  return (record p {
    name = name;
    ip = ip;
    sport = sport;
    lport = lport;
    cur_con_count = cur_con_count;
  })

unfoldable pub deserialize_server_info_pack : List ℕ → ℕ → ServerInfoPack → Decoded ServerInfoPack
deserialize_server_info_pack buf len p =
    deserialize_frame server_info_pack_type buf len p (λ h. record p { header = h })
      λ q rest. read_then (read_server_info_pack q) rest λ r _. done true r

-- The layout of the body on the network.
unfoldable pub encode_body : ServerInfoPack → List ℕ
encode_body p = p.name ++ (p.ip ++ (be 4 p.sport ++ (be 4 p.lport ++ (be 8 p.cur_con_count))))

pub length-encode_body : (p : ServerInfoPack) → IsServerInfoPack p → length (encode_body p) ≡ 68
unfolding encode_body
length-encode_body p v = simp (length-append, length-be, v.name_size, v.ip_size) (omega arith)

pub write_server_info_pack-Emits :
    (p : ServerInfoPack)
    → IsServerInfoPack p
    → Emits (write_server_info_pack p) (encode_header p.header ++ encode_body p)
unfolding write_server_info_pack encode_body
write_server_info_pack-Emits p v = seq-Emits _ _ _ _ (write_header-Emits p.header) (
    seq-Emits _ _ _ _ (write_data-Emits p.name) (
      seq-Emits _ _ _ _ (write_data-Emits p.ip) (
        seq-Emits _ _ _ _ (write_swapped-Emits 4 p.sport) (
          seq-Emits _ _ _ _ (write_swapped-Emits 4 p.lport)
            (write_64-Emits p.cur_con_count v.cur_con_count_fits)))))

read_server_info_pack-Yields :
    (p old : ServerInfoPack)
    → IsServerInfoPack p
    → Yields (read_server_info_pack old) (encode_body p) (record old {
      name = p.name;
      ip = p.ip;
      sport = p.sport;
      lport = p.lport;
      cur_con_count = p.cur_con_count;
    })
unfolding read_server_info_pack encode_body
read_server_info_pack-Yields p old v =
    bind-Yields _ _ _ _ _ _ (read_data-Yields p.name 31 v.name_size) (
      bind-Yields _ _ _ _ _ _ (read_data-Yields p.ip 21 v.ip_size) (
        bind-Yields _ _ _ _ _ _ (read_net-Yields 4 p.sport v.sport_fits) (
          bind-Yields _ _ _ _ _ _ (read_net-Yields 4 p.lport v.lport_fits)
            (last-Yields _ _ _ _ (read_net_64-Yields p.cur_con_count v.cur_con_count_fits)))))

-- A valid ServerInfoPack goes into any buffer of 8192 bytes, and reading the buffer back, with at least the
-- message's length, gives the structure.
pub deserialize_server_info_pack-serialize_server_info_pack :
    (p old : ServerInfoPack) (buf : List ℕ) (len : ℕ)
    → IsServerInfoPack p
    → length buf ≡ 8192
    → 8 + (server_info_pack_body_len) ≤ len
    → (out : List ℕ) × (serialize_server_info_pack buf p ≡ ok out)
      × (length out ≡ 8192)
      × (deserialize_server_info_pack out len old ≡ done true p)
unfolding serialize_server_info_pack deserialize_server_info_pack
deserialize_server_info_pack-serialize_server_info_pack p old buf len v size fits =
    let message : List ℕ = encode_header p.header ++ encode_body p in
    let total : length message ≡ 8 + (68) =
      length-append (encode_header p.header) (encode_body p)
      ∙ rw (length-encode_header p.header, length-encode_body p v) in
    let tail : List ℕ = drop (length message) buf in
    (
      message ++ tail,
      serialize_frame_lem p.header server_info_pack_type (server_info_pack_body_len)
          (write_server_info_pack p) message buf v.header_valid (omega arith)
          (write_server_info_pack-Emits p v) (omega arith),
      omega (arith, length-append message tail, length-drop (length message) buf),
      rw (append_assoc (encode_header p.header) (encode_body p) tail) (
          deserialize_frame_lem p.header server_info_pack_type (server_info_pack_body_len) len
            (encode_body p ++ tail) old _ _ v.header_valid fits
          ∙ read_then_lem _ (encode_body p) tail _ _
              (read_server_info_pack-Yields p (record old { header = p.header }) v)),
    )
