-- ===== src/Serializer/FileInfo.antt =====
-- FileInfo in NetDisk-Server/Server/code/tool/Serializer.cpp: `serialize` and `deserialize`.
use qt_asio_net_disk.Base.{
  ℕ, ◌+◌, ◌≤◌, ◌≡◌, ◌∙◌, List, ◌++◌, arith, append_assoc, length, length-append, length-drop, drop,
  true,
}
use qt_asio_net_disk.Wire.Order.{be, htonl, htonll, length-be}
use qt_asio_net_disk.Wire.Put.{
  Outcome, ok, Put, ◌>>◌, write_data, write_int, Emits, seq-Emits, write_data-Emits,
  write_swapped-Emits, write_64-Emits,
}
use qt_asio_net_disk.Wire.Get.{
  Get, Decoded, done, ◌>>=◌, return, read_data, read_net, read_net_64, read_then, Yields,
  bind-Yields, last-Yields, read_data-Yields, read_net-Yields, read_net_64-Yields, read_then_lem,
}
use qt_asio_net_disk.Protocol.{FileInfo, IsFileInfo, file_info_type, file_info_body_len}
use qt_asio_net_disk.Serializer.Frame.{
  write_header, encode_header, length-encode_header, write_header-Emits, serialize_frame,
  serialize_frame_lem, deserialize_frame, deserialize_frame_lem,
}

-- The writes of `serialize`, header first.
unfoldable pub write_file_info : FileInfo → Put
write_file_info p = do
  write_header p.header
  write_int 8 (htonll p.file_id)
  write_data p.file_name
  write_int 4 (htonl p.dir_grade)
  write_data p.file_type
  write_int 8 (htonll p.file_size)
  write_int 8 (htonll p.parent_dir)
  write_data p.file_date

unfoldable pub serialize_file_info : List ℕ → FileInfo → Outcome (List ℕ)
serialize_file_info buf p =
    serialize_frame p.header file_info_type (file_info_body_len) (write_file_info p) buf

-- The reads of the body into the object.
unfoldable pub read_file_info : FileInfo → Get FileInfo
read_file_info p = do
  file_id ← read_net_64
  file_name ← read_data 100
  dir_grade ← read_net 4
  file_type ← read_data 10
  file_size ← read_net_64
  parent_dir ← read_net_64
  file_date ← read_data 100
  return (record p {
    file_id = file_id;
    file_name = file_name;
    dir_grade = dir_grade;
    file_type = file_type;
    file_size = file_size;
    parent_dir = parent_dir;
    file_date = file_date;
  })

unfoldable pub deserialize_file_info : List ℕ → ℕ → FileInfo → Decoded FileInfo
deserialize_file_info buf len p =
    deserialize_frame file_info_type buf len p (λ h. record p { header = h })
      λ q rest. read_then (read_file_info q) rest λ r _. done true r

-- The layout of the body on the network.
unfoldable pub encode_body : FileInfo → List ℕ
encode_body p =
    be 8 p.file_id
    ++ (p.file_name
        ++ (be 4 p.dir_grade
            ++ (p.file_type ++ (be 8 p.file_size ++ (be 8 p.parent_dir ++ (p.file_date))))))

pub length-encode_body : (p : FileInfo) → IsFileInfo p → length (encode_body p) ≡ 238
unfolding encode_body
length-encode_body p v =
    simp (length-append, length-be, v.file_name_size, v.file_type_size, v.file_date_size)
      (omega arith)

pub write_file_info-Emits :
    (p : FileInfo)
    → IsFileInfo p
    → Emits (write_file_info p) (encode_header p.header ++ encode_body p)
unfolding write_file_info encode_body
write_file_info-Emits p v = seq-Emits _ _ _ _ (write_header-Emits p.header) (
    seq-Emits _ _ _ _ (write_64-Emits p.file_id v.file_id_fits) (
      seq-Emits _ _ _ _ (write_data-Emits p.file_name) (
        seq-Emits _ _ _ _ (write_swapped-Emits 4 p.dir_grade) (
          seq-Emits _ _ _ _ (write_data-Emits p.file_type) (
            seq-Emits _ _ _ _ (write_64-Emits p.file_size v.file_size_fits) (
              seq-Emits _ _ _ _ (write_64-Emits p.parent_dir v.parent_dir_fits)
                (write_data-Emits p.file_date)))))))

read_file_info-Yields :
    (p old : FileInfo)
    → IsFileInfo p
    → Yields (read_file_info old) (encode_body p) (record old {
      file_id = p.file_id;
      file_name = p.file_name;
      dir_grade = p.dir_grade;
      file_type = p.file_type;
      file_size = p.file_size;
      parent_dir = p.parent_dir;
      file_date = p.file_date;
    })
unfolding read_file_info encode_body
read_file_info-Yields p old v =
    bind-Yields _ _ _ _ _ _ (read_net_64-Yields p.file_id v.file_id_fits) (
      bind-Yields _ _ _ _ _ _ (read_data-Yields p.file_name 100 v.file_name_size) (
        bind-Yields _ _ _ _ _ _ (read_net-Yields 4 p.dir_grade v.dir_grade_fits) (
          bind-Yields _ _ _ _ _ _ (read_data-Yields p.file_type 10 v.file_type_size) (
            bind-Yields _ _ _ _ _ _ (read_net_64-Yields p.file_size v.file_size_fits) (
              bind-Yields _ _ _ _ _ _ (read_net_64-Yields p.parent_dir v.parent_dir_fits)
                (last-Yields _ _ _ _ (read_data-Yields p.file_date 100 v.file_date_size)))))))

-- The buffer after the message is written: its bytes are in front, the others stay.
pub serialize_file_info-encode :
    (p : FileInfo) (buf : List ℕ)
    → IsFileInfo p
    → length buf ≡ 8192
    → serialize_file_info buf p
      ≡ ok (
          (encode_header p.header ++ encode_body p)
          ++ drop (length (encode_header p.header ++ encode_body p)) buf)
unfolding serialize_file_info
serialize_file_info-encode p buf v size =
    let message : List ℕ = encode_header p.header ++ encode_body p in
    let total : length message ≡ 8 + (238) =
      length-append (encode_header p.header) (encode_body p)
      ∙ rw (length-encode_header p.header, length-encode_body p v) in
    serialize_frame_lem p.header file_info_type (file_info_body_len) (write_file_info p) message buf
      v.header_valid (omega arith) (write_file_info-Emits p v) (omega arith)

-- A valid FileInfo goes into any buffer of 8192 bytes, and reading the buffer back, with at least the
-- message's length, gives the structure.
pub deserialize_file_info-serialize_file_info :
    (p old : FileInfo) (buf : List ℕ) (len : ℕ)
    → IsFileInfo p
    → length buf ≡ 8192
    → 8 + (file_info_body_len) ≤ len
    → (out : List ℕ) × (serialize_file_info buf p ≡ ok out)
      × (length out ≡ 8192)
      × (deserialize_file_info out len old ≡ done true p)
unfolding deserialize_file_info
deserialize_file_info-serialize_file_info p old buf len v size fits =
    let message : List ℕ = encode_header p.header ++ encode_body p in
    let total : length message ≡ 8 + (238) =
      length-append (encode_header p.header) (encode_body p)
      ∙ rw (length-encode_header p.header, length-encode_body p v) in
    let tail : List ℕ = drop (length message) buf in
    (
      message ++ tail,
      serialize_file_info-encode p buf v size,
      omega (arith, length-append message tail, length-drop (length message) buf),
      rw (append_assoc (encode_header p.header) (encode_body p) tail) (
          deserialize_frame_lem p.header file_info_type (file_info_body_len) len
            (encode_body p ++ tail) old _ _ v.header_valid fits
          ∙ read_then_lem _ (encode_body p) tail _ _
              (read_file_info-Yields p (record old { header = p.header }) v)),
    )
