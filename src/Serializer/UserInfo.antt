-- ===== src/Serializer/UserInfo.antt =====
-- UserInfo in NetDisk-Server/Server/code/tool/Serializer.cpp: `serialize` and `deserialize`.
use qt_asio_net_disk.Base.{
  ℕ, ◌+◌, ◌≤◌, ◌≡◌, ◌∙◌, List, ◌++◌, arith, append_assoc, length, length-append, length-drop, drop,
  true,
}
use qt_asio_net_disk.Wire.Order.{length-be}
use qt_asio_net_disk.Wire.Put.{
  Outcome, ok, Put, ◌>>◌, write_data, Emits, seq-Emits, write_data-Emits,
}
use qt_asio_net_disk.Wire.Get.{
  Get, Decoded, done, ◌>>=◌, return, read_data, read_then, Yields, bind-Yields, last-Yields,
  read_data-Yields, read_then_lem,
}
use qt_asio_net_disk.Protocol.{UserInfo, IsUserInfo, user_info_type, user_info_body_len}
use qt_asio_net_disk.Serializer.Frame.{
  write_header, encode_header, length-encode_header, write_header-Emits, serialize_frame,
  serialize_frame_lem, deserialize_frame, deserialize_frame_lem,
}

-- The writes of `serialize`, header first.
unfoldable pub write_user_info : UserInfo → Put
write_user_info p = do
  write_header p.header
  write_data p.user
  write_data p.pwd
  write_data p.cipher
  write_data p.is_vip
  write_data p.capacity_sum
  write_data p.used_capacity
  write_data p.salt
  write_data p.vip_date

unfoldable pub serialize_user_info : List ℕ → UserInfo → Outcome (List ℕ)
serialize_user_info buf p =
    serialize_frame p.header user_info_type (user_info_body_len) (write_user_info p) buf

-- The reads of the body into the object.
unfoldable pub read_user_info : UserInfo → Get UserInfo
read_user_info p = do
  user ← read_data 50
  pwd ← read_data 50
  cipher ← read_data 50
  is_vip ← read_data 50
  capacity_sum ← read_data 50
  used_capacity ← read_data 50
  salt ← read_data 50
  vip_date ← read_data 50
  return (record p {
    user = user;
    pwd = pwd;
    cipher = cipher;
    is_vip = is_vip;
    capacity_sum = capacity_sum;
    used_capacity = used_capacity;
    salt = salt;
    vip_date = vip_date;
  })

unfoldable pub deserialize_user_info : List ℕ → ℕ → UserInfo → Decoded UserInfo
deserialize_user_info buf len p =
    deserialize_frame user_info_type buf len p (λ h. record p { header = h })
      λ q rest. read_then (read_user_info q) rest λ r _. done true r

-- The layout of the body on the network.
unfoldable pub encode_body : UserInfo → List ℕ
encode_body p =
    p.user
    ++ (p.pwd
        ++ (p.cipher
            ++ (p.is_vip ++ (p.capacity_sum ++ (p.used_capacity ++ (p.salt ++ (p.vip_date)))))))

pub length-encode_body : (p : UserInfo) → IsUserInfo p → length (encode_body p) ≡ 400
unfolding encode_body
length-encode_body p v =
    simp
      (
        length-append, length-be, v.user_size, v.pwd_size, v.cipher_size, v.is_vip_size,
        v.capacity_sum_size, v.used_capacity_size, v.salt_size, v.vip_date_size,
      )
      (omega arith)

pub write_user_info-Emits :
    (p : UserInfo)
    → IsUserInfo p
    → Emits (write_user_info p) (encode_header p.header ++ encode_body p)
unfolding write_user_info encode_body
write_user_info-Emits p v = seq-Emits _ _ _ _ (write_header-Emits p.header) (
    seq-Emits _ _ _ _ (write_data-Emits p.user) (
      seq-Emits _ _ _ _ (write_data-Emits p.pwd) (
        seq-Emits _ _ _ _ (write_data-Emits p.cipher) (
          seq-Emits _ _ _ _ (write_data-Emits p.is_vip) (
            seq-Emits _ _ _ _ (write_data-Emits p.capacity_sum) (
              seq-Emits _ _ _ _ (write_data-Emits p.used_capacity)
                (seq-Emits _ _ _ _ (write_data-Emits p.salt) (write_data-Emits p.vip_date))))))))

read_user_info-Yields :
    (p old : UserInfo)
    → IsUserInfo p
    → Yields (read_user_info old) (encode_body p) (record old {
      user = p.user;
      pwd = p.pwd;
      cipher = p.cipher;
      is_vip = p.is_vip;
      capacity_sum = p.capacity_sum;
      used_capacity = p.used_capacity;
      salt = p.salt;
      vip_date = p.vip_date;
    })
unfolding read_user_info encode_body
read_user_info-Yields p old v = bind-Yields _ _ _ _ _ _ (read_data-Yields p.user 50 v.user_size) (
    bind-Yields _ _ _ _ _ _ (read_data-Yields p.pwd 50 v.pwd_size) (
      bind-Yields _ _ _ _ _ _ (read_data-Yields p.cipher 50 v.cipher_size) (
        bind-Yields _ _ _ _ _ _ (read_data-Yields p.is_vip 50 v.is_vip_size) (
          bind-Yields _ _ _ _ _ _ (read_data-Yields p.capacity_sum 50 v.capacity_sum_size) (
            bind-Yields _ _ _ _ _ _ (read_data-Yields p.used_capacity 50 v.used_capacity_size) (
              bind-Yields _ _ _ _ _ _ (read_data-Yields p.salt 50 v.salt_size)
                (last-Yields _ _ _ _ (read_data-Yields p.vip_date 50 v.vip_date_size))))))))

-- The buffer after the message is written: its bytes are in front, the others stay.
pub serialize_user_info-encode :
    (p : UserInfo) (buf : List ℕ)
    → IsUserInfo p
    → length buf ≡ 8192
    → serialize_user_info buf p
      ≡ ok (
          (encode_header p.header ++ encode_body p)
          ++ drop (length (encode_header p.header ++ encode_body p)) buf)
unfolding serialize_user_info
serialize_user_info-encode p buf v size =
    let message : List ℕ = encode_header p.header ++ encode_body p in
    let total : length message ≡ 8 + (400) =
      length-append (encode_header p.header) (encode_body p)
      ∙ rw (length-encode_header p.header, length-encode_body p v) in
    serialize_frame_lem p.header user_info_type (user_info_body_len) (write_user_info p) message buf
      v.header_valid (omega arith) (write_user_info-Emits p v) (omega arith)

-- A valid UserInfo goes into any buffer of 8192 bytes, and reading the buffer back, with at least the
-- message's length, gives the structure.
pub deserialize_user_info-serialize_user_info :
    (p old : UserInfo) (buf : List ℕ) (len : ℕ)
    → IsUserInfo p
    → length buf ≡ 8192
    → 8 + (user_info_body_len) ≤ len
    → (out : List ℕ) × (serialize_user_info buf p ≡ ok out)
      × (length out ≡ 8192)
      × (deserialize_user_info out len old ≡ done true p)
unfolding deserialize_user_info
deserialize_user_info-serialize_user_info p old buf len v size fits =
    let message : List ℕ = encode_header p.header ++ encode_body p in
    let total : length message ≡ 8 + (400) =
      length-append (encode_header p.header) (encode_body p)
      ∙ rw (length-encode_header p.header, length-encode_body p v) in
    let tail : List ℕ = drop (length message) buf in
    (
      message ++ tail,
      serialize_user_info-encode p buf v size,
      omega (arith, length-append message tail, length-drop (length message) buf),
      rw (append_assoc (encode_header p.header) (encode_body p) tail) (
          deserialize_frame_lem p.header user_info_type (user_info_body_len) len
            (encode_body p ++ tail) old _ _ v.header_valid fits
          ∙ read_then_lem _ (encode_body p) tail _ _
              (read_user_info-Yields p (record old { header = p.header }) v)),
    )
