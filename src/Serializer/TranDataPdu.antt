-- ===== src/Serializer/TranDataPdu.antt =====
-- TranDataPdu in NetDisk-Server/Server/code/tool/Serializer.cpp: `serialize` and `deserialize`.
use qt_asio_net_disk.Base.{
  ℕ, ◌+◌, ◌≤◌, ◌≡◌, refl, ◌∙◌, List, [], ◌++◌, arith, append_assoc, length, length-append,
  length-drop, drop, true, false, not, ◌==◌, ==_refl, if◌then◌else◌,
}
use qt_asio_net_disk.Wire.Order.{be, htonl, htonll, length-be}
use qt_asio_net_disk.Wire.Put.{
  Outcome, ok, Put, ◌>>◌, write_int, write_chunk, Emits, seq-Emits, write_swapped-Emits,
  write_64-Emits, write_chunk-Emits,
}
use qt_asio_net_disk.Wire.Get.{
  Get, Decoded, done, ◌>>=◌, return, read_net, read_net_64, read_string, read_then, Yields,
  bind-Yields, last-Yields, read_net-Yields, read_net_64-Yields, read_string-Yields, read_then_lem,
}
use qt_asio_net_disk.Protocol.{
  TranDataPdu, IsTranDataPdu, tran_data_pdu_type, tran_data_pdu_body_len,
}
use qt_asio_net_disk.Serializer.Frame.{
  write_header, encode_header, length-encode_header, write_header-Emits, serialize_frame,
  serialize_frame_lem, deserialize_frame, deserialize_frame_lem,
}

-- The writes of `serialize`, header first.
unfoldable pub write_tran_data_pdu : TranDataPdu → Put
write_tran_data_pdu p = do
  write_header p.header
  write_int 4 (htonl p.code)
  write_int 4 (htonl p.status)
  write_int 8 (htonll p.file_offset)
  write_int 4 (htonl p.chunk_size)
  write_int 4 (htonl p.total_chunks)
  write_int 4 (htonl p.chunk_index)
  write_int 4 (htonl p.check_sum)
  write_chunk p.content p.chunk_size

unfoldable pub serialize_tran_data_pdu : List ℕ → TranDataPdu → Outcome (List ℕ)
serialize_tran_data_pdu buf p =
    serialize_frame p.header tran_data_pdu_type (tran_data_pdu_body_len + p.chunk_size)
      (write_tran_data_pdu p) buf

-- The reads of the body into the object.
unfoldable pub read_tran_data_pdu : TranDataPdu → Get TranDataPdu
read_tran_data_pdu p = do
  code ← read_net 4
  status ← read_net 4
  file_offset ← read_net_64
  chunk_size ← read_net 4
  total_chunks ← read_net 4
  chunk_index ← read_net 4
  check_sum ← read_net 4
  return (record p {
    code = code;
    status = status;
    file_offset = file_offset;
    chunk_size = chunk_size;
    total_chunks = total_chunks;
    chunk_index = chunk_index;
    check_sum = check_sum;
  })

-- The check on the chunk's size, and the chunk.
unfoldable pub read_chunk : TranDataPdu → List ℕ → Decoded TranDataPdu
read_chunk p rest =
    if not (p.header.body_len == tran_data_pdu_body_len + p.chunk_size)
    then done false p
    else read_then (read_string p.content p.chunk_size) rest
        λ c _. done true (record p { content = c })

unfoldable pub deserialize_tran_data_pdu : List ℕ → ℕ → TranDataPdu → Decoded TranDataPdu
deserialize_tran_data_pdu buf len p =
    deserialize_frame tran_data_pdu_type buf len p (λ h. record p { header = h })
      λ q rest. read_then (read_tran_data_pdu q) rest read_chunk

unfoldable pub encode_fields : TranDataPdu → List ℕ
encode_fields p =
    be 4 p.code
    ++ (be 4 p.status
        ++ (be 8 p.file_offset
            ++ (be 4 p.chunk_size
                ++ (be 4 p.total_chunks ++ (be 4 p.chunk_index ++ (be 4 p.check_sum))))))

-- The layout of the body on the network.
unfoldable pub encode_body : TranDataPdu → List ℕ
encode_body p = encode_fields p ++ p.content

pub length-encode_body :
    (p : TranDataPdu) → IsTranDataPdu p → length (encode_body p) ≡ 32 + p.chunk_size
unfolding encode_body encode_fields
length-encode_body p v = simp (length-append, length-be, v.content_size) (omega arith)

pub write_tran_data_pdu-Emits :
    (p : TranDataPdu)
    → IsTranDataPdu p
    → Emits (write_tran_data_pdu p) (encode_header p.header ++ encode_body p)
unfolding write_tran_data_pdu encode_body encode_fields
write_tran_data_pdu-Emits p v = simp append_assoc (
    seq-Emits _ _ _ _ (write_header-Emits p.header) (
      seq-Emits _ _ _ _ (write_swapped-Emits 4 p.code) (
        seq-Emits _ _ _ _ (write_swapped-Emits 4 p.status) (
          seq-Emits _ _ _ _ (write_64-Emits p.file_offset v.file_offset_fits) (
            seq-Emits _ _ _ _ (write_swapped-Emits 4 p.chunk_size) (
              seq-Emits _ _ _ _ (write_swapped-Emits 4 p.total_chunks) (
                seq-Emits _ _ _ _ (write_swapped-Emits 4 p.chunk_index) (
                  seq-Emits _ _ _ _ (write_swapped-Emits 4 p.check_sum)
                    (write_chunk-Emits p.content p.chunk_size v.content_size)))))))))

read_tran_data_pdu-Yields :
    (p old : TranDataPdu)
    → IsTranDataPdu p
    → Yields (read_tran_data_pdu old) (encode_fields p) (record old {
      code = p.code;
      status = p.status;
      file_offset = p.file_offset;
      chunk_size = p.chunk_size;
      total_chunks = p.total_chunks;
      chunk_index = p.chunk_index;
      check_sum = p.check_sum;
    })
unfolding read_tran_data_pdu encode_fields
read_tran_data_pdu-Yields p old v = bind-Yields _ _ _ _ _ _ (read_net-Yields 4 p.code v.code_fits) (
    bind-Yields _ _ _ _ _ _ (read_net-Yields 4 p.status v.status_fits) (
      bind-Yields _ _ _ _ _ _ (read_net_64-Yields p.file_offset v.file_offset_fits) (
        bind-Yields _ _ _ _ _ _ (read_net-Yields 4 p.chunk_size v.chunk_size_fits) (
          bind-Yields _ _ _ _ _ _ (read_net-Yields 4 p.total_chunks v.total_chunks_fits) (
            bind-Yields _ _ _ _ _ _ (read_net-Yields 4 p.chunk_index v.chunk_index_fits)
              (last-Yields _ _ _ _ (read_net-Yields 4 p.check_sum v.check_sum_fits)))))))

read_body :
    (p old : TranDataPdu) (tail : List ℕ)
    → IsTranDataPdu p
    → old.content ≡ []
    → old.header ≡ p.header
    → read_then (read_tran_data_pdu old) (encode_body p ++ tail) read_chunk
      ≡ done true (record p { header = old.header })
unfolding read_chunk encode_body
read_body p old tail v fresh same = rw (append_assoc (encode_fields p) p.content tail) (
    read_then_lem (read_tran_data_pdu old) (encode_fields p) (p.content ++ tail) _ read_chunk
      (read_tran_data_pdu-Yields p old v)
    ∙ rw (
      same,
      v.header_valid.body_len_is,
      ==_refl (tran_data_pdu_body_len + p.chunk_size),
      read_then_lem (read_string old.content p.chunk_size) p.content tail p.content _
          (read_string-Yields old.content p.content p.chunk_size v.content_size fresh),
    ))

-- A buffer with the message in front is read back, whatever is behind it.
pub deserialize_tran_data_pdu-encode :
    (p old : TranDataPdu) (tail : List ℕ) (len : ℕ)
    → IsTranDataPdu p
    → old.content ≡ []
    → 8 + (tran_data_pdu_body_len + p.chunk_size) ≤ len
    → deserialize_tran_data_pdu (encode_header p.header ++ (encode_body p ++ tail)) len old
      ≡ done true p
unfolding deserialize_tran_data_pdu
deserialize_tran_data_pdu-encode p old tail len v fresh fits =
    deserialize_frame_lem p.header tran_data_pdu_type (tran_data_pdu_body_len + p.chunk_size) len
      (encode_body p ++ tail) old _ _ v.header_valid fits
    ∙ read_body p (record old { header = p.header }) tail v fresh refl

-- The buffer after the message is written: its bytes are in front, the others stay.
pub serialize_tran_data_pdu-encode :
    (p : TranDataPdu) (buf : List ℕ)
    → IsTranDataPdu p
    → length buf ≡ 8192
    → serialize_tran_data_pdu buf p
      ≡ ok (
          (encode_header p.header ++ encode_body p)
          ++ drop (length (encode_header p.header ++ encode_body p)) buf)
unfolding serialize_tran_data_pdu
serialize_tran_data_pdu-encode p buf v size =
    let message : List ℕ = encode_header p.header ++ encode_body p in
    let total : length message ≡ 8 + (32 + p.chunk_size) =
      length-append (encode_header p.header) (encode_body p)
      ∙ rw (length-encode_header p.header, length-encode_body p v) in
    serialize_frame_lem p.header tran_data_pdu_type (tran_data_pdu_body_len + p.chunk_size)
      (write_tran_data_pdu p) message buf v.header_valid (omega arith)
      (write_tran_data_pdu-Emits p v) (omega arith)

-- A valid TranDataPdu goes into any buffer of 8192 bytes, and reading the buffer back, with at least the
-- message's length, into an object whose string is empty, gives the structure.
pub deserialize_tran_data_pdu-serialize_tran_data_pdu :
    (p old : TranDataPdu) (buf : List ℕ) (len : ℕ)
    → IsTranDataPdu p
    → length buf ≡ 8192
    → old.content ≡ []
    → 8 + (tran_data_pdu_body_len + p.chunk_size) ≤ len
    → (out : List ℕ) × (serialize_tran_data_pdu buf p ≡ ok out)
      × (length out ≡ 8192)
      × (deserialize_tran_data_pdu out len old ≡ done true p)
deserialize_tran_data_pdu-serialize_tran_data_pdu p old buf len v size fresh fits =
    let message : List ℕ = encode_header p.header ++ encode_body p in
    let total : length message ≡ 8 + (32 + p.chunk_size) =
      length-append (encode_header p.header) (encode_body p)
      ∙ rw (length-encode_header p.header, length-encode_body p v) in
    let tail : List ℕ = drop (length message) buf in
    (
      message ++ tail,
      serialize_tran_data_pdu-encode p buf v size,
      omega (arith, length-append message tail, length-drop (length message) buf),
      rw (append_assoc (encode_header p.header) (encode_body p) tail)
          (deserialize_tran_data_pdu-encode p old tail len v fresh fits),
    )
