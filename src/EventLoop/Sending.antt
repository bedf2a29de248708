-- ===== src/EventLoop/Sending.antt =====
-- The bytes that a client sends for a message.
use qt_asio_net_disk.Base.{
  ℕ, ◌+◌, ◌-◌, ◌≤◌, ◌≡◌, refl, sym, ap, ◌∙◌, List, [], ◌++◌, arith, append_assoc, length,
  length-append, length-take, length-drop, take, drop, take-append_right,
}
use qt_asio_net_disk.Wire.Put.{Outcome, ok}
use qt_asio_net_disk.Protocol.{header_len}
use qt_asio_net_disk.Serializer.Frame.{encode_header, length-encode_header}
use qt_asio_net_disk.Serializer.Pdu as OfPdu
use qt_asio_net_disk.Serializer.TranPdu as OfTranPdu
use qt_asio_net_disk.Serializer.TranDataPdu as OfTranDataPdu
use qt_asio_net_disk.Serializer.TranFinishPdu as OfTranFinishPdu
use qt_asio_net_disk.Serializer.TranControlPdu as OfTranControlPdu
use qt_asio_net_disk.EventLoop.Messaging.{
  Message, short, long, chunk, finish, control, header_of, IsMessage, serialize, encode,
}

-- The bytes that go to the network for a message: as many of the serialized buffer as its header
-- tells.
pub record IsSent (m : Message) (f : List ℕ) : Type 0 where
  pub buf : List ℕ
  pub out : List ℕ
  pub size : length buf ≡ 8192
  pub serialized : serialize buf m ≡ ok out
  pub sent : f ≡ take (header_len + (header_of m).body_len) out

abbrev whole : Message → List ℕ
whole m = encode_header (header_of m) ++ encode m

serialize_lem :
    (m : Message) (buf : List ℕ)
    → IsMessage m
    → length buf ≡ 8192
    → serialize buf m ≡ ok (whole m ++ drop (length (whole m)) buf)
unfolding serialize encode
serialize_lem (short p) buf v size = OfPdu.serialize_pdu-encode p buf v size
serialize_lem (long p) buf v size = OfTranPdu.serialize_tran_pdu-encode p buf v size
serialize_lem (chunk p) buf v size = OfTranDataPdu.serialize_tran_data_pdu-encode p buf v size
serialize_lem (finish p) buf v size = OfTranFinishPdu.serialize_tran_finish_pdu-encode p buf v size
serialize_lem (control p) buf v size =
    OfTranControlPdu.serialize_tran_control_pdu-encode p buf v size

size_lem :
    (m : Message)
    → IsMessage m
    → (length (encode m) ≤ (header_of m).body_len) × (8 + (header_of m).body_len ≤ 8192)
unfolding encode
size_lem (short p) v =
    let e = OfPdu.length-encode_body p v in
    (
      omega (arith, v.header_valid.body_len_is),
      omega (arith, v.header_valid.body_len_is, v.msg_len_bound),
    )
size_lem (long p) v =
    let e = OfTranPdu.length-encode_body p v in
    (omega (arith, v.header_valid.body_len_is), omega (arith, v.header_valid.body_len_is))
size_lem (chunk p) v =
    let e = OfTranDataPdu.length-encode_body p v in
    (
      omega (arith, v.header_valid.body_len_is),
      omega (arith, v.header_valid.body_len_is, v.chunk_size_bound),
    )
size_lem (finish p) v =
    let e = OfTranFinishPdu.length-encode_body p v in
    (omega (arith, v.header_valid.body_len_is), omega (arith, v.header_valid.body_len_is))
size_lem (control p) v =
    let e = OfTranControlPdu.length-encode_body p v in
    (
      omega (arith, v.header_valid.body_len_is),
      omega (arith, v.header_valid.body_len_is, v.msg_len_bound),
    )

unok : List ℕ → Outcome (List ℕ) → List ℕ
unok d (ok a) = a
unok d _ = d

-- The layout of the sent bytes, and their number.
pub sent_lem :
    (m : Message) (f : List ℕ)
    → IsMessage m
    → IsSent m f
    → (slack : List ℕ) × (f ≡ encode_header (header_of m) ++ (encode m ++ slack))
      × (length f ≡ 8 + (header_of m).body_len)
      × (8 + (header_of m).body_len ≤ 8192)
unfolding unok
sent_lem m f v s =
    let n : ℕ = 8 + (header_of m).body_len in
    let w : List ℕ = whole m in
    let tail : List ℕ = drop (length w) s.buf in
    let sizes = size_lem m v in
    let w_size : length w ≡ 8 + length (encode m) =
      length-append (encode_header (header_of m)) (encode m)
      ∙ ap (λ k. k + length (encode m)) (length-encode_header (header_of m)) in
    let same : s.out ≡ w ++ tail =
      ap (unok []) (sym s.serialized ∙ serialize_lem m s.buf v s.size) in
    let total : length (w ++ tail) ≡ 8192 =
      length-append w tail
      ∙ omega (arith, length-drop (length w) s.buf, s.size, w_size, sizes.0, sizes.1) in
    let cut : f ≡ take n (w ++ tail) = s.sent ∙ ap (take n) same in
    (
      take (n - length w) tail,
      cut
          ∙ take-append_right n w tail (omega (arith, w_size, sizes.0))
          ∙ append_assoc (encode_header (header_of m)) (encode m) (take (n - length w) tail),
      ap length cut ∙ length-take n (w ++ tail) (omega (arith, total, sizes.1)),
      sizes.1,
    )

-- What is sent for a valid message, from a buffer of the pool.
pub serialized-IsSent :
    (m : Message) (pool : List ℕ) → IsMessage m → length pool ≡ 8192 → (f : List ℕ) × IsSent m f
serialized-IsSent m pool v size = (
  take (header_len + (header_of m).body_len) (whole m ++ drop (length (whole m)) pool),
  record {
    buf = pool;
    out = whole m ++ drop (length (whole m)) pool;
    size = size;
    serialized = serialize_lem m pool v size;
    sent = refl;
  },
)
