-- ===== src/SrTool/Laws.antt =====
-- A message goes to the network whole, in as many pieces as SSL_write makes of it.
use qt_asio_net_disk.Base.{
  ℕ, zero, suc, ◌+◌, ◌%◌, ◌^◌, ◌≤◌, ◌<◌, ◌≡◌, refl, ap, ◌∙◌, List, [], ◌∷◌, ◌++◌, true, false,
  arith, append_assoc, length, length-append, take, drop, drop-drop, take-append_left, take-all,
  map, lt→ltb, le→ltb,
}
use qt_asio_net_disk.Wire.Put.{ok}
use qt_asio_net_disk.Protocol.{ProtocolHeader, TranDataPdu, IsTranDataPdu, FileInfo, IsFileInfo}
use qt_asio_net_disk.Serializer.Frame.{encode_header, length-encode_header}
use qt_asio_net_disk.Serializer.TranDataPdu as OfTranDataPdu
use qt_asio_net_disk.Serializer.TranDataPdu.{serialize_tran_data_pdu-encode}
use qt_asio_net_disk.Serializer.FileInfo as OfFileInfo
use qt_asio_net_disk.Serializer.FileInfo.{serialize_file_info}
use qt_asio_net_disk.EventLoop.Messaging.{chunk, serialize}
use qt_asio_net_disk.EventLoop.Sending.{IsSent}
use qt_asio_net_disk.SrTool.{
  Write, took, nothing, failed, Result, sent, send_loop, send, send_tran_data_pdu, send_file_info,
  with_type,
}

-- The bytes that the calls take in all.
abbrev pub total : List Write → ℕ
total [] = 0
total (took n ∷ script) = n + total script
total (nothing again ∷ script) = total script
total (failed again ∷ script) = total script

-- Every call takes some bytes, or returns 0 and asks to be repeated, before one that takes some; none
-- returns -1, not even to be repeated.
abbrev pub Smooth : List Write → Type 0
Smooth [] = Unit {0}
Smooth (took n ∷ script) = (1 ≤ n) × Smooth script
Smooth (nothing again ∷ script) = (again ≡ true) × (1 ≤ total script) × Smooth script
Smooth (failed again ∷ script) = 1 ≤ 0

-- What the loop gives when all is sent.
abbrev pub complete : List ℕ → ℕ → List Write → Result
complete network target left =
    sent (record { network = network; count = target; gave_up = false; left = left })

pub send_loop-end :
    (buf : List ℕ) (target sended : ℕ) (after : List Write)
    → target ≤ sended
    → send_loop buf target sended after ≡ complete [] sended after
unfolding send_loop
send_loop-end buf target sended [] h = rw (le→ltb sended target h)
send_loop-end buf target sended (took n ∷ after) h = rw (le→ltb sended target h)
send_loop-end buf target sended (nothing again ∷ after) h = rw (le→ltb sended target h)
send_loop-end buf target sended (failed again ∷ after) h = rw (le→ltb sended target h)

take-take-drop : (n k : ℕ) (bs : List ℕ) → take n bs ++ take k (drop n bs) ≡ take (n + k) bs
take-take-drop zero k bs = let e : 0 + k ≡ k = omega arith in rw e
take-take-drop (suc n) zero [] = let e : suc n + 0 ≡ suc n = omega arith in rw e
take-take-drop (suc n) (suc k) [] = let e : suc n + suc k ≡ suc (n + suc k) = omega arith in rw e
take-take-drop (suc n) k (b ∷ bs) =
    let e : suc n + k ≡ suc (n + k) = omega arith in rw (e, take-take-drop n k bs)

-- A smooth script that takes what is left of the target sends exactly that.
pub send_loop_lem :
    (buf : List ℕ) (target sended : ℕ) (script after : List Write)
    → Smooth script
    → sended + total script ≡ target
    → target < 2 ^ 64
    → send_loop buf target sended (script ++ after)
      ≡ complete (take (total script) (drop sended buf)) target after
unfolding send_loop
send_loop_lem buf target sended [] after s e small =
    let same : sended ≡ target = omega arith in
    rw same (send_loop-end buf target target after (omega arith))
send_loop_lem buf target sended (took n ∷ script) after s e small =
    let exact : (sended + n) % 2 ^ 64 ≡ sended + n = omega arith in
    let ih = send_loop_lem buf target (sended + n) script after s.1 (omega arith) small in
    let pieces : take n (drop sended buf) ++ take (total script) (drop (sended + n) buf)
        ≡ take (n + total script) (drop sended buf) =
      rw (← drop-drop sended n buf) (take-take-drop n (total script) (drop sended buf)) in
    rw (send_loop, exact, ih, lt→ltb sended target (omega (arith, s.0)))
      (ap (λ t. complete t target after) pieces)
send_loop_lem buf target sended (nothing again ∷ script) after s e small =
    let ih = send_loop_lem buf target sended script after s.2 (omega arith) small in
    rw (send_loop, s.0, ih, lt→ltb sended target (omega (arith, s.1)))
send_loop_lem buf target sended (failed again ∷ script) after s e small = absurd (omega (arith, s))

-- A serialized message of which the whole is taken.
pub send-ok :
    (buf : List ℕ) (h : ProtocolHeader) (script after : List Write)
    → Smooth script
    → total script ≡ 8 + h.body_len
    → 8 + h.body_len < 2 ^ 64
    → send (ok buf) h (script ++ after)
      ≡ complete (take (8 + h.body_len) buf) (8 + h.body_len) after
unfolding send
send-ok buf h script after s e small =
    send_loop_lem buf (8 + h.body_len) 0 script after s (omega arith) small
    ∙ ap (λ n. complete (take n buf) (8 + h.body_len) after) e

-- sendTranDataPdu of a valid structure, with a buffer of 8192 bytes, puts exactly its serialized bytes
-- on the network, as many as its header tells, and returns their number, where the calls of
-- SSL_write take that many bytes in any pieces of one or more, and those that take nothing, of which
-- there may be any number before a piece, return 0 and ask to be repeated; none returns -1. `IsSent` is what the event loop of the receiver starts from.
pub send_tran_data_pdu_lem :
    (pool : List ℕ) (p : TranDataPdu) (script after : List Write)
    → IsTranDataPdu p
    → length pool ≡ 8192
    → Smooth script
    → total script ≡ 8 + p.header.body_len
    → (f : List ℕ) × (send_tran_data_pdu pool p (script ++ after)
        ≡ complete f (8 + p.header.body_len) after)
      × IsSent (chunk p) f
unfolding send_tran_data_pdu serialize
send_tran_data_pdu_lem pool p script after v size s e =
    let done = serialize_tran_data_pdu-encode p pool v size in
    let w : List ℕ = encode_header p.header ++ OfTranDataPdu.encode_body p in
    let out : List ℕ = w ++ drop (length w) pool in
    let n : ℕ = 8 + p.header.body_len in
    (
      take n out,
      rw (send_tran_data_pdu, done)
          (send-ok out p.header script after s e
            (omega (arith, v.header_valid.body_len_is, v.chunk_size_bound))),
      record { buf = pool; out = out; size = size; serialized = done; sent = refl },
    )

-- The bytes of a FileInfo on the network.
abbrev pub frame_of : FileInfo → List ℕ
frame_of p = encode_header p.header ++ OfFileInfo.encode_body p

length-frame_of : (p : FileInfo) → IsFileInfo p → length (frame_of p) ≡ 246
length-frame_of p v =
    length-append (encode_header p.header) (OfFileInfo.encode_body p)
    ∙ omega (arith, length-encode_header p.header, OfFileInfo.length-encode_body p v)

-- A FileInfo to send, and the calls that its bytes take.
pub record Job : Type 0 where
  pub info : FileInfo
  pub calls : List Write
  pub valid : IsFileInfo (with_type info)
  pub smooth : Smooth calls
  pub enough : total calls ≡ 246

abbrev pub all_frames : List Job → List ℕ
all_frames [] = []
all_frames (j ∷ js) = frame_of (with_type j.info) ++ all_frames js

abbrev pub all_calls : List Job → List Write
all_calls [] = []
all_calls (j ∷ js) = j.calls ++ all_calls js

send-Job :
    (pool : List ℕ) (j : Job) (after : List Write)
    → length pool ≡ 8192
    → send
        (serialize_file_info pool (with_type j.info))
        (with_type j.info).header
        (j.calls ++ after)
      ≡ complete (frame_of (with_type j.info)) 246 after
send-Job pool j after size =
    let p : FileInfo = with_type j.info in
    let w : List ℕ = frame_of p in
    let n = length-frame_of p j.valid in
    let out : List ℕ = w ++ drop (length w) pool in
    let cut : take 246 out ≡ w =
      take-append_left 246 w (drop (length w) pool) (omega (arith, n))
      ∙ take-all 246 w (omega (arith, n)) in
    rw (OfFileInfo.serialize_file_info-encode p pool j.valid size) (
      send-ok out p.header j.calls after j.smooth j.enough (omega arith)
      ∙ ap (λ t. complete t 246 after) cut)

-- sendFileInfo of a list of files, of which every message is taken whole, puts their messages on the
-- network one behind the other in the order of the list, and returns true; the buffers of the pool
-- have 8192 bytes each.
pub send_file_info-Jobs :
    (pool : ℕ → List ℕ) (k : ℕ) (jobs : List Job) (after : List Write)
    → ((i : ℕ) → length (pool i) ≡ 8192)
    → send_file_info pool k (map (λ j. j.info) jobs) (all_calls jobs ++ after)
      ≡ complete (all_frames jobs) 0 after
unfolding send_file_info
send_file_info-Jobs pool k [] after size = refl
send_file_info-Jobs pool k (j ∷ js) after size = rw (
  append_assoc j.calls (all_calls js) after,
  send_file_info,
  send-Job (pool k) j (all_calls js ++ after) (size k),
  send_file_info-Jobs pool (k + 1) js after size,
)
