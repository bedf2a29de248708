-- ===== src/EventLoop/EndToEnd.antt =====
-- The messages of a client, from its serializer through the event loop to their tools.
use qt_asio_net_disk.Base.{
  ℕ, zero, suc, ◌+◌, ◌^◌, ◌≤◌, ◌<◌, ◌≡◌, refl, sym, ap, subst, ◌∙◌, List, [], ◌∷◌, ◌++◌, map, some,
  arith, append_assoc, length, length-append, drop, take-length-append, drop-length-append, le→ltb,
}
use qt_asio_net_disk.Buffer.{Buffer}
use qt_asio_net_disk.Buffer.Contents.{Holds}
use qt_asio_net_disk.Serializer.Frame.{encode_header}
use qt_asio_net_disk.EventLoop.{no_header, receive_all}
use qt_asio_net_disk.EventLoop.Messages.{body_len_of, frame_len, messages, split}
use qt_asio_net_disk.EventLoop.Frames.{fill, AllFit, body_len_of-header}
use qt_asio_net_disk.EventLoop.Stream.{join, receive_all_lem}
use qt_asio_net_disk.EventLoop.Dispatch.{handle_client_task}
use qt_asio_net_disk.EventLoop.Messaging.{
  Message, header_of, IsMessage, tool_of, encode, header_lem, handle_client_task_lem,
  header_of-IsHeader,
}
use qt_asio_net_disk.EventLoop.Sending.{IsSent, sent_lem}

-- A valid message and its bytes on the network.
pub record Packet : Type 0 where
  pub message : Message
  pub bytes : List ℕ
  pub valid : IsMessage message
  pub sent : IsSent message bytes

abbrev pub stream : List Packet → List ℕ
stream ps = join (map (λ p. p.bytes) ps)

module _ (p : Packet) (rest : List ℕ) where
  frame_len-Packet :
      (frame_len (p.bytes ++ rest) ≡ length p.bytes)
      × (8 ≤ length p.bytes)
      × (length p.bytes ≤ 8192)
  frame_len-Packet =
      let (slack, layout, size, fits) = sent_lem p.message p.bytes p.valid p.sent in
      let h = header_of p.message in
      let c : List ℕ = p.bytes ++ rest in
      let tail : List ℕ = encode p.message ++ slack in
      let same : c ≡ encode_header h ++ (tail ++ rest) =
        ap (λ t. t ++ rest) layout ∙ append_assoc (encode_header h) tail rest in
      let read = rw (sym same) at (
        header_lem h (tail ++ rest) 8 no_header (header_of-IsHeader p.message p.valid)
          (omega arith)) in
      let told : body_len_of c ≡ h.body_len =
        body_len_of-header c h no_header (omega (arith, length-append p.bytes rest)) read in
      (omega (arith, told, size), omega arith, omega arith)

  split-Packet :
      (fuel : ℕ)
      → split (suc fuel) (p.bytes ++ rest) ≡ (p.bytes ∷ (split fuel rest).0, (split fuel rest).1)
  unfolding split
  split-Packet fuel =
      let c : List ℕ = p.bytes ++ rest in
      let (same, low, high) = frame_len-Packet in
      let total = length-append p.bytes rest in
      rw (
        le→ltb (length c) 8 (omega arith),
        le→ltb (length c) (frame_len c) (omega arith),
        same,
        take-length-append p.bytes rest,
        drop-length-append p.bytes rest,
      )

-- The messages of the stream are the packets.
pub split-stream :
    (ps : List Packet) (fuel : ℕ)
    → length (stream ps) ≤ fuel
    → split fuel (stream ps) ≡ (map (λ p. p.bytes) ps, [])
unfolding split
split-stream [] zero h = refl
split-stream [] (suc fuel) h = refl
split-stream (p ∷ ps) zero h =
    let (same, low, high) = frame_len-Packet p (stream ps) in
    absurd (omega (arith, length-append p.bytes (stream ps)))
split-stream (p ∷ ps) (suc fuel) h =
    let (same, low, high) = frame_len-Packet p (stream ps) in
    split-Packet p (stream ps) fuel
    ∙ ap (λ s. (p.bytes ∷ s.0, s.1))
        (split-stream ps fuel (omega (arith, length-append p.bytes (stream ps))))

pub packets-AllFit : (ps : List Packet) → AllFit (map (λ p. p.bytes) ps)
packets-AllFit [] = tt
packets-AllFit (p ∷ ps) = let (same, low, high) = frame_len-Packet p [] in (high, packets-AllFit ps)

handled :
    (p : Packet) (behind : List ℕ) (t : ℕ)
    → handle_client_task (p.bytes ++ behind) t ≡ some (tool_of p.message t)
handled p behind t =
    let (slack, layout, size, fits) = sent_lem p.message p.bytes p.valid p.sent in
    let h = header_of p.message in
    let body = encode p.message in
    let same : p.bytes ++ behind ≡ encode_header h ++ (body ++ (slack ++ behind)) =
      ap (λ c. c ++ behind) layout
      ∙ append_assoc (encode_header h) (body ++ slack) behind
      ∙ ap (λ c. encode_header h ++ c) (append_assoc body slack behind) in
    rw same (handle_client_task_lem p.message (slack ++ behind) t p.valid)

pub all_handled :
    (pool : ℕ → List ℕ) (ps : List Packet) (t : ℕ)
    → map (λ buf. handle_client_task buf t) (fill pool (map (λ p. p.bytes) ps))
      ≡ map (λ p. some (tool_of p.message t)) ps
unfolding fill
all_handled pool [] t = refl
all_handled pool (p ∷ ps) t =
    rw (handled p (drop (length p.bytes) (pool 0)) t, all_handled (λ k. pool (suc k)) ps t)

-- The valid messages that a client serializes and sends one behind the other reach the tools that
-- the lists of Meant name for their operation codes, or none where a code is in no list, each once,
-- in their order and with their content, in whatever pieces the bytes come into an empty buffer whose positions stay within 64 bits; and nothing is left in the buffer.
pub receive_all-tools :
    (pool : ℕ → List ℕ) (b : Buffer) (ps : List Packet) (chunks : List (List ℕ)) (t : ℕ)
    → Holds b []
    → join chunks ≡ stream ps
    → b.write_pos + length (join chunks) + 1 < 2 ^ 64
    → (bufs : List (List ℕ)) × (g : Buffer) × (receive_all pool b chunks ≡ some (bufs, g))
      × (map (λ buf. handle_client_task buf t) bufs ≡ map (λ p. some (tool_of p.message t)) ps)
      × Holds g []
unfolding split
receive_all-tools pool b ps chunks t h same small =
    let fs = map (λ p. p.bytes) ps in
    let parts : split (length (join chunks)) (join chunks) ≡ (fs, []) =
      ap (λ c. split (length c) c) same ∙ split-stream ps (length (stream ps)) (omega arith) in
    let fit : AllFit (messages (join chunks)) =
      subst (λ s. AllFit s.0) (sym parts) (packets-AllFit ps) in
    let (g, run, held) = receive_all_lem pool b [] chunks h refl refl small fit in
    (
      fill pool fs,
      g,
      run ∙ ap (λ s. some (fill pool s.0, g)) parts,
      all_handled pool ps t,
      subst (λ s. Holds g s.1) parts held,
    )
