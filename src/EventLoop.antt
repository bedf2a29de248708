-- ===== src/EventLoop.antt =====
-- EventLoop of NetDisk-Server/Server/code/server/EventLoop.cpp: what it does with the bytes of a
-- client. `none` is a failed `assert` or an access out of range. Epoll and the loop around it are
-- not modelled. Server.cpp has a copy of the functions from handleClientData on.
pub mod Messages
pub mod Frames
pub mod Stream
pub mod Dispatch
pub mod Meant
pub mod Messaging
pub mod Sending
pub mod EndToEnd
pub mod Read
pub mod Client
mod Examples
use qt_asio_net_disk.Base.{
  ℕ, zero, suc, ◌+◌, ◌-◌, ◌%◌, ◌^◌, List, [], ◌∷◌, ◌++◌, Option, none, some, Bool, true, false,
  length, take, drop, ltb, if◌then◌else◌,
}
use qt_asio_net_disk.Heap.{◌>>=◌}
use qt_asio_net_disk.Buffer.{Buffer, read_able_bytes, read_at, retrieve, append}
use qt_asio_net_disk.Wire.Get.{Decoded, done, overrun}
use qt_asio_net_disk.Protocol.{ProtocolHeader, header_len}
use qt_asio_net_disk.Serializer.Frame.{buffer_size}
use qt_asio_net_disk.Serializer.Header.{deserialize_header}

-- ProtocolHeader()
abbrev pub no_header : ProtocolHeader
no_header = record { type = 0; body_len = 0; version = 0; reserved = 0 }

-- `pdu_len`, from the header at the read position.
unfoldable pub peek_len : Buffer → Option ℕ
peek_len b = elim (deserialize_header (drop b.read_pos b.bytes) header_len no_header) [
  | done fine h ↦ some (header_len + h.body_len)
  | overrun ↦ none
]

-- The buffer of the pool, which holds `old`, after the message is copied into it, and the
-- connection's buffer after it.
unfoldable pub take_message : Buffer → ℕ → List ℕ → Option (List ℕ × Buffer)
take_message b pdu_len old =
    let copied = read_at b.bytes b.read_pos pdu_len >>= λ m.
    retrieve b pdu_len >>= λ g. some (m ++ drop pdu_len old, g) in
    if ltb buffer_size pdu_len then none else copied

-- The inner loop of handleClientData: the buffers that it hands to the work queue, in their order,
-- and the connection's buffer after it. `pool k` is what the k-th buffer of the pool holds.
unfoldable pub frame_loop : ℕ → (ℕ → List ℕ) → Buffer → Option (List (List ℕ) × Buffer)
frame_loop zero pool b = none
frame_loop (suc fuel) pool b =
    let next = λ (pdu_len : ℕ). take_message b pdu_len (pool 0) >>= λ t.
    frame_loop fuel (λ k. pool (suc k)) t.1 >>= λ r. some (t.0 ∷ r.0, r.1) in
    let round = peek_len b >>= λ pdu_len.
    if ltb (read_able_bytes b) pdu_len then some ([], b) else next pdu_len in
    if ltb (read_able_bytes b) header_len then some ([], b) else round

-- Bytes that have come go into the buffer, and the inner loop of handleClientData takes the messages
-- that are complete out of it. How they come, and the end of the loop, is in Client.
unfoldable pub receive : (ℕ → List ℕ) → Buffer → List ℕ → Option (List (List ℕ) × Buffer)
receive pool b bytes = append b bytes >>= λ g. frame_loop (suc (read_able_bytes g)) pool g

-- The pool after these buffers are taken from it.
unfoldable pub unused : (ℕ → List ℕ) → List (List ℕ) → ℕ → List ℕ
unused pool [] = pool
unused pool (m ∷ ms) = unused (λ k. pool (suc k)) ms

-- One after the other, with what came each time.
unfoldable pub receive_all : (ℕ → List ℕ) → Buffer → List (List ℕ) → Option (List (List ℕ) × Buffer)
receive_all pool b [] = some ([], b)
receive_all pool b (bytes ∷ rest) = receive pool b bytes >>= λ r.
    receive_all (unused pool r.0) r.1 rest >>= λ s. some (r.0 ++ s.0, s.1)
