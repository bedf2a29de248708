-- ===== src/EventLoop/Read/Laws.antt =====
-- What sslReadAll makes of the buffer of a connection.
use qt_asio_net_disk.Base.{
  ℕ, ◌+◌, ◌-◌, ◌%◌, ◌^◌, ◌≤◌, ◌<◌, ◌≡◌, sym, ap, subst, ◌∙◌, List, [], ◌∷◌, ◌++◌, Option, some,
  false, true, arith, append_assoc, append-nil, length, length-append, lt→ltb, le→ltb, ◌==◌, ◌&&◌,
  pos→==, Bool-cases, inl, inr,
}
use qt_asio_net_disk.Buffer.{Buffer, copy_to, ensure_write_able, has_written}
use qt_asio_net_disk.Buffer.Contents.{Holds, total}
use qt_asio_net_disk.Buffer.Laws.{ensure_write_able_lem, copied-Holds}
use qt_asio_net_disk.EventLoop.Read.{
  got, failed, Attempt, end_read, end_round, read_loop, ssl_read_all,
}

-- A round that gets some bytes, with what is left in the SSL layer and in the socket after it.
pub record Round : Type 0 where
  pub bytes : List ℕ
  pub in_ssl : ℕ
  pub in_socket : ℕ

abbrev pub bytes_of : List Round → List ℕ
bytes_of [] = []
bytes_of (r ∷ rs) = r.bytes ++ bytes_of rs

-- The script of a round.
abbrev pub attempt_of : Round → Attempt
attempt_of r = record {
  read = got r.bytes;
  ssl_pending = r.in_ssl;
  socket_pending = some r.in_socket;
}

abbrev pub attempts_of : List Round → List Attempt
attempts_of [] = []
attempts_of (r ∷ rs) = attempt_of r ∷ attempts_of rs

-- Each round gets a byte or more, and something is left, in the SSL layer or in the socket, after
-- each but the last, after which nothing is.
abbrev pub Arrive : Round → List Round → Type 0
Arrive r [] = (1 ≤ length r.bytes) × (r.in_ssl + r.in_socket ≡ 0)
Arrive r (next ∷ rest) = (1 ≤ length r.bytes) × (1 ≤ r.in_ssl + r.in_socket) × Arrive next rest

-- The room for the bytes of a round is made, and they are behind the others.
written_lem :
    (b : Buffer) (c bytes : List ℕ) (room : ℕ)
    → Holds b c
    → length bytes ≤ room
    → b.write_pos + room + 1 < 2 ^ 64
    → (g : Buffer) × (v : List ℕ) × (ensure_write_able b room ≡ some g)
      × (copy_to g.bytes g.write_pos bytes ≡ some v)
      × Holds (has_written (record g { bytes = v }) (length bytes)) (c ++ bytes)
      × ((has_written (record g { bytes = v }) (length bytes)).write_pos
          ≤ b.write_pos + length bytes)
unfolding has_written
written_lem b c bytes room h fits small =
    let (g, made, r, low) = ensure_write_able_lem b c room h small in
    let (v, copied, held, same) = copied-Holds g c bytes (r.0, omega (arith, r.1)) in
    (g, v, made, copied, held, omega arith)

-- A round that gets bytes.
read_loop-got :
    (b g : Buffer) (v bytes : List ℕ) (ssl_pending : ℕ) (pending : Option ℕ) (script : List Attempt)
    (size total_read : ℕ)
    → 1 ≤ length bytes
    → total_read + length bytes ≤ size
    → size < 2 ^ 64
    → ensure_write_able b (size - total_read) ≡ some g
    → copy_to g.bytes g.write_pos bytes ≡ some v
    → read_loop
        (record { read = got bytes; ssl_pending = ssl_pending; socket_pending = pending } ∷ script)
        b
        size
        total_read
      ≡ end_round
          (record { read = got bytes; ssl_pending = ssl_pending; socket_pending = pending })
          (has_written (record g { bytes = v }) (length bytes))
          (total_read + length bytes)
          (read_loop script
            (has_written (record g { bytes = v }) (length bytes))
            size
            (total_read + length bytes))
unfolding read_loop end_read
read_loop-got b g v bytes ssl_pending pending script size total_read some_bytes fits small made
      copied =
    let room : (size + 2 ^ 64 - total_read) % 2 ^ 64 ≡ size - total_read = omega arith in
    let more : (total_read + length bytes) % 2 ^ 64 ≡ total_read + length bytes = omega arith in
    rw (read_loop, lt→ltb total_read size (omega arith), room, made, copied, more)

-- The end of a round is the end of the loop exactly where nothing is left.
pub some_left :
    (in_ssl in_socket : ℕ) → 1 ≤ in_ssl + in_socket → ((in_ssl == 0) && (in_socket == 0)) ≡ false
some_left in_ssl in_socket h = ground arith

pub none_left :
    (in_ssl in_socket : ℕ) → in_ssl + in_socket ≡ 0 → ((in_ssl == 0) && (in_socket == 0)) ≡ true
none_left in_ssl in_socket h = ground arith

pub some_bytes : (r : Round) (rs : List Round) → Arrive r rs → 1 ≤ length r.bytes
some_bytes r [] each = each.0
some_bytes r (next ∷ rest) each = each.0

read_loop-arrives :
    (b : Buffer) (c : List ℕ) (r : Round) (rs : List Round) (after : List Attempt)
    (size total_read : ℕ)
    → Holds b c
    → Arrive r rs
    → total_read + length (bytes_of (r ∷ rs)) ≤ size
    → b.write_pos + (size - total_read) + 1 < 2 ^ 64
    → size < 2 ^ 64
    → (g : Buffer) × (read_loop (attempts_of (r ∷ rs) ++ after) b size total_read
        ≡ some (total_read + length (bytes_of (r ∷ rs)), g))
      × Holds g (c ++ bytes_of (r ∷ rs))
      × (g.write_pos ≤ b.write_pos + length (bytes_of (r ∷ rs)))
unfolding end_round
read_loop-arrives b c r [] after size total_read h each fits small narrow =
    let whole : length (r.bytes ++ []) ≡ length r.bytes = ap length (append-nil r.bytes) in
    let (g, v, made, copied, held, low) =
      written_lem b c r.bytes (size - total_read) h (omega (arith, whole)) small in
    let k : Buffer = has_written (record g { bytes = v }) (length r.bytes) in
    (
      k,
      read_loop-got b g v r.bytes r.in_ssl (some r.in_socket) after size total_read each.0
            (omega (arith, whole)) narrow made copied
          ∙ rw (none_left r.in_ssl r.in_socket each.1)
              (ap (λ n. some (total_read + n, k)) (sym whole)),
      subst (λ t. Holds k (c ++ t)) (sym (append-nil r.bytes)) held,
      omega (arith, whole, low),
    )
read_loop-arrives b c r (next ∷ rest) after size total_read h each fits small narrow =
    let later : List ℕ = bytes_of (next ∷ rest) in
    let whole : length (r.bytes ++ later) ≡ length r.bytes + length later =
      length-append r.bytes later in
    let (g, v, made, copied, held, low) =
      written_lem b c r.bytes (size - total_read) h (omega (arith, whole)) small in
    let w : Buffer = has_written (record g { bytes = v }) (length r.bytes) in
    let (k, run, all, bound) =
      read_loop-arrives w (c ++ r.bytes) next rest after size (total_read + length r.bytes) held
        each.2 (omega (arith, whole)) (omega (arith, whole, low)) narrow in
    let count : total_read + length r.bytes + length later
        ≡ total_read + length (r.bytes ++ later) =
      omega (arith, whole) in
    (
      k,
      read_loop-got b g v r.bytes r.in_ssl (some r.in_socket) (attempts_of (next ∷ rest) ++ after)
            size total_read each.0 (omega (arith, whole)) narrow made copied
          ∙ rw (some_left r.in_ssl r.in_socket each.1) run
          ∙ ap (λ n. some (n, k)) count,
      subst (Holds k) (append_assoc c r.bytes later) all,
      omega (arith, whole, low, bound),
    )

-- `sslReadAll` on an open connection, where rounds get a byte or more each, at most as many in all as it
-- is asked for, and after each but the last something is left in the SSL layer or in the socket, and
-- after the last nothing: it puts all these bytes behind those that the buffer holds, in their
-- order, returns their number, and makes no further round, whatever would follow; the write position
-- moves by no more than that. The positions stay within 64 bits.
pub ssl_read_all-arrives :
    (ssl : ℕ) (b : Buffer) (c : List ℕ) (r : Round) (rs : List Round) (after : List Attempt)
    (size : ℕ)
    → Holds b c
    → Arrive r rs
    → length (bytes_of (r ∷ rs)) ≤ size
    → b.write_pos + size + 1 < 2 ^ 64
    → (g : Buffer) × (ssl_read_all (some ssl) (attempts_of (r ∷ rs) ++ after) b size
        ≡ some (length (bytes_of (r ∷ rs)), g))
      × Holds g (c ++ bytes_of (r ∷ rs))
      × (g.write_pos ≤ b.write_pos + length (bytes_of (r ∷ rs)))
unfolding ssl_read_all
ssl_read_all-arrives ssl b c r rs after size h each fits small =
    let whole : length (bytes_of (r ∷ rs)) ≡ length r.bytes + length (bytes_of rs) =
      length-append r.bytes (bytes_of rs) in
    let (g, run, held, bound) =
      read_loop-arrives b c r rs after size 0 h each (omega arith) (omega arith) (omega arith) in
    let count : 0 + length (bytes_of (r ∷ rs)) ≡ length (bytes_of (r ∷ rs)) = omega arith in
    let first : 1 ≤ length r.bytes = some_bytes r rs each in
    let some_room : (size == 0) ≡ false = pos→== size (omega (arith, whole, first)) in
    (g, rw some_room (run ∙ ap (λ n. some (n, g)) count), held, bound)

read_loop-over :
    (script : List Attempt) (b : Buffer) (size total_read : ℕ)
    → size ≤ total_read
    → read_loop script b size total_read ≡ some (total_read, b)
unfolding read_loop
read_loop-over [] b size total_read h = rw (le→ltb total_read size h)
read_loop-over (a ∷ script) b size total_read h = rw (read_loop, le→ltb total_read size h)

end_round-same :
    (ssl_pending pending : ℕ) (b : Buffer) (n : ℕ)
    → end_round
        (record { read = failed; ssl_pending = ssl_pending; socket_pending = some pending })
        b
        n
        (some (n, b))
      ≡ some (n, b)
unfolding end_round
end_round-same ssl_pending pending b n = elim (Bool-cases ((ssl_pending == 0) && (pending == 0))) [
  | inl idle ↦ rw idle
  | inr more ↦ rw more
]

-- A first SSL_read that fails, for want of more bytes or for good, is taken for one that got 2^64 - 1
-- bytes: the last byte that the buffer held is lost, and -1 is returned, whatever would follow.
pub ssl_read_all-failed :
    (ssl pending x : ℕ) (b : Buffer) (c : List ℕ) (ssl_pending size : ℕ) (script : List Attempt)
    → Holds b (c ++ x ∷ [])
    → 1 ≤ size
    → b.write_pos + size + 1 < 2 ^ 64
    → (g : Buffer) × (ssl_read_all
          (some ssl)
          (record { read = failed; ssl_pending = ssl_pending; socket_pending = some pending }
            ∷ script)
          b
          size
        ≡ some (2 ^ 64 - 1, g))
      × Holds g c
unfolding ssl_read_all read_loop end_read end_round has_written
ssl_read_all-failed ssl pending x b c ssl_pending size script h some_size small =
    let (g, made, r, low) = ensure_write_able_lem b (c ++ x ∷ []) size h small in
    let held = r.0 in
    let layout : g.bytes ≡ held.before ++ (c ++ (x ∷ held.behind)) =
      held.layout ∙ ap (λ t. held.before ++ t) (append_assoc c (x ∷ []) held.behind) in
    let one_more : length (c ++ x ∷ []) ≡ length c + 1 = length-append c (x ∷ []) in
    let fits = total g (c ++ x ∷ []) held in
    let back : g.read_pos + length c ≡ (g.write_pos + (2 ^ 64 - 1)) % 2 ^ 64 =
      omega (arith, held.write_at_end, held.small) in
    let k : Buffer = record g { write_pos = (g.write_pos + (2 ^ 64 - 1)) % 2 ^ 64 } in
    let all_of : (size + 2 ^ 64 - 0) % 2 ^ 64 ≡ size = omega arith in
    let none_read : (0 + (2 ^ 64 - 1)) % 2 ^ 64 ≡ 2 ^ 64 - 1 = omega arith in
    (
      k,
      rw
          (
            pos→== size some_size,
            read_loop,
            lt→ltb 0 size (omega arith),
            all_of,
            made,
            none_read,
            read_loop-over script k size (2 ^ 64 - 1) (omega arith),
          )
          (end_round-same ssl_pending pending k (2 ^ 64 - 1)),
      record {
        before = held.before;
        behind = x ∷ held.behind;
        layout = layout;
        read_at_end = held.read_at_end;
        write_at_end = back;
        small = held.small;
      },
    )
