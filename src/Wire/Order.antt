-- ===== src/Wire/Order.antt =====
-- Network byte order: `htons`, `htonl` and the 64-bit `htonll` of Serializer.h and protocol.cpp.
use mathlib.Core.List.{reverse-reverse, reverse-append}
use qt_asio_net_disk.Base.{
  ℕ, ◌+◌, ◌*◌, ◌/◌, ◌%◌, ◌<◌, ◌≡◌, refl, ap, sym, ◌∙◌, List, ◌++◌, reverse, arith, length,
  length-append, length-reverse,
}
use qt_asio_net_disk.Wire.Bytes.{
  to_le, from_le, AllBytes, limit, length-to_le, to_le-AllBytes, from_le-to_le, to_le-from_le,
  from_le-lt-limit, reverse-AllBytes, from_le-append, append-AllBytes,
}

-- The bytes that a value of `k` bytes has on the network, most significant first.
unfoldable pub be : ℕ → ℕ → List ℕ
be k n = reverse (to_le k n)

-- The documented behaviour of `htons` and `htonl` of <arpa/inet.h> on a little-endian host, which
-- are their own inverses: the bytes change places.
unfoldable pub swap_bytes : ℕ → ℕ → ℕ
swap_bytes k n = from_le (reverse (to_le k n))

abbrev pub htons : ℕ → ℕ
htons n = swap_bytes 2 n

abbrev pub htonl : ℕ → ℕ
htonl n = swap_bytes 4 n

-- `((uint64_t)htonl(host64 & 0xFFFFFFFF) << 32) | htonl(host64 >> 32)`: the left operand of `|` is a
-- multiple of 2^32 and the right one is below it, so that `|` adds.
unfoldable pub htonll : ℕ → ℕ
htonll n = htonl (n % 4294967296) * 4294967296 + htonl (n / 4294967296)

unfoldable pub ntohll : ℕ → ℕ
unfolding htonll
ntohll n = htonll n

pub length-be : (k n : ℕ) → length (be k n) ≡ k
unfolding be
length-be k n = length-reverse (to_le k n) ∙ length-to_le k n

-- The swapped value has in memory the bytes of the value in network order.
pub to_le-swap_bytes : (k n : ℕ) → to_le k (swap_bytes k n) ≡ be k n
unfolding swap_bytes be
to_le-swap_bytes k n =
    ap (λ (j : ℕ). to_le j (from_le (reverse (to_le k n)))) (sym (length-be k n))
    ∙ to_le-from_le (reverse (to_le k n)) (reverse-AllBytes (to_le k n) (to_le-AllBytes k n))

pub swap_bytes-lt : (k n : ℕ) → swap_bytes k n < limit k
unfolding swap_bytes be
swap_bytes-lt k n =
    rw (length-be k n) at
      (from_le-lt-limit (reverse (to_le k n)) (reverse-AllBytes (to_le k n) (to_le-AllBytes k n)))

-- `htons` and `htonl` undo themselves.
pub swap_bytes-swap_bytes : (k n : ℕ) → n < limit k → swap_bytes k (swap_bytes k n) ≡ n
unfolding swap_bytes
swap_bytes-swap_bytes k n h =
    ap (λ bs. from_le (reverse bs)) (to_le-swap_bytes k n)
    ∙ unfold be in ap from_le (reverse-reverse (to_le k n)) ∙ from_le-to_le k n h

-- Reading what the swapped value put on the network gives the value back.
pub from_le-be : (k n : ℕ) → from_le (be k n) ≡ swap_bytes k n
unfolding swap_bytes be
from_le-be k n = refl

pub be-AllBytes : (k n : ℕ) → AllBytes (be k n)
unfolding be
be-AllBytes k n = reverse-AllBytes (to_le k n) (to_le-AllBytes k n)

abbrev low_half : ℕ → ℕ
low_half n = n % 4294967296

abbrev high_half : ℕ → ℕ
high_half n = n / 4294967296

-- The two halves that `htonll` puts together are the bytes of its result.
from_le-halves : (n : ℕ) → from_le (be 4 (high_half n) ++ be 4 (low_half n)) ≡ htonll n
unfolding htonll
from_le-halves n =
    from_le-append (be 4 (high_half n)) (be 4 (low_half n))
    ∙ rw (length-be 4 (high_half n), from_le-be 4 (high_half n), from_le-be 4 (low_half n))
        (omega arith)

to_le-halves : (n : ℕ) → n < limit 8 → to_le 8 n ≡ to_le 4 (low_half n) ++ to_le 4 (high_half n)
to_le-halves n h =
    let halves : List ℕ = to_le 4 (low_half n) ++ to_le 4 (high_half n) in
    let size : length halves ≡ 8 =
      length-append (to_le 4 (low_half n)) (to_le 4 (high_half n))
      ∙ rw (length-to_le 4 (low_half n), length-to_le 4 (high_half n)) in
    let value : from_le halves ≡ n =
      from_le-append (to_le 4 (low_half n)) (to_le 4 (high_half n))
      ∙ rw
          (
            length-to_le 4 (low_half n),
            from_le-to_le 4 (low_half n) (omega arith),
            from_le-to_le 4 (high_half n) (omega arith),
          )
          (omega arith) in
    rw (size, value) at
      (to_le-from_le halves (
        append-AllBytes (to_le 4 (low_half n)) (to_le 4 (high_half n)) (to_le-AllBytes 4 _)
          (to_le-AllBytes 4 _)))

be-halves : (n : ℕ) → n < limit 8 → be 8 n ≡ be 4 (high_half n) ++ be 4 (low_half n)
unfolding be
be-halves n h =
    ap reverse (to_le-halves n h) ∙ reverse-append (to_le 4 (low_half n)) (to_le 4 (high_half n))

-- The memory of the value that `htonll` returns is the network order of its argument.
pub to_le-htonll : (n : ℕ) → n < limit 8 → to_le 8 (htonll n) ≡ be 8 n
to_le-htonll n h =
    let halves : List ℕ = be 4 (high_half n) ++ be 4 (low_half n) in
    let size : length halves ≡ 8 =
      length-append (be 4 (high_half n)) (be 4 (low_half n))
      ∙ rw (length-be 4 (high_half n), length-be 4 (low_half n)) in
    rw (size, from_le-halves n) at
      (to_le-from_le halves (
        append-AllBytes (be 4 (high_half n)) (be 4 (low_half n)) (be-AllBytes 4 _)
          (be-AllBytes 4 _)))
    ∙ sym (be-halves n h)

pub from_le-be_64 : (n : ℕ) → n < limit 8 → from_le (be 8 n) ≡ htonll n
from_le-be_64 n h = ap from_le (be-halves n h) ∙ from_le-halves n

-- `ntohll` undoes `htonll` on every 64-bit value.
pub ntohll-htonll : (n : ℕ) → n < limit 8 → ntohll (htonll n) ≡ n
unfolding ntohll htonll
ntohll-htonll n h =
    let low : htonll n % 4294967296 ≡ htonl (high_half n) =
      omega (arith, swap_bytes-lt 4 (high_half n)) in
    let high : htonll n / 4294967296 ≡ htonl (low_half n) =
      omega (arith, swap_bytes-lt 4 (high_half n)) in
    rw
      (
        low,
        high,
        swap_bytes-swap_bytes 4 (low_half n) (omega arith),
        swap_bytes-swap_bytes 4 (high_half n) (omega arith),
      )
      (omega arith)
