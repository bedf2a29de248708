-- ===== src/Wire/Put.antt =====
-- `ptr += writeData(ptr, data, len)` over the buffer of a serialize function, and the exceptions
-- that it throws.
use qt_asio_net_disk.Base.{
  ℕ, ◌+◌, ◌≤◌, ◌<◌, ◌≡◌, ap, ◌∙◌, sym, List, [], ◌∷◌, ◌++◌, arith, append_assoc, append-nil, length,
  length-append, length-drop, drop, drop-drop, take, ltb, leb, ◌&&◌, zero, suc, le→ltb, lt→ltb,
  le→leb, take-length-append, if◌then◌else◌,
}
use qt_asio_net_disk.Wire.Bytes.{to_le, limit}
use qt_asio_net_disk.Wire.Order.{be, swap_bytes, htonll, to_le-swap_bytes, to_le-htonll}

-- The three `std::runtime_error`s of the serialize functions.
pub data Failure : Type 0 where
  buffer_too_small wrong_type wrong_body_len : Failure

-- `overrun` is an access outside of an object, which C++ leaves undefined.
pub data Outcome {ℓ} (A : Type ℓ) : Type ℓ where
  ok : A → Outcome A
  thrown : Failure → Outcome A
  overrun : Outcome A

-- The bytes of the buffer before `ptr`, and those from `ptr` on.
pub record Cursor : Type 0 where
  pub written : List ℕ
  pub room : List ℕ

abbrev pub Put : Type 0
Put = Cursor → Outcome Cursor

infixl 5 ◌>>◌
unfoldable pub ◌>>◌ : Put → Put → Put
◌>>◌ p q c = elim (p c) [ ok c' ↦ q c' | thrown e ↦ thrown e | overrun ↦ overrun ]

-- memcpy(ptr, data, len), and len is returned to move `ptr`.
unfoldable pub write_data : List ℕ → Put
write_data bs c =
    if ltb (length c.room) (length bs)
    then overrun
    else ok (record { written = c.written ++ bs; room = drop (length bs) c.room })

-- A write from an array or a string whose readable memory is `source`: `len` bytes of it.
unfoldable pub write_from : List ℕ → ℕ → Put
unfolding write_data
write_from source len c =
    if ltb (length source) len then overrun else write_data (take len source) c

-- An integer of `k` bytes as it lies in memory.
unfoldable pub write_int : ℕ → ℕ → Put
write_int k n = write_data (to_le k n)

unfoldable pub skip : Put
skip c = ok c

-- `p` writes exactly `bs` where there is room for it, and moves behind it.
abbrev pub Emits : Put → List ℕ → Type 0
Emits p bs =
    (w r : List ℕ)
    → length bs ≤ length r
    → p (record { written = w; room = r })
      ≡ ok (record { written = w ++ bs; room = drop (length bs) r })

pub seq-Emits : (p q : Put) (xs ys : List ℕ) → Emits p xs → Emits q ys → Emits (p >> q) (xs ++ ys)
unfolding ◌>>◌
seq-Emits p q xs ys h g w r room =
    let sizes : length (xs ++ ys) ≡ length xs + length ys = length-append xs ys in
    rw (
      ◌>>◌,
      h w r (omega arith),
      g (w ++ xs) (drop (length xs) r) (omega (arith, length-drop (length xs) r)),
      drop-drop (length xs) (length ys) r,
      append_assoc w xs ys,
      sizes,
    )

pub write_data-Emits : (bs : List ℕ) → Emits (write_data bs) bs
unfolding write_data
write_data-Emits bs w r room = rw (le→ltb (length r) (length bs) room)

pub write_from-Emits :
    (source : List ℕ) (len : ℕ)
    → len ≤ length source
    → Emits (write_from source len) (take len source)
unfolding write_from
write_from-Emits source len h w r room =
    rw (le→ltb (length source) len h) (write_data-Emits (take len source) w r room)

pub write_int-Emits : (k n : ℕ) → Emits (write_int k n) (to_le k n)
unfolding write_int
write_int-Emits k n = write_data-Emits (to_le k n)

-- A value that went through `htons` or `htonl` goes out most significant byte first.
pub write_swapped-Emits : (k n : ℕ) → Emits (write_int k (swap_bytes k n)) (be k n)
write_swapped-Emits k n = rw (to_le-swap_bytes k n) at (write_int-Emits k (swap_bytes k n))

pub write_64-Emits : (n : ℕ) → n < limit 8 → Emits (write_int 8 (htonll n)) (be 8 n)
write_64-Emits n h = rw (to_le-htonll n h) at (write_int-Emits 8 (htonll n))

pub skip-Emits : Emits skip []
unfolding skip
skip-Emits w r room = rw (append-nil w)

-- The buffer after the writes: what lies behind the last one is what was there before.
unfoldable pub finish : Put → List ℕ → Outcome (List ℕ)
finish p buf = elim (p (record { written = []; room = buf })) [
  | ok c ↦ ok (c.written ++ c.room)
  | thrown e ↦ thrown e
  | overrun ↦ overrun
]

pub finish_lem :
    (p : Put) (bs buf : List ℕ)
    → Emits p bs
    → length bs ≤ length buf
    → finish p buf ≡ ok (bs ++ drop (length bs) buf)
unfolding finish
finish_lem p bs buf h room = rw (finish, h [] buf room)

-- `if (n > 0) ptr += writeData(ptr, source, n);`
unfoldable pub write_some : List ℕ → ℕ → Put
unfolding skip
write_some source n = if ltb 0 n then write_from source n else skip

-- `if (n > 0 && n <= data.size()) ptr += writeData(ptr, data.data(), n);`
unfoldable pub write_chunk : List ℕ → ℕ → Put
unfolding skip
write_chunk source n = if ltb 0 n && leb n (length source) then write_from source n else skip

pub write_some-Emits :
    (source : List ℕ) (n : ℕ) → n ≤ length source → Emits (write_some source n) (take n source)
unfolding write_some
write_some-Emits source zero h w r room = skip-Emits w r room
write_some-Emits source (suc n) h w r room =
    rw (lt→ltb 0 (suc n) (omega arith)) (write_from-Emits source (suc n) h w r room)

-- The bytes of a `std::string` can be read up to the zero behind them.
abbrev pub c_str : List ℕ → List ℕ
c_str s = s ++ 0 ∷ []

pub write_string-Emits : (s : List ℕ) (n : ℕ) → length s ≡ n → Emits (write_some (c_str s) n) s
write_string-Emits s n size =
    let inside : n ≤ length (c_str s) = omega (arith, length-append s (0 ∷ [])) in
    let whole : take n (c_str s) ≡ s = rw (← size) (take-length-append s (0 ∷ [])) in
    rw whole at (write_some-Emits (c_str s) n inside)

pub write_chunk-Emits : (s : List ℕ) (n : ℕ) → length s ≡ n → Emits (write_chunk s n) s
unfolding write_chunk
write_chunk-Emits [] n size w r room = rw (← size) (skip-Emits w r room)
write_chunk-Emits (b ∷ s) n size w r room =
    let whole : take n (b ∷ s) ≡ b ∷ s =
      rw (← size)
        (ap (take (suc (length s))) (sym (append-nil (b ∷ s))) ∙ take-length-append (b ∷ s) []) in
    let enough : n ≤ length (b ∷ s) = omega arith in
    rw (lt→ltb 0 n (omega arith), le→leb n (length (b ∷ s)) enough)
      (rw whole at (write_from-Emits (b ∷ s) n enough) w r room)
