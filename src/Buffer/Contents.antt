-- ===== src/Buffer/Contents.antt =====
-- The abstract view of the buffer: the bytes written and not yet read.
use qt_asio_net_disk.Base.{
  ℕ, ◌+◌, ◌^◌, ◌≤◌, ◌<◌, ◌≡◌, refl, ap, ◌∙◌, List, [], ◌++◌, some, arith, length, length-append,
  length-replicate, drop, replicate, take-length-append, drop-length-append, drop-drop, ltb, le→ltb,
  false,
}
use qt_asio_net_disk.Buffer.{Buffer, init, write_able_bytes, read_able_bytes, read_at, copy_to}

-- The vector is the bytes before the read position, `c`, and those from the write position on.
pub record Holds (b : Buffer) (c : List ℕ) : Type 0 where
  pub before : List ℕ
  pub behind : List ℕ
  pub layout : b.bytes ≡ before ++ (c ++ behind)
  pub read_at_end : length before ≡ b.read_pos
  pub write_at_end : b.read_pos + length c ≡ b.write_pos
  pub small : length b.bytes < 2 ^ 64

pub total :
    (b : Buffer) (c : List ℕ) (h : Holds b c) → length b.bytes ≡ b.write_pos + length h.behind
total b c h =
    ap length h.layout
    ∙ length-append h.before (c ++ h.behind)
    ∙ omega (arith, length-append c h.behind, h.read_at_end, h.write_at_end)

pub read_able_lem : (b : Buffer) (c : List ℕ) → Holds b c → read_able_bytes b ≡ length c
unfolding read_able_bytes
read_able_lem b c h = omega (arith, total b c h, h.write_at_end, h.small)

pub write_able_lem :
    (b : Buffer) (c : List ℕ) (h : Holds b c) → write_able_bytes b ≡ length h.behind
unfolding write_able_bytes
write_able_lem b c h = omega (arith, total b c h, h.small)

pub init-Holds : (n : ℕ) → n < 2 ^ 64 → Holds (init n) []
unfolding init
init-Holds n fits = record {
  before = [];
  behind = replicate n 0;
  layout = refl;
  read_at_end = refl;
  write_at_end = refl;
  small = rw (length-replicate {A = ℕ} n 0) fits;
}

-- A read inside a list whose parts are known.
pub read_at_lem :
    (xs ys zs : List ℕ) (n : ℕ) → length ys ≡ n → read_at (xs ++ (ys ++ zs)) (length xs) n ≡ some ys
unfolding read_at
read_at_lem xs ys zs n size =
    let inside : ltb (length (xs ++ (ys ++ zs))) (length xs + n) ≡ false =
      le→ltb _ _ (omega (arith, length-append xs (ys ++ zs), length-append ys zs)) in
    rw (inside, drop-length-append xs (ys ++ zs), ← size, take-length-append ys zs)

-- A copy to the end of a known part.
pub copy_to_lem :
    (xs ys src : List ℕ)
    → length src ≤ length ys
    → copy_to (xs ++ ys) (length xs) src ≡ some (xs ++ (src ++ drop (length src) ys))
unfolding copy_to
copy_to_lem xs ys src fits =
    let inside : ltb (length (xs ++ ys)) (length xs + length src) ≡ false =
      le→ltb _ _ (omega (arith, length-append xs ys)) in
    rw (
      inside,
      take-length-append xs ys,
      ← drop-drop (length xs) (length src) (xs ++ ys),
      drop-length-append xs ys,
    )
