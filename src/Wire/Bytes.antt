-- ===== src/Wire/Bytes.antt =====
-- The bytes of an unsigned integer in the memory of a little-endian host.
use mathlib.Core.List.{reverse-append}
use qt_asio_net_disk.Base.{
  ℕ, zero, suc, ◌+◌, ◌*◌, ◌/◌, ◌%◌, ◌<◌, ◌≡◌, refl, ap, List, [], ◌∷◌, ◌++◌, reverse, arith, length,
}

-- An object of `k` bytes that holds `n`.
unfoldable pub to_le : ℕ → ℕ → List ℕ
to_le zero n = []
to_le (suc k) n = n % 256 ∷ to_le k (n / 256)

-- The value of such an object.
unfoldable pub from_le : List ℕ → ℕ
from_le [] = 0
from_le (b ∷ bs) = b + 256 * from_le bs

abbrev pub AllBytes : List ℕ → Type 0
AllBytes [] = Unit {0}
AllBytes (b ∷ bs) = (b < 256) × AllBytes bs

-- The number of values of an object of `k` bytes.
abbrev pub limit : ℕ → ℕ
limit zero = 1
limit (suc k) = 256 * limit k

pub length-to_le : (k n : ℕ) → length (to_le k n) ≡ k
unfolding to_le
length-to_le zero n = refl
length-to_le (suc k) n = ap suc (length-to_le k (n / 256))

pub to_le-AllBytes : (k n : ℕ) → AllBytes (to_le k n)
unfolding to_le
to_le-AllBytes zero n = tt
to_le-AllBytes (suc k) n = (omega arith, to_le-AllBytes k (n / 256))

pub from_le-to_le : (k n : ℕ) → n < limit k → from_le (to_le k n) ≡ n
unfolding to_le from_le
from_le-to_le zero n h = omega arith
from_le-to_le (suc k) n h = omega (arith, from_le-to_le k (n / 256) (omega arith))

pub to_le-from_le : (bs : List ℕ) → AllBytes bs → to_le (length bs) (from_le bs) ≡ bs
unfolding to_le from_le
to_le-from_le [] h = refl
to_le-from_le (b ∷ bs) h =
    let low : (b + 256 * from_le bs) % 256 ≡ b = omega arith in
    let high : (b + 256 * from_le bs) / 256 ≡ from_le bs = omega arith in
    rw (low, high, to_le-from_le bs h.1)

pub from_le-lt-limit : (bs : List ℕ) → AllBytes bs → from_le bs < limit (length bs)
unfolding from_le
from_le-lt-limit [] h = omega arith
from_le-lt-limit (b ∷ bs) h = omega (arith, from_le-lt-limit bs h.1)

pub from_le-append :
    (xs ys : List ℕ) → from_le (xs ++ ys) ≡ from_le xs + limit (length xs) * from_le ys
unfolding from_le
from_le-append [] ys = omega arith
from_le-append (x ∷ xs) ys = omega (arith, from_le-append xs ys)

pub append-AllBytes : (xs ys : List ℕ) → AllBytes xs → AllBytes ys → AllBytes (xs ++ ys)
append-AllBytes [] ys h g = g
append-AllBytes (x ∷ xs) ys h g = (h.0, append-AllBytes xs ys h.1 g)

pub reverse-AllBytes : (xs : List ℕ) → AllBytes xs → AllBytes (reverse xs)
reverse-AllBytes [] h = tt
reverse-AllBytes (x ∷ xs) h =
    rw (reverse-append (x ∷ []) xs)
      (append-AllBytes (reverse xs) (x ∷ []) (reverse-AllBytes xs h.1) (h.0, tt))
