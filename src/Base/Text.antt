-- ===== src/Base/Text.antt =====
-- Text as a list of its bytes.
use Prim.Native.Nat.{ℕ}
use mathlib.Core.Path.{◌≡◌, refl}
use mathlib.Core.Logic.{inl, inr}
use mathlib.Core.Bool.{Bool, true, false, ◌&&◌}
use mathlib.Core.List.{List, [], ◌∷◌}
use native.Mathlib.Omega.{arith}
use qt_asio_net_disk.Base.Tests.{◌==◌, ==_refl, ==→eq, Bool-cases}

-- Equality of two values of text.
unfoldable pub same : List ℕ → List ℕ → Bool
same [] [] = true
same [] (y ∷ ys) = false
same (x ∷ xs) [] = false
same (x ∷ xs) (y ∷ ys) = (x == y) && same xs ys

pub same_refl : (xs : List ℕ) → same xs xs ≡ true
unfolding same
same_refl [] = refl
same_refl (x ∷ xs) = rw (==_refl x, same_refl xs)

pub same→eq : (xs ys : List ℕ) → same xs ys ≡ true → xs ≡ ys
unfolding same
same→eq [] [] h = refl
same→eq [] (y ∷ ys) h = grind arith
same→eq (x ∷ xs) [] h = grind arith
same→eq (x ∷ xs) (y ∷ ys) h = elim (Bool-cases (x == y)) [
  | inl first ↦
      let rest : same xs ys ≡ true = rw first at h in
      let e : x ≡ y = ==→eq x y first in rw (e, same→eq xs ys rest)
  | inr other ↦ let no : false ≡ true = rw other at h in grind arith
]
