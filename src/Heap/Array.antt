-- ===== src/Heap/Array.antt =====
-- A `std::vector` as a list: reads with a default, and `std::swap` of two elements.
use mathlib.Core.List.Perm
use mathlib.Core.List.{Permᴰ}
use mathlib.Core.Logic.{∥∥₁_elim}
use native.Mathlib.Nat.{ℕ_set}
use qt_asio_net_disk.Base.{
  ℕ, zero, suc, ◌<◌, ◌≡◌, refl, ap, ◌∙◌, List, [], ◌∷◌, ◌++◌, Perm, arith, length, length-set, set,
  take, ◌==◌, if◌then◌else◌,
}

module _ {A : Type 0} (d : A) where
  -- `v[i]`, and `d` out of range.
  unfoldable pub at : List A → ℕ → A
  at [] i = d
  at (x ∷ xs) zero = x
  at (x ∷ xs) (suc i) = at xs i

  unfoldable pub swap : List A → ℕ → ℕ → List A
  swap xs i j = set (set xs i (at xs j)) j (at xs i)

  pub at-set :
      (xs : List A) (i j : ℕ) (v : A)
      → i < length xs
      → at (set xs i v) j ≡ (if i == j then v else at xs j)
  unfolding at
  at-set [] i j v h = absurd (omega arith)
  at-set (x ∷ xs) zero zero v h = refl
  at-set (x ∷ xs) zero (suc j) v h = ground arith
  at-set (x ∷ xs) (suc i) zero v h = ground arith
  at-set (x ∷ xs) (suc i) (suc j) v h = ground (arith, at-set xs i j v)

  pub at-append_left : (xs ys : List A) (i : ℕ) → i < length xs → at (xs ++ ys) i ≡ at xs i
  unfolding at
  at-append_left [] ys i h = absurd (omega arith)
  at-append_left (x ∷ xs) ys zero h = refl
  at-append_left (x ∷ xs) ys (suc i) h = at-append_left xs ys i (omega arith)

  pub at-append_last : (xs : List A) (v : A) → at (xs ++ v ∷ []) (length xs) ≡ v
  unfolding at
  at-append_last [] v = refl
  at-append_last (x ∷ xs) v = at-append_last xs v

  pub at-take : (xs : List A) (n i : ℕ) → i < n → at (take n xs) i ≡ at xs i
  unfolding at
  at-take xs zero i h = absurd (omega arith)
  at-take [] (suc n) i h = refl
  at-take (x ∷ xs) (suc n) zero h = refl
  at-take (x ∷ xs) (suc n) (suc i) h = at-take xs n i (omega arith)

  -- A list is what stands before its last element, and that element.
  pub take-last-perm : (xs : List A) (n : ℕ) → length xs ≡ suc n → Perm xs (at xs n ∷ take n xs)
  unfolding at
  take-last-perm [] n h = absurd (omega arith)
  take-last-perm (x ∷ []) zero h = Perm.refl _
  take-last-perm (x ∷ y ∷ xs) zero h = absurd (omega arith)
  take-last-perm (x ∷ xs) (suc n) h =
      Perm.trans (Perm.cons x (take-last-perm xs n (omega arith)))
        (Perm.swap (at xs n) x (take n xs))

  pub append-last-perm : (xs : List A) (v : A) → Perm (xs ++ v ∷ []) (v ∷ xs)
  append-last-perm [] v = Perm.refl _
  append-last-perm (x ∷ xs) v = Perm.trans (Perm.cons x (append-last-perm xs v)) (Perm.swap v x xs)

  -- What a write puts in replaces what stood there.
  pub set-perm :
      (xs : List A) (i : ℕ) (v : A) → i < length xs → Perm (at xs i ∷ set xs i v) (v ∷ xs)
  unfolding at
  set-perm [] i v h = absurd (omega arith)
  set-perm (x ∷ xs) zero v h = Perm.swap v x xs
  set-perm (x ∷ xs) (suc i) v h =
      Perm.trans (Perm.swap x (at xs i) (set xs i v))
        (Perm.trans (Perm.cons x (set-perm xs i v (omega arith))) (Perm.swap v x xs))

  pub length-swap : (xs : List A) (i j : ℕ) → length (swap xs i j) ≡ length xs
  unfolding swap
  length-swap xs i j = simp length-set

  module _ (xs : List A) (i j : ℕ) (hi : i < length xs) (hj : j < length xs) where
    pub at-swap :
        (c : ℕ)
        → at (swap xs i j) c ≡ (if j == c then at xs i else if i == c then at xs j else at xs c)
    unfolding swap
    at-swap c =
        rw
          (at-set (set xs i (at xs j)) j c (at xs i) (rw length-set hj), at-set xs i c (at xs j) hi)

    pub swap-perm : Perm (swap xs i j) xs
    unfolding swap
    swap-perm =
        let first = set xs i (at xs j) in
        let same : at first j ≡ at xs j = ground (arith, at-set xs i j (at xs j)) in
        let written : Perm (at xs j ∷ swap xs i j) (at xs i ∷ first) =
          rw same at (set-perm first j (at xs i) (rw length-set hj)) in
        Perm.cons_inv (Perm.trans written (set-perm xs i (at xs j) hi))

Permᴰ-length : {A : Type 0} {xs ys : List A} → Permᴰ xs ys → length xs ≡ length ys
Permᴰ-length Permᴰ.nil = refl
Permᴰ-length (Permᴰ.cons x p) = ap suc (Permᴰ-length p)
Permᴰ-length (Permᴰ.swap x y) = refl
Permᴰ-length (Permᴰ.trans p q) = Permᴰ-length p ∙ Permᴰ-length q

pub length-perm : {A : Type 0} {xs ys : List A} → Perm xs ys → length xs ≡ length ys
length-perm p = ∥∥₁_elim p (ℕ_set _ _) Permᴰ-length
