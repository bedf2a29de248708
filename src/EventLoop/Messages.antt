-- ===== src/EventLoop/Messages.antt =====
-- The messages of a stream of bytes, as the protocol defines them: eight bytes of header, then as
-- many bytes as the header tells.
use qt_asio_net_disk.Base.{
  ℕ, zero, suc, ◌+◌, ◌-◌, ◌≤◌, ◌≡◌, refl, sym, ap, ◌∙◌, inl, inr, List, [], ◌∷◌, ◌++◌, Bool, true,
  false, arith, length, length-append, length-drop, take, drop, take-append_left, drop-append_left,
  ltb, Bool-cases, if◌then◌else◌,
}
use qt_asio_net_disk.Wire.Bytes.{from_le}
use qt_asio_net_disk.Wire.Order.{swap_bytes}

-- The number of bytes that the header in front of `c` tells for the body.
unfoldable pub body_len_of : List ℕ → ℕ
body_len_of c = swap_bytes 4 (from_le (take 4 (drop 2 c)))

abbrev pub frame_len : List ℕ → ℕ
frame_len c = 8 + body_len_of c

abbrev pub is_complete : List ℕ → Bool
is_complete c =
    if ltb (length c) 8 then false else if ltb (length c) (frame_len c) then false else true

-- The complete messages in front of the stream, and what is left.
unfoldable pub split : ℕ → List ℕ → List (List ℕ) × List ℕ
split zero c = ([], c)
split (suc fuel) c =
    let r = split fuel (drop (frame_len c) c) in
    if is_complete c then (take (frame_len c) c ∷ r.0, r.1) else ([], c)

abbrev pub messages : List ℕ → List (List ℕ)
messages c = (split (length c) c).0

abbrev pub rest_of : List ℕ → List ℕ
rest_of c = (split (length c) c).1

pub complete_len : (c : List ℕ) → is_complete c ≡ true → (8 ≤ length c) × (frame_len c ≤ length c)
complete_len c h = ground arith

-- More bytes behind a header leave what it tells.
body_len_of-append : (c d : List ℕ) → 8 ≤ length c → body_len_of (c ++ d) ≡ body_len_of c
unfolding body_len_of
body_len_of-append c d h = rw (
  drop-append_left 2 c d (omega arith),
  take-append_left 4 (drop 2 c) d (omega (arith, length-drop 2 c)),
)

complete-append :
    (c d : List ℕ)
    → is_complete c ≡ true
    → (is_complete (c ++ d) ≡ true) × (frame_len (c ++ d) ≡ frame_len c)
complete-append c d h =
    let sizes = complete_len c h in
    let same = body_len_of-append c d sizes.0 in
    (ground (arith, length-append c d), omega (arith, same))

-- More fuel than bytes changes nothing.
split_fuel : (fuel : ℕ) (c : List ℕ) → length c ≤ fuel → split (suc fuel) c ≡ split fuel c
unfolding split
split_fuel zero [] h = refl
split_fuel zero (x ∷ c) h = absurd (omega arith)
split_fuel (suc fuel) c h = elim (Bool-cases (is_complete c)) [
  | inl whole ↦
      let less : length (drop (frame_len c) c) ≤ fuel =
        omega (arith, length-drop (frame_len c) c, complete_len c whole) in
      rw (whole, split_fuel fuel (drop (frame_len c) c) less)
  | inr part ↦ rw part
]

pub split_enough : (k : ℕ) (c : List ℕ) → split (length c + k) c ≡ split (length c) c
split_enough zero c = let e : length c + 0 ≡ length c = omega arith in rw e
split_enough (suc k) c =
    let e : length c + suc k ≡ suc (length c + k) = omega arith in
    rw e (split_fuel (length c + k) c (omega arith) ∙ split_enough k c)

pub split_from : (fuel : ℕ) (c : List ℕ) → length c ≤ fuel → split fuel c ≡ split (length c) c
split_from fuel c h =
    let e : fuel ≡ length c + (fuel - length c) = omega arith in
    ap (λ n. split n c) e ∙ split_enough (fuel - length c) c

length-rest : (fuel : ℕ) (c : List ℕ) → length (split fuel c).1 ≤ length c
unfolding split
length-rest zero c = omega arith
length-rest (suc fuel) c = elim (Bool-cases (is_complete c)) [
  | inl whole ↦
      rw whole (omega (arith, length-rest fuel (drop (frame_len c) c), length-drop (frame_len c) c))
  | inr part ↦ rw part (omega arith)
]

-- The messages of a stream that comes in two parts.
split-append :
    (fuel : ℕ) (c d : List ℕ)
    → length c + length d ≤ fuel
    → split fuel (c ++ d) ≡ (
      (split fuel c).0 ++ (split fuel ((split fuel c).1 ++ d)).0,
      (split fuel ((split fuel c).1 ++ d)).1,
    )
unfolding split
split-append zero c d h = refl
split-append (suc fuel) c d h = elim (Bool-cases (is_complete c)) [
  | inl whole ↦
      let n : ℕ = frame_len c in
      let sizes = complete_len c whole in
      let both = complete-append c d whole in
      let after : List ℕ = drop n c in
      let size : length after ≡ length c - n = length-drop n c in
      let r = split fuel after in
      let small : length (r.1 ++ d) ≤ fuel =
        omega (arith, length-append r.1 d, length-rest fuel after) in
      let again = split_fuel fuel (r.1 ++ d) small in
      let ih = split-append fuel after d (omega arith) in
      rw (both.0, both.1, whole, take-append_left n c d sizes.1, drop-append_left n c d sizes.1, ih)
        (sym (ap (λ s. (take n c ∷ (r.0 ++ s.0), s.1)) again))
  | inr part ↦ rw part
]

-- The messages do not depend on where the stream is cut.
pub messages-append :
    (c d : List ℕ)
    → (messages (c ++ d) ≡ messages c ++ messages (rest_of c ++ d))
      × (rest_of (c ++ d) ≡ rest_of (rest_of c ++ d))
messages-append c d =
    let fuel : ℕ = length c + length d in
    let whole = split_from fuel (c ++ d) (omega (arith, length-append c d)) in
    let first = split_from fuel c (omega arith) in
    let r = rest_of c in
    let second =
      split_from fuel (r ++ d) (omega (arith, length-append r d, length-rest (length c) c)) in
    let e = split-append fuel c d (omega arith) in
    let total : split (length (c ++ d)) (c ++ d)
        ≡ (messages c ++ messages (r ++ d), rest_of (r ++ d)) =
      sym whole ∙ rw first at e ∙ ap (λ s. (messages c ++ s.0, s.1)) second in
    (ap (λ s. s.0) total, ap (λ s. s.1) total)
