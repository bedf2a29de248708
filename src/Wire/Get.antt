-- ===== src/Wire/Get.antt =====
-- `ptr += writeData(field, ptr, len)` over the bytes that a deserialize function is given.
use qt_asio_net_disk.Base.{
  ℕ, ◌≤◌, ◌<◌, ◌≡◌, refl, ap, ◌∙◌, List, [], ◌∷◌, ◌++◌, arith, append_assoc, Option, none, some,
  length, length-append, take, drop, take-length-append, drop-length-append, ltb, le→ltb, lt→ltb,
  Bool, false, if◌then◌else◌,
}
use qt_asio_net_disk.Wire.Bytes.{to_le, from_le, limit, length-to_le, from_le-to_le}
use qt_asio_net_disk.Wire.Order.{
  be, swap_bytes, ntohll, swap_bytes-swap_bytes, from_le-be, from_le-be_64, ntohll-htonll,
  length-be,
}

-- A read from the bytes at `ptr`; `none` is a read past the end of the memory.
abbrev pub Get : Type 0 → Type 0
Get A = List ℕ → Option (A × List ℕ)

infixl 5 ◌>>=◌
unfoldable pub ◌>>=◌ : {A B : Type 0} → Get A → (A → Get B) → Get B
◌>>=◌ g f bs = elim (g bs) [ none ↦ none | some (a, rest) ↦ f a rest ]

unfoldable pub return : {A : Type 0} → A → Get A
return a bs = some (a, bs)

-- memcpy(field, ptr, len)
unfoldable pub read_data : ℕ → Get (List ℕ)
read_data len bs = if ltb (length bs) len then none else some (take len bs, drop len bs)

-- A field of `k` bytes, read as an integer of the host.
unfoldable pub read_int : ℕ → Get ℕ
read_int k bs = elim (read_data k bs) [ none ↦ none | some (a, rest) ↦ some (from_le a, rest) ]

-- Such a field, and `ntohs` or `ntohl` on it.
unfoldable pub read_net : ℕ → Get ℕ
read_net k bs = elim (read_data k bs) [
  | none ↦ none
  | some (a, rest) ↦ some (swap_bytes k (from_le a), rest)
]

-- A field of eight bytes, and `ntohll` on it.
unfoldable pub read_net_64 : Get ℕ
read_net_64 bs = elim (read_data 8 bs) [
  | none ↦ none
  | some (a, rest) ↦ some (ntohll (from_le a), rest)
]

-- `if (n > 0) field = std::string(ptr, n);`
unfoldable pub read_string : List ℕ → ℕ → Get (List ℕ)
unfolding read_data return
read_string old n = if ltb 0 n then read_data n else return old

-- `if (n > 0) memcpy(array, ptr, n);`, where a copy longer than the array is undefined.
unfoldable pub read_array : List ℕ → ℕ → Get (List ℕ)
read_array array n bs =
    if ltb 0 n
    then (if ltb (length array) n then none else elim (read_data n bs) [
      | none ↦ none
      | some (a, rest) ↦ some (a ++ drop n array, rest)
    ])
    else some (array, bs)

-- What a deserialize function does: it returns a Boolean and leaves its object as given, or it
-- accesses memory outside of an object.
pub data Decoded (A : Type 0) : Type 0 where
  done : Bool → A → Decoded A
  overrun : Decoded A

unfoldable pub read_then : {A X : Type 0} → Get A → List ℕ → (A → List ℕ → Decoded X) → Decoded X
read_then g bs k = elim (g bs) [ none ↦ overrun | some (a, rest) ↦ k a rest ]

-- `g` reads `a` from exactly the bytes `bs`.
abbrev pub Yields : {A : Type 0} → Get A → List ℕ → A → Type 0
Yields g bs a = (rest : List ℕ) → g (bs ++ rest) ≡ some (a, rest)

pub bind-Yields :
    {A B : Type 0} (g : Get A) (f : A → Get B) (xs ys : List ℕ) (a : A) (b : B)
    → Yields g xs a
    → Yields (f a) ys b
    → Yields (g >>= f) (xs ++ ys) b
unfolding ◌>>=◌
bind-Yields g f xs ys a b h k rest = rw (append_assoc xs ys rest, ◌>>=◌, h (ys ++ rest)) (k rest)

-- The last read, whose result goes into the object.
pub last-Yields :
    {A B : Type 0} (g : Get A) (f : A → B) (xs : List ℕ) (a : A)
    → Yields g xs a
    → Yields (g >>= λ x. return (f x)) xs (f a)
unfolding ◌>>=◌ return
last-Yields g f xs a h rest = rw (◌>>=◌, h rest)

pub return-Yields : {A : Type 0} (a : A) → Yields (return a) [] a
unfolding return
return-Yields a rest = refl

pub read_data-Yields : (bs : List ℕ) (len : ℕ) → length bs ≡ len → Yields (read_data len) bs bs
unfolding read_data
read_data-Yields bs len size rest =
    let enough : ltb (length (bs ++ rest)) (length bs) ≡ false =
      le→ltb _ _ (omega (arith, length-append bs rest)) in
    rw (← size, enough, take-length-append bs rest, drop-length-append bs rest)

pub read_int-Yields : (bs : List ℕ) (k : ℕ) → length bs ≡ k → Yields (read_int k) bs (from_le bs)
unfolding read_int
read_int-Yields bs k size rest = rw (read_int, read_data-Yields bs k size rest)

pub read_net-Yields : (k n : ℕ) → n < limit k → Yields (read_net k) (be k n) n
unfolding read_net
read_net-Yields k n h rest = rw (
  read_net,
  read_data-Yields (be k n) k (length-be k n) rest,
  from_le-be k n,
  swap_bytes-swap_bytes k n h,
)

pub read_net_64-Yields : (n : ℕ) → n < limit 8 → Yields read_net_64 (be 8 n) n
unfolding read_net_64
read_net_64-Yields n h rest = rw (
  read_net_64,
  read_data-Yields (be 8 n) 8 (length-be 8 n) rest,
  from_le-be_64 n h,
  ntohll-htonll n h,
)

pub read_byte-Yields : (n : ℕ) → n < limit 1 → Yields (read_int 1) (to_le 1 n) n
read_byte-Yields n h rest =
    read_int-Yields (to_le 1 n) 1 (length-to_le 1 n) rest
    ∙ ap (λ v. some (v, rest)) (from_le-to_le 1 n h)

pub read_string-Yields :
    (old bs : List ℕ) (n : ℕ) → length bs ≡ n → old ≡ [] → Yields (read_string old n) bs bs
unfolding read_string
read_string-Yields old [] n size fresh rest = rw (← size, fresh)
read_string-Yields old (b ∷ bs) n size fresh rest =
    rw (lt→ltb 0 n (omega arith)) (read_data-Yields (b ∷ bs) n size rest)

pub read_array-Yields :
    (array bs : List ℕ) (n : ℕ)
    → length bs ≡ n
    → n ≤ length array
    → Yields (read_array array n) bs (bs ++ drop n array)
unfolding read_array
read_array-Yields array [] n size fits rest = rw (← size)
read_array-Yields array (b ∷ bs) n size fits rest = rw (
  read_array,
  lt→ltb 0 n (omega arith),
  le→ltb (length array) n fits,
  read_data-Yields (b ∷ bs) n size rest,
)

pub read_then_lem :
    {A X : Type 0} (g : Get A) (bs rest : List ℕ) (a : A) (k : A → List ℕ → Decoded X)
    → Yields g bs a
    → read_then g (bs ++ rest) k ≡ k a rest
unfolding read_then
read_then_lem g bs rest a k h = rw (read_then, h rest)
