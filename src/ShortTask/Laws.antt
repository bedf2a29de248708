-- ===== src/ShortTask/Laws.antt =====
-- What the short tasks do to a connection, and what the client gets.
use qt_asio_net_disk.Base.{
  ℕ, ◌<◌, ◌≡◌, ap, ◌∙◌, sym, List, [], ◌∷◌, ◌++◌, some, Bool, true, false, not, ◌||◌, arith, length,
  take, drop, take-append_left, drop-length-append, take-all, ◌==◌,
}
use qt_asio_net_disk.Wire.Bytes.{to_le, from_le, limit, length-to_le}
use qt_asio_net_disk.Wire.Order.{htonll, ntohll, ntohll-htonll, to_le-htonll, from_le-be_64}
use qt_asio_net_disk.Protocol.{Pdu, PduRespond}
use qt_asio_net_disk.Protocol.Code
use qt_asio_net_disk.Protocol.Status
use qt_asio_net_disk.UpDownCon.{to_string}
use qt_asio_net_disk.ShortTask.{
  ClientCon, Answers, Act, sends, sends_files, makes_dir, inserts, Done, cd, make_dir, delete,
  dir_respond,
}

-- The tools that only work after a sign in.
pub data Guarded : Type 0 where
  cds makes_dirs deletes : Guarded

abbrev pub run : Guarded → Answers → Pdu → ClientCon → Done
run cds a p c = cd a p c
run makes_dirs a p c = make_dir a p c
run deletes a p c = delete a p c

abbrev pub code_of : Guarded → ℕ
code_of cds = Code.cd
code_of makes_dirs = Code.makedir
code_of deletes = Code.deletefile

abbrev pub is_database : Act → Bool
is_database (sends r) = false
is_database (sends_files files) = false
is_database (makes_dir path) = false
is_database _ = true

-- The answer that asks the client to sign in.
abbrev pub is_refusal : Act → Bool
is_refusal (sends r) = r.status == Status.not_verify
is_refusal _ = false

abbrev pub any : (Act → Bool) → List Act → Bool
any test [] = false
any test (x ∷ xs) = test x || any test xs

-- Each of the three other tasks, of a client with an open connection, asks the database for something or
-- changes it exactly where the client has signed in, and tells the client to sign in exactly where it
-- has not; the connection stays as it is in both cases. This is so whatever the message says, and
-- whatever the database answers.
pub unverified-refused :
    (g : Guarded) (a : Answers) (p : Pdu) (c : ClientCon) (ssl : ℕ)
    → c.client_ssl ≡ some ssl
    → (any is_database (run g a p c).acts ≡ c.is_verify)
      × (any is_refusal (run g a p c).acts ≡ not c.is_verify)
      × ((run g a p c).con ≡ c)
unfolding cd make_dir delete dir_respond
unverified-refused cds a p c ssl open_ssl = ground arith
unverified-refused makes_dirs a p c ssl open_ssl = ground arith
unverified-refused deletes a p c ssl open_ssl = ground arith

read_id :
    (n : ℕ) (rest : List ℕ)
    → n < limit 8
    → ntohll (from_le (take 8 (to_le 8 (htonll n) ++ rest))) ≡ n
read_id n rest fits =
    let size : length (to_le 8 (htonll n)) ≡ 8 = length-to_le 8 (htonll n) in
    let front : take 8 (to_le 8 (htonll n) ++ rest) ≡ to_le 8 (htonll n) =
      take-append_left 8 (to_le 8 (htonll n)) rest (omega (arith, size))
      ∙ take-all 8 (to_le 8 (htonll n)) (omega (arith, size)) in
    rw (front, to_le-htonll n fits, from_le-be_64 n fits) (ntohll-htonll n fits)

-- A client that has signed in makes a directory: the database is asked for one below the parent whose
-- identifier the client wrote in network order, and the answer has, in that order, the new identifier
-- and the parent's, so that the client reads back both, where both have 64 bits.
pub make_dir-answers :
    (a : Answers) (p : Pdu) (c : ClientCon) (parent : ℕ) (rest : List ℕ)
    → c.is_verify ≡ true
    → p.msg ≡ to_le 8 (htonll parent) ++ rest
    → parent < limit 8
    → (a.inserted == 0) ≡ false
    → a.inserted < limit 8
    → (r : PduRespond) × (make_dir a p c ≡ record {
      con = c;
      acts =
          inserts (to_string c.user_info.user) (to_string p.file_name) [] 0 parent (100 ∷ [])
          ∷ sends r
          ∷ [];
      fine = true;
    })
      × (ntohll (from_le (take 8 r.msg)) ≡ a.inserted)
      × (ntohll (from_le (take 8 (drop 8 r.msg))) ≡ parent)
unfolding make_dir dir_respond
make_dir-answers a p c parent rest known asked fits made id_fits =
    let told : ntohll (from_le (take 8 p.msg)) ≡ parent = rw asked (read_id parent rest fits) in
    let tail : List ℕ = to_le 8 (htonll parent) ++ p.file_name in
    let size : length (to_le 8 (htonll a.inserted)) ≡ 8 = length-to_le 8 (htonll a.inserted) in
    let behind : drop 8 (to_le 8 (htonll a.inserted) ++ tail) ≡ tail =
      ap (λ n. drop n (to_le 8 (htonll a.inserted) ++ tail)) (sym size)
      ∙ drop-length-append (to_le 8 (htonll a.inserted)) tail in
    (
      dir_respond a.inserted parent p.file_name,
      simp (make_dir, told, known, made),
      read_id a.inserted tail id_fits,
      rw behind (read_id parent p.file_name fits),
    )
