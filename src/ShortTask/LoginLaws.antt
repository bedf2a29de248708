-- ===== src/ShortTask/LoginLaws.antt =====
-- What a client reads in the answer to its sign in.
use qt_asio_net_disk.Base.{
  ℕ, zero, suc, ◌≤◌, ◌≡◌, ◌⊎◌, List, [], ◌∷◌, Option, some, true, false, take, drop,
}
use qt_asio_net_disk.Protocol.{Pdu, PduRespond, IsPduRespond, UserInfo}
use qt_asio_net_disk.Protocol.Code
use qt_asio_net_disk.Protocol.Status
use qt_asio_net_disk.UpDownCon.{to_string, is_one}
use qt_asio_net_disk.LongTask.{has_cipher}
use qt_asio_net_disk.ShortTask.{ClientCon, Answers, sends, asks_user, Done, login}

-- The first `n` fields of 50 bytes.
abbrev pub fields : ℕ → List ℕ → List (List ℕ)
fields zero bs = []
fields (suc n) bs = take 50 bs ∷ fields n (drop 50 bs)

abbrev pub user_fields : UserInfo → List (List ℕ)
user_fields i =
    i.user ∷ i.pwd ∷ i.cipher ∷ i.is_vip ∷ i.capacity_sum ∷ i.used_capacity ∷ i.salt ∷ i.vip_date
    ∷ []

-- The user is known, with a cipher: the client reads all of its fields, and the connection has them.
pub record SignedIn (a : Answers) (d : Done) (r : PduRespond) : Type 0 where
  pub info : UserInfo
  pub known : a.user_info ≡ some info
  pub cipher : has_cipher info ≡ true
  pub status : r.status ≡ Status.success
  pub told : fields 8 r.msg ≡ user_fields info
  pub fine : d.fine ≡ true
  pub is_verify : d.con.is_verify ≡ true
  pub user_info : d.con.user_info ≡ info
  pub is_vip : d.con.is_vip ≡ is_one (to_string info.is_vip)

-- The user is not known, or has no cipher: the client reads a failure without any field.
pub record Refused (a : Answers) (c : ClientCon) (d : Done) (r : PduRespond) : Type 0 where
  pub unknown : (info : UserInfo) → a.user_info ≡ some info → has_cipher info ≡ false
  pub status : r.status ≡ Status.failed
  pub told : r.msg ≡ []
  pub fine : d.fine ≡ false
  pub same : d.con ≡ c

-- The answer without its way over the network.
abbrev Told : Answers → Pdu → ClientCon → Type 0
Told a p c =
    (r : PduRespond) × IsPduRespond r
    × (r.code ≡ Code.signin)
    × (r.msg_len ≤ 400)
    × ((login a p c).acts ≡ asks_user (to_string p.user) (to_string p.pwd) ∷ sends r ∷ [])
    × (SignedIn a (login a p c) r ⊎ Refused a c (login a p c) r)
