-- ===== src/ShortTask.antt =====
-- The tools of NetDisk-Server/Server/code/tool/ShortTaskTool.cpp, and ClientCon of
-- NetDisk-Server/Server/code/pool/ClientCon.cpp: sign in, sign up, list, make a directory, delete.
-- What the database and the file system answer comes from outside, as the fields of `Answers`;
-- what is asked of them, and what is sent, is a list of acts in their order.
pub mod Laws
pub mod LoginLaws
mod Examples
use qt_asio_net_disk.Base.{
  ℕ, zero, suc, ◌+◌, ◌-◌, List, [], ◌∷◌, ◌++◌, Option, none, some, Bool, true, false, length, take,
  ◌==◌, not, if◌then◌else◌,
}
use qt_asio_net_disk.Wire.Bytes.{to_le, from_le}
use qt_asio_net_disk.Wire.Order.{htonl, htonll, ntohll}
use qt_asio_net_disk.Protocol.{Pdu, PduRespond, UserInfo, FileInfo, pdu_respond_body_len}
use qt_asio_net_disk.Protocol.Code
use qt_asio_net_disk.Protocol.Status
use qt_asio_net_disk.UpDownCon.{
  to_string, is_one, one_less, root_file_path, Effect, ssl_effects, closes_sock,
}
use qt_asio_net_disk.LongTask.{get_suffix, is_dir, has_cipher, answer}

-- `user_count` is the static counter of all connections, the 32 bits of an atomic int.
pub record ClientCon : Type 0 where
  pub client_ssl : Option ℕ
  pub client_sock : Option ℕ
  pub user_info : UserInfo
  pub is_verify : Bool
  pub is_vip : Bool
  pub is_close : Bool
  pub user_count : ℕ

pub record Answers : Type 0 where
  -- getUserInfo, if it returns true
  pub user_info : Option UserInfo
  -- getUserExist, insertUser, generateHash
  pub user_exists : Bool
  pub user_inserted : Bool
  pub cipher : List ℕ
  -- getcwd; what stat finds, and whether it is a directory; mkdir
  pub directory : Option (List ℕ)
  pub found : Option Bool
  pub made : Bool
  -- getUserAllFileInfo, if it returns true
  pub files : Option (List FileInfo)
  -- insertFileData
  pub inserted : ℕ
  -- deleteOneDir or deleteOneFile
  pub deleted : Bool

-- A query of the database, a change of it, a directory that is made, or an answer.
pub data Act : Type 0 where
  asks_user : List ℕ → List ℕ → Act
  asks_exist asks_files : List ℕ → Act
  sends : PduRespond → Act
  sends_files : List FileInfo → Act
  inserts_user : List ℕ → List ℕ → List ℕ → Act
  makes_dir : List ℕ → Act
  inserts : List ℕ → List ℕ → List ℕ → ℕ → ℕ → List ℕ → Act
  deletes_dir deletes_file : List ℕ → ℕ → Act

-- What doingTask leaves: the connection, what was done, and whether 0 is returned, else -1.
pub record Done : Type 0 where
  pub con : ClientCon
  pub acts : List Act
  pub fine : Bool

-- ClientCon::init, and setVerify(true) after it
unfoldable pub verified : ClientCon → UserInfo → ClientCon
verified c info = record c {
  user_info = info;
  is_vip = is_one (to_string info.is_vip);
  is_verify = true;
}

unfoldable pub sock_effects : Option ℕ → List Effect
sock_effects none = []
sock_effects (some sock) = closes_sock sock ∷ []

-- ClientCon::close; the first SSL_shutdown may return 0, `half`.
unfoldable pub close : ClientCon → Bool → ClientCon × List Effect
close c half = if c.is_close then (c, []) else (
  record c { client_ssl = none; is_close = true; user_count = one_less c.user_count },
  ssl_effects c.client_ssl half ++ sock_effects c.client_sock,
)

-- `respond.msg.append(...)` of the eight fields.
unfoldable pub user_msg : UserInfo → List ℕ
user_msg i =
    i.user
    ++ (i.pwd
        ++ (i.cipher
            ++ (i.is_vip ++ (i.capacity_sum ++ (i.used_capacity ++ (i.salt ++ i.vip_date))))))

-- The answer with the user's information: `USERSCOLLEN*USERSCOLMAXSIZE` bytes.
unfoldable pub user_respond : ℕ → UserInfo → PduRespond
user_respond code info =
    let r = answer code Status.success in
    record r {
      header = record r.header { body_len = pdu_respond_body_len + 400 };
      msg_amount = 1;
      msg_len = 400;
      msg = user_msg info;
    }

-- LoginTool
unfoldable pub login : Answers → Pdu → ClientCon → Done
login a p c =
    let asks = asks_user (to_string p.user) (to_string p.pwd) in
    let refused : Done = record {
      con = c;
      acts = asks ∷ sends (answer Code.signin Status.failed) ∷ [];
      fine = false;
    } in
    elim a.user_info [
      | none ↦ refused
      | some info ↦
          if has_cipher info
          then record {
            con = verified c info;
            acts = asks ∷ sends (user_respond Code.signin info) ∷ [];
            fine = true;
          }
          else refused
    ]

-- The root directory of a user: the working directory, ROOTFILEPATH and the name.
abbrev pub user_dir : List ℕ → Pdu → List ℕ
user_dir cwd p = cwd ++ 47 ∷ (root_file_path ++ 47 ∷ to_string p.user)

-- SignTool::createDir
unfoldable pub create_dir : Answers → Pdu → List Act × Bool
create_dir a p = elim a.directory [
  | none ↦ ([], false)
  | some cwd ↦ elim a.found [
    | none ↦ (makes_dir (user_dir cwd p) ∷ [], a.made)
    | some dir ↦ ([], dir)
  ]
]

abbrev pub sign_failed : ClientCon → List Act → Done
sign_failed c acts = record {
  con = c;
  acts = acts ++ sends (answer Code.signup Status.failed) ∷ [];
  fine = false;
}

-- SignTool. Where the second look-up fails, `info` is the object as it was made.
unfoldable pub sign : Answers → UserInfo → Pdu → ClientCon → Done
sign a blank p c =
    let exists = asks_exist (to_string p.user) in
    let insert = exists ∷ inserts_user (to_string p.user) (to_string p.pwd) a.cipher ∷ [] in
    let again = asks_user (to_string p.user) (to_string p.pwd) in
    let d = create_dir a p in
    let info = elim a.user_info as (λ o. UserInfo) [ none ↦ blank | some i ↦ i ] in
    let ended : Done =
      if d.1
      then record {
        con = verified c info;
        acts = insert ++ (d.0 ++ again ∷ sends (user_respond Code.signup info) ∷ []);
        fine = true;
      }
      else sign_failed c (insert ++ d.0) in
    if a.user_exists
    then sign_failed c (exists ∷ [])
    else if a.user_inserted
    then ended
    else sign_failed c insert

-- The answer to a client that has not signed in.
abbrev pub refuse : ClientCon → ℕ → Done
refuse c code = record { con = c; acts = sends (answer code Status.not_verify) ∷ []; fine = false }

-- CdTool: the number of files, then the files.
unfoldable pub cd : Answers → Pdu → ClientCon → Done
cd a p c =
    let asks = asks_files (to_string c.user_info.user) in
    let listed = elim a.files as (λ o. Done) [
      | none ↦ record {
        con = c;
        acts = asks ∷ sends (answer Code.cd Status.failed) ∷ [];
        fine = false;
      }
      | some files ↦
          let r = answer Code.cd Status.success in
          let counted = record r {
            header = record r.header { body_len = pdu_respond_body_len + 4 };
            msg_amount = 1;
            msg_len = 4;
            msg = to_le 4 (htonl (length files));
          } in
          record { con = c; acts = asks ∷ sends counted ∷ sends_files files ∷ []; fine = true }
    ] in
    if c.is_verify then listed else refuse c Code.cd

-- The answer with the new directory: its identifier, that of its parent, and its name.
unfoldable pub dir_respond : ℕ → ℕ → List ℕ → PduRespond
dir_respond new_id parent_dir_id file_name =
    let r = answer Code.makedir Status.success in
    record r {
      header = record r.header { body_len = pdu_respond_body_len + 116 };
      msg_amount = 1;
      msg_len = 116;
      msg = to_le 8 (htonll new_id) ++ (to_le 8 (htonll parent_dir_id) ++ file_name);
    }

-- CreateDirTool: the parent is in the first eight bytes of `msg`.
unfoldable pub make_dir : Answers → Pdu → ClientCon → Done
make_dir a p c =
    let parent = ntohll (from_le (take 8 p.msg)) in
    let insert =
      inserts (to_string c.user_info.user) (to_string p.file_name) [] 0 parent (100 ∷ []) in
    let r =
      if a.inserted == 0
      then answer Code.makedir Status.failed
      else dir_respond a.inserted parent p.file_name in
    if c.is_verify
    then record { con = c; acts = insert ∷ sends r ∷ []; fine = true }
    else refuse c Code.makedir

-- DeleteTool: the identifier is in the first eight bytes of `pwd`.
unfoldable pub delete : Answers → Pdu → ClientCon → Done
delete a p c =
    let user = to_string c.user_info.user in
    let file_id = ntohll (from_le (take 8 p.pwd)) in
    let act =
      if is_dir (get_suffix (to_string p.file_name))
      then deletes_dir user file_id
      else deletes_file user file_id in
    let r = answer Code.deletefile (if a.deleted then Status.success else Status.failed) in
    let asked =
      if c.is_verify
      then record { con = c; acts = act ∷ sends r ∷ []; fine = true }
      else refuse c Code.deletefile in
    elim c.client_ssl [ none ↦ record { con = c; acts = []; fine = false } | some ssl ↦ asked ]
