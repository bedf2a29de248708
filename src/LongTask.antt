-- ===== src/LongTask.antt =====
-- The tools of NetDisk-Server/Server/code/tool/LongTaskTool.cpp, and getSuffix of AbstractTool.cpp:
-- uploads and downloads. What the database and the file system answer comes from outside, as the
-- fields of `Answers`; what is done to them, and what is sent, is a list of acts in their order.
pub mod Puts
pub mod PutsData
pub mod Gets
pub mod GetsData
pub mod Control
pub mod PutsLaws
pub mod ResumeLaws
pub mod GetsLaws
pub mod UploadLaws
pub mod WholeUpload
pub mod DownloadLaws
mod Examples
use qt_asio_net_disk.Base.{
  ℕ, List, [], ◌∷◌, ◌++◌, Option, none, some, Bool, true, false, ◌==◌, if◌then◌else◌,
}
use qt_asio_net_disk.Protocol.{
  ProtocolHeader, PduRespond, UserInfo, pdu_respond_type, pdu_respond_body_len,
}
use qt_asio_net_disk.UpDownCon.{UpDownCon, UdStatus, set_status, to_string, root_file_path}

-- The connection of a transfer: what UpDownCon and AbstractCon hold.
pub record Link : Type 0 where
  pub con : UpDownCon
  pub is_verify : Bool
  pub client_type : ℕ

-- AbstractCon::LONGTASK and AbstractCon::GETTASKWAITCHECK
abbrev pub long_task : ℕ
long_task = 1

abbrev pub get_task_wait_check : ℕ
get_task_wait_check = 4

-- The flags of open that are set.
pub record Flags : Type 0 where
  pub writes : Bool
  pub creates : Bool
  pub exclusive : Bool

-- `O_RDWR | O_CREAT | O_EXCL` and `O_RDONLY`
abbrev pub create_new : Flags
create_new = record { writes = true; creates = true; exclusive = true }

abbrev pub read_only : Flags
read_only = record { writes = false; creates = false; exclusive = false }

pub record Answers : Type 0 where
  -- getUserInfo, if it returns true
  pub user_info : Option UserInfo
  -- getIsEnoughSpace
  pub enough_space : Bool
  -- getFileExist
  pub file_exists : Bool
  -- getFileMd5, if it returns true
  pub file_md5 : Option (List ℕ)
  -- insertFileData
  pub inserted : ℕ
  -- the size of the file that stat finds
  pub stat_size : Option ℕ
  -- open, ftruncate and mmap, if they do not fail
  pub opened : Flags → Option ℕ
  pub truncated : Bool
  pub mapped : Option ℕ

pub data Act : Type 0 where
  sends : PduRespond → Act
  opens : List ℕ → Flags → Act
  truncates maps : ℕ → ℕ → Act
  closes : ℕ → Act
  inserts : List ℕ → List ℕ → List ℕ → ℕ → ℕ → List ℕ → Act

-- What is behind the last dot, if there is one: `rfind` and `substr`.
unfoldable pub after_last_dot : List ℕ → Option (List ℕ)
after_last_dot [] = none
after_last_dot (b ∷ bs) = elim (after_last_dot bs) [
  | none ↦ if b == 46 then some bs else none
  | some suffix ↦ some suffix
]

-- "other"
abbrev pub other : List ℕ
other = 111 ∷ 116 ∷ 104 ∷ 101 ∷ 114 ∷ []

unfoldable pub get_suffix : List ℕ → List ℕ
get_suffix [] = []
get_suffix (b ∷ bs) = elim (after_last_dot (b ∷ bs)) [
  | none ↦ other
  | some [] ↦ other
  | some (c ∷ cs) ↦ c ∷ cs
]

-- `suffix == "d"`
unfoldable pub is_dir : List ℕ → Bool
is_dir (b ∷ []) = b == 100
is_dir _ = false

-- `std::string(info.cipher) != ""`
unfoldable pub has_cipher : UserInfo → Bool
has_cipher info = elim (to_string info.cipher) [ [] ↦ false | b ∷ bs ↦ true ]

-- The file of a user: ROOTFILEPATH "/" user "/" md5.
abbrev pub path_of : List ℕ → List ℕ → List ℕ
path_of user md5 = root_file_path ++ 47 ∷ (user ++ 47 ∷ md5)

-- PDURespond, with its type and its base length set.
abbrev pub answer : ℕ → ℕ → PduRespond
answer code status = record {
  header = record {
    type = pdu_respond_type;
    body_len = pdu_respond_body_len;
    version = 0;
    reserved = 0;
  };
  code = code;
  status = status;
  msg_amount = 0;
  msg_len = 0;
  msg = [];
}

abbrev pub with_status : Link → UdStatus → Link
with_status l s = record l { con = set_status l.con s }
