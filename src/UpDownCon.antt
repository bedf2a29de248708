-- ===== src/UpDownCon.antt =====
-- UpDownCon of NetDisk-Server/Server/code/pool/UpDownCon.cpp and UpDownCon.h: the connection of an
-- upload or a download. A pointer, descriptor or socket that may be missing is an Option; a
-- `std::string` is the list of its bytes. What the code asks of OpenSSL and of the system is a list
-- of effects; its failures are only logged. Each function is one step: two threads that are in `close`
-- at once, whose flag is no atomic, are not modelled.
pub mod Laws
mod Examples
use qt_asio_net_disk.Base.{
  ℕ, zero, suc, ◌+◌, ◌-◌, ◌%◌, ◌^◌, List, [], ◌∷◌, ◌++◌, Option, none, some, Bool, true, false, ltb,
  leb, ◌==◌, ◌&&◌, if◌then◌else◌,
}
use qt_asio_net_disk.Protocol.{UserInfo}

-- `file_map` is the address of the mapped file.
pub record UdTask : Type 0 where
  pub task_type : ℕ
  pub file_name : List ℕ
  pub file_md5 : List ℕ
  pub file_size : ℕ
  pub handled_size : ℕ
  pub parent_dir_id : ℕ
  pub file_fd : Option ℕ
  pub file_map : Option ℕ

-- AbstractCon::ConType
abbrev pub put_task : ℕ
put_task = 2

pub data UdStatus : Type 0 where
  starting doing paused fin closed : UdStatus

abbrev pub same_status : UdStatus → UdStatus → Bool
same_status starting starting = true
same_status doing doing = true
same_status paused paused = true
same_status fin fin = true
same_status closed closed = true
same_status _ _ = false

-- `user_count` is the static counter of all connections, the 32 bits of an atomic int; `user` the string of `user_info_.user`.
pub record UpDownCon : Type 0 where
  pub status : UdStatus
  pub is_close : Bool
  pub is_vip : Bool
  pub client_ssl : Option ℕ
  pub client_sock : Option ℕ
  pub user : List ℕ
  pub task : UdTask
  pub user_count : ℕ

pub data Effect : Type 0 where
  shuts_down_ssl frees_ssl closes_sock closes_file : ℕ → Effect
  unmaps : Option ℕ → ℕ → Effect
  removes : List ℕ → Effect

abbrev pub no_task : UdTask
no_task = record {
  task_type = 1;
  file_name = [];
  file_md5 = [];
  file_size = 0;
  handled_size = 0;
  parent_dir_id = 0;
  file_fd = none;
  file_map = none;
}

-- UpDownCon(sockfd, ssl), with `users` connections before it.
unfoldable pub connect : ℕ → ℕ → ℕ → UpDownCon
connect sockfd ssl users = record {
  status = starting;
  is_close = false;
  is_vip = false;
  client_ssl = some ssl;
  client_sock = some sockfd;
  user = [];
  task = no_task;
  user_count = (users + 1) % 2 ^ 32;
}

-- `--user_count`
abbrev pub one_less : ℕ → ℕ
one_less n = (n + 2 ^ 32 - 1) % 2 ^ 32

-- The bytes of an array of `char` up to the first zero.
unfoldable pub to_string : List ℕ → List ℕ
to_string [] = []
to_string (b ∷ bs) = let rest = to_string bs in if b == 0 then [] else b ∷ rest

-- `"1" == s`
unfoldable pub is_one : List ℕ → Bool
is_one (b ∷ []) = b == 49
is_one _ = false

unfoldable pub copy_task : UpDownCon → UdTask → UpDownCon
copy_task c task = record c {
  task = record {
    task_type = task.task_type;
    file_name = task.file_name;
    file_md5 = task.file_md5;
    file_size = task.file_size;
    handled_size = task.handled_size;
    parent_dir_id = task.parent_dir_id;
    file_fd = task.file_fd;
    file_map = task.file_map;
  };
}

unfoldable pub init : UpDownCon → UserInfo → UdTask → UpDownCon
init c info task = record (copy_task c task) {
  user = to_string info.user;
  is_vip = is_one (to_string info.is_vip);
}

-- addTaskHandleSize: `fetch_add` on 64 bits.
unfoldable pub add_handle_size : UpDownCon → ℕ → UpDownCon
add_handle_size c size = record c {
  task = record c.task { handled_size = (c.task.handled_size + size) % 2 ^ 64 };
}

-- lessEqualAddTaskHandleSize
unfoldable pub less_equal_add : UpDownCon → ℕ → ℕ → UpDownCon × Bool
less_equal_add c num size =
    if leb c.task.handled_size num then (add_handle_size c size, true) else (c, false)

-- The checks of PutsDataTool::recvFileData in NetDisk-Server/Server/code/tool/LongTaskTool.cpp, before
-- the data is copied: `data_size` is that of the data, `part` the chunk_size of the message.
unfoldable pub reserve : UpDownCon → ℕ → ℕ → UpDownCon × Bool
reserve c data_size part =
    if ltb data_size part
    then (c, false)
    else less_equal_add c ((c.task.file_size + 2 ^ 64 - part) % 2 ^ 64) part

-- setStatus
unfoldable pub set_status : UpDownCon → UdStatus → UpDownCon
set_status c status = record c { status = status }

unfoldable pub cmp_exchange : UpDownCon → UdStatus → UdStatus → UpDownCon × Bool
cmp_exchange c expected desired =
    if same_status c.status expected then (record c { status = desired }, true) else (c, false)

-- The first SSL_shutdown may return 0, `half`, and is called again.
unfoldable pub ssl_effects : Option ℕ → Bool → List Effect
ssl_effects none half = []
ssl_effects (some ssl) half =
    if half
    then shuts_down_ssl ssl ∷ shuts_down_ssl ssl ∷ frees_ssl ssl ∷ []
    else shuts_down_ssl ssl ∷ frees_ssl ssl ∷ []

unfoldable pub sock_effects : Option ℕ → UdTask → List Effect
sock_effects none task = []
sock_effects (some sock) task = closes_sock sock ∷ unmaps task.file_map task.file_size ∷ []

unfoldable pub file_effects : Option ℕ → List Effect
file_effects none = []
file_effects (some fd) = closes_file fd ∷ []

-- ROOTFILEPATH, and the slash between the parts of a path.
abbrev pub root_file_path : List ℕ
root_file_path = 114 ∷ 111 ∷ 111 ∷ 116 ∷ 102 ∷ 105 ∷ 108 ∷ 101 ∷ 115 ∷ []

abbrev pub file_path : UpDownCon → List ℕ
file_path c = root_file_path ++ 47 ∷ (c.user ++ 47 ∷ c.task.file_md5)

-- An upload that is not complete loses its file.
unfoldable pub remove_effects : UpDownCon → List Effect
remove_effects c =
    if ltb c.task.handled_size c.task.file_size && (c.task.task_type == put_task)
    then removes (file_path c) ∷ []
    else []

-- The address of the mapping is forgotten only with a socket.
abbrev pub map_left : Option ℕ → Option ℕ → Option ℕ
map_left none map = map
map_left (some sock) map = none

unfoldable pub close : UpDownCon → Bool → UpDownCon × List Effect
close c half = if c.is_close then (c, []) else (
  record c {
    status = closed;
    is_close = true;
    client_ssl = none;
    task = record c.task { file_fd = none; file_map = map_left c.client_sock c.task.file_map };
    user_count = one_less c.user_count;
  },
  ssl_effects c.client_ssl half
      ++ (sock_effects c.client_sock c.task ++ (file_effects c.task.file_fd ++ remove_effects c)),
)
