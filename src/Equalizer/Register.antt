-- ===== src/Equalizer/Register.antt =====
-- How a server joins the load balancer and how a client finds it: Server::connectEqualizer of
-- NetDisk-Server/Server/code/server/Server.cpp once it is connected, recvServerInfo and
-- sendServerInfoToClient of NetDisk-Server/LoadBalancing/code/equalizer/Equalizer.cpp, and the
-- constructor of ServerInfoPack, which the two protocol.h have in two spellings. The results of
-- read, write and send are arguments; a buffer that was read into is given as it is afterwards.
pub mod Laws
mod Examples
use qt_asio_net_disk.Base.{
  ℕ, ◌+◌, ◌-◌, ◌%◌, List, [], ◌∷◌, ◌++◌, Option, none, some, Bool, true, false, length, ltb, ◌==◌,
  ◌&&◌, if◌then◌else◌, take, replicate, same,
}
use qt_asio_net_disk.Heap.{◌>>=◌}
use qt_asio_net_disk.ServerHeap.{ServerHeap, no_server, get_min_server_info}
use qt_asio_net_disk.Wire.Bytes.{limit}
use qt_asio_net_disk.Wire.Put.{Outcome, ok, thrown, overrun}
use qt_asio_net_disk.Wire.Get.{Decoded, done, overrun}
use qt_asio_net_disk.Protocol.{
  ServerInfoPack, header_len, server_info_pack_type, server_info_pack_body_len,
}
use qt_asio_net_disk.Serializer.ServerInfoPack.{
  serialize_server_info_pack, deserialize_server_info_pack,
}
use qt_asio_net_disk.UpDownCon.{to_string}
use qt_asio_net_disk.Equalizer.{add_server}

-- What is done to a socket.
pub data Act : Type 0 where
  sends : ℕ → List ℕ → Act
  closes unblocks watches : ℕ → Act

-- A string in an array of `n` bytes that was zero, `n - 1` bytes of it at most.
unfoldable pub fill : ℕ → List ℕ → List ℕ
fill n s = let kept = take (n - 1) s in kept ++ replicate (n - length kept) 0

-- ServerInfoPack(ip, sport, lport, name)
abbrev pub server_info_pack : List ℕ → ℕ → ℕ → List ℕ → ServerInfoPack
server_info_pack ip sport lport name = record {
  header = record {
    type = server_info_pack_type;
    body_len = server_info_pack_body_len;
    version = 0;
    reserved = 0;
  };
  name = fill 31 name;
  ip = fill 21 ip;
  sport = sport;
  lport = lport;
  cur_con_count = 0;
}

-- ServerInfoPack()
abbrev pub no_info : ServerInfoPack
no_info = record {
  header = record { type = 0; body_len = 0; version = 0; reserved = 0 };
  name = replicate 31 0;
  ip = replicate 21 0;
  sport = 0;
  lport = 0;
  cur_con_count = 0;
}

-- `key_buf`, after a memcpy of the whole key.
unfoldable pub key_buf : List ℕ → Option (List ℕ)
key_buf key = if ltb 60 (length key) then none else some (key ++ replicate (60 - length key) 0)

-- The number of bytes read becomes the result: every number but 0, and so a failure as well.
unfoldable pub answered : Option ℕ → Bool
answered none = true
answered (some n) = if n == 0 then false else true

-- What follows the first write.
unfoldable pub send_key : ℕ → List ℕ → Bool → Option ℕ → List Act → Option (Bool × List Act)
send_key sock key written reply sent = key_buf key >>= λ bytes.
    if written
    then some (answered reply, sent ++ sends sock bytes ∷ [])
    else some (false, sent ++ closes sock ∷ [])

-- `first` and `second` tell that the writes succeed, `reply` is what read returns; `none` is an
-- exception or an access out of range.
unfoldable pub connect_equalizer :
    ℕ → List ℕ → ServerInfoPack → List ℕ → Bool → Bool → Option ℕ → Option (Bool × List Act)
connect_equalizer sock buf pack key first second reply =
    elim (serialize_server_info_pack buf pack) [
      | ok out ↦
          let info = take (header_len + pack.header.body_len) out in
          let rest = send_key sock key second reply (sends sock info ∷ []) in
          if first then rest else some (false, closes sock ∷ [])
      | thrown e ↦ none
      | overrun ↦ none
    ]

-- `false` is sent and the connection is closed.
unfoldable pub refuse_server : ServerHeap → ℕ → Option (ServerHeap × List Act)
refuse_server h sock = some (h, sends sock (0 ∷ []) ∷ closes sock ∷ [])

-- Whether an array of bytes has a zero.
unfoldable pub has_end : List ℕ → Bool
has_end [] = false
has_end (b ∷ bs) = let rest = has_end bs in if b == 0 then true else rest

-- std::string of an array of `char`, which must have an end.
unfoldable pub string_of : List ℕ → Option (List ℕ)
string_of bs = if has_end bs then some (to_string bs) else none

-- From the answer `true` on; `sent` tells that its send succeeds. The ports become `uint16_t`.
unfoldable pub accept_server :
    ServerHeap → ℕ → ServerInfoPack → Bool → Option (ServerHeap × List Act)
accept_server h sock p sent =
    let added = string_of p.ip >>= λ ip. string_of p.name >>= λ name.
    add_server h sock p.cur_con_count ip (p.sport % limit 2) (p.lport % limit 2) name >>= λ g.
    some (g, sends sock (1 ∷ []) ∷ unblocks sock ∷ watches sock ∷ []) in
    if sent then added else some (h, closes sock ∷ [])

-- From the second read on.
unfoldable pub check_key :
    List ℕ
    → ServerHeap
    → ℕ
    → ServerInfoPack
    → Option (List ℕ)
    → Bool
    → Option (ServerHeap × List Act)
check_key con_key h sock p none sent = refuse_server h sock
check_key con_key h sock p (some key) sent = string_of key >>= λ k.
    if same k con_key then accept_server h sock p sent else refuse_server h sock

-- What follows the deserialization.
unfoldable pub check_info :
    List ℕ
    → ServerHeap
    → ℕ
    → Decoded ServerInfoPack
    → Option (List ℕ)
    → Bool
    → Option (ServerHeap × List Act)
check_info con_key h sock (done true p) key sent = check_key con_key h sock p key sent
check_info con_key h sock (done false p) key sent = refuse_server h sock
check_info con_key h sock overrun key sent = none

-- `info` and `key` are the two buffers after their reads, `none` where a read returns 0 or less.
unfoldable pub recv_server_info :
    List ℕ
    → ServerHeap
    → ℕ
    → Option (List ℕ)
    → Option (List ℕ)
    → Bool
    → Option (ServerHeap × List Act)
recv_server_info con_key h sock none key sent = refuse_server h sock
recv_server_info con_key h sock (some buf) key sent =
    check_info con_key h sock
      (deserialize_server_info_pack buf (header_len + server_info_pack_body_len) no_info) key sent

-- What is done with the serialized information; an exception is caught.
unfoldable pub send_info : ℕ → Outcome (List ℕ) → Bool → Option (List Act)
send_info sock (ok out) true =
    some (sends sock (take (header_len + server_info_pack_body_len) out) ∷ closes sock ∷ [])
send_info sock (ok out) false = some (closes sock ∷ [])
send_info sock (thrown e) sent = some []
send_info sock overrun sent = none

-- `buf` is the buffer that the serializer gets, `sent` tells that send succeeds.
unfoldable pub send_server_info_to_client : ServerHeap → ℕ → List ℕ → Bool → Option (List Act)
send_server_info_to_client h sock buf sent =
    let (found, s) = get_min_server_info h no_server in
    let pack = server_info_pack s.ip s.s_port s.l_port s.server_name in
    let answer = send_info sock (serialize_server_info_pack buf pack) sent in
    if ltb 0 sock && found then answer else some []
