-- ===== src/EventLoop/Dispatch.antt =====
-- handleClientTask and the getTool functions of NetDisk-Server/Server/code/server/EventLoop.cpp: which
-- tool a message is given to. A tool is the structure that its object is made with; the result has
-- `client_type` of the connection with it. `none` is an access outside of the buffer.
use qt_asio_net_disk.Base.{
  ℕ, ◌+◌, List, [], Option, none, some, replicate, ◌==◌, ◌||◌, if◌then◌else◌,
}
use qt_asio_net_disk.Wire.Get.{Decoded, done, overrun}
use qt_asio_net_disk.Protocol.{
  ProtocolHeader, Pdu, TranPdu, TranDataPdu, TranFinishPdu, TranControlPdu, header_len, pdu_type,
  tran_pdu_type, tran_data_pdu_type, tran_finish_pdu_type, tran_control_pdu_type,
}
use qt_asio_net_disk.Protocol.Code
use qt_asio_net_disk.Serializer.Header.{deserialize_header}
use qt_asio_net_disk.Serializer.Pdu.{deserialize_pdu}
use qt_asio_net_disk.Serializer.TranPdu.{deserialize_tran_pdu}
use qt_asio_net_disk.Serializer.TranDataPdu.{deserialize_tran_data_pdu}
use qt_asio_net_disk.Serializer.TranFinishPdu.{deserialize_tran_finish_pdu}
use qt_asio_net_disk.Serializer.TranControlPdu.{deserialize_tran_control_pdu}
use qt_asio_net_disk.EventLoop.{no_header}

pub data Tool : Type 0 where
  login_tool sign_tool cd_tool create_dir_tool delete_tool : Pdu → Tool
  puts_tool gets_tool : TranPdu → Tool
  puts_data_tool gets_data_tool : TranDataPdu → Tool
  puts_finish_tool gets_finish_tool : TranFinishPdu → Tool
  gets_control_tool : TranControlPdu → Tool

-- AbstractCon::ConType::PUTTASK and GETTASK
abbrev pub put_task : ℕ
put_task = 2

abbrev pub get_task : ℕ
get_task = 3

unfoldable pub get_pdu_tool : Pdu → Option Tool
get_pdu_tool p =
    if p.code == Code.signin
    then some (login_tool p)
    else if p.code == Code.signup
    then some (sign_tool p)
    else if p.code == Code.cd
    then some (cd_tool p)
    else if p.code == Code.makedir
    then some (create_dir_tool p)
    else if p.code == Code.deletefile
    then some (delete_tool p)
    else none

unfoldable pub get_tran_tool : TranPdu → ℕ → Option Tool × ℕ
get_tran_tool p client_type =
    if (p.tran_pdu_code == Code.puts) || (p.tran_pdu_code == Code.putscontinue)
    then (some (puts_tool p), put_task)
    else if p.tran_pdu_code == Code.gets
    then (some (gets_tool p), get_task)
    else (none, client_type)

unfoldable pub get_data_tool : TranDataPdu → Option Tool
get_data_tool p =
    if p.code == Code.puts_data
    then some (puts_data_tool p)
    else if p.code == Code.gets_data
    then some (gets_data_tool p)
    else none

unfoldable pub get_finish_tool : TranFinishPdu → Option Tool
get_finish_tool p =
    if p.code == Code.puts_finish
    then some (puts_finish_tool p)
    else if p.code == Code.gets_finish
    then some (gets_finish_tool p)
    else none

unfoldable pub get_control_tool : TranControlPdu → Option Tool
get_control_tool p = if p.code == Code.gets_control then some (gets_control_tool p) else none

-- The objects that the branches declare.
abbrev pub no_pdu : Pdu
no_pdu = record {
  header = no_header;
  code = 0;
  user = replicate 20 0;
  pwd = replicate 20 0;
  file_name = replicate 100 0;
  msg_len = 0;
  msg = replicate 200 0;
}

abbrev pub no_tran_pdu : TranPdu
no_tran_pdu = record {
  header = no_header;
  tran_pdu_code = 0;
  user = replicate 20 0;
  pwd = replicate 20 0;
  file_name = replicate 100 0;
  file_md5 = replicate 100 0;
  file_size = 0;
  sended_size = 0;
  parent_dir_id = 0;
}

abbrev pub no_tran_data_pdu : TranDataPdu
no_tran_data_pdu = record {
  header = no_header;
  code = 0;
  status = 0;
  file_offset = 0;
  chunk_size = 0;
  total_chunks = 0;
  chunk_index = 0;
  check_sum = 0;
  content = [];
}

abbrev pub no_tran_finish_pdu : TranFinishPdu
no_tran_finish_pdu = record {
  header = no_header;
  code = 0;
  file_size = 0;
  file_md5 = replicate 100 0;
}

abbrev pub no_tran_control_pdu : TranControlPdu
no_tran_control_pdu = record { header = no_header; code = 0; action = 0; msg_len = 0; msg = [] }

-- A branch: nothing is done where the message is not read.
unfoldable pub branch :
    {A : Type 0} → Decoded A → (A → ℕ → Option Tool × ℕ) → ℕ → Option (Option Tool × ℕ)
branch (done fine p) get client_type =
    if fine then some (get p client_type) else some (none, client_type)
branch overrun get client_type = none

unfoldable pub handle_type : ProtocolHeader → List ℕ → ℕ → Option (Option Tool × ℕ)
handle_type h buf client_type =
    let pdu_len = header_len + h.body_len in
    if h.type == pdu_type
    then branch (deserialize_pdu buf pdu_len no_pdu) (λ p t. (get_pdu_tool p, t)) client_type
    else if h.type == tran_pdu_type
    then branch (deserialize_tran_pdu buf pdu_len no_tran_pdu) get_tran_tool client_type
    else if h.type == tran_data_pdu_type
    then branch (deserialize_tran_data_pdu buf pdu_len no_tran_data_pdu)
        (λ p t. (get_data_tool p, t)) client_type
    else if h.type == tran_finish_pdu_type
    then branch (deserialize_tran_finish_pdu buf pdu_len no_tran_finish_pdu)
        (λ p t. (get_finish_tool p, t)) client_type
    else if h.type == tran_control_pdu_type
    then branch (deserialize_tran_control_pdu buf pdu_len no_tran_control_pdu)
        (λ p t. (get_control_tool p, t)) client_type
    else some (none, client_type)

-- The switch is on the header, which is read first; a read outside of the buffer ends it.
unfoldable pub after_header : Decoded ProtocolHeader → List ℕ → ℕ → Option (Option Tool × ℕ)
after_header (done fine h) buf client_type = handle_type h buf client_type
after_header overrun buf client_type = none

unfoldable pub handle_client_task : List ℕ → ℕ → Option (Option Tool × ℕ)
handle_client_task buf client_type =
    after_header (deserialize_header buf header_len no_header) buf client_type
