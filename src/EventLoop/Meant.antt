-- ===== src/EventLoop/Meant.antt =====
-- Which tool each operation code of a message asks for, as a list, and that the getTool functions of
-- NetDisk-Server/Server/code/server/EventLoop.cpp follow it.
use qt_asio_net_disk.Base.{ℕ, ◌≡◌, List, [], ◌∷◌, Option, none, some, arith, ◌==◌, if◌then◌else◌}
use qt_asio_net_disk.Protocol.{Pdu, TranPdu, TranDataPdu, TranFinishPdu, TranControlPdu}
use qt_asio_net_disk.Protocol.Code
use qt_asio_net_disk.EventLoop.Dispatch.{
  Tool, login_tool, sign_tool, cd_tool, create_dir_tool, delete_tool, puts_tool, gets_tool,
  puts_data_tool, gets_data_tool, puts_finish_tool, gets_finish_tool, gets_control_tool, put_task,
  get_task, get_pdu_tool, get_tran_tool, get_data_tool, get_finish_tool, get_control_tool,
}

-- The entry of a code in a list of codes.
abbrev pub find : {A : Type 0} → ℕ → List (ℕ × A) → Option A
find code [] = none
find code (e ∷ es) = if code == e.0 then some e.1 else find code es

abbrev pub made : {A : Type 0} → Option (A → Tool) → A → Option Tool
made none p = none
made (some tool) p = some (tool p)

-- What each code asks for, for every type of message.
abbrev pub pdu_codes : List (ℕ × (Pdu → Tool))
pdu_codes =
    (Code.signup, sign_tool)
    ∷ (Code.signin, login_tool)
    ∷ (Code.makedir, create_dir_tool)
    ∷ (Code.deletefile, delete_tool)
    ∷ (Code.cd, cd_tool)
    ∷ []

-- With the type of the connection.
abbrev pub tran_codes : List (ℕ × ((TranPdu → Tool) × ℕ))
tran_codes =
    (Code.gets, (gets_tool, get_task))
    ∷ (Code.puts, (puts_tool, put_task))
    ∷ (Code.putscontinue, (puts_tool, put_task))
    ∷ []

abbrev pub data_codes : List (ℕ × (TranDataPdu → Tool))
data_codes = (Code.gets_data, gets_data_tool) ∷ (Code.puts_data, puts_data_tool) ∷ []

abbrev pub finish_codes : List (ℕ × (TranFinishPdu → Tool))
finish_codes = (Code.gets_finish, gets_finish_tool) ∷ (Code.puts_finish, puts_finish_tool) ∷ []

abbrev pub control_codes : List (ℕ × (TranControlPdu → Tool))
control_codes = (Code.gets_control, gets_control_tool) ∷ []

-- A transfer that begins: its tool, and the type that its connection gets.
abbrev pub begun : Option ((TranPdu → Tool) × ℕ) → TranPdu → ℕ → Option Tool × ℕ
begun none p t = (none, t)
begun (some e) p t = (some (e.0 p), e.1)

pub get_pdu_tool_lem : (p : Pdu) → get_pdu_tool p ≡ made (find p.code pdu_codes) p
unfolding get_pdu_tool
get_pdu_tool_lem p = ground arith

pub get_tran_tool_lem :
    (p : TranPdu) (t : ℕ) → get_tran_tool p t ≡ begun (find p.tran_pdu_code tran_codes) p t
unfolding get_tran_tool
get_tran_tool_lem p t = ground arith

pub get_data_tool_lem : (p : TranDataPdu) → get_data_tool p ≡ made (find p.code data_codes) p
unfolding get_data_tool
get_data_tool_lem p = ground arith

pub get_finish_tool_lem :
    (p : TranFinishPdu) → get_finish_tool p ≡ made (find p.code finish_codes) p
unfolding get_finish_tool
get_finish_tool_lem p = ground arith

pub get_control_tool_lem :
    (p : TranControlPdu) → get_control_tool p ≡ made (find p.code control_codes) p
unfolding get_control_tool
get_control_tool_lem p = ground arith
