-- ===== src/LongTask/Gets.antt =====
-- GetsTool: the start of a download.
use qt_asio_net_disk.Base.{
  ℕ, ◌+◌, List, [], ◌∷◌, ◌++◌, none, some, Bool, true, false, length, ltb, ◌==◌, if◌then◌else◌,
}
use qt_asio_net_disk.Wire.Bytes.{to_le}
use qt_asio_net_disk.Wire.Order.{htonll}
use qt_asio_net_disk.Protocol.{TranPdu, PduRespond, UserInfo, pdu_respond_body_len}
use qt_asio_net_disk.Protocol.Code
use qt_asio_net_disk.Protocol.Status
use qt_asio_net_disk.UpDownCon.{
  UdTask, starting, doing, closed, same_status, no_task, to_string, init,
}
use qt_asio_net_disk.LongTask.{
  Link, Answers, Act, sends, opens, read_only, maps, closes, has_cipher, path_of, answer,
  with_status,
}
use qt_asio_net_disk.LongTask.Puts.{Created}

-- AbstractCon::ConType::GETTASK
abbrev pub get_task : ℕ
get_task = 3

-- The file is opened and mapped.
unfoldable pub open_to_read : Answers → List ℕ → UdTask → PduRespond → Created × Bool
open_to_read a path t r = elim (a.opened read_only) [
  | none ↦ (
    record {
      task = t;
      respond = record r { status = Status.failed };
      acts = opens path read_only ∷ [];
    },
    false,
  )
  | some fd ↦ elim a.mapped [
    | none ↦ (
      record {
        task = t;
        respond = record r { status = Status.failed };
        acts = opens path read_only ∷ maps fd t.file_size ∷ closes fd ∷ [];
      },
      false,
    )
    | some map ↦ (
      record {
        task = record t { file_fd = some fd; file_map = some map };
        respond = record r { status = Status.success };
        acts = opens path read_only ∷ maps fd t.file_size ∷ [];
      },
      true,
    )
  ]
]

-- The file that stat finds, and where in it the client asks to begin.
unfoldable pub find_file : Answers → TranPdu → List ℕ → UdTask → PduRespond → Created × Bool
find_file a p path t r = elim a.stat_size [
  | none ↦
      (record { task = t; respond = record r { status = Status.file_not_exist }; acts = [] }, false)
  | some size ↦
      let sized = record t { file_size = size } in
      if ltb p.sended_size size
      then open_to_read a path (record sized { handled_size = p.sended_size }) r
      else (
        record {
          task = sized;
          respond = record r { status = Status.get_continue_failed };
          acts = [];
        },
        false,
      )
]

unfoldable pub create_task : Answers → TranPdu → PduRespond → Created × Bool
create_task a p r =
    let t = record no_task { task_type = get_task; file_name = to_string p.file_name } in
    elim a.file_md5 [
      | none ↦ (
        record { task = t; respond = record r { status = Status.file_not_exist }; acts = [] },
        false,
      )
      | some md5 ↦ find_file a p (path_of (to_string p.user) md5) (record t { file_md5 = md5 }) r
    ]

-- The answer with the size and the MD5 of the file. `msg_len` counts the size twice: `msg` has it
-- already.
unfoldable pub describe : UdTask → PduRespond → PduRespond
describe t r =
    let msg = to_le 8 (htonll t.file_size) ++ t.file_md5 in
    let msg_len = 8 + length msg in
    record r {
      header = record r.header { body_len = pdu_respond_body_len + msg_len };
      msg_len = msg_len;
      msg = msg;
    }

unfoldable pub start : Created → UserInfo → Link → Link
start c info l =
    let begun = record l { con = init l.con info c.task; is_verify = true } in
    with_status begun doing

-- The answer goes out, and all but a success closes the transfer.
unfoldable pub reply : Link → PduRespond → List Act → Link × List Act
reply l r acts =
    (if r.status == Status.success then l else with_status l closed, acts ++ sends r ∷ [])

unfoldable pub first_check : Answers → TranPdu → Link → Link × List Act
first_check a p l =
    let r = answer Code.gets 0 in
    let refused = reply l (record r { status = Status.failed }) [] in
    let c = create_task a p r in
    let checked = λ (info : UserInfo).
      if c.1
      then reply (start c.0 info l) (describe c.0.task c.0.respond) c.0.acts
      else reply l c.0.respond c.0.acts in
    elim a.user_info [
      | none ↦ refused
      | some info ↦ if has_cipher info then checked info else refused
    ]

-- doingTask
unfoldable pub gets : Answers → TranPdu → Link → Link × List Act
gets a p l = if same_status l.con.status starting then first_check a p l else (l, [])
