-- ===== src/LongTask/Puts.antt =====
-- PutsTool: the start of an upload.
use qt_asio_net_disk.Base.{
  ℕ, ◌+◌, List, [], ◌∷◌, ◌++◌, Option, none, some, true, false, ◌==◌, ◌||◌, not, if◌then◌else◌,
}
use qt_asio_net_disk.Wire.Bytes.{to_le}
use qt_asio_net_disk.Wire.Order.{htonll}
use qt_asio_net_disk.Protocol.{
  TranPdu, PduRespond, UserInfo, pdu_respond_type, pdu_respond_body_len,
}
use qt_asio_net_disk.Protocol.Code
use qt_asio_net_disk.Protocol.Status
use qt_asio_net_disk.UpDownCon.{
  UdTask, starting, doing, fin, same_status, no_task, put_task, to_string, init, set_status,
}
use qt_asio_net_disk.LongTask.{
  Link, Answers, Act, sends, opens, create_new, truncates, maps, closes, inserts, get_suffix,
  is_dir, has_cipher, path_of, answer, long_task,
}

pub record Created : Type 0 where
  pub task : UdTask
  pub respond : PduRespond
  pub acts : List Act

-- The task with the fields of the message.
abbrev pub asked_task : TranPdu → UdTask
asked_task p = record no_task {
  task_type = put_task;
  file_name = to_string p.file_name;
  file_md5 = to_string p.file_md5;
  file_size = p.file_size;
  parent_dir_id = p.parent_dir_id;
}

-- Where the client asks to go on, and the answer tells it from where.
unfoldable pub resume : Option ℕ → UdTask → PduRespond → UdTask × PduRespond
resume none t r = (record t { handled_size = 0 }, record r { status = Status.put_continue_failed })
resume (some size) t r = (
  record t { handled_size = size },
  record r {
    header = record r.header { body_len = pdu_respond_body_len + 8 };
    msg_len = 8;
    msg = r.msg ++ to_le 8 (htonll size);
  },
)

-- The file is made, sized and mapped.
unfoldable pub open_file : Answers → List ℕ → UdTask → PduRespond → Created
open_file a path t r = elim (a.opened create_new) [
  | none ↦ record {
    task = t;
    respond = record r { status = Status.failed };
    acts = opens path create_new ∷ [];
  }
  | some fd ↦
      if a.truncated
      then (elim a.mapped [
        | none ↦ record {
          task = t;
          respond = record r { status = Status.failed };
          acts =
              opens path create_new
              ∷ truncates fd t.file_size
              ∷ maps fd t.file_size
              ∷ closes fd
              ∷ [];
        }
        | some map ↦ record {
          task = record t { file_fd = some fd; file_map = some map };
          respond = r;
          acts = opens path create_new ∷ truncates fd t.file_size ∷ maps fd t.file_size ∷ [];
        }
      ])
      else record {
        task = t;
        respond = record r { status = Status.failed };
        acts = opens path create_new ∷ truncates fd t.file_size ∷ closes fd ∷ [];
      }
]

unfoldable pub create_task : Answers → TranPdu → PduRespond → Created
create_task a p r =
    let t = asked_task p in
    let ready = record r { status = Status.success } in
    let s =
      if p.tran_pdu_code == Code.putscontinue then resume a.stat_size t ready else (t, ready) in
    if is_dir (get_suffix (to_string p.file_name))
    then record { task = t; respond = record r { status = Status.failed }; acts = [] }
    else if not a.enough_space
    then record { task = t; respond = record r { status = Status.no_capacity }; acts = [] }
    else if a.file_exists
    then record {
      task = record t { handled_size = t.file_size };
      respond = record r { status = Status.put_quick };
      acts = [];
    }
    else open_file a (path_of (to_string p.user) (to_string p.file_md5)) s.0 s.1

-- The user is known, and the task is made.
unfoldable pub start : Created → UserInfo → Link → Link
start c info l =
    let begun = record l { con = init l.con info c.task; is_verify = true } in
    let quick = record begun { con = set_status begun.con fin } in
    let normal = record begun { con = set_status begun.con doing } in
    if c.respond.status == Status.put_quick
    then quick
    else if (c.respond.status == Status.success) || (c.respond.status == Status.put_continue_failed)
    then normal
    else l

-- The answer after the file is entered into the database: the identifier, or 0 for a failure.
unfoldable pub finish_respond : PduRespond → ℕ → PduRespond
finish_respond r ret =
    let base = record r {
      header = record r.header { type = pdu_respond_type; body_len = pdu_respond_body_len };
      code = Code.puts_finish;
    } in
    if ret == 0 then record base { status = Status.failed } else record base {
      header = record base.header { body_len = pdu_respond_body_len + 8 };
      status = Status.success;
      msg_amount = 1;
      msg_len = 8;
      msg = to_le 8 (htonll ret);
    }

-- An upload that needs no data is entered at once.
unfoldable pub quick_insert : Answers → Link → PduRespond → PduRespond × List Act
quick_insert a l r =
    let t = l.con.task in
    if r.status == Status.put_quick
    then (
      finish_respond r a.inserted,
      inserts l.con.user t.file_name t.file_md5 t.file_size t.parent_dir_id (get_suffix t.file_name)
          ∷ [],
    )
    else (r, [])

-- firstCheck after the user is looked up: the first answer, the second, and a reset after an error.
unfoldable pub reply : Answers → Link → PduRespond → List Act → Link × List Act
reply a l r acts =
    let q = quick_insert a l r in
    let failed = (q.0.status == Status.failed) || (q.0.status == Status.no_capacity) in
    (
      if failed then record l { client_type = long_task; is_verify = false } else l,
      acts ++ sends r ∷ (q.1 ++ sends q.0 ∷ []),
    )

unfoldable pub first_check : Answers → TranPdu → Link → Link × List Act
first_check a p l =
    let r = answer Code.puts 0 in
    let refused = reply a l (record r { status = Status.failed }) [] in
    let c = create_task a p r in
    elim a.user_info [
      | none ↦ refused
      | some info ↦ if has_cipher info then reply a (start c info l) c.respond c.acts else refused
    ]

-- doingTask
unfoldable pub puts : Answers → TranPdu → Link → Link × List Act
puts a p l = if same_status l.con.status starting then first_check a p l else (l, [])
