-- ===== src/LongTask/PutsData.antt =====
-- PutsDataTool: the data of an upload. `file` is what the mapped file holds. A copy outside of the
-- mapping, which C++ leaves undefined, is `none`. The whole is one step, as no other thread came.
use qt_asio_net_disk.Base.{
  ℕ, ◌+◌, List, [], ◌∷◌, ◌++◌, Option, some, length, take, ◌==◌, ◌&&◌, if◌then◌else◌,
}
use qt_asio_net_disk.Heap.{◌>>=◌}
use qt_asio_net_disk.Wire.Bytes.{to_le}
use qt_asio_net_disk.Wire.Order.{htonl}
use qt_asio_net_disk.Buffer.{copy_to}
use qt_asio_net_disk.Protocol.{TranDataPdu, PduRespond, pdu_respond_body_len}
use qt_asio_net_disk.Protocol.Code
use qt_asio_net_disk.Protocol.Status
use qt_asio_net_disk.UpDownCon.{UpDownCon, doing, fin, same_status, reserve, cmp_exchange}
use qt_asio_net_disk.LongTask.{Link, Act, sends, inserts, get_suffix, answer}
use qt_asio_net_disk.LongTask.Puts.{finish_respond}

pub record Upload : Type 0 where
  pub con : UpDownCon
  pub file : List ℕ
  pub acts : List Act

-- The answer that tells the client which chunk has come.
unfoldable pub chunk_respond : TranDataPdu → PduRespond
chunk_respond p =
    let r = answer Code.puts_data Status.success in
    record r {
      header = record r.header { body_len = pdu_respond_body_len + 4 };
      msg_amount = 1;
      msg_len = 4;
      msg = to_le 4 (htonl p.chunk_index);
    }

-- The file is entered and the client told, by the thread whose exchange succeeds.
unfoldable pub complete : UpDownCon → ℕ → UpDownCon × List Act
complete c inserted =
    let e = cmp_exchange c doing fin in
    let t = c.task in
    if e.1
    then (
      e.0,
      inserts c.user t.file_name t.file_md5 t.file_size t.parent_dir_id (get_suffix t.file_name)
          ∷ sends (finish_respond (answer Code.puts_finish 0) inserted)
          ∷ [],
    )
    else (c, [])

-- recvFileData, with what the database answers if it is asked.
unfoldable pub recv_file_data : UpDownCon → TranDataPdu → List ℕ → ℕ → Option Upload
recv_file_data c p file inserted =
    let r = reserve c (length p.content) p.chunk_size in
    let told = sends (chunk_respond p) in
    let ended = complete r.0 inserted in
    let written = copy_to file p.file_offset (take p.chunk_size p.content) >>= λ f. some (
      if r.0.task.handled_size == r.0.task.file_size
      then record { con = ended.0; file = f; acts = told ∷ ended.1 }
      else record { con = r.0; file = f; acts = told ∷ [] }) in
    if r.1 then written else some (record { con = c; file = file; acts = [] })

-- doingTask
unfoldable pub puts_data : Link → TranDataPdu → List ℕ → ℕ → Option Upload
puts_data l p file inserted =
    if same_status l.con.status doing && l.is_verify
    then recv_file_data l.con p file inserted
    else some (record { con = l.con; file = file; acts = [] })

-- The messages of an upload, one after the other.
unfoldable pub recv_all : Link → List TranDataPdu → List ℕ → ℕ → Option Upload
recv_all l [] file inserted = some (record { con = l.con; file = file; acts = [] })
recv_all l (p ∷ ps) file inserted = puts_data l p file inserted >>= λ u.
    recv_all (record l { con = u.con }) ps u.file inserted >>= λ v.
    some (record v { acts = u.acts ++ v.acts })
