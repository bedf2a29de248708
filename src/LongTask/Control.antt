-- ===== src/LongTask/Control.antt =====
-- PutsFinishTool, GetsFinishTool and GetsControlTool.
use qt_asio_net_disk.Base.{List, [], ◌∷◌, ◌==◌, ◌&&◌, ◌||◌, if◌then◌else◌}
use qt_asio_net_disk.Protocol.{TranFinishPdu, TranControlPdu}
use qt_asio_net_disk.Protocol.Code
use qt_asio_net_disk.Protocol.Status
use qt_asio_net_disk.UpDownCon.{doing, paused, fin, closed, same_status}
use qt_asio_net_disk.LongTask.{Link, Act, sends, answer, with_status}

-- doingTask of PutsFinishTool: what the message says only goes into the log.
unfoldable pub puts_finish : TranFinishPdu → Link → Link
puts_finish p l = if same_status l.con.status fin then with_status l closed else l

-- doingTask of GetsFinishTool: `file_size` of the message is 1 if the client has checked the file.
unfoldable pub gets_finish : TranFinishPdu → Link → Link × List Act
gets_finish p l =
    let status = if p.file_size == 1 then Status.success else Status.failed in
    if same_status l.con.status fin
    then (with_status l closed, sends (answer Code.gets_finish status) ∷ [])
    else (l, [])

-- The waiting threads that a change wakes.
pub data Wakes : Type 0 where
  wakes_none wakes_one wakes_all : Wakes

-- doingTask of GetsControlTool
unfoldable pub gets_control : TranControlPdu → Link → Link × Wakes
gets_control p l =
    let now =
      if p.action == Status.pause
      then (with_status l paused, wakes_none)
      else if p.action == Status.resume
      then (with_status l doing, wakes_one)
      else if p.action == Status.cancel
      then (with_status l closed, wakes_all)
      else (l, wakes_none) in
    if (same_status l.con.status paused || same_status l.con.status doing) && l.is_verify
    then now
    else (l, wakes_none)
