-- ===== src/LongTask/ResumeLaws.antt =====
-- The resumption of an upload, which never begins.
use qt_asio_net_disk.Base.{◌≡◌, ◌⊎◌, List, [], ◌∷◌, ◌≤◌}
use qt_asio_net_disk.Protocol.{PduRespond}
use qt_asio_net_disk.Protocol.Code
use qt_asio_net_disk.Protocol.Status
use qt_asio_net_disk.LongTask.{Act, sends, opens}

-- What is done where nothing begins: a file is asked for, and failures are told.
abbrev pub Fails : List Act → Type 0
Fails [] = Unit {0}
Fails (sends r ∷ acts) = ((r.status ≡ Status.failed) ⊎ (r.status ≡ Status.no_capacity)) × Fails acts
Fails (opens file flags ∷ acts) = Fails acts
Fails (_ ∷ acts) = 1 ≤ 0

-- A failure that is told.
abbrev Failed : PduRespond → Type 0
Failed r = (r.status ≡ Status.failed) ⊎ (r.status ≡ Status.no_capacity)
