-- ===== src/LongTask/GetsLaws.antt =====
-- The start of a download, and what becomes of its answer.
use qt_asio_net_disk.Base.{ℕ, ◌≤◌, ◌≡◌, List, length}
use qt_asio_net_disk.Wire.Put.{overrun, Put}
use qt_asio_net_disk.Protocol.{PduRespond}
use qt_asio_net_disk.Protocol.Code
use qt_asio_net_disk.Protocol.Status

-- A write that ends outside of the memory that it reads, where there is room for `n` bytes.
abbrev Overruns : Put → ℕ → Type 0
Overruns p n = (w r : List ℕ) → n ≤ length r → p (record { written = w; room = r }) ≡ overrun
