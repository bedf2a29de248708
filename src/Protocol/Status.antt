-- ===== src/Protocol/Status.antt =====
-- The status codes and the actions of NetDisk-Server/Server/code/protocol.h.
use qt_asio_net_disk.Base.{ℕ}

abbrev pub success : ℕ
success = 1

abbrev pub failed : ℕ
failed = 2

abbrev pub not_verify : ℕ
not_verify = 3

abbrev pub no_capacity : ℕ
no_capacity = 4

abbrev pub put_quick : ℕ
put_quick = 5

abbrev pub put_continue_failed : ℕ
put_continue_failed = 6

abbrev pub get_continue_failed : ℕ
get_continue_failed = 7

abbrev pub file_not_exist : ℕ
file_not_exist = 8

-- ControlAction
abbrev pub pause : ℕ
pause = 1

abbrev pub resume : ℕ
resume = 2

abbrev pub cancel : ℕ
cancel = 3
