-- ===== src/Protocol/Code.antt =====
-- The operation codes of NetDisk-Server/Server/code/protocol.h.
use qt_asio_net_disk.Base.{ℕ}

abbrev pub signin : ℕ
signin = 1

abbrev pub signup : ℕ
signup = 2

abbrev pub puts : ℕ
puts = 3

abbrev pub puts_data : ℕ
puts_data = 4

abbrev pub puts_finish : ℕ
puts_finish = 5

abbrev pub gets : ℕ
gets = 6

abbrev pub gets_data : ℕ
gets_data = 7

abbrev pub gets_finish : ℕ
gets_finish = 8

abbrev pub gets_control : ℕ
gets_control = 9

abbrev pub cd : ℕ
cd = 10

abbrev pub makedir : ℕ
makedir = 11

abbrev pub deletefile : ℕ
deletefile = 12

abbrev pub clientshut : ℕ
clientshut = 13

abbrev pub putscontinue : ℕ
putscontinue = 14

abbrev pub getcontinueno : ℕ
getcontinueno = 15
