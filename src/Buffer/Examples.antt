-- ===== src/Buffer/Examples.antt =====
-- The operations of Buffer at one buffer with a byte that is read, two that are not, and two free.
use qt_asio_net_disk.Base.{ℕ, ◌≡◌, refl, List, [], ◌∷◌, ◌++◌, some, arith}
use qt_asio_net_disk.Buffer.{Buffer, read_fd}
use qt_asio_net_disk.Buffer.Contents.{Holds}
use qt_asio_net_disk.Buffer.Laws.{read_fd_lem}

abbrev two_unread : Buffer
two_unread = record { bytes = 1 ∷ 2 ∷ 3 ∷ 0 ∷ 0 ∷ []; read_pos = 1; write_pos = 3 }

abbrev unread : List ℕ
unread = 2 ∷ 3 ∷ []

abbrev three_bytes : List ℕ
three_bytes = 7 ∷ 8 ∷ 9 ∷ []

two_unread-Holds : Holds two_unread unread
two_unread-Holds = record {
  before = 1 ∷ [];
  behind = 0 ∷ 0 ∷ [];
  layout = refl;
  read_at_end = refl;
  write_at_end = refl;
  small = omega arith;
}

read_fd_example :
    (g : Buffer) × (read_fd two_unread (some three_bytes) ≡ some g)
    × Holds g (unread ++ three_bytes)
read_fd_example = read_fd_lem two_unread unread three_bytes two_unread-Holds (omega arith)
