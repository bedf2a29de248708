-- ===== src/EventLoop/Client/Laws.antt =====
-- The messages of a client from the SSL layer to their tools.
use qt_asio_net_disk.Base.{ℕ, ◌+◌, ◌≤◌, ◌≡◌, List, [], ◌∷◌, ◌++◌, some, length}
use qt_asio_net_disk.Buffer.{Buffer}
use qt_asio_net_disk.EventLoop.Read.{Attempt}
use qt_asio_net_disk.EventLoop.Read.Laws.{Round, bytes_of, attempts_of, Arrive}
use qt_asio_net_disk.EventLoop.Client.{Visit}

-- What comes in a round: bytes in rounds of SSL_read, and what is left in the SSL layer and in the socket
-- when their messages are handed out. `after` is what SSL_read would give if it were called again.
pub record Arrival : Type 0 where
  pub first : Round
  pub others : List Round
  pub after : List Attempt
  pub in_ssl : ℕ
  pub in_socket : ℕ

abbrev pub new_bytes : Arrival → List ℕ
new_bytes x = bytes_of (x.first ∷ x.others)

abbrev pub visit_of : Arrival → Visit
visit_of x = record {
  attempts = attempts_of (x.first ∷ x.others) ++ x.after;
  ssl_pending = x.in_ssl;
  socket_pending = some x.in_socket;
}

abbrev pub all_bytes : List Arrival → List ℕ
all_bytes [] = []
all_bytes (x ∷ xs) = new_bytes x ++ all_bytes xs

-- Each round gets at most the 4096 bytes that are asked for, and something is left after each but the
-- last, after which nothing is.
abbrev pub Come : Arrival → List Arrival → Type 0
Come x [] = Arrive x.first x.others × (length (new_bytes x) ≤ 4096) × (x.in_ssl + x.in_socket ≡ 0)
Come x (y ∷ ys) =
    Arrive x.first x.others
    × (length (new_bytes x) ≤ 4096)
    × (1 ≤ x.in_ssl + x.in_socket)
    × Come y ys
