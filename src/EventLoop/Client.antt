-- ===== src/EventLoop/Client.antt =====
-- handleClientData of NetDisk-Server/Server/code/server/EventLoop.cpp, from the loop on: it reads with
-- sslReadAll, hands the messages that are complete to the work queue, and goes on while more is there.
-- What OpenSSL and the socket answer is a script with an entry for each round.
pub mod Laws
use qt_asio_net_disk.Base.{
  ℕ, suc, ◌+◌, ◌-◌, ◌^◌, List, [], ◌∷◌, ◌++◌, Option, none, some, ◌==◌, ◌&&◌, if◌then◌else◌,
}
use qt_asio_net_disk.Heap.{◌>>=◌}
use qt_asio_net_disk.Buffer.{Buffer, read_able_bytes}
use qt_asio_net_disk.EventLoop.{frame_loop, unused}
use qt_asio_net_disk.EventLoop.Read.{Attempt, ssl_read_all}

-- What sslReadAll meets, and SSL_pending and getSocketPending after the messages; `none` is -1.
pub record Visit : Type 0 where
  pub attempts : List Attempt
  pub ssl_pending : ℕ
  pub socket_pending : Option ℕ

-- The connection is left to the next event, or closed.
pub data End : Type 0 where
  keeps closes : End

-- The buffers that went to the work queue, the connection's buffer, and the end.
pub record Handled : Type 0 where
  pub tasks : List (List ℕ)
  pub buffer : Buffer
  pub end : End

-- The end of a round, with `more` the rounds that follow.
unfoldable pub end_visit : Visit → List (List ℕ) → Buffer → Option Handled → Option Handled
end_visit v tasks b more =
    let stops = some (record { tasks = tasks; buffer = b; end = keeps }) in
    let goes_on = more >>= λ h. some (record h { tasks = tasks ++ h.tasks }) in
    elim v.socket_pending [
      | none ↦ stops
      | some pending ↦ if (v.ssl_pending == 0) && (pending == 0) then stops else goes_on
    ]

-- -1 is an error, which only ends the loop; 0 closes the connection. `none` is a failed assertion, an
-- access out of range, or a round behind the end of the script.
unfoldable pub handle_client_data : Option ℕ → (ℕ → List ℕ) → Buffer → List Visit → Option Handled
handle_client_data ssl pool b [] = none
handle_client_data ssl pool b (v ∷ vs) = ssl_read_all ssl v.attempts b 4096 >>= λ r.
    let framed = frame_loop (suc (read_able_bytes r.1)) pool r.1 >>= λ q.
    end_visit v q.0 q.1 (handle_client_data ssl (unused pool q.0) q.1 vs) in
    if r.0 == 2 ^ 64 - 1
    then some (record { tasks = []; buffer = r.1; end = keeps })
    else if r.0 == 0
    then some (record { tasks = []; buffer = r.1; end = closes })
    else framed
