-- ===== src/EventLoop/Read.antt =====
-- sslReadAll of NetDisk-Server/Server/code/server/EventLoop.cpp. What SSL_read, SSL_pending and
-- getSocketPending return comes from outside: a script with an attempt for each round. `size_t` and
-- `ssize_t` are 64 bits, and 2^64 - 1 is -1. The checks of the parameters are `ssl_read_all`'s.
pub mod Laws
use qt_asio_net_disk.Base.{
  ℕ, ◌+◌, ◌-◌, ◌^◌, List, [], ◌∷◌, Option, none, some, Bool, true, false, length, ltb, ◌==◌, ◌&&◌,
  ◌||◌, if◌then◌else◌,
}
use qt_asio_net_disk.Heap.{◌>>=◌}
use qt_asio_net_disk.Buffer.{Buffer, add_size, sub_size, ensure_write_able, copy_to, has_written}

-- SSL_read put bytes into the buffer, or returned 0, or -1.
pub data Read : Type 0 where
  got : List ℕ → Read
  closed failed : Read

-- `none` for `socket_pending` is -1.
pub record Attempt : Type 0 where
  pub read : Read
  pub ssl_pending : ℕ
  pub socket_pending : Option ℕ

-- The end of a round, with `more` the rounds that follow.
unfoldable pub end_round : Attempt → Buffer → ℕ → Option (ℕ × Buffer) → Option (ℕ × Buffer)
end_round a b total_read more = elim a.socket_pending [
  | none ↦ some (2 ^ 64 - 1, b)
  | some pending ↦ if (a.ssl_pending == 0) && (pending == 0) then some (total_read, b) else more
]

-- The round after the room is made, with `next` what follows `ret` above 0.
unfoldable pub end_read : Read → Buffer → (Buffer → ℕ → Option (ℕ × Buffer)) → Option (ℕ × Buffer)
end_read (got bytes) g next =
    copy_to g.bytes g.write_pos bytes >>= λ v. next (record g { bytes = v }) (length bytes)
end_read closed g next = some (0, g)
end_read failed g next = next g (2 ^ 64 - 1)

-- The loop; `none` is a failed assertion, or a round behind the end of the script. As `ret` is a
-- `size_t`, a result of -1 is above 0, and the branch for errors is never taken.
unfoldable pub read_loop : List Attempt → Buffer → ℕ → ℕ → Option (ℕ × Buffer)
read_loop [] b buf_size total_read = if ltb total_read buf_size then none else some (total_read, b)
read_loop (a ∷ script) b buf_size total_read =
    let next = λ (g : Buffer) (ret : ℕ).
      let h = has_written g ret in
      let n = add_size total_read ret in end_round a h n (read_loop script h buf_size n) in
    let reads =
      ensure_write_able b (sub_size buf_size total_read) >>= λ g. end_read a.read g next in
    if ltb total_read buf_size then reads else some (total_read, b)

unfoldable pub ssl_read_all : Option ℕ → List Attempt → Buffer → ℕ → Option (ℕ × Buffer)
unfolding read_loop
ssl_read_all none script b buf_size = some (2 ^ 64 - 1, b)
ssl_read_all (some ssl) script b buf_size =
    if buf_size == 0 then some (2 ^ 64 - 1, b) else read_loop script b buf_size 0
