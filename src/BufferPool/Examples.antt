-- ===== src/BufferPool/Examples.antt =====
-- The pool after a buffer is lent and another one given back.
use qt_asio_net_disk.Base.{arith}
use qt_asio_net_disk.BufferPool.{BufferPool, init, no_buffers, split_back, acquire_from, acquire}
use qt_asio_net_disk.BufferPool.Laws.{
  acquires, releases, step, Reach, start, next, Conserved, Reach-Conserved,
}

abbrev one_lent : BufferPool
one_lent = step (step (step (init 2 0 no_buffers) acquires) acquires) (releases 1 50)

one_lent-Reach : Reach 2 0 one_lent
unfolding step acquire init acquire_from split_back
one_lent-Reach = next (next (next start acquires tt) acquires tt) (releases 1 50) (ground arith)

Reach-Conserved_example : Conserved one_lent
Reach-Conserved_example = Reach-Conserved one_lent-Reach
