-- ===== src/BlockDeque.antt =====
-- BlockDeque of NetDisk-Server/Server/code/log/BlockDeque.h: the blocking queue between the threads
-- that log and the one that writes. Each operation is one step under its mutex; `waits` is the
-- reply of a thread that its condition variable keeps waiting, which has changed nothing.
pub mod Laws
mod Examples
use qt_asio_net_disk.Base.{
  ℕ, zero, suc, ◌+◌, ◌-◌, List, [], ◌∷◌, ◌++◌, Bool, true, false, not, ◌||◌, length, ltb, leb, ◌==◌,
  if◌then◌else◌,
}

pub record BlockDeque (T : Type 0) : Type 0 where
  pub deque : List T
  pub capacity : ℕ
  pub is_close : Bool

pub data Reply (T : Type 0) : Type 0 where
  waits : Reply T
  returned : Reply T
  taken : T → Reply T
  refused : Reply T

module _ {T : Type 0} where
  -- BlockDeque(max_capacity); the code asserts that the capacity is above 0.
  unfoldable pub init : ℕ → BlockDeque T
  init max_capacity = record { deque = []; capacity = max_capacity; is_close = false }

  unfoldable pub is_empty : BlockDeque T → Bool
  is_empty d = length d.deque == 0

  unfoldable pub is_full : BlockDeque T → Bool
  is_full d = leb d.capacity (length d.deque)

  unfoldable pub close : BlockDeque T → BlockDeque T
  close d = if d.is_close then d else record d { deque = []; is_close = true }

  unfoldable pub clear : BlockDeque T → BlockDeque T
  clear d = record d { deque = [] }

  -- The condition of `cv_producer_.wait`, and what follows it.
  unfoldable pub push_back : BlockDeque T → T → BlockDeque T × Reply T
  push_back d item =
      if d.is_close || ltb (length d.deque) d.capacity
      then (if d.is_close
          then (d, returned)
          else (record d { deque = d.deque ++ item ∷ [] }, returned))
      else (d, waits)

  unfoldable pub push_front : BlockDeque T → T → BlockDeque T × Reply T
  push_front d item =
      if d.is_close || ltb (length d.deque) d.capacity
      then (if d.is_close then (d, returned) else (record d { deque = item ∷ d.deque }, returned))
      else (d, waits)

  -- front() and pop_front() of a queue that is not empty; `rest` is the reply where it is.
  unfoldable pub take_front : BlockDeque T → List T → Reply T → BlockDeque T × Reply T
  take_front d [] rest = (d, rest)
  take_front d (x ∷ xs) rest = (record d { deque = xs }, taken x)

  unfoldable pub pop : BlockDeque T → BlockDeque T × Reply T
  unfolding take_front
  pop d = if d.is_close then (d, refused) else take_front d d.deque waits

  -- pop(item, timeout), at the end of its wait: false where the time has run out on an empty queue.
  unfoldable pub pop_timeout : BlockDeque T → BlockDeque T × Reply T
  unfolding take_front
  pop_timeout d = if d.is_close then (d, refused) else take_front d d.deque refused
