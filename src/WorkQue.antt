-- ===== src/WorkQue.antt =====
-- WorkQue of NetDisk-Server/Server/code/pool/WorkQue.cpp and WorkQue.h: the tasks of the thread
-- pool. Each step is what a thread does under the mutex, or between two locks of it; `waits` is the
-- reply of a worker that its condition variable keeps waiting. A task is any value; running it is
-- not modelled.
pub mod Laws
mod Examples
use qt_asio_net_disk.Base.{List, [], ◌∷◌, ◌++◌, Bool, true, false, if◌then◌else◌}

pub record WorkQue (T : Type 0) : Type 0 where
  pub task_que : List T
  pub is_close : Bool

pub data Reply (T : Type 0) : Type 0 where
  waits : Reply T
  stopped : Reply T
  taken : T → Reply T

module _ {T : Type 0} where
  abbrev pub no_tasks : WorkQue T
  no_tasks = record { task_que = []; is_close = false }

  -- The part of addTask under the mutex, which another thread's `close` may precede.
  unfoldable pub push_task : WorkQue T → T → WorkQue T
  push_task q task = record q { task_que = q.task_que ++ task ∷ [] }

  unfoldable pub add_task : WorkQue T → T → WorkQue T
  unfolding push_task
  add_task q task = if q.is_close then q else push_task q task

  -- A round of a worker, up to the task that it runs: it stops only where there is none left.
  unfoldable pub take_task : WorkQue T → List T → WorkQue T × Reply T
  take_task q [] = (q, if q.is_close then stopped else waits)
  take_task q (task ∷ tasks) = (record q { task_que = tasks }, taken task)

  unfoldable pub work : WorkQue T → WorkQue T × Reply T
  unfolding take_task
  work q = take_task q q.task_que

  unfoldable pub close : WorkQue T → WorkQue T
  close q = if q.is_close then q else record q { is_close = true }
