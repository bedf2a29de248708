-- ===== src/WorkQue/Laws.antt =====
-- The thread pool under any interleaving of the threads that add tasks, work and close it.
use qt_asio_net_disk.Base.{
  ◌≡◌, refl, ap, sym, ◌∙◌, List, [], ◌∷◌, ◌++◌, true, append_assoc, append-nil, arith,
  if◌then◌else◌,
}
use qt_asio_net_disk.WorkQue.{
  WorkQue, Reply, waits, stopped, taken, push_task, add_task, take_task, work, close,
}

-- What a thread does; `pushes` is the rest of an addTask that has seen the pool open.
pub data Call (T : Type 0) : Type 0 where
  adds : T → Call T
  pushes : T → Call T
  works : Call T
  closes : Call T

module _ {T : Type 0} where
  unfoldable pub step : WorkQue T → Call T → WorkQue T × Reply T
  step q (adds task) = (add_task q task, waits)
  step q (pushes task) = (push_task q task, waits)
  step q works = work q
  step q closes = (close q, waits)

  unfoldable pub run : WorkQue T → List (Call T) → WorkQue T
  run q [] = q
  run q (c ∷ cs) = run (step q c).0 cs

  -- The task that a call puts in, and the one that it takes out.
  abbrev given : WorkQue T → Call T → List T
  given q (adds task) = if q.is_close then [] else task ∷ []
  given q (pushes task) = task ∷ []
  given q _ = []

  abbrev got : Reply T → List T
  got (taken task) = task ∷ []
  got _ = []

  unfoldable pub all_given : WorkQue T → List (Call T) → List T
  all_given q [] = []
  all_given q (c ∷ cs) = given q c ++ all_given (step q c).0 cs

  unfoldable pub all_got : WorkQue T → List (Call T) → List T
  all_got q [] = []
  all_got q (c ∷ cs) = got (step q c).1 ++ all_got (step q c).0 cs

  step_in_order :
      (q : WorkQue T) (c : Call T)
      → q.task_que ++ given q c ≡ got (step q c).1 ++ (step q c).0.task_que
  unfolding step add_task push_task work take_task close
  step_in_order q (adds task) = ground (arith, append-nil q.task_que)
  step_in_order q (pushes task) = refl
  step_in_order q works = ground (arith, append-nil q.task_que)
  step_in_order q closes = ground (arith, append-nil q.task_que)

  -- Under any interleaving of additions, workers and a close, the tasks are taken in the order in
  -- which they were added, none lost and none twice: what was there and was added is what was taken
  -- and is left. An addition to a closed pool adds nothing.
  pub run-in_order :
      (cs : List (Call T)) (q : WorkQue T)
      → q.task_que ++ all_given q cs ≡ all_got q cs ++ (run q cs).task_que
  unfolding run all_given all_got
  run-in_order [] q = append-nil q.task_que
  run-in_order (c ∷ cs) q =
      let r = step q c in
      sym (append_assoc q.task_que (given q c) (all_given r.0 cs))
      ∙ ap (λ t. t ++ all_given r.0 cs) (step_in_order q c)
      ∙ append_assoc (got r.1) r.0.task_que (all_given r.0 cs)
      ∙ ap (λ t. got r.1 ++ t) (run-in_order cs r.0)
      ∙ sym (append_assoc (got r.1) (all_got r.0 cs) (run r.0 cs).task_que)

  -- One round of work for each task of the list.
  abbrev pub rounds : List T → List (Call T)
  rounds [] = []
  rounds (task ∷ tasks) = works ∷ rounds tasks

  drained :
      (tasks : List T)
      → (all_got (record { task_que = tasks; is_close = true }) (rounds tasks) ≡ tasks)
        × (run (record { task_que = tasks; is_close = true }) (rounds tasks)
            ≡ record { task_que = []; is_close = true })
  unfolding run all_got step work take_task
  drained [] = (refl, refl)
  drained (task ∷ tasks) = (ap (λ t. task ∷ t) (drained tasks).0, (drained tasks).1)

  -- After a close the workers take every task that is left, in order, in as many rounds, and a
  -- worker that comes after them stops.
  pub close_drains :
      (q : WorkQue T)
      → (all_got (close q) (rounds q.task_que) ≡ q.task_que)
        × (work (run (close q) (rounds q.task_que))
            ≡ (record { task_que = []; is_close = true }, stopped))
  unfolding close work take_task
  close_drains q =
      let closed : close q ≡ record { task_que = q.task_que; is_close = true } = ground arith in
      let d = drained q.task_que in (rw closed d.0, rw (closed, d.1))
