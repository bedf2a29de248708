-- ===== src/WorkQue/Examples.antt =====
-- The thread pool with two tasks that wait.
use qt_asio_net_disk.Base.{ℕ, ◌≡◌, List, [], ◌∷◌, ◌++◌, true, false}
use qt_asio_net_disk.WorkQue.{WorkQue, stopped, work, close}
use qt_asio_net_disk.WorkQue.Laws.{
  Call, adds, pushes, works, closes, run, all_given, all_got, rounds, run-in_order, close_drains,
}

abbrev two_tasks : WorkQue ℕ
two_tasks = record { task_que = 4 ∷ 5 ∷ []; is_close = false }

abbrev calls : List (Call ℕ)
calls = works ∷ adds 6 ∷ closes ∷ adds 7 ∷ pushes 8 ∷ works ∷ []

run-in_order_example :
    two_tasks.task_que ++ all_given two_tasks calls
    ≡ all_got two_tasks calls ++ (run two_tasks calls).task_que
run-in_order_example = run-in_order calls two_tasks

close_drains_example :
    (all_got (close two_tasks) (rounds two_tasks.task_que) ≡ two_tasks.task_que)
    × (work (run (close two_tasks) (rounds two_tasks.task_que))
        ≡ (record { task_que = []; is_close = true }, stopped))
close_drains_example = close_drains two_tasks
