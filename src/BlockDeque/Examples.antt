-- ===== src/BlockDeque/Examples.antt =====
-- The queue at a few calls.
use qt_asio_net_disk.Base.{ℕ, ◌≡◌, refl, List, [], ◌∷◌, ◌++◌, false}
use qt_asio_net_disk.BlockDeque.{BlockDeque, init}
use qt_asio_net_disk.BlockDeque.Laws.{
  Call, pushes_back, pops, pops_in_time, run, IsValid, run-init-IsValid, all_given, all_got,
  run_fifo,
}

abbrev calls : List (Call ℕ)
calls = pushes_back 4 ∷ pushes_back 5 ∷ pops ∷ pushes_back 6 ∷ pops_in_time ∷ []

abbrev one_waiting : BlockDeque ℕ
one_waiting = record { deque = 3 ∷ []; capacity = 2; is_close = false }

run-init-IsValid_example : IsValid 2 (run (init 2) calls)
run-init-IsValid_example = run-init-IsValid 2 calls

run_fifo_example :
    one_waiting.deque ++ all_given one_waiting calls
    ≡ all_got one_waiting calls ++ (run one_waiting calls).deque
run_fifo_example = run_fifo calls one_waiting refl (tt, (tt, (tt, (tt, (tt, tt)))))
