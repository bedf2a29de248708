-- ===== src/UpDownCon/Examples.antt =====
-- A connection that uploads a file of ten bytes, four of which have come.
use qt_asio_net_disk.Base.{ℕ, ◌+◌, ◌≤◌, ◌≡◌, refl, List, [], ◌∷◌, none, some, true, false, arith}
use qt_asio_net_disk.UpDownCon.{UpDownCon, UdTask, closed, starting, no_task, put_task, close}
use qt_asio_net_disk.UpDownCon.Laws.{
  Call, closes, sets, exchanges, run, all_effects, reserve_all, close_once, reserve_all-bound,
}

abbrev upload : UdTask
upload = record no_task {
  task_type = put_task;
  file_size = 10;
  handled_size = 4;
  file_fd = some 7;
  file_map = some 4096;
}

abbrev uploading : UpDownCon
uploading = record {
  status = starting;
  is_close = false;
  is_vip = false;
  client_ssl = some 3;
  client_sock = some 5;
  user = 97 ∷ [];
  task = upload;
  user_count = 2;
}

abbrev calls : List Call
calls = sets starting ∷ closes true ∷ exchanges starting closed ∷ closes false ∷ []

close_once_example :
    ((close uploading true).0.status ≡ closed)
    × ((close uploading true).0.task.file_fd ≡ none)
    × (all_effects uploading (closes true ∷ calls) ≡ (close uploading true).1)
    × ((run uploading (closes true ∷ calls)).is_close ≡ true)
    × ((run uploading (closes true ∷ calls)).client_ssl ≡ none)
    × ((run uploading (closes true ∷ calls)).user_count ≡ 1)
close_once_example = close_once uploading true calls refl

abbrev parts : List (ℕ × ℕ)
parts = (3, 3) ∷ (2, 3) ∷ (5, 5) ∷ (3, 3) ∷ []

reserve_all-bound_example :
    ((reserve_all uploading parts).0.task.handled_size
      ≡ uploading.task.handled_size + (reserve_all uploading parts).1)
    × ((reserve_all uploading parts).0.task.handled_size ≤ 10)
reserve_all-bound_example =
    reserve_all-bound parts 10 uploading refl (omega arith)
      (omega arith, (omega arith, (omega arith, (omega arith, tt)))) (omega arith)
