-- ===== src/LongTask/Examples.antt =====
-- Transfers of one user at small files.
use qt_asio_net_disk.Base.{
  ℕ, ◌+◌, ◌*◌, ◌≤◌, ◌≡◌, refl, ◌⊎◌, List, [], ◌∷◌, ◌++◌, map, some, none, true, false, arith, ◌&&◌,
  if◌then◌else◌, length, replicate,
}
use qt_asio_net_disk.Protocol.{TranPdu, TranDataPdu, UserInfo, PduRespond}
use qt_asio_net_disk.Protocol.Status
use qt_asio_net_disk.Serializer.Samples.{sample_header}
use qt_asio_net_disk.UpDownCon.{UpDownCon, starting, doing, fin, closed, no_task, to_string}
use qt_asio_net_disk.LongTask.{
  Link, Answers, sends, inserts, opens, create_new, truncates, maps, path_of, answer, has_cipher,
  get_suffix, is_dir, after_last_dot,
}
use qt_asio_net_disk.LongTask.Puts.{finish_respond, puts}
use qt_asio_net_disk.LongTask.PutsData.{Upload, recv_all, chunk_respond}
use qt_asio_net_disk.LongTask.GetsData.{total_chunks, size_of, send_file_data}
use qt_asio_net_disk.LongTask.WholeUpload.{puts-recv_all}
use qt_asio_net_disk.LongTask.UploadLaws.{end_acts, recv_all-uploads}
use qt_asio_net_disk.LongTask.DownloadLaws.{all_of, size_of_lem, send_file_data_lem}

abbrev piece : ℕ → List ℕ → TranDataPdu
piece off bytes = record {
  header = sample_header 4 (32 + length bytes);
  code = 4;
  status = 0;
  file_offset = off;
  chunk_size = length bytes;
  total_chunks = 2;
  chunk_index = 0;
  check_sum = 0;
  content = bytes;
}

-- A connection whose transfer of a file of five bytes is under way.
abbrev under_way : ℕ → UpDownCon
under_way done = record {
  status = doing;
  is_close = false;
  is_vip = false;
  client_ssl = some 3;
  client_sock = some 4;
  user = 97 ∷ [];
  task = record no_task { file_size = 5; handled_size = done };
  user_count = 1;
}

abbrev open_link : Link
open_link = record { con = under_way 0; is_verify = true; client_type = 2 }

abbrev first_piece : TranDataPdu
first_piece = piece 0 (1 ∷ 2 ∷ 3 ∷ [])

abbrev last_piece : TranDataPdu
last_piece = piece 3 (4 ∷ 5 ∷ [])

recv_all-uploads_example :
    (u : Upload) × (recv_all open_link (first_piece ∷ last_piece ∷ []) (replicate 5 0) 9 ≡ some u)
    × (u.con.status ≡ fin)
    × (u.con.task.handled_size ≡ 5)
    × (u.file ≡ 1 ∷ 2 ∷ 3 ∷ 4 ∷ 5 ∷ [])
    × (u.acts
        ≡ map (λ q. sends (chunk_respond q)) (first_piece ∷ last_piece ∷ [])
          ++ end_acts (under_way 0) 9)
recv_all-uploads_example =
    recv_all-uploads open_link first_piece (last_piece ∷ []) (replicate 5 0) 9 refl refl
      (refl, refl, omega arith, (refl, refl, omega arith, tt)) refl refl refl (omega arith)

abbrev five_bytes : List ℕ
five_bytes = 1 ∷ 2 ∷ 3 ∷ 4 ∷ 5 ∷ []

-- The download goes on behind two bytes, and ends as closed.
send_file_data_example :
    (ps : List TranDataPdu) × (k : UpDownCon) × (send_file_data five_bytes
        (λ j. false)
        (λ j. 40 + size_of 3 j)
        (under_way 2)
      ≡ some (ps, k))
    × (all_of ps ≡ 3 ∷ 4 ∷ 5 ∷ [])
    × (k.task.handled_size ≡ 5)
    × (k.status ≡ closed)
send_file_data_example =
    send_file_data_lem five_bytes (λ j. false) (λ j. 40 + size_of 3 j) (under_way 2) 3 refl refl
      (omega arith) (omega arith) (λ j. refl) (λ j. refl)

size_of_example :
    (1 ≤ size_of 5000 2)
    × (size_of 5000 2 ≤ 2048)
    × (2 * 2048 + size_of 5000 2 ≤ 5000)
    × ((size_of 5000 2 ≡ 2048) ⊎ (2 * 2048 + size_of 5000 2 ≡ 5000))
unfolding total_chunks
size_of_example = size_of_lem 5000 (omega arith) (omega arith) 2 (omega arith)

-- The user "a", and a file "b.c" of five bytes with the code "m".
abbrev known_user : UserInfo
known_user = record {
  header = sample_header 8 400;
  user = 97 ∷ 0 ∷ [];
  pwd = 97 ∷ 0 ∷ [];
  cipher = 120 ∷ 0 ∷ [];
  is_vip = 48 ∷ 0 ∷ [];
  capacity_sum = [];
  used_capacity = [];
  salt = [];
  vip_date = [];
}

abbrev asks_for : ℕ → ℕ → TranPdu
asks_for code from = record {
  header = sample_header 3 268;
  tran_pdu_code = code;
  user = 97 ∷ 0 ∷ [];
  pwd = 97 ∷ 0 ∷ [];
  file_name = 98 ∷ 46 ∷ 99 ∷ 0 ∷ [];
  file_md5 = 109 ∷ 0 ∷ [];
  file_size = 5;
  sended_size = from;
  parent_dir_id = 0;
}

abbrev new_link : Link
new_link = record {
  con = record (under_way 0) { status = starting; user = []; task = no_task };
  is_verify = false;
  client_type = 2;
}

abbrev answers : Answers
answers = record {
  user_info = some known_user;
  enough_space = true;
  file_exists = false;
  file_md5 = some (109 ∷ []);
  inserted = 9;
  stat_size = some 5;
  opened = λ f. some 7;
  truncated = true;
  mapped = some 64;
}

abbrev file_path : List ℕ
file_path = path_of (97 ∷ []) (109 ∷ [])

known : has_cipher known_user ≡ true
unfolding has_cipher to_string
known = refl

not_dir : is_dir (get_suffix (to_string (98 ∷ 46 ∷ 99 ∷ 0 ∷ []))) ≡ false
unfolding is_dir get_suffix after_last_dot to_string
not_dir = refl

-- The pieces of the upload of `asks_for 3 0`, which is new.
abbrev unused_name : Answers
unused_name = record answers { stat_size = none }

puts-recv_all_example :
    ((puts unused_name (asks_for 3 0) new_link).1
      ≡ opens file_path create_new
        ∷ truncates 7 5
        ∷ maps 7 5
        ∷ sends (answer 3 Status.success)
        ∷ sends (answer 3 Status.success)
        ∷ [])
    × (u : Upload) × (recv_all
          (puts unused_name (asks_for 3 0) new_link).0
          (first_piece ∷ last_piece ∷ [])
          (replicate 5 0)
          9
        ≡ some u)
    × (u.con.status ≡ fin)
    × (u.con.task.handled_size ≡ 5)
    × (u.con.task.file_fd ≡ some 7)
    × (u.con.task.file_map ≡ some 64)
    × (u.file ≡ 1 ∷ 2 ∷ 3 ∷ 4 ∷ 5 ∷ [])
    × (u.acts
        ≡ map (λ q. sends (chunk_respond q)) (first_piece ∷ last_piece ∷ [])
          ++ inserts (97 ∷ []) (98 ∷ 46 ∷ 99 ∷ []) (109 ∷ []) 5 0 (get_suffix (98 ∷ 46 ∷ 99 ∷ []))
            ∷ sends (finish_respond (answer 5 0) 9)
            ∷ [])
unfolding to_string
puts-recv_all_example =
    puts-recv_all unused_name (asks_for 3 0) new_link known_user 7 64 first_piece (last_piece ∷ [])
      (replicate 5 0) 9 refl refl known not_dir refl refl refl refl refl refl
      (refl, refl, omega arith, (refl, refl, omega arith, tt)) refl refl (omega arith)

-- The file is there, so that `open` fails with O_CREAT and O_EXCL.
abbrev in_use : Answers
in_use = record answers { opened = λ f. if f.creates && f.exclusive then none else some 7 }
