-- ===== src/ShortTask/Examples.antt =====
-- The short tasks at a user "a".
use qt_asio_net_disk.Base.{
  ◌≡◌, refl, [], ◌∷◌, ◌++◌, some, none, true, false, arith, replicate, take, drop,
}
use qt_asio_net_disk.Wire.Bytes.{to_le, from_le}
use qt_asio_net_disk.Wire.Order.{htonll, ntohll}
use qt_asio_net_disk.Protocol.{Pdu, PduRespond, UserInfo, user_info_type, user_info_body_len}
use qt_asio_net_disk.Serializer.Samples.{sample_header}
use qt_asio_net_disk.UpDownCon.{to_string}
use qt_asio_net_disk.ShortTask.{ClientCon, Answers, sends, inserts, make_dir, delete}
use qt_asio_net_disk.ShortTask.Laws.{
  deletes, is_database, is_refusal, any, unverified-refused, make_dir-answers,
}

abbrev user_a : UserInfo
user_a = record {
  header = sample_header user_info_type user_info_body_len;
  user = replicate 50 97;
  pwd = replicate 50 98;
  cipher = replicate 50 99;
  is_vip = replicate 50 0;
  capacity_sum = replicate 50 0;
  used_capacity = replicate 50 0;
  salt = replicate 50 0;
  vip_date = replicate 50 0;
}

abbrev client : ClientCon
client = record {
  client_ssl = some 3;
  client_sock = some 4;
  user_info = user_a;
  is_verify = false;
  is_vip = false;
  is_close = false;
  user_count = 1;
}

abbrev signed_in : ClientCon
signed_in = record client { is_verify = true }

abbrev asks : Pdu
asks = record {
  header = sample_header 1 352;
  code = 11;
  user = replicate 20 97;
  pwd = replicate 20 98;
  file_name = replicate 100 99;
  msg_len = 8;
  msg = to_le 8 (htonll 5) ++ replicate 192 0;
}

abbrev answers : Answers
answers = record {
  user_info = some user_a;
  user_exists = true;
  user_inserted = false;
  cipher = [];
  directory = none;
  found = none;
  made = false;
  files = none;
  inserted = 7;
  deleted = true;
}

unverified-refused_example :
    (any is_database (delete answers asks client).acts ≡ false)
    × (any is_refusal (delete answers asks client).acts ≡ true)
    × ((delete answers asks client).con ≡ client)
unverified-refused_example = unverified-refused deletes answers asks client 3 refl

make_dir-answers_example :
    (r : PduRespond) × (make_dir answers asks signed_in ≡ record {
      con = signed_in;
      acts =
          inserts (to_string (replicate 50 97)) (to_string (replicate 100 99)) [] 0 5 (100 ∷ [])
          ∷ sends r
          ∷ [];
      fine = true;
    })
    × (ntohll (from_le (take 8 r.msg)) ≡ 7)
    × (ntohll (from_le (take 8 (drop 8 r.msg))) ≡ 5)
make_dir-answers_example =
    make_dir-answers answers asks signed_in 5 (replicate 192 0) refl refl (omega arith) refl
      (omega arith)
