-- ===== src/Serializer/Examples.antt =====
-- The round trips of requests, answers and transfers at one message each.
use qt_asio_net_disk.Base.{
  ℕ, ◌+◌, ◌≡◌, refl, List, [], ◌++◌, arith, length, length-replicate, take, drop, replicate, true,
}
use qt_asio_net_disk.Wire.Put.{ok}
use qt_asio_net_disk.Wire.Get.{done}
use qt_asio_net_disk.Serializer.Samples.{sample_header, sample_header-IsHeader}
use qt_asio_net_disk.Protocol.{
  Pdu, IsPdu, pdu_type, pdu_body_len, PduRespond, IsPduRespond, pdu_respond_type,
  pdu_respond_body_len, TranDataPdu, IsTranDataPdu, tran_data_pdu_type, tran_data_pdu_body_len,
}
use qt_asio_net_disk.Serializer.Pdu.{serialize_pdu, deserialize_pdu, deserialize_pdu-serialize_pdu}
use qt_asio_net_disk.Serializer.PduRespond.{
  serialize_pdu_respond, deserialize_pdu_respond, deserialize_pdu_respond-serialize_pdu_respond,
}
use qt_asio_net_disk.Serializer.TranDataPdu.{
  serialize_tran_data_pdu, deserialize_tran_data_pdu,
  deserialize_tran_data_pdu-serialize_tran_data_pdu,
}

abbrev sample_pdu : Pdu
sample_pdu = record {
  header = sample_header pdu_type (pdu_body_len + 5);
  code = 4;
  user = replicate 20 98;
  pwd = replicate 20 99;
  file_name = replicate 100 100;
  msg_len = 5;
  msg = replicate 200 102;
}

abbrev blank_pdu : Pdu
blank_pdu = record {
  header = sample_header 0 0;
  code = 0;
  user = replicate 20 0;
  pwd = replicate 20 0;
  file_name = replicate 100 0;
  msg_len = 0;
  msg = replicate 200 0;
}

sample_pdu-IsPdu : IsPdu sample_pdu
sample_pdu-IsPdu = record {
  header_valid = sample_header-IsHeader pdu_type (pdu_body_len + 5) (omega arith) (omega arith);
  code_fits = omega arith;
  user_size = refl;
  pwd_size = refl;
  file_name_size = refl;
  msg_len_fits = omega arith;
  msg_size = refl;
  msg_len_bound = omega arith;
}

pdu_example :
    (out : List ℕ) × (serialize_pdu (replicate 8192 7) sample_pdu ≡ ok out)
    × (length out ≡ 8192)
    × (deserialize_pdu out 8192 blank_pdu
        ≡ done true (record sample_pdu {
          msg = take sample_pdu.msg_len sample_pdu.msg ++ drop sample_pdu.msg_len blank_pdu.msg;
        }))
pdu_example =
    deserialize_pdu-serialize_pdu sample_pdu blank_pdu (replicate 8192 7) 8192 sample_pdu-IsPdu
      (length-replicate {A = ℕ} 8192 7) refl (omega arith)

abbrev sample_pdu_respond : PduRespond
sample_pdu_respond = record {
  header = sample_header pdu_respond_type (pdu_respond_body_len + 5);
  code = 4;
  status = 1;
  msg_amount = 1;
  msg_len = 5;
  msg = replicate 5 101;
}

abbrev blank_pdu_respond : PduRespond
blank_pdu_respond = record {
  header = sample_header 0 0;
  code = 0;
  status = 0;
  msg_amount = 0;
  msg_len = 0;
  msg = [];
}

sample_pdu_respond-IsPduRespond : IsPduRespond sample_pdu_respond
sample_pdu_respond-IsPduRespond = record {
  header_valid =
      sample_header-IsHeader pdu_respond_type (pdu_respond_body_len + 5) (omega arith)
        (omega arith);
  code_fits = omega arith;
  status_fits = omega arith;
  msg_amount_fits = omega arith;
  msg_len_fits = omega arith;
  msg_size = refl;
  msg_len_bound = omega arith;
}

pdu_respond_example :
    (out : List ℕ) × (serialize_pdu_respond (replicate 8192 7) sample_pdu_respond ≡ ok out)
    × (length out ≡ 8192)
    × (deserialize_pdu_respond out 8192 blank_pdu_respond ≡ done true sample_pdu_respond)
pdu_respond_example =
    deserialize_pdu_respond-serialize_pdu_respond sample_pdu_respond blank_pdu_respond
      (replicate 8192 7) 8192 sample_pdu_respond-IsPduRespond (length-replicate {A = ℕ} 8192 7) refl
      (omega arith)

abbrev sample_tran_data_pdu : TranDataPdu
sample_tran_data_pdu = record {
  header = sample_header tran_data_pdu_type (tran_data_pdu_body_len + 6);
  code = 2;
  status = 0;
  file_offset = 5000000000;
  chunk_size = 6;
  total_chunks = 9;
  chunk_index = 8;
  check_sum = 12;
  content = replicate 6 104;
}

abbrev blank_tran_data_pdu : TranDataPdu
blank_tran_data_pdu = record {
  header = sample_header 0 0;
  code = 0;
  status = 0;
  file_offset = 0;
  chunk_size = 0;
  total_chunks = 0;
  chunk_index = 0;
  check_sum = 0;
  content = [];
}

sample_tran_data_pdu-IsTranDataPdu : IsTranDataPdu sample_tran_data_pdu
sample_tran_data_pdu-IsTranDataPdu = record {
  header_valid =
      sample_header-IsHeader tran_data_pdu_type (tran_data_pdu_body_len + 6) (omega arith)
        (omega arith);
  code_fits = omega arith;
  status_fits = omega arith;
  file_offset_fits = omega arith;
  chunk_size_fits = omega arith;
  total_chunks_fits = omega arith;
  chunk_index_fits = omega arith;
  check_sum_fits = omega arith;
  content_size = refl;
  chunk_size_bound = omega arith;
}

tran_data_pdu_example :
    (out : List ℕ) × (serialize_tran_data_pdu (replicate 8192 7) sample_tran_data_pdu ≡ ok out)
    × (length out ≡ 8192)
    × (deserialize_tran_data_pdu out 8192 blank_tran_data_pdu ≡ done true sample_tran_data_pdu)
tran_data_pdu_example =
    deserialize_tran_data_pdu-serialize_tran_data_pdu sample_tran_data_pdu blank_tran_data_pdu
      (replicate 8192 7) 8192 sample_tran_data_pdu-IsTranDataPdu (length-replicate {A = ℕ} 8192 7)
      refl (omega arith)
