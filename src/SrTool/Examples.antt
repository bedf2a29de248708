-- ===== src/SrTool/Examples.antt =====
-- SRTool at one chunk of a download, at a list of one file, and at a call that fails.
use qt_asio_net_disk.Base.{
  ℕ, ◌+◌, ◌-◌, ◌^◌, ◌≡◌, refl, List, [], ◌∷◌, ◌++◌, map, arith, length-replicate, replicate, true,
}
use qt_asio_net_disk.Protocol.{
  TranDataPdu, IsTranDataPdu, tran_data_pdu_type, tran_data_pdu_body_len, FileInfo, IsFileInfo,
  file_info_type, file_info_body_len,
}
use qt_asio_net_disk.Serializer.Samples.{sample_header, sample_header-IsHeader}
use qt_asio_net_disk.EventLoop.Messaging.{chunk}
use qt_asio_net_disk.EventLoop.Sending.{IsSent}
use qt_asio_net_disk.SrTool.{
  Write, took, nothing, failed, with_type, send_loop, send_tran_data_pdu, send_file_info,
}
use qt_asio_net_disk.SrTool.Laws.{
  complete, Job, all_frames, all_calls, send_tran_data_pdu_lem, send_file_info-Jobs,
}
use qt_asio_net_disk.SrTool.Faults.{send_loop-failed}

abbrev three_bytes : TranDataPdu
three_bytes = record {
  header = sample_header tran_data_pdu_type (tran_data_pdu_body_len + 3);
  code = 7;
  status = 0;
  file_offset = 0;
  chunk_size = 3;
  total_chunks = 1;
  chunk_index = 0;
  check_sum = 0;
  content = 7 ∷ 8 ∷ 9 ∷ [];
}

three_bytes-IsTranDataPdu : IsTranDataPdu three_bytes
three_bytes-IsTranDataPdu = record {
  header_valid =
      sample_header-IsHeader tran_data_pdu_type (tran_data_pdu_body_len + 3) (omega arith)
        (omega arith);
  code_fits = omega arith;
  status_fits = omega arith;
  file_offset_fits = omega arith;
  chunk_size_fits = omega arith;
  total_chunks_fits = omega arith;
  chunk_index_fits = omega arith;
  check_sum_fits = omega arith;
  content_size = refl;
  chunk_size_bound = omega arith;
}

abbrev in_two : List Write
in_two = took 40 ∷ nothing true ∷ took 3 ∷ []

send_tran_data_pdu_example :
    (f : List ℕ) × (send_tran_data_pdu (replicate 8192 0) three_bytes (in_two ++ [])
      ≡ complete f 43 [])
    × IsSent (chunk three_bytes) f
send_tran_data_pdu_example =
    send_tran_data_pdu_lem (replicate 8192 0) three_bytes in_two [] three_bytes-IsTranDataPdu
      (length-replicate {A = ℕ} 8192 0) (omega arith, (refl, omega arith, (omega arith, tt))) refl

abbrev one_file : FileInfo
one_file = record {
  header = sample_header 0 0;
  file_id = 1;
  file_name = replicate 100 97;
  dir_grade = 0;
  file_type = replicate 10 0;
  file_size = 5;
  parent_dir = 0;
  file_date = replicate 100 0;
}

one_file-IsFileInfo : IsFileInfo (with_type one_file)
one_file-IsFileInfo = record {
  header_valid =
      sample_header-IsHeader file_info_type file_info_body_len (omega arith) (omega arith);
  file_id_fits = omega arith;
  file_name_size = length-replicate {A = ℕ} 100 97;
  dir_grade_fits = omega arith;
  file_type_size = length-replicate {A = ℕ} 10 0;
  file_size_fits = omega arith;
  parent_dir_fits = omega arith;
  file_date_size = length-replicate {A = ℕ} 100 0;
}

abbrev one_job : Job
one_job = record {
  info = one_file;
  calls = took 200 ∷ took 46 ∷ [];
  valid = one_file-IsFileInfo;
  smooth = (omega arith, (omega arith, tt));
  enough = refl;
}

send_file_info_example :
    send_file_info
      (λ i. replicate 8192 0)
      0
      (map (λ j. j.info) (one_job ∷ []))
      (all_calls (one_job ∷ []) ++ [])
    ≡ complete (all_frames (one_job ∷ [])) 0 []
send_file_info_example =
    send_file_info-Jobs (λ i. replicate 8192 0) 0 (one_job ∷ []) []
      (λ i. length-replicate {A = ℕ} 8192 0)

send_loop-failed_example :
    (send_loop (5 ∷ 6 ∷ 7 ∷ []) 3 0 (took 1 ∷ failed true ∷ took 3 ∷ [])
      ≡ complete (5 ∷ 5 ∷ 6 ∷ 7 ∷ []) 3 [])
    × (send_loop (5 ∷ 6 ∷ 7 ∷ []) 3 0 (failed true ∷ []) ≡ complete [] (2 ^ 64 - 1) [])
send_loop-failed_example = send_loop-failed (5 ∷ 6 ∷ 7 ∷ []) 3 0 true [] (omega arith) (omega arith)
