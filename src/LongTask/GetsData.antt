-- ===== src/LongTask/GetsData.antt =====
-- GetsDataTool: the data of a download. `file` is what the mapped file holds; a read outside of it is
-- `none`, and so is a loop that does not end. For the chunk `i`, `cancelled i` is whether the status
-- is CLOSE when the loop has waited for the end of a pause, and `taken i` what sendTranDataPdu returns.
use qt_asio_net_disk.Base.{
  ℕ, zero, suc, ◌+◌, ◌*◌, ◌/◌, ◌%◌, ◌^◌, List, [], ◌∷◌, Option, none, some, Bool, ltb, ◌==◌, ◌&&◌,
  if◌then◌else◌,
}
use qt_asio_net_disk.Heap.{◌>>=◌}
use qt_asio_net_disk.Buffer.{read_at, add_size, sub_size}
use qt_asio_net_disk.Protocol.{TranDataPdu, header_len, tran_data_pdu_type, tran_data_pdu_body_len}
use qt_asio_net_disk.Protocol.Code
use qt_asio_net_disk.UpDownCon.{
  UpDownCon, doing, fin, closed, same_status, set_status, add_handle_size,
}
use qt_asio_net_disk.LongTask.{Link, get_task_wait_check}

abbrev pub chunk_len : ℕ
chunk_len = 2048

-- `(total-1)/chunk_size + 1`
unfoldable pub total_chunks : ℕ → ℕ
total_chunks total = add_size (sub_size total 1 / chunk_len) 1

-- `total - chunk_size*(total_chunks-1)`
unfoldable pub last_chunk_size : ℕ → ℕ
last_chunk_size total = sub_size total (chunk_len * sub_size (total_chunks total) 1 % 2 ^ 64)

-- `i == total_chunks-1 ? last_chunk_size : chunk_size`
unfoldable pub size_of : ℕ → ℕ → ℕ
size_of total i = if i == sub_size (total_chunks total) 1 then last_chunk_size total else chunk_len

-- The message with a chunk, whose fields are as wide as the structure has them.
abbrev pub message_of : ℕ → ℕ → ℕ → ℕ → List ℕ → TranDataPdu
message_of total i offset size bytes = record {
  header = record {
    type = tran_data_pdu_type;
    body_len = (tran_data_pdu_body_len + size) % 2 ^ 32;
    version = 0;
    reserved = 0;
  };
  code = Code.gets_data;
  status = 0;
  file_offset = offset;
  chunk_size = size;
  total_chunks = total_chunks total % 2 ^ 32;
  chunk_index = i;
  check_sum = 0;
  content = bytes;
}

unfoldable pub chunk_of : List ℕ → ℕ → ℕ → ℕ → Option TranDataPdu
chunk_of file pre total i =
    let offset = add_size (i * chunk_len) pre in
    let size = size_of total i % 2 ^ 32 in
    read_at file offset size >>= λ bytes. some (message_of total i offset size bytes)

-- The loop from the chunk `i`: what is sent, and the connection after it.
unfoldable pub send_chunks :
    ℕ
    → List ℕ
    → ℕ
    → ℕ
    → (ℕ → Bool)
    → (ℕ → ℕ)
    → ℕ
    → UpDownCon
    → Option (List TranDataPdu × UpDownCon)
send_chunks zero file pre total cancelled taken i c =
    if ltb i (total_chunks total) then none else some ([], c)
send_chunks (suc fuel) file pre total cancelled taken i c =
    let next = λ (p : TranDataPdu).
      send_chunks fuel file pre total cancelled taken ((i + 1) % 2 ^ 32)
        (add_handle_size c p.chunk_size) in
    let round = λ (p : TranDataPdu).
      (if cancelled i
        then some ([], c)
        else if taken i == header_len + p.header.body_len
        then (next p >>= λ r. some (p ∷ r.0, r.1))
        else some (p ∷ [], c)) in
    if ltb i (total_chunks total) then chunk_of file pre total i >>= round else some ([], c)

-- sendFileData: afterwards the handled size decides.
unfoldable pub send_file_data :
    List ℕ → (ℕ → Bool) → (ℕ → ℕ) → UpDownCon → Option (List TranDataPdu × UpDownCon)
send_file_data file cancelled taken c =
    let pre = c.task.handled_size in
    let total = sub_size c.task.file_size pre in
    let sending = send_chunks (total_chunks total) file pre total cancelled taken 0 c >>= λ r.
    some (r.0, set_status r.1 (if r.1.task.handled_size == total then fin else closed)) in
    elim c.client_ssl [ none ↦ some ([], set_status c closed) | some ssl ↦ sending ]

-- doingTask
unfoldable pub gets_data : List ℕ → (ℕ → Bool) → (ℕ → ℕ) → Link → Option (List TranDataPdu × Link)
gets_data file cancelled taken l =
    let sent =
      if same_status l.con.status doing && l.is_verify
      then send_file_data file cancelled taken l.con
      else some ([], l.con) in
    sent >>= λ r.
    let after = record l { con = r.1 } in
    let waits = record after { client_type = get_task_wait_check } in
    some (r.0, if l.is_verify && same_status r.1.status fin then waits else after)
