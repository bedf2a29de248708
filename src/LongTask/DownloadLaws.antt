-- ===== src/LongTask/DownloadLaws.antt =====
-- A download sends the file once, in chunks.
use qt_asio_net_disk.Base.{
  ℕ, zero, suc, ◌+◌, ◌-◌, ◌*◌, ◌/◌, ◌%◌, ◌^◌, ◌≤◌, ◌<◌, ◌≡◌, refl, sym, ap, ◌∙◌, List, [], ◌∷◌,
  ◌++◌, some, Bool, true, false, arith, append-nil, length, length-drop, take, drop, drop-drop,
  drop-all, take-all, take-append-drop, if◌then◌else◌, ltb, lt→ltb, le→ltb, ◌==◌, ==_refl, ==→eq,
  Bool-cases, ◌⊎◌, inl, inr,
}
use qt_asio_net_disk.Buffer.{read_at, sub_size}
use qt_asio_net_disk.Protocol.{TranDataPdu}
use qt_asio_net_disk.UpDownCon.{UpDownCon, fin, closed, set_status, add_handle_size}
use qt_asio_net_disk.LongTask.GetsData.{
  message_of, total_chunks, last_chunk_size, size_of, chunk_of, send_chunks, send_file_data,
}

module _ (total : ℕ) (some_left : 1 ≤ total) (small : total < 2 ^ 42) where
  total_chunks_lem : total_chunks total ≡ (total - 1) / 2048 + 1
  unfolding total_chunks
  total_chunks_lem = omega arith

  last_chunk_size_lem : last_chunk_size total ≡ total - 2048 * ((total - 1) / 2048)
  unfolding last_chunk_size
  last_chunk_size_lem = rw total_chunks_lem (omega arith)

  -- Of 1 byte or more, and fewer than 2^42, every chunk that is counted has from 1 to 2048 bytes,
  -- within what is to be sent, and has 2048 or ends with the last byte.
  pub size_of_lem :
      (i : ℕ)
      → i < total_chunks total
      → (1 ≤ size_of total i)
        × (size_of total i ≤ 2048)
        × (i * 2048 + size_of total i ≤ total)
        × ((size_of total i ≡ 2048) ⊎ (i * 2048 + size_of total i ≡ total))
  unfolding size_of
  size_of_lem i h =
      let k : ℕ = (total - 1) / 2048 in
      let n = total_chunks_lem in
      let exact : sub_size (total_chunks total) 1 ≡ k = omega (arith, n) in
      elim (Bool-cases (i == k)) [
        | inl last ↦
            let same : i ≡ k = ==→eq i k last in
            rw (size_of, exact, last, last_chunk_size_lem)
              (omega arith, omega arith, omega arith, inr (omega arith))
        | inr inner ↦
            let before : i < k = ground (arith, n) in
            rw (size_of, exact, inner) (omega arith, omega arith, omega arith, inl refl)
      ]

-- The data of the messages.
abbrev pub all_of : List TranDataPdu → List ℕ
all_of [] = []
all_of (p ∷ ps) = p.content ++ all_of ps

-- A chunk in the file.
chunk_of_lem :
    (file : List ℕ) (pre total i : ℕ)
    → 1 ≤ total
    → total < 2 ^ 42
    → pre + total ≡ length file
    → length file < 2 ^ 64
    → i < total_chunks total
    → (p : TranDataPdu) × (chunk_of file pre total i ≡ some p)
      × (p.chunk_size ≡ size_of total i)
      × (8 + p.header.body_len ≡ 40 + size_of total i)
      × (p.file_offset ≡ i * 2048 + pre)
      × (p.content ≡ take (size_of total i) (drop (i * 2048 + pre) file))
unfolding chunk_of read_at
chunk_of_lem file pre total i some_left small whole narrow h =
    let (low, high, inside, full) = size_of_lem total some_left small i h in
    let size : ℕ = size_of total i in
    let wide : size % 2 ^ 32 ≡ size = omega arith in
    let place : (i * 2048 + pre) % 2 ^ 64 ≡ i * 2048 + pre = omega arith in
    let there : ltb (length file) (i * 2048 + pre + size) ≡ false =
      le→ltb (length file) (i * 2048 + pre + size) (omega arith) in
    (
      message_of total i (i * 2048 + pre) size (take size (drop (i * 2048 + pre) file)),
      rw (chunk_of, wide, place, there),
      refl,
      omega (arith, wide),
      refl,
      refl,
    )

-- A round of the loop.
send_chunks-next :
    (fuel : ℕ) (file : List ℕ) (pre total i j : ℕ) (cancelled : ℕ → Bool) (taken : ℕ → ℕ)
    (c k : UpDownCon) (p : TranDataPdu) (ps : List TranDataPdu)
    → ltb i (total_chunks total) ≡ true
    → chunk_of file pre total i ≡ some p
    → cancelled i ≡ false
    → taken i ≡ 8 + p.header.body_len
    → (i + 1) % 2 ^ 32 ≡ j
    → send_chunks fuel file pre total cancelled taken j (add_handle_size c p.chunk_size)
      ≡ some (ps, k)
    → send_chunks (suc fuel) file pre total cancelled taken i c ≡ some (p ∷ ps, k)
unfolding send_chunks
send_chunks-next fuel file pre total i j cancelled taken c k p ps more read goes_on all_taken next
      rest =
    rw (send_chunks, more, read, goes_on, all_taken, ==_refl (8 + p.header.body_len), next, rest)

-- Two pieces of a file, one behind the other, or the last one and nothing.
pieces :
    (file : List ℕ) (off size next : ℕ)
    → (next ≡ off + size) ⊎ ((off + size ≡ length file) × (length file ≤ next))
    → take size (drop off file) ++ drop next file ≡ drop off file
pieces file off size next (inl e) =
    rw (e, ← drop-drop off size file) (take-append-drop size (drop off file))
pieces file off size next (inr (e, h)) =
    rw (drop-all next file h, append-nil (take size (drop off file)))
      (take-all size (drop off file) (omega (arith, length-drop off file)))

send_chunks_lem :
    (fuel : ℕ) (file : List ℕ) (pre total i : ℕ) (cancelled : ℕ → Bool) (taken : ℕ → ℕ)
    (c : UpDownCon)
    → 1 ≤ total
    → total < 2 ^ 42
    → pre + total ≡ length file
    → length file < 2 ^ 64
    → i + fuel ≡ total_chunks total
    → c.task.handled_size + (total - i * 2048) < 2 ^ 64
    → ((j : ℕ) → cancelled j ≡ false)
    → ((j : ℕ) → taken j ≡ 40 + size_of total j)
    → (ps : List TranDataPdu) × (k : UpDownCon) × (send_chunks fuel file pre total cancelled taken i
          c
        ≡ some (ps, k))
      × (all_of ps ≡ drop (i * 2048 + pre) file)
      × (k.task.handled_size ≡ c.task.handled_size + (total - i * 2048))
unfolding send_chunks add_handle_size
send_chunks_lem zero file pre total i cancelled taken c some_left small whole narrow at bound
      goes_on all_taken =
    let n = total_chunks_lem total some_left small in
    let beyond : drop (i * 2048 + pre) file ≡ [] =
      drop-all (i * 2048 + pre) file (omega (arith, n)) in
    ([], c, rw (le→ltb i (total_chunks total) (omega arith)), sym beyond, omega (arith, n))
send_chunks_lem (suc fuel) file pre total i cancelled taken c some_left small whole narrow at bound
      goes_on all_taken =
    let n = total_chunks_lem total some_left small in
    let inside : i < total_chunks total = omega arith in
    let (low, high, fits, full) = size_of_lem total some_left small i inside in
    let (p, read, size, told, place, content) =
      chunk_of_lem file pre total i some_left small whole narrow inside in
    let next : (i + 1) % 2 ^ 32 ≡ i + 1 = omega (arith, n) in
    let grown : (c.task.handled_size + p.chunk_size) % 2 ^ 64 ≡ c.task.handled_size + p.chunk_size =
      omega (arith, size) in
    let left : total - i * 2048 ≡ size_of total i + (total - (i + 1) * 2048) = elim full [
      | inl inner ↦ omega (arith, inner)
      | inr last ↦ omega (arith, last)
    ] in
    let follows : ((i + 1) * 2048 + pre ≡ i * 2048 + pre + size_of total i)
        ⊎ ((i * 2048 + pre + size_of total i ≡ length file)
            × (length file ≤ (i + 1) * 2048 + pre)) =
      elim full [
        | inl inner ↦ inl (omega (arith, inner))
        | inr last ↦ inr (omega (arith, last), omega (arith, last))
      ] in
    let after : UpDownCon = add_handle_size c p.chunk_size in
    let (ps, k, run, rest, handled) =
      send_chunks_lem fuel file pre total (i + 1) cancelled taken after some_left small whole narrow
        (omega arith) (omega (arith, grown, size, left)) goes_on all_taken in
    (
      p ∷ ps,
      k,
      send_chunks-next fuel file pre total i (i + 1) cancelled taken c k p ps
          (lt→ltb i (total_chunks total) inside) read (goes_on i) (all_taken i ∙ sym told) next run,
      ap (λ t. t ++ all_of ps) content
          ∙ ap (λ t. take (size_of total i) (drop (i * 2048 + pre) file) ++ t) rest
          ∙ pieces file (i * 2048 + pre) (size_of total i) ((i + 1) * 2048 + pre) follows,
      omega (arith, handled, grown, size, left),
    )

send_file_data-next :
    (file : List ℕ) (cancelled : ℕ → Bool) (taken : ℕ → ℕ) (c k : UpDownCon) (ps : List TranDataPdu)
    (ssl total : ℕ) (finished : Bool)
    → c.client_ssl ≡ some ssl
    → sub_size c.task.file_size c.task.handled_size ≡ total
    → send_chunks (total_chunks total) file c.task.handled_size total cancelled taken 0 c
      ≡ some (ps, k)
    → (k.task.handled_size == total) ≡ finished
    → send_file_data file cancelled taken c
      ≡ some (ps, set_status k (if finished then fin else closed))
unfolding send_file_data
send_file_data-next file cancelled taken c k ps ssl total finished has_ssl exact run decides =
    simp (send_file_data, has_ssl, exact, run, decides)

-- A download of a file of fewer than 2^42 bytes, on an open connection, from a place before its end,
-- that nobody cancels and whose messages go out whole, sends the file from this place, each byte once
-- and in order, in chunks; the handled size ends at the size of the file. Where that place is the start, the download is finished; elsewhere it ends
-- as closed, although all is sent, since the handled size is compared with what was left to send.
pub send_file_data_lem :
    (file : List ℕ) (cancelled : ℕ → Bool) (taken : ℕ → ℕ) (c : UpDownCon) (ssl : ℕ)
    → c.client_ssl ≡ some ssl
    → c.task.file_size ≡ length file
    → c.task.handled_size < length file
    → length file < 2 ^ 42
    → ((j : ℕ) → cancelled j ≡ false)
    → ((j : ℕ) → taken j ≡ 40 + size_of (length file - c.task.handled_size) j)
    → (ps : List TranDataPdu) × (k : UpDownCon) × (send_file_data file cancelled taken c
        ≡ some (ps, k))
      × (all_of ps ≡ drop c.task.handled_size file)
      × (k.task.handled_size ≡ length file)
      × (k.status ≡ (if c.task.handled_size == 0 then fin else closed))
unfolding set_status
send_file_data_lem file cancelled taken c ssl has_ssl size some_left small goes_on all_taken =
    let pre : ℕ = c.task.handled_size in
    let total : ℕ = length file - pre in
    let exact : (c.task.file_size + 2 ^ 64 - pre) % 2 ^ 64 ≡ total = omega arith in
    let start : 0 * 2048 + pre ≡ pre = omega arith in
    let (ps, k, run, contents, handled) =
      send_chunks_lem (total_chunks total) file pre total 0 cancelled taken c (omega arith)
        (omega arith) (omega arith) (omega arith) (omega arith) (omega arith) goes_on all_taken in
    let done : k.task.handled_size ≡ length file = omega (arith, handled) in
    let decides : (length file == total) ≡ (pre == 0) = ground arith in
    (
      ps,
      set_status k (if pre == 0 then fin else closed),
      send_file_data-next file cancelled taken c k ps ssl total (pre == 0) has_ssl exact run
          (ap (λ n. n == total) done ∙ decides),
      rw start at contents,
      done,
      refl,
    )
