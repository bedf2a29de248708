-- ===== src/LongTask/WholeUpload.antt =====
-- An upload from its first message to its last.
use qt_asio_net_disk.Base.{
  ℕ, ◌^◌, ◌<◌, ◌≡◌, refl, ap, ◌∙◌, List, [], ◌∷◌, ◌++◌, map, some, true, false, arith, length, ◌==◌,
}
use qt_asio_net_disk.Protocol.{TranPdu, TranDataPdu, UserInfo}
use qt_asio_net_disk.Protocol.Code
use qt_asio_net_disk.Protocol.Status
use qt_asio_net_disk.UpDownCon.{starting, doing, fin, to_string, init, copy_task, set_status}
use qt_asio_net_disk.LongTask.{
  Link, Answers, sends, opens, create_new, truncates, maps, inserts, get_suffix, is_dir, has_cipher,
  path_of, answer,
}
use qt_asio_net_disk.LongTask.Puts.{asked_task, finish_respond, puts}
use qt_asio_net_disk.LongTask.PutsData.{Upload, chunk_respond, recv_all}
use qt_asio_net_disk.LongTask.PutsLaws.{puts-new}
use qt_asio_net_disk.LongTask.DownloadLaws.{all_of}
use qt_asio_net_disk.LongTask.UploadLaws.{InOrder, recv_all_lem}

-- A user whom the database knows with a cipher, has room for the file and has no file of its MD5, uploads
-- a new file, that is no directory, of at least one byte and fewer than 2^64; the file on the
-- server can be made, sized and mapped. The connection that the first message leaves takes the data,
-- which comes in order in pieces of any sizes, and ends as finished: it holds the descriptor and
-- the mapping, the mapped file, of the size that it was given, has exactly the data, each piece was
-- answered, and at the end one entry was asked of the database, for the user, with the name, the MD5,
-- the size and the parent of the first message, and the client told of it.
pub puts-recv_all :
    (a : Answers) (m : TranPdu) (l : Link) (info : UserInfo) (fd place : ℕ) (p : TranDataPdu)
    (ps : List TranDataPdu) (file : List ℕ) (inserted : ℕ)
    → l.con.status ≡ starting
    → a.user_info ≡ some info
    → has_cipher info ≡ true
    → is_dir (get_suffix (to_string m.file_name)) ≡ false
    → a.enough_space ≡ true
    → a.file_exists ≡ false
    → (m.tran_pdu_code == Code.putscontinue) ≡ false
    → a.opened create_new ≡ some fd
    → a.truncated ≡ true
    → a.mapped ≡ some place
    → InOrder 0 (p ∷ ps)
    → m.file_size ≡ length (all_of (p ∷ ps))
    → length file ≡ m.file_size
    → m.file_size < 2 ^ 64
    → ((puts a m l).1
        ≡ opens (path_of (to_string m.user) (to_string m.file_md5)) create_new
          ∷ truncates fd m.file_size
          ∷ maps fd m.file_size
          ∷ sends (answer Code.puts Status.success)
          ∷ sends (answer Code.puts Status.success)
          ∷ [])
      × (u : Upload) × (recv_all (puts a m l).0 (p ∷ ps) file inserted ≡ some u)
      × (u.con.status ≡ fin)
      × (u.con.task.handled_size ≡ m.file_size)
      × (u.con.task.file_fd ≡ some fd)
      × (u.con.task.file_map ≡ some place)
      × (u.file ≡ all_of (p ∷ ps))
      × (u.acts
          ≡ map (λ q. sends (chunk_respond q)) (p ∷ ps)
            ++ inserts
                (to_string info.user)
                (to_string m.file_name)
                (to_string m.file_md5)
                m.file_size
                m.parent_dir_id
                (get_suffix (to_string m.file_name))
              ∷ sends (finish_respond (answer Code.puts_finish 0) inserted)
              ∷ [])
unfolding init copy_task set_status
puts-recv_all a m l info fd place p ps file inserted begins known cipher no_dir space new fresh
      opened sized mapped order whole room small =
    let begun =
      puts-new a m l info begins known cipher no_dir space fd place new fresh opened sized mapped in
    let task = record (asked_task m) { file_fd = some fd; file_map = some place } in
    let start : Link = record l {
      con = set_status (init l.con info task) doing;
      is_verify = true;
    } in
    let run =
      recv_all_lem start p ps [] file inserted refl refl order refl (omega (arith, whole))
        (omega (arith, whole, room)) small in
    (
      ap (λ r. r.1) begun,
      _,
      ap (λ r. recv_all r.0 (p ∷ ps) file inserted) begun ∙ run,
      refl,
      omega (arith, whole),
      refl,
      refl,
      refl,
      refl,
    )
