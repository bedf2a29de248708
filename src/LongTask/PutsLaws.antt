-- ===== src/LongTask/PutsLaws.antt =====
-- The start of an upload: what the client is told, and what the connection is afterwards.
use qt_asio_net_disk.Base.{ℕ, ◌≡◌, ◌∙◌, List, [], ◌∷◌, some, true, false, ◌==◌}
use qt_asio_net_disk.Protocol.{TranPdu, UserInfo}
use qt_asio_net_disk.Protocol.Code
use qt_asio_net_disk.Protocol.Status
use qt_asio_net_disk.UpDownCon.{starting, doing, fin, to_string, init, copy_task, set_status}
use qt_asio_net_disk.LongTask.{
  Link, Answers, sends, opens, create_new, truncates, maps, inserts, get_suffix, is_dir, has_cipher,
  path_of, answer,
}
use qt_asio_net_disk.LongTask.Puts.{
  Created, asked_task, open_file, create_task, start, finish_respond, quick_insert, reply,
  first_check, puts,
}

-- The parts that all uploads of a known user have in common.
module _ (a : Answers) (p : TranPdu) (l : Link) (info : UserInfo) (begins : l.con.status ≡ starting)
    (known : a.user_info ≡ some info) (cipher : has_cipher info ≡ true)
    (file : is_dir (get_suffix (to_string p.file_name)) ≡ false)
    (space : a.enough_space ≡ true) where
  abbrev path : List ℕ
  path = path_of (to_string p.user) (to_string p.file_md5)

  puts-known :
      (c : Created)
      → create_task a p (answer Code.puts 0) ≡ c
      → puts a p l ≡ reply a (start c info l) c.respond c.acts
  unfolding puts first_check
  puts-known c made = simp (puts, begins, first_check, known, cipher, made)

  -- An upload of a new file, whose file can be made, sized and mapped, begins: the connection is
  -- verified and holds the task with the mapping and nothing handled. The client gets the answer
  -- twice.
  pub puts-new :
      (fd map : ℕ)
      → a.file_exists ≡ false
      → (p.tran_pdu_code == Code.putscontinue) ≡ false
      → a.opened create_new ≡ some fd
      → a.truncated ≡ true
      → a.mapped ≡ some map
      → puts a p l ≡ (
        record l {
          con =
              set_status
                (init l.con info (record (asked_task p) { file_fd = some fd; file_map = some map }))
                doing;
          is_verify = true;
        },
        opens path create_new
            ∷ truncates fd p.file_size
            ∷ maps fd p.file_size
            ∷ sends (answer Code.puts Status.success)
            ∷ sends (answer Code.puts Status.success)
            ∷ [],
      )
  unfolding create_task open_file start reply quick_insert
  puts-new fd map new fresh opened sized mapped =
      puts-known
        (record {
          task = record (asked_task p) { file_fd = some fd; file_map = some map };
          respond = answer Code.puts Status.success;
          acts = opens path create_new ∷ truncates fd p.file_size ∷ maps fd p.file_size ∷ [];
        })
        (simp (create_task, file, space, new, fresh, open_file, opened, sized, mapped))

  -- A file that the user has already is entered without its data: the connection is finished with
  -- all of it handled, and the second answer tells the identifier of the new entry.
  pub puts-quick :
      (a.file_exists ≡ true)
      → (a.inserted == 0) ≡ false
      → puts a p l ≡ (
        record l {
          con =
              set_status
                (init l.con info (record (asked_task p) { handled_size = p.file_size }))
                fin;
          is_verify = true;
        },
        sends (answer Code.puts Status.put_quick)
            ∷ inserts
                (to_string info.user)
                (to_string p.file_name)
                (to_string p.file_md5)
                p.file_size
                p.parent_dir_id
                (get_suffix (to_string p.file_name))
            ∷ sends (finish_respond (answer Code.puts Status.put_quick) a.inserted)
            ∷ [],
      )
  unfolding create_task start reply quick_insert init copy_task finish_respond set_status
  puts-quick exists entered =
      puts-known
        (record {
          task = record (asked_task p) { handled_size = p.file_size };
          respond = answer Code.puts Status.put_quick;
          acts = [];
        })
        (simp (create_task, file, space, exists))
      ∙ simp (entered)
