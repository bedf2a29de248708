-- ===== src/LongTask/UploadLaws.antt =====
-- An upload puts the data of its messages into the file.
use qt_asio_net_disk.Base.{
  ℕ, ◌+◌, ◌-◌, ◌%◌, ◌^◌, ◌≤◌, ◌<◌, ◌≡◌, refl, ap, subst, ◌∙◌, List, [], ◌∷◌, ◌++◌, map, some, true,
  false, arith, append_assoc, append-nil, length, length-append, length-drop, take, drop, drop-all,
  take-all, le→ltb, le→leb, ◌==◌,
}
use qt_asio_net_disk.Buffer.{copy_to}
use qt_asio_net_disk.Buffer.Contents.{copy_to_lem}
use qt_asio_net_disk.Protocol.{TranDataPdu}
use qt_asio_net_disk.Protocol.Code
use qt_asio_net_disk.UpDownCon.{
  UpDownCon, doing, fin, same_status, reserve, less_equal_add, add_handle_size, cmp_exchange,
  set_status,
}
use qt_asio_net_disk.LongTask.{Link, Act, sends, inserts, get_suffix, answer}
use qt_asio_net_disk.LongTask.Puts.{finish_respond}
use qt_asio_net_disk.LongTask.DownloadLaws.{all_of}
use qt_asio_net_disk.LongTask.PutsData.{
  Upload, chunk_respond, complete, recv_file_data, puts_data, recv_all,
}

-- The connection with `n` more bytes handled.
abbrev pub handled : UpDownCon → ℕ → UpDownCon
handled c n = record c { task = record c.task { handled_size = c.task.handled_size + n } }

-- The acts at the end of an upload.
abbrev pub end_acts : UpDownCon → ℕ → List Act
end_acts c inserted =
    inserts c.user c.task.file_name c.task.file_md5 c.task.file_size c.task.parent_dir_id
      (get_suffix c.task.file_name)
    ∷ sends (finish_respond (answer Code.puts_finish 0) inserted)
    ∷ []

reserve_lem :
    (c : UpDownCon) (n : ℕ)
    → c.task.handled_size + n ≤ c.task.file_size
    → c.task.file_size < 2 ^ 64
    → reserve c n n ≡ (handled c n, true)
unfolding reserve less_equal_add add_handle_size
reserve_lem c n fits small =
    let room : (c.task.file_size + 2 ^ 64 - n) % 2 ^ 64 ≡ c.task.file_size - n = omega arith in
    let exact : (c.task.handled_size + n) % 2 ^ 64 ≡ c.task.handled_size + n = omega arith in
    rw (
      reserve,
      le→ltb n n (omega arith),
      less_equal_add,
      room,
      exact,
      le→leb c.task.handled_size (c.task.file_size - n) (omega arith),
    )

-- A message whose data goes behind what has come.
module _ (c : UpDownCon) (p : TranDataPdu) (w tail : List ℕ) (inserted : ℕ)
    (at : p.file_offset ≡ length w) (size : p.chunk_size ≡ length p.content)
    (fits : c.task.handled_size + length p.content ≤ c.task.file_size)
    (small : c.task.file_size < 2 ^ 64) (room : length p.content ≤ length tail) where
  abbrev filled : List ℕ
  filled = w ++ (p.content ++ drop (length p.content) tail)

  placed : copy_to (w ++ tail) p.file_offset (take p.chunk_size p.content) ≡ some filled
  placed =
      rw (at, size, take-all (length p.content) p.content (omega arith))
        (copy_to_lem w tail p.content room)

  recv_file_data-more :
      (c.task.handled_size + length p.content == c.task.file_size) ≡ false
      → recv_file_data c p (w ++ tail) inserted
        ≡ some (record {
          con = handled c (length p.content);
          file = filled;
          acts = sends (chunk_respond p) ∷ [];
        })
  unfolding recv_file_data
  recv_file_data-more more =
      let taken : reserve c (length p.content) p.chunk_size ≡ (handled c (length p.content), true) =
        rw size (reserve_lem c (length p.content) fits small) in
      rw (recv_file_data, taken, placed, more)

  recv_file_data-last :
      same_status c.status doing ≡ true
      → (c.task.handled_size + length p.content == c.task.file_size) ≡ true
      → recv_file_data c p (w ++ tail) inserted
        ≡ some (record {
          con = set_status (handled c (length p.content)) fin;
          file = filled;
          acts = sends (chunk_respond p) ∷ end_acts c inserted;
        })
  unfolding recv_file_data complete cmp_exchange set_status
  recv_file_data-last is_doing last =
      let taken : reserve c (length p.content) p.chunk_size ≡ (handled c (length p.content), true) =
        rw size (reserve_lem c (length p.content) fits small) in
      rw (recv_file_data, taken, placed, last, is_doing)

-- Messages whose data is not empty and goes one behind the other, from a place in the file on.
abbrev pub InOrder : ℕ → List TranDataPdu → Type 0
InOrder off [] = Unit {0}
InOrder off (p ∷ ps) =
    (p.file_offset ≡ off)
    × (p.chunk_size ≡ length p.content)
    × (1 ≤ length p.content)
    × InOrder (off + length p.content) ps

puts_data-verified :
    (l : Link) (p : TranDataPdu) (file : List ℕ) (inserted : ℕ)
    → same_status l.con.status doing ≡ true
    → l.is_verify ≡ true
    → puts_data l p file inserted ≡ recv_file_data l.con p file inserted
unfolding puts_data
puts_data-verified l p file inserted is_doing verified = simp (puts_data, is_doing, verified)

recv_all-next :
    (l : Link) (p : TranDataPdu) (ps : List TranDataPdu) (file : List ℕ) (inserted : ℕ)
    (u v : Upload)
    → puts_data l p file inserted ≡ some u
    → recv_all (record l { con = u.con }) ps u.file inserted ≡ some v
    → recv_all l (p ∷ ps) file inserted ≡ some (record v { acts = u.acts ++ v.acts })
unfolding recv_all
recv_all-next l p ps file inserted u v first rest = rw (recv_all, first, rest)

abbrev with_handled : UpDownCon → ℕ → UpDownCon
with_handled c n = record c { status = fin; task = record c.task { handled_size = n } }

-- What is left of an upload whose first `length w` bytes are there.
pub recv_all_lem :
    (l : Link) (p : TranDataPdu) (ps : List TranDataPdu) (w tail : List ℕ) (inserted : ℕ)
    → same_status l.con.status doing ≡ true
    → l.is_verify ≡ true
    → InOrder (length w) (p ∷ ps)
    → l.con.task.handled_size ≡ length w
    → l.con.task.file_size ≡ length w + length (all_of (p ∷ ps))
    → length tail ≡ length (all_of (p ∷ ps))
    → l.con.task.file_size < 2 ^ 64
    → recv_all l (p ∷ ps) (w ++ tail) inserted
      ≡ some (record {
        con = set_status (handled l.con (length (all_of (p ∷ ps)))) fin;
        file = w ++ all_of (p ∷ ps);
        acts = map (λ q. sends (chunk_respond q)) (p ∷ ps) ++ end_acts l.con inserted;
      })
unfolding recv_all set_status
recv_all_lem l p [] w tail inserted is_doing verified order start whole room small =
    let none_after : length (p.content ++ []) ≡ length p.content =
      ap length (append-nil p.content) in
    let last : (l.con.task.handled_size + length p.content == l.con.task.file_size) ≡ true =
      ground (arith, none_after) in
    let empty : drop (length p.content) tail ≡ [] =
      drop-all (length p.content) tail (omega (arith, none_after)) in
    recv_all-next l p [] (w ++ tail) inserted _ _
      (puts_data-verified l p (w ++ tail) inserted is_doing verified
        ∙ recv_file_data-last l.con p w tail inserted order.0 order.1 (omega (arith, none_after))
            small (omega (arith, none_after)) is_doing last)
      refl
    ∙ rw (none_after, empty)
recv_all_lem l p (q ∷ qs) w tail inserted is_doing verified order start whole room small =
    let n : ℕ = length p.content in
    let rest : List ℕ = all_of (q ∷ qs) in
    let sizes : length (p.content ++ rest) ≡ n + length rest = length-append p.content rest in
    let others : length rest ≡ length q.content + length (all_of qs) =
      length-append q.content (all_of qs) in
    let more : (l.con.task.handled_size + n == l.con.task.file_size) ≡ false =
      ground (arith, sizes, others, order) in
    let ih =
      recv_all_lem (record l { con = handled l.con n }) q qs (w ++ p.content) (drop n tail) inserted
        is_doing verified (rw (length-append w p.content) (order.3))
        (omega (arith, length-append w p.content)) (omega (arith, length-append w p.content, sizes))
        (omega (arith, length-drop n tail, sizes)) small in
    let later : Upload = record {
      con = set_status (handled (handled l.con n) (length rest)) fin;
      file = (w ++ p.content) ++ rest;
      acts = map (λ r. sends (chunk_respond r)) (q ∷ qs) ++ end_acts l.con inserted;
    } in
    let filled_file : List ℕ = w ++ (p.content ++ drop n tail) in
    let all : List ℕ = p.content ++ rest in
    let count : l.con.task.handled_size + n + length rest ≡ l.con.task.handled_size + length all =
      omega (arith, sizes) in
    let acts : List Act =
      map (λ r. sends (chunk_respond r)) (p ∷ q ∷ qs) ++ end_acts l.con inserted in
    recv_all-next l p (q ∷ qs) (w ++ tail) inserted
      (record { con = handled l.con n; file = filled_file; acts = sends (chunk_respond p) ∷ [] })
      later
      (puts_data-verified l p (w ++ tail) inserted is_doing verified
        ∙ recv_file_data-more l.con p w tail inserted order.0 order.1 (omega (arith, sizes)) small
            (omega (arith, sizes)) more)
      (subst (λ f. recv_all (record l { con = handled l.con n }) (q ∷ qs) f inserted ≡ some later)
        (append_assoc w p.content (drop n tail)) ih)
    ∙ ap
        (λ k.
          some
            (record { con = with_handled l.con k; file = (w ++ p.content) ++ rest; acts = acts }))
        count
    ∙ ap
        (λ f. some (record {
          con = with_handled l.con (l.con.task.handled_size + length all);
          file = f;
          acts = acts;
        }))
        (append_assoc w p.content rest)

-- An upload of a file of at least one byte, whose messages carry it in order in pieces of any sizes,
-- ends as finished when the last of them is received: the mapped file is what was sent, the handled
-- size is the size of the file, every message was answered, and at the end the file
-- was entered into the database once and the client told. The connection is verified and the
-- upload has begun, with nothing handled.
pub recv_all-uploads :
    (l : Link) (p : TranDataPdu) (ps : List TranDataPdu) (file : List ℕ) (inserted : ℕ)
    → l.con.status ≡ doing
    → l.is_verify ≡ true
    → InOrder 0 (p ∷ ps)
    → l.con.task.handled_size ≡ 0
    → l.con.task.file_size ≡ length (all_of (p ∷ ps))
    → length file ≡ length (all_of (p ∷ ps))
    → l.con.task.file_size < 2 ^ 64
    → (u : Upload) × (recv_all l (p ∷ ps) file inserted ≡ some u)
      × (u.con.status ≡ fin)
      × (u.con.task.handled_size ≡ l.con.task.file_size)
      × (u.file ≡ all_of (p ∷ ps))
      × (u.acts ≡ map (λ q. sends (chunk_respond q)) (p ∷ ps) ++ end_acts l.con inserted)
unfolding set_status
recv_all-uploads l p ps file inserted is_doing verified order start whole room small = (
  _,
  recv_all_lem l p ps [] file inserted (rw is_doing) verified order start (omega (arith, whole))
      room small,
  refl,
  omega (arith, start, whole),
  refl,
  refl,
)
