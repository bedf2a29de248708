-- ===== src/Buffer/Laws.antt =====
-- The operations of Buffer against its abstract view.
use qt_asio_net_disk.Base.{
  ℕ, ◌+◌, ◌-◌, ◌%◌, ◌^◌, ◌≤◌, ◌<◌, ◌≡◌, refl, sym, ap, subst, ◌∙◌, inl, inr, List, [], ◌++◌, none,
  some, true, false, arith, append_assoc, length, length-append, length-take, length-drop,
  length-replicate, take, drop, replicate, take-append-drop, ltb, leb, Bool-cases, le→leb, lt→leb,
  ltb→lt, ltb→le, leb→le, leb→lt, take-all,
}
use qt_asio_net_disk.Buffer.{
  Buffer, write_able_bytes, prepend_able_bytes, resize, read_at, copy_to, make_space,
  ensure_write_able, has_written, retrieve, retrieve_all, retrieve_all_to_str, peek_all_to_str,
  peek_to_str, append, append_buffer, read_fd, write_fd,
}
use qt_asio_net_disk.Buffer.Contents.{
  Holds, total, read_able_lem, write_able_lem, read_at_lem, copy_to_lem,
}

-- `g` holds the same bytes, and has room for `len` more.
abbrev pub Roomy : List ℕ → ℕ → Buffer → Type 0
Roomy c len g = (h : Holds g c) × (len ≤ length h.behind)

grown-Roomy :
    (b : Buffer) (c : List ℕ) (len : ℕ)
    → Holds b c
    → length b.bytes ≤ b.write_pos + len
    → b.write_pos + len + 1 < 2 ^ 64
    → Roomy c len
        (record b { bytes = resize b.bytes ((((b.write_pos + len) % 2 ^ 64) + 1) % 2 ^ 64) })
unfolding resize
grown-Roomy b c len h short fits =
    let n : ℕ = b.write_pos + len + 1 in
    let exact : ((b.write_pos + len) % 2 ^ 64 + 1) % 2 ^ 64 ≡ n = omega arith in
    let more : leb n (length b.bytes) ≡ false = lt→leb _ _ (omega arith) in
    let zeros : List ℕ = replicate (n - length b.bytes) 0 in
    let size : length zeros ≡ n - length b.bytes = length-replicate (n - length b.bytes) 0 in
    rw (exact, more)
      (
        record {
          before = h.before;
          behind = h.behind ++ zeros;
          layout =
              ap (λ bs. bs ++ zeros) h.layout
              ∙ append_assoc h.before (c ++ h.behind) zeros
              ∙ ap (λ bs. h.before ++ bs) (append_assoc c h.behind zeros);
          read_at_end = h.read_at_end;
          write_at_end = h.write_at_end;
          small = omega (arith, length-append b.bytes zeros);
        },
        omega (arith, length-append h.behind zeros, total b c h),
      )

shifted-Roomy :
    (b : Buffer) (c : List ℕ) (len : ℕ)
    → Holds b c
    → length c + len ≤ length b.bytes
    → Roomy c len
        (record { bytes = c ++ drop (length c) b.bytes; read_pos = 0; write_pos = length c })
shifted-Roomy b c len h fits =
    let left = length-drop (length c) b.bytes in
    (
      record {
        before = [];
        behind = drop (length c) b.bytes;
        layout = refl;
        read_at_end = refl;
        write_at_end = omega arith;
        small = omega (arith, length-append c (drop (length c) b.bytes), h.small);
      },
      omega arith,
    )

Roomy-enough :
    (g : Buffer) (c : List ℕ) (len : ℕ) → Roomy c len g → leb len (write_able_bytes g) ≡ true
Roomy-enough g c len r =
    le→leb len (write_able_bytes g) (omega (arith, write_able_lem g c r.0, r.1))

make_space_lem :
    (b : Buffer) (c : List ℕ) (len : ℕ)
    → Holds b c
    → write_able_bytes b < len
    → b.write_pos + len + 1 < 2 ^ 64
    → (g : Buffer) × (make_space b len ≡ some g) × Roomy c len g × (g.write_pos ≤ b.write_pos)
unfolding make_space prepend_able_bytes
make_space_lem b c len h short fits =
    let free = write_able_lem b c h in
    let unread = read_able_lem b c h in
    let size = total b c h in
    let room : ℕ = (write_able_bytes b + b.read_pos) % 2 ^ 64 in
    let exact : room ≡ length h.behind + b.read_pos =
      omega (arith, free, h.small, h.write_at_end) in
    elim (Bool-cases (ltb room len)) [
      | inl grow ↦
          let grown : Buffer = record b {
            bytes = resize b.bytes ((((b.write_pos + len) % 2 ^ 64) + 1) % 2 ^ 64);
          } in
          let g = grown-Roomy b c len h (omega (arith, ltb→lt room len grow)) fits in
          (grown, rw (make_space, grow, Roomy-enough grown c len g), g, omega arith)
      | inr shift ↦
          let shifted : Buffer = record {
            bytes = c ++ drop (length c) b.bytes;
            read_pos = 0;
            write_pos = length c;
          } in
          let g = shifted-Roomy b c len h (omega (arith, ltb→le room len shift, h.write_at_end)) in
          let taken : read_at b.bytes b.read_pos (length c) ≡ some c =
            rw (h.layout, ← h.read_at_end) (read_at_lem h.before c h.behind (length c) refl) in
          let placed : copy_to b.bytes 0 c ≡ some (c ++ drop (length c) b.bytes) =
            copy_to_lem [] b.bytes c (omega (arith, h.write_at_end)) in
          (
            shifted,
            rw (make_space, shift, unread, taken, placed, Roomy-enough shifted c len g),
            g,
            omega (arith, h.write_at_end),
          )
    ]

pub ensure_write_able_lem :
    (b : Buffer) (c : List ℕ) (len : ℕ)
    → Holds b c
    → b.write_pos + len + 1 < 2 ^ 64
    → (g : Buffer) × (ensure_write_able b len ≡ some g)
      × Roomy c len g
      × (g.write_pos ≤ b.write_pos)
unfolding ensure_write_able
ensure_write_able_lem b c len h fits = elim (Bool-cases (ltb (write_able_bytes b) len)) [
  | inl short ↦
      let (g, run, r, low) = make_space_lem b c len h (ltb→lt _ _ short) fits in
      (g, rw (ensure_write_able, short, run, Roomy-enough g c len r), r, low)
  | inr room ↦
      let r : Roomy c len b = (h, omega (arith, write_able_lem b c h, ltb→le _ _ room)) in
      (b, rw (ensure_write_able, room, Roomy-enough b c len r), r, omega arith)
]

-- Bytes that fit behind the others are written there.
pub copied-Holds :
    (g : Buffer) (c str : List ℕ)
    → Roomy c (length str) g
    → (bs : List ℕ) × (copy_to g.bytes g.write_pos str ≡ some bs)
      × Holds (has_written (record g { bytes = bs }) (length str)) (c ++ str)
      × (length bs ≡ length g.bytes)
unfolding has_written
copied-Holds g c str (h, room) =
    let start : length (h.before ++ c) ≡ g.write_pos =
      omega (arith, length-append h.before c, h.read_at_end, h.write_at_end) in
    let rest : List ℕ = drop (length str) h.behind in
    let bs : List ℕ = (h.before ++ c) ++ (str ++ rest) in
    let same : g.bytes ≡ (h.before ++ c) ++ h.behind =
      h.layout ∙ sym (append_assoc h.before c h.behind) in
    let size = total g c h in
    let exact : (g.write_pos + length str) % 2 ^ 64 ≡ g.write_pos + length str =
      omega (arith, h.small) in
    let grown : length bs ≡ length g.bytes = omega (
      arith,
      length-append (h.before ++ c) (str ++ rest),
      length-append str rest,
      length-drop (length str) h.behind,
    ) in
    (
      bs,
      rw (same, ← start) (copy_to_lem (h.before ++ c) h.behind str room),
      record {
        before = h.before;
        behind = rest;
        layout =
            append_assoc h.before c (str ++ rest)
            ∙ ap (λ t. h.before ++ t) (sym (append_assoc c str rest));
        read_at_end = h.read_at_end;
        write_at_end = omega (arith, length-append c str, h.write_at_end, exact);
        small = omega (arith, grown, h.small);
      },
      grown,
    )

-- `append_lem`, with a bound for the write position.
pub append_bounded :
    (b : Buffer) (c str : List ℕ)
    → Holds b c
    → b.write_pos + length str + 1 < 2 ^ 64
    → (g : Buffer) × (append b str ≡ some g)
      × Holds g (c ++ str)
      × (g.write_pos ≤ b.write_pos + length str)
unfolding append has_written
append_bounded b c str h fits =
    let (k, room, r, low) = ensure_write_able_lem b c (length str) h fits in
    let (bs, copied, held, same_size) = copied-Holds k c str r in
    (
      has_written (record k { bytes = bs }) (length str),
      rw (append, room, copied),
      held,
      omega arith,
    )

-- `append` to a buffer that holds `c` puts the bytes behind those, whatever space that takes,
-- where the positions stay within 64 bits.
pub append_lem :
    (b : Buffer) (c str : List ℕ)
    → Holds b c
    → b.write_pos + length str + 1 < 2 ^ 64
    → (g : Buffer) × (append b str ≡ some g) × Holds g (c ++ str)
append_lem b c str h fits =
    let (g, run, held, low) = append_bounded b c str h fits in (g, run, held)

-- `append` of another buffer puts its unread bytes behind those of this one.
pub append_buffer_lem :
    (b other : Buffer) (c d : List ℕ)
    → Holds b c
    → Holds other d
    → b.write_pos + length d + 1 < 2 ^ 64
    → (g : Buffer) × (append_buffer b other ≡ some g) × Holds g (c ++ d)
unfolding append_buffer
append_buffer_lem b other c d h k fits =
    let (g, run, held) = append_lem b c d h fits in
    let taken : read_at other.bytes other.read_pos (length d) ≡ some d =
      rw (k.layout, ← k.read_at_end) (read_at_lem k.before d k.behind (length d) refl) in
    (g, rw (append_buffer, read_able_lem other d k, taken) run, held)

-- The read position moves over the first of the unread bytes.
advanced-Holds :
    (b : Buffer) (c : List ℕ) (len : ℕ)
    → Holds b c
    → len ≤ length c
    → Holds (record b { read_pos = (b.read_pos + len) % 2 ^ 64 }) (drop len c)
advanced-Holds b c len h fits =
    let exact : (b.read_pos + len) % 2 ^ 64 ≡ b.read_pos + len =
      omega (arith, total b c h, h.write_at_end, h.small) in
    let taken = length-take len c fits in
    record {
      before = h.before ++ take len c;
      behind = h.behind;
      layout =
          h.layout
          ∙ ap (λ t. h.before ++ (t ++ h.behind)) (sym (take-append-drop len c))
          ∙ ap (λ t. h.before ++ t) (append_assoc (take len c) (drop len c) h.behind)
          ∙ sym (append_assoc h.before (take len c) (drop len c ++ h.behind));
      read_at_end = omega (arith, exact, length-append h.before (take len c), h.read_at_end);
      write_at_end = omega (arith, exact, length-drop len c, h.write_at_end);
      small = h.small;
    }

-- `retrieve_lem`, with the write position, which stays.
pub retrieve_still :
    (b : Buffer) (c : List ℕ) (len : ℕ)
    → Holds b c
    → len ≤ length c
    → (g : Buffer) × (retrieve b len ≡ some g) × Holds g (drop len c) × (g.write_pos ≡ b.write_pos)
unfolding retrieve
retrieve_still b c len h fits = (
  record b { read_pos = (b.read_pos + len) % 2 ^ 64 },
  rw (retrieve, read_able_lem b c h, le→leb len (length c) fits),
  advanced-Holds b c len h fits,
  refl,
)

-- `retrieve` of at most the unread bytes of a buffer takes them from the front.
pub retrieve_lem :
    (b : Buffer) (c : List ℕ) (len : ℕ)
    → Holds b c
    → len ≤ length c
    → (g : Buffer) × (retrieve b len ≡ some g) × Holds g (drop len c)
retrieve_lem b c len h fits =
    let (g, run, held, same) = retrieve_still b c len h fits in (g, run, held)

-- `writeFd` takes the bytes that were sent from the front, and nothing where sending failed.
pub write_fd_lem :
    (b : Buffer) (c : List ℕ) (sent : ℕ)
    → Holds b c
    → sent ≤ length c
    → Holds (write_fd b (some sent)) (drop sent c) × Holds (write_fd b none) c
unfolding write_fd
write_fd_lem b c sent h fits = (advanced-Holds b c sent h fits, h)

-- `retrieveAllToStr` of a buffer that holds `c` returns `c` and leaves none.
pub retrieve_all_to_str_lem :
    (b : Buffer) (c : List ℕ)
    → Holds b c
    → (g : Buffer) × (retrieve_all_to_str b ≡ some (c, g)) × Holds g []
unfolding retrieve_all_to_str retrieve_all
retrieve_all_to_str_lem b c h =
    let taken : read_at b.bytes b.read_pos (length c) ≡ some c =
      rw (h.layout, ← h.read_at_end) (read_at_lem h.before c h.behind (length c) refl) in
    (
      retrieve_all b,
      rw (retrieve_all_to_str, read_able_lem b c h, taken),
      record {
        before = [];
        behind = replicate (length b.bytes) 0;
        layout = refl;
        read_at_end = refl;
        write_at_end = refl;
        small = rw (length-replicate {A = ℕ} (length b.bytes) 0) h.small;
      },
    )

-- `peekToStr` shows the first `len` of the unread bytes, or all of them where there are fewer.
pub peek_to_str_lem :
    (b : Buffer) (c : List ℕ) (len : ℕ) → Holds b c → peek_to_str b len ≡ some (take len c)
unfolding peek_to_str peek_all_to_str
peek_to_str_lem b c len h =
    let unread = read_able_lem b c h in
    let whole : read_at b.bytes b.read_pos (b.write_pos - b.read_pos) ≡ some c =
      rw (h.layout, ← h.read_at_end)
        (read_at_lem h.before c h.behind _ (omega (arith, h.read_at_end, h.write_at_end))) in
    elim (Bool-cases (leb (length c) len)) [
      | inl all ↦
          rw (peek_to_str, unread, all, peek_all_to_str, whole, take-all len c (leb→le _ _ all))
      | inr part ↦
          let inside : len ≤ length c = omega (arith, leb→lt _ _ part) in
          let layout : b.bytes ≡ h.before ++ (take len c ++ (drop len c ++ h.behind)) =
            h.layout
            ∙ ap (λ t. h.before ++ (t ++ h.behind)) (sym (take-append-drop len c))
            ∙ ap (λ t. h.before ++ t) (append_assoc (take len c) (drop len c) h.behind) in
          let some_of : read_at b.bytes b.read_pos len ≡ some (take len c) =
            rw (layout, ← h.read_at_end)
              (read_at_lem h.before (take len c) (drop len c ++ h.behind) len
                (length-take len c inside)) in
          rw (peek_to_str, unread, part, some_of)
    ]

read_fd_split :
    (b : Buffer) (c received : List ℕ)
    → Holds b c
    → b.write_pos + length received + 1 < 2 ^ 64
    → leb (length received) (write_able_bytes b) ≡ false
    → (g : Buffer) × (read_fd b (some received) ≡ some g) × Holds g (c ++ received)
unfolding read_fd has_written
read_fd_split b c received h fits split =
    let free : ℕ = write_able_bytes b in
    let room = write_able_lem b c h in
    let over = leb→lt _ _ split in
    let first : List ℕ = take free received in
    let rest : List ℕ = drop free received in
    let first_size : length first ≡ free = length-take free received (omega arith) in
    let (bs, copied, held, same_size) =
      copied-Holds b c first (h, omega (arith, first_size, room)) in
    let full : b.write_pos + length first ≡ length bs =
      omega (arith, same_size, first_size, room, total b c h) in
    let exact : (b.write_pos + length first) % 2 ^ 64 ≡ length bs =
      omega (arith, full, same_size, h.small) in
    let k : Buffer = record b { bytes = bs; write_pos = length bs } in
    let filled : Holds k (c ++ first) =
      subst (λ w. Holds (record b { bytes = bs; write_pos = w }) (c ++ first)) exact held in
    let (g, run, appended) =
      append_lem k (c ++ first) rest filled
        (omega (arith, full, first_size, length-drop free received)) in
    let whole : (c ++ first) ++ rest ≡ c ++ received =
      append_assoc c first rest ∙ ap (λ t. c ++ t) (take-append-drop free received) in
    (g, rw (read_fd, split, copied) run, subst (Holds g) whole appended)

-- `readFd` into a buffer that holds `c` puts all received bytes behind those, also the ones that
-- did not fit into the vector, where the positions stay within 64 bits.
pub read_fd_lem :
    (b : Buffer) (c received : List ℕ)
    → Holds b c
    → b.write_pos + length received + 1 < 2 ^ 64
    → (g : Buffer) × (read_fd b (some received) ≡ some g) × Holds g (c ++ received)
unfolding read_fd
read_fd_lem b c received h fits = elim (Bool-cases (leb (length received) (write_able_bytes b))) [
  | inl direct ↦
      let room : length received ≤ length h.behind =
        omega (arith, write_able_lem b c h, leb→le _ _ direct) in
      let (bs, copied, held, same_size) = copied-Holds b c received (h, room) in
      (has_written (record b { bytes = bs }) (length received), rw (direct, copied), held)
  | inr split ↦ read_fd_split b c received h fits split
]
