-- ===== src/EventLoop/Stream.antt =====
-- The bytes of a client, in whatever pieces they come, and the messages in them.
use qt_asio_net_disk.Base.{
  ℕ, suc, ◌+◌, ◌^◌, ◌≤◌, ◌<◌, ◌≡◌, refl, sym, ap, subst, ◌∙◌, List, [], ◌∷◌, ◌++◌, none, some,
  arith, append_assoc, append-nil, length, length-append, lt→ltb, le→ltb,
}
use qt_asio_net_disk.Buffer.{Buffer, read_able_bytes}
use qt_asio_net_disk.Buffer.Contents.{Holds, read_able_lem}
use qt_asio_net_disk.Buffer.Laws.{append_bounded}
use qt_asio_net_disk.EventLoop.{take_message, frame_loop, receive, receive_all, unused}
use qt_asio_net_disk.EventLoop.Messages.{
  frame_len, messages, rest_of, split, split_from, messages-append,
}
use qt_asio_net_disk.EventLoop.Frames.{fill, AllFit, frame_loop_lem, peek_len_lem}

pub fill-append :
    (pool : ℕ → List ℕ) (ms ns : List (List ℕ))
    → fill pool (ms ++ ns) ≡ fill pool ms ++ fill (unused pool (fill pool ms)) ns
unfolding fill unused
fill-append pool [] ns = refl
fill-append pool (m ∷ ms) ns = rw (fill-append (λ k. pool (suc k)) ms ns)

-- What is left has no complete message.
append-same-nil : {A : Type 0} (xs ys : List A) → xs ≡ xs ++ ys → ys ≡ []
append-same-nil xs [] h = refl
append-same-nil xs (y ∷ ys) h = absurd (omega (arith, ap length h, length-append xs (y ∷ ys)))

pub messages-rest_of :
    (c : List ℕ) → (messages (rest_of c) ≡ []) × (rest_of (rest_of c) ≡ rest_of c)
messages-rest_of c =
    let (first, second) = messages-append c [] in
    let e = append-nil c in
    let e' = append-nil (rest_of c) in
    (
      append-same-nil (messages c) (messages (rest_of c)) (rw (e, e') at first),
      sym (rw (e, e') at second),
    )

pub AllFit-append : (ms ns : List (List ℕ)) → AllFit (ms ++ ns) → AllFit ms × AllFit ns
AllFit-append [] ns h = (tt, h)
AllFit-append (m ∷ ms) ns h = let r = AllFit-append ms ns h.1 in ((h.0, r.0), r.1)

-- The inner loop hands out the complete messages of what the buffer holds.
pub drained :
    (pool : ℕ → List ℕ) (g : Buffer) (d : List ℕ)
    → Holds g d
    → AllFit (messages d)
    → (k : Buffer) × (frame_loop (suc (read_able_bytes g)) pool g
        ≡ some (fill pool (messages d), k))
      × Holds k (rest_of d)
      × (k.write_pos ≡ g.write_pos)
drained pool g d held fit =
    let same : split (suc (length d)) d ≡ split (length d) d =
      split_from (suc (length d)) d (omega arith) in
    let (k, run, rest, still) =
      frame_loop_lem (suc (length d)) pool g d held (omega arith)
        (subst (λ s. AllFit s.0) (sym same) fit) in
    (
      k,
      rw (read_able_lem g d held, run) (ap (λ s. some (fill pool s.0, k)) same),
      subst (λ s. Holds k s.1) same rest,
      still,
    )

receive_lem :
    (pool : ℕ → List ℕ) (b : Buffer) (c bytes : List ℕ)
    → Holds b c
    → b.write_pos + length bytes + 1 < 2 ^ 64
    → AllFit (messages (c ++ bytes))
    → (g : Buffer) × (receive pool b bytes ≡ some (fill pool (messages (c ++ bytes)), g))
      × Holds g (rest_of (c ++ bytes))
      × (g.write_pos ≤ b.write_pos + length bytes)
unfolding receive
receive_lem pool b c bytes h small fit =
    let (g, appended, held, low) = append_bounded b c bytes h small in
    let (k, run, rest, still) = drained pool g (c ++ bytes) held fit in
    (k, rw (receive, appended, run), rest, omega (arith, still))

abbrev pub join : List (List ℕ) → List ℕ
join [] = []
join (bytes ∷ rest) = bytes ++ join rest

receive_all_next :
    (pool : ℕ → List ℕ) (b g k : Buffer) (bytes : List ℕ) (rest ms ns : List (List ℕ))
    → receive pool b bytes ≡ some (ms, g)
    → receive_all (unused pool ms) g rest ≡ some (ns, k)
    → receive_all pool b (bytes ∷ rest) ≡ some (ms ++ ns, k)
unfolding receive_all
receive_all_next pool b g k bytes rest ms ns first others = rw (receive_all, first, others)

-- From a buffer that holds `c`, which has no complete message, the rounds hand out the complete
-- messages of `c` and all that comes, each once and in its order and in a buffer of the pool,
-- and keep what is behind them, in whatever pieces the bytes come. The condition is that every such
-- message fits into a buffer of the pool and that the positions stay within 64 bits.
pub receive_all_lem :
    (pool : ℕ → List ℕ) (b : Buffer) (c : List ℕ) (chunks : List (List ℕ))
    → Holds b c
    → messages c ≡ []
    → rest_of c ≡ c
    → b.write_pos + length (join chunks) + 1 < 2 ^ 64
    → AllFit (messages (c ++ join chunks))
    → (g : Buffer) × (receive_all pool b chunks ≡ some (fill pool (messages (c ++ join chunks)), g))
      × Holds g (rest_of (c ++ join chunks))
unfolding receive_all fill
receive_all_lem pool b c [] h none_yet kept small fit = (
  b,
  ap (λ t. some (t, b)) (sym (ap (fill pool) (ap messages (append-nil c) ∙ none_yet))),
  subst (Holds b) (sym (ap rest_of (append-nil c) ∙ kept)) h,
)
receive_all_lem pool b c (bytes ∷ rest) h none_yet kept small fit =
    let d : List ℕ = c ++ bytes in
    let after : List ℕ = join rest in
    let regroup : c ++ (bytes ++ after) ≡ d ++ after = sym (append_assoc c bytes after) in
    let (cut, left) = messages-append d after in
    let all : messages (c ++ (bytes ++ after)) ≡ messages d ++ messages (rest_of d ++ after) =
      ap messages regroup ∙ cut in
    let size : length (bytes ++ after) ≡ length bytes + length after = length-append bytes after in
    let fits = AllFit-append (messages d) (messages (rest_of d ++ after)) (subst AllFit all fit) in
    let (g, first, held, low) = receive_lem pool b c bytes h (omega (arith, size)) fits.0 in
    let (none_left, stays) = messages-rest_of d in
    let filled : List (List ℕ) = fill pool (messages d) in
    let (k, others, held') =
      receive_all_lem (unused pool filled) g (rest_of d) rest held none_left stays
        (omega (arith, size)) fits.1 in
    (
      k,
      receive_all_next pool b g k bytes rest filled _ first others
          ∙ ap (λ t. some (t, k))
              (sym (
                ap (fill pool) all
                ∙ fill-append pool (messages d) (messages (rest_of d ++ after)))),
      subst (Holds k) (sym (ap rest_of regroup ∙ left)) held',
    )

-- Where the buffer is empty at first, two ways to cut the same bytes into pieces give the same
-- messages in the same buffers. The conditions are those of the fit.
pub receive_all-join :
    (pool : ℕ → List ℕ) (b : Buffer) (chunks others : List (List ℕ))
    → Holds b []
    → join chunks ≡ join others
    → b.write_pos + length (join chunks) + 1 < 2 ^ 64
    → AllFit (messages (join chunks))
    → (ms : List (List ℕ)) × (g : Buffer) × (k : Buffer) × (receive_all pool b chunks
        ≡ some (ms, g))
      × (receive_all pool b others ≡ some (ms, k))
unfolding split
receive_all-join pool b chunks others h same small fit =
    let (g, run, held) = receive_all_lem pool b [] chunks h refl refl small fit in
    let (k, run', held') =
      receive_all_lem pool b [] others h refl refl
        (subst (λ c. b.write_pos + length c + 1 < 2 ^ 64) same small)
        (subst (λ c. AllFit (messages c)) same fit) in
    (fill pool (messages (join chunks)), g, k, run, rw same run')

-- A message longer than a buffer of the pool fails the assertion when it has come whole: at the read
-- position is a header that tells more than 8184 bytes of body, and that many bytes are there.
pub receive-long :
    (pool : ℕ → List ℕ) (b : Buffer) (c bytes : List ℕ)
    → Holds b c
    → b.write_pos + length bytes + 1 < 2 ^ 64
    → 8 ≤ length (c ++ bytes)
    → 8192 < frame_len (c ++ bytes)
    → frame_len (c ++ bytes) ≤ length (c ++ bytes)
    → receive pool b bytes ≡ none
unfolding receive frame_loop take_message
receive-long pool b c bytes h small header long whole =
    let d : List ℕ = c ++ bytes in
    let (g, appended, held, low) = append_bounded b c bytes h small in
    let unread = read_able_lem g d held in
    let n : ℕ = length d in
    rw (
      receive,
      appended,
      unread,
      frame_loop,
      le→ltb n 8 header,
      peek_len_lem g d held header,
      le→ltb n (frame_len d) whole,
      take_message,
      lt→ltb 8192 (frame_len d) long,
    )
