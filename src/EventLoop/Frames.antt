-- ===== src/EventLoop/Frames.antt =====
-- What the inner loop of handleClientData makes of a buffer.
use qt_asio_net_disk.Base.{
  ℕ, zero, suc, ◌-◌, ◌≤◌, ◌<◌, ◌≡◌, refl, sym, ap, ◌∙◌, subst, inl, inr, List, [], ◌∷◌, ◌++◌, some,
  true, false, arith, append_assoc, append-nil, length, length-take, length-drop, take, drop,
  drop-length-append, take-append-drop, ltb, ltb→le, le→ltb, Bool-cases,
}
use qt_asio_net_disk.Buffer.{Buffer, read_able_bytes, read_at}
use qt_asio_net_disk.Buffer.Contents.{Holds, read_able_lem, read_at_lem}
use qt_asio_net_disk.Buffer.Laws.{retrieve_still}
use qt_asio_net_disk.Wire.Bytes.{from_le}
use qt_asio_net_disk.Wire.Order.{swap_bytes}
use qt_asio_net_disk.Wire.Get.{
  Decoded, done, overrun, read_net, read_data-Yields, Yields, bind-Yields, last-Yields,
  read_int-Yields, read_then_lem,
}
use qt_asio_net_disk.Protocol.{ProtocolHeader, header_len}
use qt_asio_net_disk.Serializer.Frame.{buffer_size, read_header}
use qt_asio_net_disk.Serializer.Header.{deserialize_header}
use qt_asio_net_disk.EventLoop.{no_header, peek_len, take_message, frame_loop}
use qt_asio_net_disk.EventLoop.Messages.{body_len_of, frame_len, split}

raw_net-Yields :
    (bs : List ℕ) (k : ℕ) → length bs ≡ k → Yields (read_net k) bs (swap_bytes k (from_le bs))
unfolding read_net
raw_net-Yields bs k size rest = rw (read_net, read_data-Yields bs k size rest)

-- The header in front of at least eight bytes.
abbrev header_of : List ℕ → ProtocolHeader
header_of c =
    let d = drop 2 c in
    let e = drop 4 d in
    record {
      type = swap_bytes 2 (from_le (take 2 c));
      body_len = swap_bytes 4 (from_le (take 4 d));
      version = from_le (take 1 e);
      reserved = from_le (take 1 (drop 1 e));
    }

abbrev header_bytes : List ℕ → List ℕ
header_bytes c =
    take 2 c
    ++ (take 4 (drop 2 c) ++ (take 1 (drop 4 (drop 2 c)) ++ take 1 (drop 1 (drop 4 (drop 2 c)))))

header_bytes-append : (c : List ℕ) → header_bytes c ++ drop 1 (drop 1 (drop 4 (drop 2 c))) ≡ c
header_bytes-append c = simp (append_assoc, take-append-drop)

read_header-header_bytes :
    (c : List ℕ) → 8 ≤ length c → Yields read_header (header_bytes c) (header_of c)
unfolding read_header
read_header-header_bytes c h =
    let d = drop 2 c in
    let e = drop 4 d in
    let f = drop 1 e in
    let d_size : length d ≡ length c - 2 = length-drop 2 c in
    let e_size : length e ≡ length c - 6 = length-drop 4 d ∙ omega (arith, d_size) in
    let f_size : length f ≡ length c - 7 = length-drop 1 e ∙ omega (arith, e_size) in
    bind-Yields _ _ _ _ _ _ (raw_net-Yields (take 2 c) 2 (length-take 2 c (omega arith))) (
      bind-Yields _ _ _ _ _ _
        (raw_net-Yields (take 4 d) 4 (length-take 4 d (omega (arith, d_size))))
        (bind-Yields _ _ _ _ _ _
          (read_int-Yields (take 1 e) 1 (length-take 1 e (omega (arith, e_size))))
          (last-Yields _ _ _ _
            (read_int-Yields (take 1 f) 1 (length-take 1 f (omega (arith, f_size)))))))

-- Any eight bytes are read as a header.
pub deserialize_header_lem :
    (c behind : List ℕ) (len : ℕ) (old : ProtocolHeader)
    → 8 ≤ length c
    → 8 ≤ len
    → deserialize_header (c ++ behind) len old ≡ done true (header_of c)
unfolding deserialize_header
deserialize_header_lem c behind len old h enough =
    let tail = drop 1 (drop 1 (drop 4 (drop 2 c))) in
    let layout : c ++ behind ≡ header_bytes c ++ (tail ++ behind) =
      ap (λ t. t ++ behind) (sym (header_bytes-append c))
      ∙ append_assoc (header_bytes c) tail behind in
    rw (
      layout,
      le→ltb len header_len enough,
      read_then_lem read_header (header_bytes c) (tail ++ behind) (header_of c) (λ x _. done true x)
          (read_header-header_bytes c h),
    )

pub peek_len_lem :
    (b : Buffer) (c : List ℕ) → Holds b c → 8 ≤ length c → peek_len b ≡ some (frame_len c)
unfolding peek_len body_len_of
peek_len_lem b c h enough =
    let unread : drop b.read_pos b.bytes ≡ c ++ h.behind =
      rw (h.layout, ← h.read_at_end) (drop-length-append h.before (c ++ h.behind)) in
    rw (
      peek_len,
      unread,
      deserialize_header_lem c h.behind header_len no_header enough (omega arith),
    )

-- The buffers of the pool with the messages in them, each in front of what its buffer held.
unfoldable pub fill : (ℕ → List ℕ) → List (List ℕ) → List (List ℕ)
fill pool [] = []
fill pool (m ∷ ms) = (m ++ drop (length m) (pool 0)) ∷ fill (λ k. pool (suc k)) ms

-- Every message fits into a buffer of the pool.
abbrev pub AllFit : List (List ℕ) → Type 0
AllFit [] = Unit {0}
AllFit (m ∷ ms) = (length m ≤ buffer_size) × AllFit ms

take_message_lem :
    (b : Buffer) (c old : List ℕ) (n : ℕ)
    → Holds b c
    → n ≤ length c
    → n ≤ 8192
    → (g : Buffer) × (take_message b n old ≡ some (take n c ++ drop n old, g))
      × Holds g (drop n c)
      × (g.write_pos ≡ b.write_pos)
unfolding take_message
take_message_lem b c old n h inside fits =
    let (g, run, held, same) = retrieve_still b c n h inside in
    let layout : b.bytes ≡ h.before ++ (take n c ++ (drop n c ++ h.behind)) =
      h.layout
      ∙ ap (λ t. h.before ++ (t ++ h.behind)) (sym (take-append-drop n c))
      ∙ ap (λ t. h.before ++ t) (append_assoc (take n c) (drop n c) h.behind) in
    let copied : read_at b.bytes b.read_pos n ≡ some (take n c) =
      rw (layout, ← h.read_at_end)
        (read_at_lem h.before (take n c) (drop n c ++ h.behind) n (length-take n c inside)) in
    (g, rw (take_message, le→ltb buffer_size n fits, copied, run), held, same)

split_next :
    (fuel : ℕ) (c : List ℕ)
    → ltb (length c) 8 ≡ false
    → ltb (length c) (frame_len c) ≡ false
    → split (suc fuel) c ≡ (
      take (frame_len c) c ∷ (split fuel (drop (frame_len c) c)).0,
      (split fuel (drop (frame_len c) c)).1,
    )
unfolding split
split_next fuel c header whole = rw (header, whole)

-- A round of the loop that takes a message.
frame_loop_next :
    (fuel n len : ℕ) (pool : ℕ → List ℕ) (b g k : Buffer) (t : List ℕ) (r : List (List ℕ))
    → ltb (read_able_bytes b) 8 ≡ false
    → peek_len b ≡ some len
    → ltb (read_able_bytes b) len ≡ false
    → take_message b len (pool 0) ≡ some (t, g)
    → frame_loop fuel (λ i. pool (suc i)) g ≡ some (r, k)
    → frame_loop (suc fuel) pool b ≡ some (t ∷ r, k)
unfolding frame_loop
frame_loop_next fuel n len pool b g k t r header peeked whole taken run =
    rw (frame_loop, header, peeked, whole, taken, run)

-- The inner loop over a buffer that holds `c` hands out the messages in front of `c`.
pub frame_loop_lem :
    (fuel : ℕ) (pool : ℕ → List ℕ) (b : Buffer) (c : List ℕ)
    → Holds b c
    → length c < fuel
    → AllFit (split fuel c).0
    → (g : Buffer) × (frame_loop fuel pool b ≡ some (fill pool (split fuel c).0, g))
      × Holds g (split fuel c).1
      × (g.write_pos ≡ b.write_pos)
unfolding frame_loop split fill
frame_loop_lem zero pool b c h enough fit = absurd (omega arith)
frame_loop_lem (suc fuel) pool b c h enough fit =
    let unread = read_able_lem b c h in
    elim (Bool-cases (ltb (length c) 8)) [
      | inl short ↦ (b, rw (frame_loop, unread, short), rw short h, refl)
      | inr header ↦
          let peeked = peek_len_lem b c h (ltb→le _ _ header) in
          elim (Bool-cases (ltb (length c) (frame_len c))) [
            | inl part ↦
                (b, rw (frame_loop, unread, header, peeked, part), rw (header, part) h, refl)
            | inr whole ↦
                let n : ℕ = frame_len c in
                let fits : AllFit (take n c ∷ (split fuel (drop n c)).0) =
                  rw (header, whole) at fit in
                let inside : n ≤ length c = ltb→le _ _ whole in
                let size : length (take n c) ≡ n = length-take n c inside in
                let (g, taken, held, same) =
                  take_message_lem b c (pool 0) n h inside (omega (arith, size, fits.0)) in
                let (k, run, rest, same') =
                  frame_loop_lem fuel (λ i. pool (suc i)) g (drop n c) held
                    (omega (arith, length-drop n c)) fits.1 in
                let head : take n c ++ drop (length (take n c)) (pool 0)
                    ≡ take n c ++ drop n (pool 0) =
                  ap (λ l. take n c ++ drop l (pool 0)) size in
                let run' : frame_loop (suc fuel) pool b
                    ≡ some (
                      (take n c ++ drop n (pool 0))
                          ∷ fill (λ i. pool (suc i)) (split fuel (drop n c)).0,
                      k,
                    ) =
                  frame_loop_next fuel n n pool b g k _ _ (rw (unread, header)) peeked
                    (rw (unread, whole)) taken run in
                let filled : fill pool (split (suc fuel) c).0
                    ≡ (take n c ++ drop n (pool 0))
                      ∷ fill (λ i. pool (suc i)) (split fuel (drop n c)).0 =
                  ap (λ s. fill pool s.0) (split_next fuel c header whole)
                  ∙ ap (λ t. t ∷ fill (λ i. pool (suc i)) (split fuel (drop n c)).0) head in
                (
                  k,
                  run' ∙ ap (λ t. some (t, k)) (sym filled),
                  subst (λ s. Holds k s.1) (sym (split_next fuel c header whole)) rest,
                  same' ∙ same,
                )
          ]
    ]

body_len_in : Decoded ProtocolHeader → ℕ
body_len_in (done fine h) = h.body_len
body_len_in overrun = 0

pub body_len_of-header :
    (c : List ℕ) (h old : ProtocolHeader)
    → 8 ≤ length c
    → deserialize_header c 8 old ≡ done true h
    → body_len_of c ≡ h.body_len
unfolding body_len_of body_len_in
body_len_of-header c h old enough e =
    let all : deserialize_header c 8 old ≡ done true (header_of c) =
      rw (append-nil c) at (deserialize_header_lem c [] 8 old enough (omega arith)) in
    ap body_len_in (sym all ∙ e)
