-- ===== src/Equalizer/Register/Laws.antt =====
-- A server that joins the balancer, and a client that asks for one.
use qt_asio_net_disk.Base.{
  ℕ, zero, suc, ◌-◌, ◌%◌, ◌≤◌, ◌<◌, ◌≡◌, ◌≢◌, ◌∙◌, refl, List, [], ◌∷◌, ◌++◌, some, none, arith,
  length, Bool, true, false, replicate, take, Perm, Bool-cases, inl, inr, same, same_refl, same→eq,
  length-append, length-replicate, lt→ltb, le→ltb,
}
use qt_asio_net_disk.Heap.Array.{at}
use qt_asio_net_disk.Heap.Fix.{IsValid}
use qt_asio_net_disk.ServerHeap.{server_node, ServerHeap, no_server, new_node}
use qt_asio_net_disk.ServerHeap.Correct.{add-new, get_min_server_info_lem}
use qt_asio_net_disk.Wire.Bytes.{limit}
use qt_asio_net_disk.Wire.Get.{done}
use qt_asio_net_disk.Protocol.{ServerInfoPack, IsServerInfoPack}
use qt_asio_net_disk.Serializer.ServerInfoPack.{
  deserialize_server_info_pack, deserialize_server_info_pack-serialize_server_info_pack,
}
use qt_asio_net_disk.UpDownCon.{to_string}
use qt_asio_net_disk.Equalizer.{add_server}
use qt_asio_net_disk.Equalizer.Register.{
  sends, closes, unblocks, watches, fill, server_info_pack, no_info, key_buf, answered, send_key,
  connect_equalizer, has_end, string_of, refuse_server, accept_server, check_key, check_info,
  recv_server_info, send_info, send_server_info_to_client,
}

to_string-zeros : (s : List ℕ) (k : ℕ) → to_string (s ++ replicate k 0) ≡ to_string s
unfolding to_string
to_string-zeros [] zero = refl
to_string-zeros [] (suc k) = refl
to_string-zeros (b ∷ bs) k = rw (to_string-zeros bs k)

has_end-zeros : (s : List ℕ) (k : ℕ) → 1 ≤ k → has_end (s ++ replicate k 0) ≡ true
unfolding has_end
has_end-zeros [] zero h = absurd (omega arith)
has_end-zeros [] (suc k) h = refl
has_end-zeros (b ∷ bs) k h = rw (has_end-zeros bs k h) (ground arith)

string_of-zeros : (s : List ℕ) (k : ℕ) → 1 ≤ k → string_of (s ++ replicate k 0) ≡ some (to_string s)
unfolding string_of
string_of-zeros s k h = rw (has_end-zeros s k h, to_string-zeros s k)

length-take_le : (n : ℕ) (s : List ℕ) → length (take n s) ≤ n
length-take_le zero s = omega arith
length-take_le (suc n) [] = omega arith
length-take_le (suc n) (b ∷ bs) = omega (arith, length-take_le n bs)

string_of-fill :
    (n : ℕ) (s : List ℕ) → 0 < n → string_of (fill n s) ≡ some (to_string (take (n - 1) s))
unfolding fill
string_of-fill n s h =
    string_of-zeros (take (n - 1) s) (n - length (take (n - 1) s))
      (omega (arith, length-take_le (n - 1) s))

length-fill : (n : ℕ) (s : List ℕ) → 0 < n → length (fill n s) ≡ n
unfolding fill
length-fill n s h =
    let kept = take (n - 1) s in
    omega (
      arith,
      length-append kept (replicate (n - length kept) 0),
      length-replicate {A = ℕ} (n - length kept) 0,
      length-take_le (n - 1) s,
    )

pub server_info_pack-IsServerInfoPack :
    (ip : List ℕ) (sport lport : ℕ) (name : List ℕ)
    → sport < limit 2
    → lport < limit 2
    → IsServerInfoPack (server_info_pack ip sport lport name)
server_info_pack-IsServerInfoPack ip sport lport name s l = record {
  header_valid = record {
    type_is = refl;
    body_len_is = refl;
    type_fits = omega arith;
    body_len_fits = omega arith;
    version_fits = omega arith;
    reserved_fits = omega arith;
  };
  name_size = length-fill 31 name (omega arith);
  ip_size = length-fill 21 ip (omega arith);
  sport_fits = omega arith;
  lport_fits = omega arith;
  cur_con_count_fits = omega arith;
}

key_buf_lem :
    (key : List ℕ) → length key < 60 → key_buf key ≡ some (key ++ replicate (60 - length key) 0)
unfolding key_buf
key_buf_lem key h = rw (le→ltb 60 (length key) (omega arith))

-- A server with ports of 16 bits and a key of fewer than 60 bytes without a zero, which a balancer
-- with the same key and a valid heap sees on a new socket, writes two blocks; the buffers that hold
-- them make the balancer answer `true`, watch the socket and leave a valid heap that has, besides its
-- servers, this one with no connections, its address cut to 20 bytes and its name to 30; the server
-- takes the answer for success.
pub connect_equalizer-recv_server_info :
    (h : ServerHeap) (sock fd : ℕ) (ip : List ℕ) (sport lport : ℕ) (name key buf : List ℕ)
    → IsValid h
    → 0 < sock
    → h.index_map sock ≡ none
    → sport < limit 2
    → lport < limit 2
    → length key < 60
    → to_string key ≡ key
    → length buf ≡ 8192
    → (out bytes : List ℕ) × (g : ServerHeap) × (connect_equalizer fd buf
          (server_info_pack ip sport lport name)
          key
          true
          true
          (some 1)
        ≡ some (true, sends fd (take 76 out) ∷ sends fd bytes ∷ []))
      × (recv_server_info key h sock (some out) (some bytes) true
          ≡ some (g, sends sock (1 ∷ []) ∷ unblocks sock ∷ watches sock ∷ []))
      × IsValid g
      × Perm g.nodes (
          new_node sock (to_string (take 20 ip)) sport lport 0 (to_string (take 30 name)) ∷ h.nodes)
unfolding connect_equalizer send_key answered recv_server_info check_info check_key accept_server
    add_server
connect_equalizer-recv_server_info h sock fd ip sport lport name key buf v pos absent s l short text
      size =
    let pack = server_info_pack ip sport lport name in
    let bytes : List ℕ = key ++ replicate (60 - length key) 0 in
    let (out, sent, whole, read) =
      deserialize_server_info_pack-serialize_server_info_pack pack no_info buf 76
        (server_info_pack-IsServerInfoPack ip sport lport name s l) size (omega arith) in
    let (g, run, good, same_nodes) =
      add-new h sock (to_string (take 20 ip)) sport lport 0 (to_string (take 30 name)) v absent in
    let known : string_of bytes ≡ some key =
      string_of-zeros key (60 - length key) (omega arith) ∙ rw text in
    let sport_same : sport % limit 2 ≡ sport = omega arith in
    let lport_same : lport % limit 2 ≡ lport = omega arith in
    (
      out,
      bytes,
      g,
      rw (connect_equalizer, sent, send_key, key_buf_lem key short, answered),
      rw (
        read,
        known,
        same_refl key,
        string_of-fill 21 ip (omega arith),
        string_of-fill 31 name (omega arith),
        sport_same,
        lport_same,
        lt→ltb 0 sock pos,
        run,
      ),
      good,
      same_nodes,
    )

-- A valid balancer with servers, the first of them with ports of 16 bits, sends a client the
-- serialized address, ports and name of this server and closes the connection; what is sent reads back as
-- this information, and no server has fewer connections.
pub send_server_info_to_client_lem :
    (h : ServerHeap) (sock : ℕ) (buf : List ℕ)
    → IsValid h
    → 0 < sock
    → 0 < length h.nodes
    → (at no_server h.nodes 0).s_port < limit 2
    → (at no_server h.nodes 0).l_port < limit 2
    → length buf ≡ 8192
    → (out : List ℕ) × (send_server_info_to_client h sock buf true
        ≡ some (sends sock (take 76 out) ∷ closes sock ∷ []))
      × (deserialize_server_info_pack out 76 no_info
          ≡ done true (
              server_info_pack
                (at no_server h.nodes 0).ip
                (at no_server h.nodes 0).s_port
                (at no_server h.nodes 0).l_port
                (at no_server h.nodes 0).server_name))
      × ((i : ℕ)
          → i < length h.nodes
          → (at no_server h.nodes 0).cur_con_count ≤ (at no_server h.nodes i).cur_con_count)
unfolding send_server_info_to_client send_info
send_server_info_to_client_lem h sock buf v pos some_there s l size =
    let first = at no_server h.nodes 0 in
    let (least, order) = get_min_server_info_lem h no_server v some_there in
    let (out, sent, whole, read) =
      deserialize_server_info_pack-serialize_server_info_pack
        (server_info_pack first.ip first.s_port first.l_port first.server_name) no_info buf 76
        (server_info_pack-IsServerInfoPack first.ip first.s_port first.l_port first.server_name s l)
        size (omega arith) in
    (out, rw (least, sent, lt→ltb 0 sock pos), read, λ i inside. rw least at order i inside)

-- Where the first buffer holds enough bytes to be read, whether they are valid or not, and the
-- second holds another key than the balancer's, the balancer answers `false`, closes the connection
-- and leaves its heap as it was.
pub recv_server_info-stranger :
    (con_key : List ℕ) (h : ServerHeap) (sock : ℕ) (buf key k : List ℕ) (sent valid : Bool)
    (p : ServerInfoPack)
    → deserialize_server_info_pack buf 76 no_info ≡ done valid p
    → string_of key ≡ some k
    → k ≢ con_key
    → recv_server_info con_key h sock (some buf) (some key) sent
      ≡ some (h, sends sock (0 ∷ []) ∷ closes sock ∷ [])
unfolding recv_server_info check_info check_key refuse_server
recv_server_info-stranger con_key h sock buf key k sent false p read text other = rw read
recv_server_info-stranger con_key h sock buf key k sent true p read text other =
    elim (Bool-cases (same k con_key)) [
      | inl hit ↦ absurd (other (same→eq k con_key hit))
      | inr miss ↦ rw (read, text, miss)
    ]
