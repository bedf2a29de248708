-- ===== src/Equalizer/Register/Examples.antt =====
-- A server that joins an empty balancer, and a client of a balancer with one server.
use qt_asio_net_disk.Base.{
  ℕ, ◌≡◌, ◌≢◌, ◌<◌, ◌≤◌, refl, List, [], ◌∷◌, Option, some, none, true, arith, length,
  length-replicate, replicate, take, Perm,
}
use qt_asio_net_disk.Heap.Array.{at, swap}
use qt_asio_net_disk.Heap.Fix.{IsValid, push_node}
use qt_asio_net_disk.Heap.{siftup_loop, less, swap_node, swapped, insert}
use qt_asio_net_disk.ServerHeap.{server_node, ServerHeap, no_server, new_node, siftup, add, clear}
use qt_asio_net_disk.ServerHeap.History.{start, next, step, adds, Reach-IsValid}
use qt_asio_net_disk.Wire.Put.{ok}
use qt_asio_net_disk.Wire.Get.{done}
use qt_asio_net_disk.Protocol.{ServerInfoPack}
use qt_asio_net_disk.Serializer.ServerInfoPack.{
  serialize_server_info_pack, deserialize_server_info_pack,
  deserialize_server_info_pack-serialize_server_info_pack,
}
use qt_asio_net_disk.UpDownCon.{to_string}
use qt_asio_net_disk.Equalizer.Register.{
  sends, closes, unblocks, watches, server_info_pack, no_info, connect_equalizer, has_end,
  string_of, recv_server_info, send_server_info_to_client,
}
use qt_asio_net_disk.Equalizer.Register.Laws.{
  connect_equalizer-recv_server_info, send_server_info_to_client_lem, recv_server_info-stranger,
  server_info_pack-IsServerInfoPack,
}

abbrev no_servers : ServerHeap
no_servers = record { nodes = []; index_map = λ k. none }

abbrev after : Option ServerHeap → ServerHeap
after none = no_servers
after (some h) = h

abbrev one_server : ServerHeap
one_server = after (step (clear no_servers) (adds 5 (49 ∷ []) 80 81 12 (97 ∷ [])))

one_server-IsValid : IsValid one_server
unfolding step add clear siftup push_node siftup_loop less at swap_node swapped insert swap
one_server-IsValid =
    Reach-IsValid (next (start no_servers) (adds 5 (49 ∷ []) 80 81 12 (97 ∷ [])) tt refl)

no_servers-IsValid : IsValid no_servers
unfolding clear
no_servers-IsValid = Reach-IsValid (start no_servers)

one_server-ports :
    (0 < length one_server.nodes)
    × ((at no_server one_server.nodes 0).s_port < 65536)
    × ((at no_server one_server.nodes 0).l_port < 65536)
unfolding step add clear siftup push_node siftup_loop less at swap_node swapped insert swap
one_server-ports = (omega arith, omega arith, omega arith)

key_text : to_string (49 ∷ 50 ∷ []) ≡ 49 ∷ 50 ∷ []
unfolding to_string
key_text = refl

connect_equalizer-recv_server_info_example :
    (out bytes : List ℕ) × (g : ServerHeap) × (connect_equalizer 3
        (replicate 8192 7)
        (server_info_pack (49 ∷ []) 80 81 (97 ∷ []))
        (49 ∷ 50 ∷ [])
        true
        true
        (some 1)
      ≡ some (true, sends 3 (take 76 out) ∷ sends 3 bytes ∷ []))
    × (recv_server_info (49 ∷ 50 ∷ []) no_servers 5 (some out) (some bytes) true
        ≡ some (g, sends 5 (1 ∷ []) ∷ unblocks 5 ∷ watches 5 ∷ []))
    × IsValid g
    × Perm g.nodes
        (new_node 5 (to_string (49 ∷ [])) 80 81 0 (to_string (97 ∷ [])) ∷ no_servers.nodes)
connect_equalizer-recv_server_info_example =
    connect_equalizer-recv_server_info no_servers 5 3 (49 ∷ []) 80 81 (97 ∷ []) (49 ∷ 50 ∷ [])
      (replicate 8192 7) no_servers-IsValid (omega arith) refl (omega arith) (omega arith)
      (omega arith) key_text (length-replicate {A = ℕ} 8192 7)

send_server_info_to_client_example :
    (out : List ℕ) × (send_server_info_to_client one_server 9 (replicate 8192 7) true
      ≡ some (sends 9 (take 76 out) ∷ closes 9 ∷ []))
    × (deserialize_server_info_pack out 76 no_info
        ≡ done true (
            server_info_pack
              (at no_server one_server.nodes 0).ip
              (at no_server one_server.nodes 0).s_port
              (at no_server one_server.nodes 0).l_port
              (at no_server one_server.nodes 0).server_name))
    × ((i : ℕ)
        → i < length one_server.nodes
        → (at no_server one_server.nodes 0).cur_con_count
          ≤ (at no_server one_server.nodes i).cur_con_count)
send_server_info_to_client_example =
    send_server_info_to_client_lem one_server 9 (replicate 8192 7) one_server-IsValid (omega arith)
      one_server-ports.0 one_server-ports.1 one_server-ports.2 (length-replicate {A = ℕ} 8192 7)

abbrev sample : ServerInfoPack
sample = server_info_pack (49 ∷ []) 80 81 (97 ∷ [])

sample-joins :
    (out : List ℕ) × (serialize_server_info_pack (replicate 8192 7) sample ≡ ok out)
    × (length out ≡ 8192)
    × (deserialize_server_info_pack out 76 no_info ≡ done true sample)
sample-joins =
    deserialize_server_info_pack-serialize_server_info_pack sample no_info (replicate 8192 7) 76
      (server_info_pack-IsServerInfoPack (49 ∷ []) 80 81 (97 ∷ []) (omega arith) (omega arith))
      (length-replicate {A = ℕ} 8192 7) (omega arith)

wrong_key : string_of (51 ∷ 0 ∷ []) ≡ some (51 ∷ [])
unfolding string_of has_end to_string
wrong_key = refl

abbrev wrong : List ℕ
wrong = 51 ∷ []

abbrev right : List ℕ
right = 49 ∷ 50 ∷ []

keys_differ : wrong ≢ right
keys_differ e = grind arith

recv_server_info-stranger_example :
    (out : List ℕ) × (recv_server_info
        (49 ∷ 50 ∷ [])
        one_server
        6
        (some out)
        (some (51 ∷ 0 ∷ []))
        true
      ≡ some (one_server, sends 6 (0 ∷ []) ∷ closes 6 ∷ []))
recv_server_info-stranger_example = (
  sample-joins.0,
  recv_server_info-stranger (49 ∷ 50 ∷ []) one_server 6 sample-joins.0 (51 ∷ 0 ∷ []) (51 ∷ []) true
      true sample sample-joins.3 wrong_key keys_differ,
)
