-- ===== src/EventLoop/Examples.antt =====
-- The event loop at a client that asks to pause a download and then to resume it.
use qt_asio_net_disk.Base.{
  ◌≤◌, ℕ, ◌+◌, ◌-◌, ◌^◌, ◌≡◌, refl, ap, ◌∙◌, List, [], ◌∷◌, ◌++◌, some, none, arith, length,
  length-append, length-replicate, take, drop, replicate,
}
use qt_asio_net_disk.Buffer.{Buffer, init}
use qt_asio_net_disk.Buffer.Contents.{Holds, init-Holds}
use qt_asio_net_disk.Protocol.{
  TranControlPdu, IsTranControlPdu, tran_control_pdu_type, tran_control_pdu_body_len,
}
use qt_asio_net_disk.Serializer.Samples.{sample_header, sample_header-IsHeader}
use qt_asio_net_disk.Wire.Bytes.{from_le, to_le}
use qt_asio_net_disk.Wire.Order.{swap_bytes}
use qt_asio_net_disk.EventLoop.{receive, receive_all}
use qt_asio_net_disk.EventLoop.Messages.{body_len_of, split}
use qt_asio_net_disk.EventLoop.Stream.{receive_all-join, receive-long}
use qt_asio_net_disk.EventLoop.Messaging.{control}
use qt_asio_net_disk.EventLoop.Sending.{serialized-IsSent}
use qt_asio_net_disk.EventLoop.EndToEnd.{Packet, stream}
use qt_asio_net_disk.EventLoop.Client.Laws.{Arrival}
use qt_asio_net_disk.EventLoop.Read.{failed, ssl_read_all}
use qt_asio_net_disk.EventLoop.Read.Laws.{
  Round, attempts_of, ssl_read_all-arrives, ssl_read_all-failed,
}

abbrev asks : ℕ → TranControlPdu
asks action = record {
  header = sample_header tran_control_pdu_type tran_control_pdu_body_len;
  code = 9;
  action = action;
  msg_len = 0;
  msg = [];
}

pause-IsTranControlPdu : IsTranControlPdu (asks 1)
pause-IsTranControlPdu = record {
  header_valid =
      sample_header-IsHeader tran_control_pdu_type tran_control_pdu_body_len (omega arith)
        (omega arith);
  code_fits = omega arith;
  action_fits = omega arith;
  msg_len_fits = omega arith;
  msg_size = refl;
  msg_len_bound = omega arith;
}

resume-IsTranControlPdu : IsTranControlPdu (asks 2)
resume-IsTranControlPdu = record {
  header_valid =
      sample_header-IsHeader tran_control_pdu_type tran_control_pdu_body_len (omega arith)
        (omega arith);
  code_fits = omega arith;
  action_fits = omega arith;
  msg_len_fits = omega arith;
  msg_size = refl;
  msg_len_bound = omega arith;
}

abbrev pool : ℕ → List ℕ
pool k = replicate 8192 0

abbrev pause_packet : Packet
pause_packet = record {
  message = control (asks 1);
  bytes =
      (serialized-IsSent (control (asks 1)) (pool 0) pause-IsTranControlPdu
        (length-replicate {A = ℕ} 8192 0)).0;
  valid = pause-IsTranControlPdu;
  sent =
      (serialized-IsSent (control (asks 1)) (pool 0) pause-IsTranControlPdu
        (length-replicate {A = ℕ} 8192 0)).1;
}

abbrev resume_packet : Packet
resume_packet = record {
  message = control (asks 2);
  bytes =
      (serialized-IsSent (control (asks 2)) (pool 0) resume-IsTranControlPdu
        (length-replicate {A = ℕ} 8192 0)).0;
  valid = resume-IsTranControlPdu;
  sent =
      (serialized-IsSent (control (asks 2)) (pool 0) resume-IsTranControlPdu
        (length-replicate {A = ℕ} 8192 0)).1;
}

abbrev both : List Packet
both = pause_packet ∷ resume_packet ∷ []

-- The messages come in two rounds, the first of five bytes with the rest in the SSL layer, and in
-- the second nothing is left.
abbrev five_come : Arrival
five_come = record {
  first = record { bytes = take 5 (stream both); in_ssl = 0; in_socket = 0 };
  others = [];
  after = [];
  in_ssl = 1;
  in_socket = 0;
}

abbrev rest_comes : Arrival
rest_comes = record {
  first = record { bytes = drop 5 (stream both); in_ssl = 0; in_socket = 0 };
  others = [];
  after = [];
  in_ssl = 0;
  in_socket = 0;
}

-- A message without a body, cut in two ways.
abbrev bare : List ℕ
bare = 0 ∷ 1 ∷ 0 ∷ 0 ∷ 0 ∷ 0 ∷ 1 ∷ 0 ∷ []

receive_all-join_example :
    (ms : List (List ℕ)) × (g : Buffer) × (k : Buffer) × (receive_all pool
        (init 0)
        (take 3 bare ∷ drop 3 bare ∷ [])
      ≡ some (ms, g))
    × (receive_all pool (init 0) (bare ∷ []) ≡ some (ms, k))
unfolding split body_len_of swap_bytes from_le to_le init
receive_all-join_example =
    receive_all-join pool (init 0) (take 3 bare ∷ drop 3 bare ∷ []) (bare ∷ [])
      (init-Holds 0 (omega arith)) refl (omega arith) (omega arith, tt)

-- A message of 8193 bytes.
abbrev long_header : List ℕ
long_header = 0 ∷ 1 ∷ 0 ∷ 0 ∷ 31 ∷ 249 ∷ 1 ∷ 0 ∷ []

abbrev long_bytes : List ℕ
long_bytes = long_header ++ replicate 8185 0

length-long_bytes : length long_bytes ≡ 8193
length-long_bytes =
    length-append long_header (replicate 8185 0) ∙ ap (λ n. 8 + n) (length-replicate {A = ℕ} 8185 0)

body_len_of-long : body_len_of long_bytes ≡ 8185
unfolding body_len_of swap_bytes from_le to_le
body_len_of-long = refl

receive-long_example : receive pool (init 0) long_bytes ≡ none
unfolding init
receive-long_example =
    receive-long pool (init 0) [] long_bytes (init-Holds 0 (omega arith))
      (omega (arith, length-long_bytes)) (omega (arith, length-long_bytes))
      (omega (arith, body_len_of-long)) (omega (arith, body_len_of-long, length-long_bytes))

abbrev two_unread : Buffer
two_unread = record { bytes = 1 ∷ 2 ∷ 3 ∷ 0 ∷ []; read_pos = 1; write_pos = 3 }

two_unread-Holds : Holds two_unread (2 ∷ 3 ∷ [])
two_unread-Holds = record {
  before = 1 ∷ [];
  behind = 0 ∷ [];
  layout = refl;
  read_at_end = refl;
  write_at_end = refl;
  small = omega arith;
}

-- The socket is empty after the first round, but the SSL layer is not.
abbrev left_in_ssl : Round
left_in_ssl = record { bytes = 7 ∷ 8 ∷ []; in_ssl = 1; in_socket = 0 }

abbrev last_round : Round
last_round = record { bytes = 9 ∷ []; in_ssl = 0; in_socket = 0 }

ssl_read_all-arrives_example :
    (g : Buffer) × (ssl_read_all
        (some 5)
        (attempts_of (left_in_ssl ∷ last_round ∷ []) ++ attempts_of (last_round ∷ []))
        two_unread
        4096
      ≡ some (3, g))
    × Holds g (2 ∷ 3 ∷ 7 ∷ 8 ∷ 9 ∷ [])
    × (g.write_pos ≤ two_unread.write_pos + 3)
ssl_read_all-arrives_example =
    ssl_read_all-arrives 5 two_unread (2 ∷ 3 ∷ []) left_in_ssl (last_round ∷ [])
      (attempts_of (last_round ∷ [])) 4096 two_unread-Holds
      (omega arith, omega arith, (omega arith, omega arith)) (omega arith) (omega arith)

ssl_read_all-failed_example :
    (g : Buffer) × (ssl_read_all
        (some 5)
        (record { read = failed; ssl_pending = 0; socket_pending = some 0 } ∷ [])
        two_unread
        4096
      ≡ some (2 ^ 64 - 1, g))
    × Holds g (2 ∷ [])
ssl_read_all-failed_example =
    ssl_read_all-failed 5 0 3 two_unread (2 ∷ []) 0 4096 [] two_unread-Holds (omega arith)
      (omega arith)
