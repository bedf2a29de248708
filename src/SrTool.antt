-- ===== src/SrTool.antt =====
-- SRTool of NetDisk-Server/Server/code/tool/SRTool.cpp: how a message goes to the network. What
-- SSL_write returns comes from outside: a script with an outcome for each call. `size_t` is 64 bits.
pub mod Laws
pub mod Faults
mod Examples
use qt_asio_net_disk.Base.{
  ℕ, ◌+◌, ◌-◌, ◌%◌, ◌^◌, List, [], ◌∷◌, ◌++◌, Bool, true, false, take, drop, ltb, if◌then◌else◌,
}
use qt_asio_net_disk.Wire.Put.{Failure, Outcome, ok, thrown, overrun}
use qt_asio_net_disk.Protocol.{
  ProtocolHeader, Pdu, PduRespond, TranDataPdu, UserInfo, FileInfo, header_len, file_info_type,
  file_info_body_len,
}
use qt_asio_net_disk.Serializer.Pdu.{serialize_pdu}
use qt_asio_net_disk.Serializer.PduRespond.{serialize_pdu_respond}
use qt_asio_net_disk.Serializer.TranDataPdu.{serialize_tran_data_pdu}
use qt_asio_net_disk.Serializer.UserInfo.{serialize_user_info}
use qt_asio_net_disk.Serializer.FileInfo.{serialize_file_info}

-- SSL_write took `n` bytes; or it returned 0 or -1, and SSL_get_error says whether to try again.
pub data Write : Type 0 where
  took : ℕ → Write
  nothing failed : Bool → Write

-- What is on the network, the value of `sended_bytes` at the end of the loop, whether the loop has
-- ended by its `break`, and the calls that are left for the next message.
pub record Sent : Type 0 where
  pub network : List ℕ
  pub count : ℕ
  pub gave_up : Bool
  pub left : List Write

-- `waits` is a call of SSL_write behind the end of the script.
pub data Result : Type 0 where
  sent : Sent → Result
  throws : Failure → Result
  crashes waits : Result

-- `network` put in front of what is sent from here on.
abbrev pub before : List ℕ → Result → Result
before bs (sent s) = sent (record s { network = bs ++ s.network })
before bs (throws e) = throws e
before bs crashes = crashes
before bs waits = waits

-- The loop that all functions have. `ret` is a `size_t`, so that -1 is not below 0 but 2^64 - 1, and
-- `ret <= 0` holds for 0 alone.
unfoldable pub send_loop : List ℕ → ℕ → ℕ → List Write → Result
send_loop buf target sended [] =
    if ltb sended target
    then waits
    else sent (record { network = []; count = sended; gave_up = false; left = [] })
send_loop buf target sended (took n ∷ script) =
    let rest = send_loop buf target ((sended + n) % 2 ^ 64) script in
    if ltb sended target
    then before (take n (drop sended buf)) rest
    else sent (record { network = []; count = sended; gave_up = false; left = took n ∷ script })
send_loop buf target sended (nothing again ∷ script) =
    let rest = send_loop buf target sended script in
    let round =
      if again
      then rest
      else sent (record { network = []; count = sended; gave_up = true; left = script }) in
    if ltb sended target
    then round
    else sent
        (record { network = []; count = sended; gave_up = false; left = nothing again ∷ script })
send_loop buf target sended (failed again ∷ script) =
    let rest = send_loop buf target ((sended + (2 ^ 64 - 1)) % 2 ^ 64) script in
    if ltb sended target
    then rest
    else sent
        (record { network = []; count = sended; gave_up = false; left = failed again ∷ script })

-- The loop over what the serializer returns.
unfoldable pub send : Outcome (List ℕ) → ProtocolHeader → List Write → Result
send (ok buf) h script = send_loop buf (header_len + h.body_len) 0 script
send (thrown e) h script = throws e
send overrun h script = crashes

-- `pool` is what the buffer from the pool holds.
unfoldable pub send_pdu : List ℕ → Pdu → List Write → Result
unfolding send
send_pdu pool p = send (serialize_pdu pool p) p.header

unfoldable pub send_pdu_respond : List ℕ → PduRespond → List Write → Result
unfolding send
send_pdu_respond pool p = send (serialize_pdu_respond pool p) p.header

unfoldable pub send_tran_data_pdu : List ℕ → TranDataPdu → List Write → Result
unfolding send
send_tran_data_pdu pool p = send (serialize_tran_data_pdu pool p) p.header

unfoldable pub send_user_info : List ℕ → UserInfo → List Write → Result
unfolding send
send_user_info pool p = send (serialize_user_info pool p) p.header

-- The header that sendFileInfo sets.
abbrev pub with_type : FileInfo → FileInfo
with_type p = record p {
  header = record p.header { type = file_info_type; body_len = file_info_body_len };
}

-- sendFileInfo: the vector in its order; `gave_up` is the result `false`. `count` is not kept.
unfoldable pub send_file_info : (ℕ → List ℕ) → ℕ → List FileInfo → List Write → Result
send_file_info pool k [] script =
    sent (record { network = []; count = 0; gave_up = false; left = script })
send_file_info pool k (p ∷ vet) script =
    elim (send (serialize_file_info (pool k) (with_type p)) (with_type p).header script) [
      | sent s ↦
          let rest = send_file_info pool (k + 1) vet s.left in
          if s.gave_up
          then sent (record { network = s.network; count = 0; gave_up = true; left = s.left })
          else before s.network rest
      | throws e ↦ throws e
      | crashes ↦ crashes
      | waits ↦ waits
    ]
