-- ===== src/EventLoop/Messaging.antt =====
-- From the structures that a client serializes to the tools that they are given to.
use qt_asio_net_disk.Base.{
  ℕ, ◌+◌, ◌≤◌, ◌≡◌, refl, List, ◌++◌, Option, some, true, arith, take, drop, replicate, le→ltb,
}
use qt_asio_net_disk.Wire.Put.{Outcome}
use qt_asio_net_disk.Wire.Get.{done, read_then_lem}
use qt_asio_net_disk.Protocol.{
  ProtocolHeader, Pdu, TranPdu, TranDataPdu, TranFinishPdu, TranControlPdu, IsPdu, IsTranPdu,
  IsTranDataPdu, IsTranFinishPdu, IsTranControlPdu, IsHeader, header_len, pdu_type, tran_pdu_type,
  tran_data_pdu_type, tran_finish_pdu_type, tran_control_pdu_type,
}
use qt_asio_net_disk.Serializer.Frame.{encode_header, read_header, read_header-Yields}
use qt_asio_net_disk.Serializer.Header.{deserialize_header}
use qt_asio_net_disk.Serializer.Pdu as OfPdu
use qt_asio_net_disk.Serializer.TranPdu as OfTranPdu
use qt_asio_net_disk.Serializer.TranDataPdu as OfTranDataPdu
use qt_asio_net_disk.Serializer.TranFinishPdu as OfTranFinishPdu
use qt_asio_net_disk.Serializer.TranControlPdu as OfTranControlPdu
use qt_asio_net_disk.EventLoop.{no_header}
use qt_asio_net_disk.EventLoop.Dispatch.{
  Tool, get_pdu_tool, get_tran_tool, get_data_tool, get_finish_tool, get_control_tool, branch,
  handle_type, after_header, handle_client_task, no_pdu, no_tran_pdu, no_tran_data_pdu,
  no_tran_finish_pdu, no_tran_control_pdu,
}
use qt_asio_net_disk.EventLoop.Meant.{
  find, made, begun, pdu_codes, tran_codes, data_codes, finish_codes, control_codes,
  get_pdu_tool_lem, get_tran_tool_lem, get_data_tool_lem, get_finish_tool_lem, get_control_tool_lem,
}

-- What a client may send.
pub data Message : Type 0 where
  short : Pdu → Message
  long : TranPdu → Message
  chunk : TranDataPdu → Message
  finish : TranFinishPdu → Message
  control : TranControlPdu → Message

abbrev pub header_of : Message → ProtocolHeader
header_of (short p) = p.header
header_of (long p) = p.header
header_of (chunk p) = p.header
header_of (finish p) = p.header
header_of (control p) = p.header

abbrev pub IsMessage : Message → Type 0
IsMessage (short p) = IsPdu p
IsMessage (long p) = IsTranPdu p
IsMessage (chunk p) = IsTranDataPdu p
IsMessage (finish p) = IsTranFinishPdu p
IsMessage (control p) = IsTranControlPdu p

-- The number of the structure's type, and what the length of its body is.
abbrev pub type_of : Message → ℕ
type_of (short p) = pdu_type
type_of (long p) = tran_pdu_type
type_of (chunk p) = tran_data_pdu_type
type_of (finish p) = tran_finish_pdu_type
type_of (control p) = tran_control_pdu_type

own_len : {h : ProtocolHeader} {type n : ℕ} → IsHeader h type n → IsHeader h type h.body_len
own_len v = record {
  type_is = v.type_is;
  body_len_is = refl;
  type_fits = v.type_fits;
  body_len_fits = v.body_len_fits;
  version_fits = v.version_fits;
  reserved_fits = v.reserved_fits;
}

pub header_of-IsHeader :
    (m : Message) → IsMessage m → IsHeader (header_of m) (type_of m) (header_of m).body_len
header_of-IsHeader (short p) v = own_len v.header_valid
header_of-IsHeader (long p) v = own_len v.header_valid
header_of-IsHeader (chunk p) v = own_len v.header_valid
header_of-IsHeader (finish p) v = own_len v.header_valid
header_of-IsHeader (control p) v = own_len v.header_valid

unfoldable pub serialize : List ℕ → Message → Outcome (List ℕ)
serialize buf (short p) = OfPdu.serialize_pdu buf p
serialize buf (long p) = OfTranPdu.serialize_tran_pdu buf p
serialize buf (chunk p) = OfTranDataPdu.serialize_tran_data_pdu buf p
serialize buf (finish p) = OfTranFinishPdu.serialize_tran_finish_pdu buf p
serialize buf (control p) = OfTranControlPdu.serialize_tran_control_pdu buf p

-- The short message as it arrives: zeros in place of what is behind its `msg_len` bytes.
abbrev pub padded : Pdu → Pdu
padded p = record p { msg = take p.msg_len p.msg ++ drop p.msg_len (replicate 200 0) }

-- The tool that a message is meant for by these lists, and the type of the connection with it.
unfoldable pub tool_of : Message → ℕ → Option Tool × ℕ
tool_of (short p) t = (made (find p.code pdu_codes) (padded p), t)
tool_of (long p) t = begun (find p.tran_pdu_code tran_codes) p t
tool_of (chunk p) t = (made (find p.code data_codes) p, t)
tool_of (finish p) t = (made (find p.code finish_codes) p, t)
tool_of (control p) t = (made (find p.code control_codes) p, t)

unfoldable pub encode : Message → List ℕ
encode (short p) = OfPdu.encode_body p
encode (long p) = OfTranPdu.encode_body p
encode (chunk p) = OfTranDataPdu.encode_body p
encode (finish p) = OfTranFinishPdu.encode_body p
encode (control p) = OfTranControlPdu.encode_body p

pub header_lem :
    (h : ProtocolHeader) {type body_len : ℕ} (rest : List ℕ) (len : ℕ) (old : ProtocolHeader)
    → IsHeader h type body_len
    → 8 ≤ len
    → deserialize_header (encode_header h ++ rest) len old ≡ done true h
unfolding deserialize_header
header_lem h rest len old v enough = rw (
  le→ltb len header_len enough,
  read_then_lem read_header (encode_header h) rest h (λ x _. done true x) (read_header-Yields h v),
)

-- The branches of the switch.
module _ (h : ProtocolHeader) (buf : List ℕ) (t : ℕ) where
  handle_type-pdu :
      h.type ≡ pdu_type
      → handle_type h buf t
        ≡ branch
            (OfPdu.deserialize_pdu buf (header_len + h.body_len) no_pdu)
            (λ p u. (get_pdu_tool p, u))
            t
  unfolding handle_type
  handle_type-pdu e = rw e

  handle_type-tran_pdu :
      h.type ≡ tran_pdu_type
      → handle_type h buf t
        ≡ branch
            (OfTranPdu.deserialize_tran_pdu buf (header_len + h.body_len) no_tran_pdu)
            get_tran_tool
            t
  unfolding handle_type
  handle_type-tran_pdu e = rw e

  handle_type-tran_data_pdu :
      h.type ≡ tran_data_pdu_type
      → handle_type h buf t
        ≡ branch
            (OfTranDataPdu.deserialize_tran_data_pdu buf (header_len + h.body_len) no_tran_data_pdu)
            (λ p u. (get_data_tool p, u))
            t
  unfolding handle_type
  handle_type-tran_data_pdu e = rw e

  handle_type-tran_finish_pdu :
      h.type ≡ tran_finish_pdu_type
      → handle_type h buf t
        ≡ branch
            (OfTranFinishPdu.deserialize_tran_finish_pdu buf
              (header_len + h.body_len)
              no_tran_finish_pdu)
            (λ p u. (get_finish_tool p, u))
            t
  unfolding handle_type
  handle_type-tran_finish_pdu e = rw e

  handle_type-tran_control_pdu :
      h.type ≡ tran_control_pdu_type
      → handle_type h buf t
        ≡ branch
            (OfTranControlPdu.deserialize_tran_control_pdu buf
              (header_len + h.body_len)
              no_tran_control_pdu)
            (λ p u. (get_control_tool p, u))
            t
  unfolding handle_type
  handle_type-tran_control_pdu e = rw e

-- A buffer with an encoded message in front is handed to its tool, whatever is behind the message.
pub handle_client_task_lem :
    (m : Message) (tail : List ℕ) (t : ℕ)
    → IsMessage m
    → handle_client_task (encode_header (header_of m) ++ (encode m ++ tail)) t ≡ some (tool_of m t)
unfolding handle_client_task encode tool_of branch after_header
handle_client_task_lem (short p) tail t v = rw (
  header_lem p.header (OfPdu.encode_body p ++ tail) header_len no_header v.header_valid
      (omega arith),
  handle_type-pdu p.header (encode_header p.header ++ (OfPdu.encode_body p ++ tail)) t
      v.header_valid.type_is,
  OfPdu.deserialize_pdu-encode p no_pdu tail (header_len + p.header.body_len) v refl
      (omega (arith, v.header_valid.body_len_is)),
  branch,
  get_pdu_tool_lem (padded p),
)
handle_client_task_lem (long p) tail t v = rw (
  header_lem p.header (OfTranPdu.encode_body p ++ tail) header_len no_header v.header_valid
      (omega arith),
  handle_type-tran_pdu p.header (encode_header p.header ++ (OfTranPdu.encode_body p ++ tail)) t
      v.header_valid.type_is,
  OfTranPdu.deserialize_tran_pdu-encode p no_tran_pdu tail (header_len + p.header.body_len) v
      (omega (arith, v.header_valid.body_len_is)),
  branch,
  get_tran_tool_lem p t,
)
handle_client_task_lem (chunk p) tail t v = rw (
  header_lem p.header (OfTranDataPdu.encode_body p ++ tail) header_len no_header v.header_valid
      (omega arith),
  handle_type-tran_data_pdu p.header
      (encode_header p.header ++ (OfTranDataPdu.encode_body p ++ tail)) t v.header_valid.type_is,
  OfTranDataPdu.deserialize_tran_data_pdu-encode p no_tran_data_pdu tail
      (header_len + p.header.body_len) v refl (omega (arith, v.header_valid.body_len_is)),
  branch,
  get_data_tool_lem p,
)
handle_client_task_lem (finish p) tail t v = rw (
  header_lem p.header (OfTranFinishPdu.encode_body p ++ tail) header_len no_header v.header_valid
      (omega arith),
  handle_type-tran_finish_pdu p.header
      (encode_header p.header ++ (OfTranFinishPdu.encode_body p ++ tail)) t v.header_valid.type_is,
  OfTranFinishPdu.deserialize_tran_finish_pdu-encode p no_tran_finish_pdu tail
      (header_len + p.header.body_len) v (omega (arith, v.header_valid.body_len_is)),
  branch,
  get_finish_tool_lem p,
)
handle_client_task_lem (control p) tail t v = rw (
  header_lem p.header (OfTranControlPdu.encode_body p ++ tail) header_len no_header v.header_valid
      (omega arith),
  handle_type-tran_control_pdu p.header
      (encode_header p.header ++ (OfTranControlPdu.encode_body p ++ tail)) t v.header_valid.type_is,
  OfTranControlPdu.deserialize_tran_control_pdu-encode p no_tran_control_pdu tail
      (header_len + p.header.body_len) v refl (omega (arith, v.header_valid.body_len_is)),
  branch,
  get_control_tool_lem p,
)
