-- ===== src/Protocol.antt =====
-- NetDisk-Server/Server/code/protocol.h: the enumerations, the lengths and the structures of the
-- protocol. A number is the value of its unsigned field, an array of `char` is the list of its
-- bytes, and a `std::string` the list of its bytes. `data` of TranDataPdu is `content` here.
pub mod Code
pub mod Status
use qt_asio_net_disk.Base.{ℕ, ◌<◌, ◌≤◌, ◌+◌, ◌≡◌, List, length}
use qt_asio_net_disk.Wire.Bytes.{limit}

abbrev pub pdu_type : ℕ
pdu_type = 1

abbrev pub pdu_respond_type : ℕ
pdu_respond_type = 2

abbrev pub tran_pdu_type : ℕ
tran_pdu_type = 3

abbrev pub tran_data_pdu_type : ℕ
tran_data_pdu_type = 4

abbrev pub tran_finish_pdu_type : ℕ
tran_finish_pdu_type = 5

abbrev pub tran_control_pdu_type : ℕ
tran_control_pdu_type = 6

abbrev pub user_info_type : ℕ
user_info_type = 8

abbrev pub file_info_type : ℕ
file_info_type = 9

abbrev pub server_info_pack_type : ℕ
server_info_pack_type = 10

abbrev pub server_state_type : ℕ
server_state_type = 11

-- PROTOCOLHEADER_LEN
abbrev pub header_len : ℕ
header_len = 8

-- PDU_BODY_BASE_LEN, `3*sizeof(uint32_t) + 140`
abbrev pub pdu_body_len : ℕ
pdu_body_len = 152

-- PDURESPOND_BODY_BASE_LEN
abbrev pub pdu_respond_body_len : ℕ
pdu_respond_body_len = 16

-- TRANPDU_BODY_LEN
abbrev pub tran_pdu_body_len : ℕ
tran_pdu_body_len = 268

-- TRANDATAPDU_BODY_BASE_LEN
abbrev pub tran_data_pdu_body_len : ℕ
tran_data_pdu_body_len = 32

-- TRANFINISHPDU_BODY_LEN
abbrev pub tran_finish_pdu_body_len : ℕ
tran_finish_pdu_body_len = 112

-- TRANCONTROL_BODY_BASE_LEN
abbrev pub tran_control_pdu_body_len : ℕ
tran_control_pdu_body_len = 12

-- USERINFO_BODY_LEN
abbrev pub user_info_body_len : ℕ
user_info_body_len = 400

-- FILEINFO_BODY_LEN
abbrev pub file_info_body_len : ℕ
file_info_body_len = 238

-- SERVERINFOPACK_BODY_LEN
abbrev pub server_info_pack_body_len : ℕ
server_info_pack_body_len = 68

-- SERVERSTATE_BODY_LEN
abbrev pub server_state_body_len : ℕ
server_state_body_len = 12

pub record ProtocolHeader : Type 0 where
  pub type : ℕ
  pub body_len : ℕ
  pub version : ℕ
  pub reserved : ℕ

pub record Pdu : Type 0 where
  pub header : ProtocolHeader
  pub code : ℕ
  pub user : List ℕ
  pub pwd : List ℕ
  pub file_name : List ℕ
  pub msg_len : ℕ
  pub msg : List ℕ

pub record PduRespond : Type 0 where
  pub header : ProtocolHeader
  pub code : ℕ
  pub status : ℕ
  pub msg_amount : ℕ
  pub msg_len : ℕ
  pub msg : List ℕ

pub record TranPdu : Type 0 where
  pub header : ProtocolHeader
  pub tran_pdu_code : ℕ
  pub user : List ℕ
  pub pwd : List ℕ
  pub file_name : List ℕ
  pub file_md5 : List ℕ
  pub file_size : ℕ
  pub sended_size : ℕ
  pub parent_dir_id : ℕ

pub record TranDataPdu : Type 0 where
  pub header : ProtocolHeader
  pub code : ℕ
  pub status : ℕ
  pub file_offset : ℕ
  pub chunk_size : ℕ
  pub total_chunks : ℕ
  pub chunk_index : ℕ
  pub check_sum : ℕ
  pub content : List ℕ

pub record TranFinishPdu : Type 0 where
  pub header : ProtocolHeader
  pub code : ℕ
  pub file_size : ℕ
  pub file_md5 : List ℕ

pub record TranControlPdu : Type 0 where
  pub header : ProtocolHeader
  pub code : ℕ
  pub action : ℕ
  pub msg_len : ℕ
  pub msg : List ℕ

pub record UserInfo : Type 0 where
  pub header : ProtocolHeader
  pub user : List ℕ
  pub pwd : List ℕ
  pub cipher : List ℕ
  pub is_vip : List ℕ
  pub capacity_sum : List ℕ
  pub used_capacity : List ℕ
  pub salt : List ℕ
  pub vip_date : List ℕ

pub record FileInfo : Type 0 where
  pub header : ProtocolHeader
  pub file_id : ℕ
  pub file_name : List ℕ
  pub dir_grade : ℕ
  pub file_type : List ℕ
  pub file_size : ℕ
  pub parent_dir : ℕ
  pub file_date : List ℕ

pub record ServerInfoPack : Type 0 where
  pub header : ProtocolHeader
  pub name : List ℕ
  pub ip : List ℕ
  pub sport : ℕ
  pub lport : ℕ
  pub cur_con_count : ℕ

pub record ServerState : Type 0 where
  pub header : ProtocolHeader
  pub code : ℕ
  pub cur_con_count : ℕ

-- The fields fit their widths, and `type` and `body_len` are those of the structure.
pub record IsHeader (h : ProtocolHeader) (type body_len : ℕ) : Type 0 where
  pub type_is : h.type ≡ type
  pub body_len_is : h.body_len ≡ body_len
  pub type_fits : h.type < limit 2
  pub body_len_fits : h.body_len < limit 4
  pub version_fits : h.version < limit 1
  pub reserved_fits : h.reserved < limit 1

-- What a sender puts into the structure.
pub record IsPdu (p : Pdu) : Type 0 where
  pub header_valid : IsHeader p.header pdu_type (pdu_body_len + p.msg_len)
  pub code_fits : p.code < limit 4
  pub user_size : length p.user ≡ 20
  pub pwd_size : length p.pwd ≡ 20
  pub file_name_size : length p.file_name ≡ 100
  pub msg_len_fits : p.msg_len < limit 4
  pub msg_size : length p.msg ≡ 200
  pub msg_len_bound : p.msg_len ≤ 200

-- What a sender puts into the structure.
pub record IsPduRespond (p : PduRespond) : Type 0 where
  pub header_valid : IsHeader p.header pdu_respond_type (pdu_respond_body_len + p.msg_len)
  pub code_fits : p.code < limit 4
  pub status_fits : p.status < limit 4
  pub msg_amount_fits : p.msg_amount < limit 4
  pub msg_len_fits : p.msg_len < limit 4
  pub msg_size : length p.msg ≡ p.msg_len
  pub msg_len_bound : 24 + p.msg_len ≤ 8192

-- What a sender puts into the structure.
pub record IsTranPdu (p : TranPdu) : Type 0 where
  pub header_valid : IsHeader p.header tran_pdu_type (tran_pdu_body_len)
  pub tran_pdu_code_fits : p.tran_pdu_code < limit 4
  pub user_size : length p.user ≡ 20
  pub pwd_size : length p.pwd ≡ 20
  pub file_name_size : length p.file_name ≡ 100
  pub file_md5_size : length p.file_md5 ≡ 100
  pub file_size_fits : p.file_size < limit 8
  pub sended_size_fits : p.sended_size < limit 8
  pub parent_dir_id_fits : p.parent_dir_id < limit 8

-- What a sender puts into the structure.
pub record IsTranDataPdu (p : TranDataPdu) : Type 0 where
  pub header_valid : IsHeader p.header tran_data_pdu_type (tran_data_pdu_body_len + p.chunk_size)
  pub code_fits : p.code < limit 4
  pub status_fits : p.status < limit 4
  pub file_offset_fits : p.file_offset < limit 8
  pub chunk_size_fits : p.chunk_size < limit 4
  pub total_chunks_fits : p.total_chunks < limit 4
  pub chunk_index_fits : p.chunk_index < limit 4
  pub check_sum_fits : p.check_sum < limit 4
  pub content_size : length p.content ≡ p.chunk_size
  pub chunk_size_bound : 40 + p.chunk_size ≤ 8192

-- What a sender puts into the structure.
pub record IsTranFinishPdu (p : TranFinishPdu) : Type 0 where
  pub header_valid : IsHeader p.header tran_finish_pdu_type (tran_finish_pdu_body_len)
  pub code_fits : p.code < limit 4
  pub file_size_fits : p.file_size < limit 8
  pub file_md5_size : length p.file_md5 ≡ 100

-- What a sender puts into the structure.
pub record IsTranControlPdu (p : TranControlPdu) : Type 0 where
  pub header_valid : IsHeader p.header tran_control_pdu_type (tran_control_pdu_body_len + p.msg_len)
  pub code_fits : p.code < limit 4
  pub action_fits : p.action < limit 4
  pub msg_len_fits : p.msg_len < limit 4
  pub msg_size : length p.msg ≡ p.msg_len
  pub msg_len_bound : 20 + p.msg_len ≤ 8192

-- What a sender puts into the structure.
pub record IsUserInfo (p : UserInfo) : Type 0 where
  pub header_valid : IsHeader p.header user_info_type (user_info_body_len)
  pub user_size : length p.user ≡ 50
  pub pwd_size : length p.pwd ≡ 50
  pub cipher_size : length p.cipher ≡ 50
  pub is_vip_size : length p.is_vip ≡ 50
  pub capacity_sum_size : length p.capacity_sum ≡ 50
  pub used_capacity_size : length p.used_capacity ≡ 50
  pub salt_size : length p.salt ≡ 50
  pub vip_date_size : length p.vip_date ≡ 50

-- What a sender puts into the structure.
pub record IsFileInfo (p : FileInfo) : Type 0 where
  pub header_valid : IsHeader p.header file_info_type (file_info_body_len)
  pub file_id_fits : p.file_id < limit 8
  pub file_name_size : length p.file_name ≡ 100
  pub dir_grade_fits : p.dir_grade < limit 4
  pub file_type_size : length p.file_type ≡ 10
  pub file_size_fits : p.file_size < limit 8
  pub parent_dir_fits : p.parent_dir < limit 8
  pub file_date_size : length p.file_date ≡ 100

-- What a sender puts into the structure.
pub record IsServerInfoPack (p : ServerInfoPack) : Type 0 where
  pub header_valid : IsHeader p.header server_info_pack_type (server_info_pack_body_len)
  pub name_size : length p.name ≡ 31
  pub ip_size : length p.ip ≡ 21
  pub sport_fits : p.sport < limit 4
  pub lport_fits : p.lport < limit 4
  pub cur_con_count_fits : p.cur_con_count < limit 8

-- What a sender puts into the structure.
pub record IsServerState (p : ServerState) : Type 0 where
  pub header_valid : IsHeader p.header server_state_type (server_state_body_len)
  pub code_fits : p.code < limit 4
  pub cur_con_count_fits : p.cur_con_count < limit 8
