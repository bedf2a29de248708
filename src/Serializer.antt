-- ===== src/Serializer.antt =====
-- NetDisk-Server/Server/code/tool/Serializer.cpp. `Frame` has the checks that all of its functions
-- share; the other modules have the functions of one structure each, with their round trip.
pub mod Frame
pub mod Header
pub mod Pdu
pub mod PduRespond
pub mod TranPdu
pub mod TranDataPdu
pub mod TranFinishPdu
pub mod TranControlPdu
pub mod UserInfo
pub mod FileInfo
pub mod ServerInfoPack
pub mod ServerState
pub mod Samples
mod Examples
