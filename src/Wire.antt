-- ===== src/Wire.antt =====
-- Memory, byte order and cursors: what NetDisk-Server/Server/code/tool/Serializer.cpp does through
-- `memcpy`, `htons`, `htonl` and `ptr +=`. A byte is a number below 256, and the host is little
-- endian, as on the machines that the program is built for.
pub mod Bytes
pub mod Order
pub mod Put
pub mod Get
