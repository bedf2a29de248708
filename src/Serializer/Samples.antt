-- ===== src/Serializer/Samples.antt =====
-- What the examples of the messages share.
use qt_asio_net_disk.Base.{ℕ, ◌<◌, refl, arith}
use qt_asio_net_disk.Wire.Bytes.{limit}
use qt_asio_net_disk.Protocol.{ProtocolHeader, IsHeader}

-- A header for a message of a type and a length.
abbrev pub sample_header : ℕ → ℕ → ProtocolHeader
sample_header t n = record { type = t; body_len = n; version = 1; reserved = 0 }

pub sample_header-IsHeader :
    (t n : ℕ) → t < limit 2 → n < limit 4 → IsHeader (sample_header t n) t n
sample_header-IsHeader t n fits short = record {
  type_is = refl;
  body_len_is = refl;
  type_fits = fits;
  body_len_fits = short;
  version_fits = omega arith;
  reserved_fits = omega arith;
}
