-- ===== src/Codec.antt =====
-- The wire encodings of src/common/decode/decode.cpp, the wrappers of src/common/buffer/ through
-- which frames use them, and src/quic/packet/packet_number.cpp.
pub mod Varint
pub mod Fixed
pub mod Wrapper
pub mod PacketNumber
pub mod Control
