-- ===== src/BlockData.antt =====
-- gserver/internal/gsbd/encoder.go and decoder.go: the wire form of a block's transactions.
pub mod Varint
pub mod Codecs
pub mod Encoder
pub mod Decoder
