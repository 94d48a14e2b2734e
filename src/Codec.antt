-- ===== src/Codec.antt =====
-- The text and integer encodings that the wire forms are built from.
mod Tests
pub mod Hex
pub mod Base64
pub mod Leb128
