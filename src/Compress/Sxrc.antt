-- ===== src/Compress/Sxrc.antt =====
-- The sxrc payload of kernel/src/mm/compress/codec.rs: literal runs, dictionary words and patterns.
pub mod Buffer
pub mod Tables
pub mod Encoder
pub mod Decoder
pub mod Tokens
pub mod Emit
pub mod Keeps
pub mod Choice
pub mod Encode
pub mod Arms
pub mod Accepts
pub mod Decode
