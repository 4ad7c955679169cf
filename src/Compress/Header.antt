-- ===== src/Compress/Header.antt =====
-- kernel/src/mm/compress/header.rs: the 16-byte header in front of an encoded page.
pub mod RoundTrip
use hxnu.Base.{
  ℕ, zero, suc, ◌+◌, ◌*◌, ◌/◌, ◌%◌, ◌^◌, ◌≤◌, ◌<◌, ◌≡◌, refl, List, [], ◌∷◌, ◌++◌, arith, ltb, ◌==◌,
  not, if◌then◌else◌, Result, ok, err, ◌>>=◌, get_or, set, copy_at, take, drop, length, u16_bytes,
  u32_bytes, u16_of_bytes, u32_of_bytes, le→ltb_false, lt→ltb, ltb_false→le, Bool-cases, inl, inr,
}
use hxnu.Compress.{
  CompressionClass, CompressionError, class_id, class_from_id, header_bytes, page_bytes,
}

-- `u32::from_le_bytes(*b"HXCP")`
abbrev magic : ℕ
magic = u32_of_bytes 0x48 0x58 0x43 0x50

abbrev version : ℕ
version = 1

pub record EncodedHeader : Type 0 where
  pub class : CompressionClass
  pub payload_len : ℕ
  pub checksum : ℕ

-- The six writes of `encode_into`, in order.
pub write_fields : EncodedHeader → List ℕ → List ℕ
write_fields h out =
    let o0 = copy_at out 0 (u32_bytes magic) in
    let o1 = set o0 4 version in
    let o2 = set o1 5 (class_id h.class) in
    let o3 = copy_at o2 6 (u16_bytes h.payload_len) in
    let o4 = copy_at o3 8 (u16_bytes page_bytes) in
    let o5 = copy_at o4 10 (u16_bytes 0) in copy_at o5 12 (u32_bytes h.checksum)

pub encode_into : EncodedHeader → List ℕ → List ℕ × Result (Unit {0}) CompressionError
encode_into h out =
    if ltb (length out) header_bytes
    then (out, err CompressionError.output_too_small)
    else (write_fields h out, ok tt)

read_u16_le : List ℕ → ℕ → ℕ
read_u16_le input offset = u16_of_bytes (get_or input offset 0) (get_or input (offset + 1) 0)

read_u32_le : List ℕ → ℕ → ℕ
read_u32_le input offset =
    u32_of_bytes (get_or input offset 0) (get_or input (offset + 1) 0) (get_or input (offset + 2) 0)
      (get_or input (offset + 3) 0)

pub decode : List ℕ → Result EncodedHeader CompressionError
unfolding read_u16_le read_u32_le
decode input =
    if ltb (length input) header_bytes
    then err CompressionError.truncated_input
    else if not (read_u32_le input 0 == magic)
    then err CompressionError.invalid_header_magic
    else if not (get_or input 4 0 == version)
    then err CompressionError.unsupported_header_version
    else class_from_id (get_or input 5 0) >>= λ class.
        if not (read_u16_le input 8 == page_bytes)
        then err CompressionError.invalid_decoded_length
        else ok (record {
          class = class;
          payload_len = read_u16_le input 6;
          checksum = read_u32_le input 12;
        })

-- The sixteen bytes, written out.
abbrev pub header : EncodedHeader → List ℕ
header h =
    (0x48 ∷ 0x58 ∷ 0x43 ∷ 0x50 ∷ 1 ∷ class_id h.class ∷ [])
    ++ u16_bytes h.payload_len
    ++ (0 ∷ 16 ∷ 0 ∷ 0 ∷ [])
    ++ u32_bytes h.checksum
