-- ===== src/Compress/Codec.antt =====
-- `encode_page` and `decode_page` of kernel/src/mm/compress/codec.rs.
pub mod Encode
pub mod Success
pub mod Decode
pub mod RoundTrip
pub mod Accepts
use hxnu.Base.{
  ℕ, ◌+◌, ◌%◌, ◌^◌, Bool, true, false, not, ◌&&◌, List, [], ◌∷◌, ◌++◌, Result, ok, err, ltb, ◌==◌,
  if◌then◌else◌, get_or, set, copy_at, take, drop, slice, length, replicate, u64_max,
}
use hxnu.Compress.{CompressionClass, CompressionError, header_bytes, page_bytes}
use hxnu.Compress.Checksum.{fnv1a32}
use hxnu.Compress.Header.{EncodedHeader, encode_into, decode}
use hxnu.Compress.Sxrc.Encoder.{encode_sxrc_payload}
use hxnu.Compress.Sxrc.Decoder.{decode_sxrc_payload}

pub record EncodedPage : Type 0 where
  pub class : CompressionClass
  pub bytes : List ℕ

-- `page.iter().copied().all(|byte| byte == b)`
pub all_equal : ℕ → List ℕ → Bool
all_equal b [] = true
all_equal b (x ∷ xs) = x == b && all_equal b xs

abbrev pub is_zero_page : List ℕ → Bool
is_zero_page page = all_equal 0 page

abbrev pub is_same_page : List ℕ → Bool
is_same_page page = all_equal (get_or page 0 0) page

-- The arms of the match on the outcome of `encode_sxrc_payload`; `scratch` holds what it wrote.
pub sxrc_or_raw :
    List ℕ
    → List ℕ
    → Result ℕ CompressionError
    → List ℕ × Result (CompressionClass × ℕ) CompressionError
sxrc_or_raw page scratch (ok n) =
    if ltb n page_bytes
    then (scratch, ok (CompressionClass.sxrc, n))
    else (copy_at scratch header_bytes page, ok (CompressionClass.raw, page_bytes))
sxrc_or_raw page scratch (err CompressionError.output_too_small) =
    (copy_at scratch header_bytes page, ok (CompressionClass.raw, page_bytes))
sxrc_or_raw page scratch (err e) = (scratch, err e)

-- The choice of a class, with the payload written behind the header's place.
pub choose_class : List ℕ → List ℕ → List ℕ × Result (CompressionClass × ℕ) CompressionError
choose_class page scratch =
    let sxrc = encode_sxrc_payload page (drop header_bytes scratch) in
    if is_zero_page page
    then (scratch, ok (CompressionClass.zero, 0))
    else if is_same_page page
    then (if ltb (length scratch) (header_bytes + 1)
        then (scratch, err CompressionError.output_too_small)
        else (set scratch header_bytes (get_or page 0 0), ok (CompressionClass.same, 1)))
    else if ltb (length scratch) (header_bytes + page_bytes)
    then (scratch, err CompressionError.output_too_small)
    else sxrc_or_raw page (take header_bytes scratch ++ sxrc.0) sxrc.1

-- The header of the payload that stands behind its place.
abbrev pub header_of : CompressionClass → ℕ → List ℕ → EncodedHeader
header_of class payload_len scratch = record {
  class = class;
  payload_len = payload_len % 2 ^ 16;
  checksum = fnv1a32 (slice scratch header_bytes payload_len);
}

-- The slice of header and payload, if the header could be written.
abbrev pub sealed :
    CompressionClass
    → ℕ
    → List ℕ × Result (Unit {0}) CompressionError
    → List ℕ × Result EncodedPage CompressionError
sealed class payload_len (scratch, ok _) =
    (scratch, ok (record { class = class; bytes = take (header_bytes + payload_len) scratch }))
sealed class payload_len (scratch, err e) = (scratch, err e)

-- The header in front of the payload, and the slice of both.
pub finish : CompressionClass → ℕ → List ℕ → List ℕ × Result EncodedPage CompressionError
finish class payload_len scratch =
    if ltb u64_max (header_bytes + payload_len)
    then (scratch, err CompressionError.invalid_payload_length)
    else sealed class payload_len (encode_into (header_of class payload_len scratch) scratch)

-- The scratch buffer afterwards, and the encoded page within it.
pub encode_page : List ℕ → List ℕ → List ℕ × Result EncodedPage CompressionError
encode_page page scratch =
    let (scratch', r) = choose_class page scratch in
    if ltb (length scratch) header_bytes
    then (scratch, err CompressionError.output_too_small)
    else elim r [ err e ↦ (scratch', err e) | ok (class, n) ↦ finish class n scratch' ]

-- The match on the class; `out` is the page to be filled.
pub decode_class : CompressionClass → List ℕ → List ℕ → List ℕ × Result (Unit {0}) CompressionError
decode_class CompressionClass.zero payload out =
    if not (length payload == 0)
    then (out, err CompressionError.invalid_payload_length)
    else (replicate (length out) 0, ok tt)
decode_class CompressionClass.same payload out =
    if not (length payload == 1)
    then (out, err CompressionError.invalid_payload_length)
    else (replicate (length out) (get_or payload 0 0), ok tt)
decode_class CompressionClass.raw payload out =
    if not (length payload == page_bytes)
    then (out, err CompressionError.invalid_payload_length)
    else (copy_at out 0 payload, ok tt)
decode_class CompressionClass.sxrc payload out = decode_sxrc_payload payload out

-- `Ok(header.class())`, or the error of the match.
abbrev pub decoded_as :
    CompressionClass
    → List ℕ × Result (Unit {0}) CompressionError
    → List ℕ × Result CompressionClass CompressionError
decoded_as class (page, ok _) = (page, ok class)
decoded_as class (page, err e) = (page, err e)

-- The checks on the whole encoded page, behind those of its header.
pub decode_body :
    EncodedHeader → List ℕ → List ℕ → List ℕ × Result CompressionClass CompressionError
decode_body header encoded out =
    let payload = slice encoded header_bytes header.payload_len in
    if ltb u64_max (header_bytes + header.payload_len)
    then (out, err CompressionError.invalid_payload_length)
    else if not (length encoded == header_bytes + header.payload_len)
    then (out, err CompressionError.invalid_payload_length)
    else if not (fnv1a32 payload == header.checksum)
    then (out, err CompressionError.checksum_mismatch)
    else decoded_as header.class (decode_class header.class payload out)

pub decode_page : List ℕ → List ℕ → List ℕ × Result CompressionClass CompressionError
decode_page encoded out = elim (decode encoded) [
  | err e ↦ (out, err e)
  | ok header ↦ decode_body header encoded out
]
