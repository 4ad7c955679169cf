-- ===== src/Compress/Codec/RoundTrip.antt =====
-- `encode_page` and `decode_page` of kernel/src/mm/compress/codec.rs, one after the other.
use hxnu.Base.{ℕ, ◌≤◌, ◌≡◌, ap, List, arith, length, ok}
use hxnu.Compress.{IsPage, page_bytes, max_encoded_page_bytes}
use hxnu.Compress.Codec.{EncodedPage, encode_page, decode_page}
use hxnu.Compress.Codec.Encode.{Encodes}
use hxnu.Compress.Codec.Success.{encode_page-Encodes}
use hxnu.Compress.Codec.Decode.{decode_page-Encodes}

pub length-Encodes :
    (e : EncodedPage) (page : List ℕ) → Encodes e page → length e.bytes ≤ max_encoded_page_bytes
length-Encodes e page c = omega (arith, ap length c.bytes, c.short)

-- With room for the largest encoding, every page of 4096 bytes is encoded, in at most 4112 bytes,
-- and decoding those bytes over any page buffer gives back the page and the class.
pub decode_page-encode_page :
    (page scratch out : List ℕ)
    → IsPage page
    → max_encoded_page_bytes ≤ length scratch
    → length out ≡ page_bytes
    → (e : EncodedPage) × ((encode_page page scratch).1 ≡ ok e)
      × (length e.bytes ≤ max_encoded_page_bytes)
      × (decode_page e.bytes out ≡ (page, ok e.class))
decode_page-encode_page page scratch out paged room size =
    let (e, done, c) = encode_page-Encodes page scratch paged room in
    (e, done, length-Encodes e page c, decode_page-Encodes e page out c paged.sized size)
