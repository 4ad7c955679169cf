-- ===== src/Compress/Codec/Decode.antt =====
-- `decode_page` of kernel/src/mm/compress/codec.rs on what `encode_page` produces.
use hxnu.Base.{
  ℕ, ◌+◌, ◌≤◌, ◌≡◌, ap, sym, ◌∙◌, List, ◌++◌, true, false, arith, length, take_all, drop_all, slice,
  append-nil, ok, le→ltb_false, eq→==, ◌==◌, u64_max, ltb,
}
use hxnu.Compress.{CompressionClass, header_bytes, page_bytes}
use hxnu.Compress.Checksum.{fnv1a32, fnv1a32-lt}
use hxnu.Compress.Header.{EncodedHeader, decode}
use hxnu.Compress.Header.RoundTrip.{decode-header}
use hxnu.Compress.Sxrc.Decode.{decode_sxrc_payload-Spells}
use hxnu.Compress.Codec.{EncodedPage, decode_class, decode_body, decode_page, decoded_as}
use hxnu.Compress.Codec.Encode.{Coded, framed, Encodes}

-- The match on the class gives back the page.
decode_class-Coded :
    (class : CompressionClass) (payload page out : List ℕ)
    → Coded class payload page
    → length payload ≤ page_bytes
    → length page ≡ page_bytes
    → length out ≡ page_bytes
    → decode_class class payload out ≡ (page, ok tt)
unfolding decode_class
decode_class-Coded CompressionClass.zero payload page out (empty, zeros) short paged size =
    rw (empty, size, decode_class) (ap (λ l. (l, ok tt)) (sym zeros))
decode_class-Coded CompressionClass.same payload page out (b, one, same) short paged size =
    rw (one, size, decode_class) (ap (λ l. (l, ok tt)) (sym same))
decode_class-Coded CompressionClass.raw payload page out whole short paged size =
    rw (whole, eq→== (length page) page_bytes paged, decode_class)
      (ap (λ l. (l, ok tt))
        (ap (λ l. page ++ l) (drop_all (0 + length page) out (omega arith)) ∙ append-nil page))
decode_class-Coded CompressionClass.sxrc payload page out spells short paged size =
    decode_sxrc_payload-Spells payload out page (omega arith) size paged spells

-- The page and the class of a framed payload.
decode_page-framed :
    (class : CompressionClass) (payload page out : List ℕ)
    → Coded class payload page
    → length payload ≤ page_bytes
    → length page ≡ page_bytes
    → length out ≡ page_bytes
    → decode_page (framed class payload) out ≡ (page, ok class)
unfolding decode_page decode_body
decode_page-framed class payload page out coded short paged size =
    let h : EncodedHeader = record {
      class = class;
      payload_len = length payload;
      checksum = fnv1a32 payload;
    } in
    let read : decode (framed class payload) ≡ ok h =
      decode-header h payload (omega arith) (fnv1a32-lt payload) in
    let behind : slice (framed class payload) header_bytes (length payload) ≡ payload =
      take_all (length payload) payload (omega arith) in
    let small : ltb u64_max (header_bytes + length payload) ≡ false =
      le→ltb_false u64_max (header_bytes + length payload) (omega arith) in
    let sized : (length (framed class payload) == header_bytes + length payload) ≡ true =
      eq→== (length (framed class payload)) (header_bytes + length payload) (omega arith) in
    let sum : (fnv1a32 (slice (framed class payload) header_bytes (length payload))
          == fnv1a32 payload)
        ≡ true =
      eq→== _ _ (ap fnv1a32 behind) in
    rw (read, small, sized, sum, decode_page, decode_body)
      (ap (λ p. decoded_as class (decode_class class p out)) behind
        ∙ ap (decoded_as class) (decode_class-Coded class payload page out coded short paged size))

-- `decode_page` gives back the page and the class of whatever encodes it, on any page buffer.
pub decode_page-Encodes :
    (e : EncodedPage) (page out : List ℕ)
    → Encodes e page
    → length page ≡ page_bytes
    → length out ≡ page_bytes
    → decode_page e.bytes out ≡ (page, ok e.class)
decode_page-Encodes e page out c paged size =
    rw c.bytes (decode_page-framed e.class c.payload page out c.coded c.short paged size)
