-- ===== src/Compress/Codec/Success.antt =====
-- `encode_page` of kernel/src/mm/compress/codec.rs writes the header of its payload, and succeeds.
use hxnu.Base.{
  ℕ, ◌+◌, ◌%◌, ◌^◌, ◌≤◌, ◌≡◌, refl, ap, ◌∙◌, List, ◌++◌, false, arith, length, length-take,
  length-drop, take-append_more, drop, slice, ltb, ok, le→ltb_false, u64_max,
}
use hxnu.Compress.{CompressionClass, header_bytes, page_bytes, IsPage, max_encoded_page_bytes}
use hxnu.Compress.Checksum.{fnv1a32}
use hxnu.Compress.Header.{EncodedHeader, encode_into, header}
use hxnu.Compress.Header.RoundTrip.{encode_into-eq}
use hxnu.Compress.Codec.{EncodedPage, choose_class, header_of, finish, sealed, encode_page}
use hxnu.Compress.Codec.Encode.{framed, Encodes, choose_class-Chosen}

-- The header of a payload that fits is written in front of it.
finish-framed :
    (class : CompressionClass) (n : ℕ) (scratch : List ℕ)
    → n ≤ page_bytes
    → header_bytes + n ≤ length scratch
    → (finish class n scratch).1
      ≡ ok (record { class = class; bytes = framed class (slice scratch header_bytes n) })
unfolding finish
finish-framed class n scratch short fits =
    let size : length (slice scratch header_bytes n) ≡ n =
      omega (arith, length-take n (drop header_bytes scratch), length-drop header_bytes scratch) in
    let words : n % 2 ^ 16 ≡ n = omega arith in
    let small : ltb u64_max (header_bytes + n) ≡ false =
      le→ltb_false u64_max (header_bytes + n) (omega arith) in
    let h : EncodedHeader = record {
      class = class;
      payload_len = n;
      checksum = fnv1a32 (slice scratch header_bytes n);
    } in
    let written : encode_into (header_of class n scratch) scratch
        ≡ (header h ++ drop header_bytes scratch, ok tt) =
      ap
        (λ m.
          encode_into
            (record {
              class = class;
              payload_len = m;
              checksum = fnv1a32 (slice scratch header_bytes n);
            })
            scratch)
        words
      ∙ encode_into-eq h scratch (omega arith) in
    rw (small, size, finish)
      (ap (λ w. (sealed class n w).1) written
        ∙ ap (λ l. ok (record { class = class; bytes = l }))
            (take-append_more (header_bytes + n) n (header h) (drop header_bytes scratch)
              (omega arith)))

-- With room for the largest encoding, `encode_page` succeeds on every page, and its result is the
-- header of a payload of at most a page and that payload, a code of the page in the class that the
-- header names.
pub encode_page-Encodes :
    (page scratch : List ℕ)
    → IsPage page
    → max_encoded_page_bytes ≤ length scratch
    → (e : EncodedPage) × ((encode_page page scratch).1 ≡ ok e) × Encodes e page
unfolding encode_page
encode_page-Encodes page scratch paged room =
    let c = choose_class-Chosen page scratch paged room in
    let large : ltb (length scratch) header_bytes ≡ false =
      le→ltb_false (length scratch) header_bytes (omega arith) in
    let payload = slice (choose_class page scratch).0 header_bytes c.n in
    (
      record { class = c.class; bytes = framed c.class payload },
      rw (large, c.done, encode_page)
          (finish-framed c.class c.n (choose_class page scratch).0 c.short c.fits),
      record {
        payload = payload;
        bytes = refl;
        short =
            omega
              (arith, length-take c.n (drop header_bytes (choose_class page scratch).0), c.short);
        coded = c.coded;
      },
    )
