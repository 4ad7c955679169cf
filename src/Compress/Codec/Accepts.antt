-- ===== src/Compress/Codec/Accepts.antt =====
-- What `decode_page` of kernel/src/mm/compress/codec.rs accepts.
use hxnu.Base.{
  ℕ, zero, suc, ◌+◌, ◌≤◌, ◌≡◌, refl, ap, sym, ◌∙◌, inl, inr, List, [], ◌∷◌, ◌++◌, arith, All,
  All-drop, length, append-nil, drop_all, take, drop, slice, copy_at, get_or, Result, Result-cases,
  ok, err, ◌==◌, ==→eq, ltb, Bool-cases, u64_max, subst, length-take, length-drop,
}
use hxnu.Compress.{CompressionClass, CompressionError, IsByte, header_bytes, page_bytes}
use hxnu.Compress.Checksum.{fnv1a32}
use hxnu.Compress.Header.{EncodedHeader, decode}
use hxnu.Compress.Sxrc.Decode.{decode_sxrc_payload_iff}
use hxnu.Compress.Codec.{decode_class, decode_body, decode_page, decoded_as}
use hxnu.Compress.Codec.Encode.{Coded}

no_bytes : (xs : List ℕ) → length xs ≡ 0 → xs ≡ []
no_bytes [] e = refl
no_bytes (x ∷ xs) e = absurd (omega arith)

one_byte : (xs : List ℕ) → length xs ≡ 1 → xs ≡ get_or xs 0 0 ∷ []
one_byte [] e = absurd (omega arith)
one_byte (x ∷ xs) e = ap (◌∷◌ x) (no_bytes xs (omega arith))

decode_class_inverse :
    (class : CompressionClass) (payload page out : List ℕ)
    → All IsByte payload
    → length payload ≤ u64_max
    → length out ≡ page_bytes
    → length page ≡ page_bytes
    → decode_class class payload out ≡ (page, ok tt)
    → Coded class payload page
unfolding decode_class
decode_class_inverse CompressionClass.zero payload page out bytes short size paged e =
    elim (Bool-cases (length payload == 0)) [
      | inl empty ↦ (no_bytes payload (==→eq (length payload) 0 empty), ground arith)
      | inr more ↦ absurd (ground arith)
    ]
decode_class_inverse CompressionClass.same payload page out bytes short size paged e =
    elim (Bool-cases (length payload == 1)) [
      | inl one ↦
          (get_or payload 0 0, one_byte payload (==→eq (length payload) 1 one), ground arith)
      | inr more ↦ absurd (ground arith)
    ]
decode_class_inverse CompressionClass.raw payload page out bytes short size paged e =
    elim (Bool-cases (length payload == page_bytes)) [
      | inl whole ↦
          let full : length payload ≡ page_bytes = ==→eq (length payload) page_bytes whole in
          let copied : copy_at out 0 payload ≡ payload =
            ap (λ l. payload ++ l) (drop_all (0 + length payload) out (omega arith))
            ∙ append-nil payload in
          sym copied ∙ ground arith
      | inr other ↦ absurd (ground arith)
    ]
decode_class_inverse CompressionClass.sxrc payload page out bytes short size paged e =
    (decode_sxrc_payload_iff payload short bytes out page size paged).0 e

All-take : (n : ℕ) (xs : List ℕ) → All IsByte xs → All IsByte (take n xs)
All-take zero xs h = tt
All-take (suc n) [] h = tt
All-take (suc n) (x ∷ xs) h = (h.0, All-take n xs h.1)

decoded_as-ok :
    (class k : CompressionClass) (r : List ℕ × Result (Unit {0}) CompressionError) (page : List ℕ)
    → decoded_as class r ≡ (page, ok k)
    → (r ≡ (page, ok tt)) × (class ≡ k)
decoded_as-ok class k (out, ok _) page e = (ground arith, ground arith)
decoded_as-ok class k (out, err x) page e = absurd (ground arith)

-- What `decode_page` checks and gives back, once the header is read.
record Checked (h : EncodedHeader) (encoded page : List ℕ) (class : CompressionClass) : Type 0 where
  named : h.class ≡ class
  sized : length encoded ≡ header_bytes + h.payload_len
  sum : fnv1a32 (slice encoded header_bytes h.payload_len) ≡ h.checksum
  coded : Coded class (slice encoded header_bytes h.payload_len) page

decode_body-Checked :
    (h : EncodedHeader) (encoded page out : List ℕ) (class : CompressionClass)
    → All IsByte encoded
    → length encoded ≤ u64_max
    → length out ≡ page_bytes
    → length page ≡ page_bytes
    → decode_body h encoded out ≡ (page, ok class)
    → Checked h encoded page class
unfolding decode_body
decode_body-Checked h encoded page out class bytes short size paged e =
    let payload = slice encoded header_bytes h.payload_len in
    elim (Bool-cases (ltb u64_max (header_bytes + h.payload_len))) [
      | inl past ↦ absurd (ground arith)
      | inr inside ↦ elim (Bool-cases (length encoded == header_bytes + h.payload_len)) [
        | inr other ↦ absurd (ground arith)
        | inl sized ↦ elim (Bool-cases (fnv1a32 payload == h.checksum)) [
          | inr other ↦ absurd (ground arith)
          | inl sum ↦
              let (done, named) =
                decoded_as-ok h.class class (decode_class h.class payload out) page
                  (ground arith) in
              record {
                named = named;
                sized = ==→eq (length encoded) (header_bytes + h.payload_len) sized;
                sum = ==→eq (fnv1a32 payload) h.checksum sum;
                coded =
                    subst (λ k. Coded k payload page) named
                      (decode_class_inverse h.class payload page out
                        (All-take h.payload_len (drop header_bytes encoded)
                          (All-drop IsByte header_bytes encoded bytes))
                        (omega (
                          arith,
                          length-take h.payload_len (drop header_bytes encoded),
                          length-drop header_bytes encoded,
                        ))
                        size paged done);
              }
        ]
      ]
    ]

-- From whatever bytes `decode_page` accepts with a page and a class, over a page buffer, a header
-- is read that names the class; behind it stands a payload of just the length and the checksum in
-- the header, and that payload is a code of the page in this class.
pub decode_page_accepts :
    (encoded page out : List ℕ) (class : CompressionClass)
    → All IsByte encoded
    → length encoded ≤ u64_max
    → length out ≡ page_bytes
    → length page ≡ page_bytes
    → decode_page encoded out ≡ (page, ok class)
    → (h : EncodedHeader) × (decode encoded ≡ ok h)
      × (h.class ≡ class)
      × (length encoded ≡ header_bytes + h.payload_len)
      × (fnv1a32 (slice encoded header_bytes h.payload_len) ≡ h.checksum)
      × Coded class (slice encoded header_bytes h.payload_len) page
unfolding decode_page
decode_page_accepts encoded page out class bytes short size paged e =
    elim (Result-cases (decode encoded)) [
      | inl (h, read) ↦
          let c =
            decode_body-Checked h encoded page out class bytes short size paged
              (rw (read, decode_page) at e) in
          (h, read, c.named, c.sized, c.sum, c.coded)
      | inr (x, failed) ↦ absurd (ground arith)
    ]
