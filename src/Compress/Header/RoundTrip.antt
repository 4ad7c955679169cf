-- ===== src/Compress/Header/RoundTrip.antt =====
-- The header that `encode_into` writes is the one that `decode` reads.
use hxnu.Base.{ℕ, ◌^◌, ◌≤◌, ◌<◌, ◌≡◌, refl, List, ◌∷◌, ◌++◌, arith, ok, drop, length, le→ltb_false}
use hxnu.Compress.{CompressionClass, header_bytes}
use hxnu.Compress.Header.{EncodedHeader, write_fields, encode_into, decode, header}

-- A list of sixteen or more elements, taken apart.
write_fields-eq :
    (h : EncodedHeader) (out : List ℕ)
    → header_bytes ≤ length out
    → write_fields h out ≡ header h ++ drop header_bytes out
unfolding write_fields
write_fields-eq h
      (x0 ∷ x1 ∷ x2 ∷ x3 ∷ x4 ∷ x5 ∷ x6 ∷ x7 ∷ x8 ∷ x9 ∷ x10 ∷ x11 ∷ x12 ∷ x13 ∷ x14 ∷ x15 ∷ out)
      k =
    refl
write_fields-eq h out k = absurd (omega arith)

pub encode_into-eq :
    (h : EncodedHeader) (out : List ℕ)
    → header_bytes ≤ length out
    → encode_into h out ≡ (header h ++ drop header_bytes out, ok tt)
unfolding encode_into
encode_into-eq h out k = rw (le→ltb_false (length out) header_bytes k, write_fields-eq h out k) refl

-- Whatever bytes follow it, `decode` reads back a header whose length fits 16 bits and whose
-- checksum fits 32.
pub decode-header :
    (h : EncodedHeader) (rest : List ℕ)
    → h.payload_len < 2 ^ 16
    → h.checksum < 2 ^ 32
    → decode (header h ++ rest) ≡ ok h
unfolding decode
decode-header h rest p c = go h.class h.payload_len h.checksum p c
  where
    go :
        (k : CompressionClass) (n s : ℕ)
        → n < 2 ^ 16
        → s < 2 ^ 32
        → decode (header (record { class = k; payload_len = n; checksum = s }) ++ rest)
          ≡ ok (record { class = k; payload_len = n; checksum = s })
    go CompressionClass.zero n s a b = ground arith
    go CompressionClass.same n s a b = ground arith
    go CompressionClass.sxrc n s a b = ground arith
    go CompressionClass.raw n s a b = ground arith
