-- ===== src/Compress/Codec/Encode.antt =====
-- What `encode_page` of kernel/src/mm/compress/codec.rs produces: the choice of a payload.
use hxnu.Base.{
  ℕ, ◌+◌, ◌≤◌, ◌≡◌, refl, ap, sym, ◌∙◌, inl, inr, List, [], ◌∷◌, ◌++◌, true, false, arith, length,
  length-append, length-take, length-drop, length-set, length-copy_at, take, drop, drop-append,
  slice, slice-set, slice-copy_at, copy_at, get_or, replicate, ltb, Bool-cases, Result, ok, err,
  ltb→lt, le→ltb_false, subst,
}
use hxnu.Compress.{
  CompressionClass, CompressionError, header_bytes, page_bytes, IsPage, max_encoded_page_bytes,
}
use hxnu.Compress.Checksum.{fnv1a32}
use hxnu.Compress.Header.{header}
use hxnu.Compress.Sxrc.Encoder.{encode_sxrc_payload}
use hxnu.Compress.Sxrc.Keeps.{encode_sxrc_payload-Keeps}
use hxnu.Compress.Sxrc.Tokens.{Spells}
use hxnu.Compress.Sxrc.Encode.{encode_sxrc_payload-Spells}
use hxnu.Compress.Codec.{
  EncodedPage, all_equal, is_zero_page, is_same_page, sxrc_or_raw, choose_class,
}

-- The payloads of each class for a page.
abbrev pub Coded : CompressionClass → List ℕ → List ℕ → Type 0
Coded CompressionClass.zero payload page = (payload ≡ []) × (page ≡ replicate page_bytes 0)
Coded CompressionClass.same payload page =
    (b : ℕ) × (payload ≡ b ∷ []) × (page ≡ replicate page_bytes b)
Coded CompressionClass.sxrc payload page = Spells payload page
Coded CompressionClass.raw payload page = payload ≡ page

-- An encoded page: the header of a payload, and that payload.
abbrev pub framed : CompressionClass → List ℕ → List ℕ
framed class payload =
    header (record { class = class; payload_len = length payload; checksum = fnv1a32 payload })
    ++ payload

pub record Encodes (e : EncodedPage) (page : List ℕ) : Type 0 where
  pub payload : List ℕ
  pub bytes : e.bytes ≡ framed e.class payload
  pub short : length payload ≤ page_bytes
  pub coded : Coded e.class payload page

all_equal-replicate : (b : ℕ) (xs : List ℕ) → all_equal b xs ≡ true → xs ≡ replicate (length xs) b
unfolding all_equal
all_equal-replicate b [] e = refl
all_equal-replicate b (x ∷ xs) e = ground (arith, all_equal-replicate b xs)

-- The scratch buffer with a payload of `n` bytes behind the header's place.
pub record Chosen (page scratch : List ℕ)
    (r : List ℕ × Result (CompressionClass × ℕ) CompressionError) : Type 0 where
  pub class : CompressionClass
  pub n : ℕ
  pub done : r.1 ≡ ok (class, n)
  pub short : n ≤ page_bytes
  pub fits : header_bytes + n ≤ length r.0
  pub sized : length r.0 ≡ length scratch
  pub coded : Coded class (slice r.0 header_bytes n) page

raw_copied :
    (page scratch : List ℕ)
    → IsPage page
    → header_bytes + page_bytes ≤ length scratch
    → Chosen page scratch (copy_at scratch header_bytes page, ok (CompressionClass.raw, page_bytes))
raw_copied page scratch paged room =
    let sized = length-copy_at header_bytes scratch page (omega (arith, paged.sized)) in
    record {
      class = CompressionClass.raw;
      n = page_bytes;
      done = refl;
      short = omega arith;
      fits = omega arith;
      sized = sized;
      coded =
          ap (slice (copy_at scratch header_bytes page) header_bytes) (sym paged.sized)
          ∙ slice-copy_at header_bytes scratch page (omega arith);
    }

Chosen-cast :
    {page s s' : List ℕ} {r : List ℕ × Result (CompressionClass × ℕ) CompressionError}
    → length s ≡ length s'
    → Chosen page s r
    → Chosen page s' r
Chosen-cast e c = record {
  class = c.class;
  n = c.n;
  done = c.done;
  short = c.short;
  fits = c.fits;
  sized = c.sized ∙ e;
  coded = c.coded;
}

-- The buffer behind the header's place after the encoder ran on it.
rejoined :
    (page scratch : List ℕ) (r : List ℕ × Result ℕ CompressionError)
    → header_bytes ≤ length scratch
    → encode_sxrc_payload page (drop header_bytes scratch) ≡ r
    → length (take header_bytes scratch ++ r.0) ≡ length scratch
rejoined page scratch r room e = omega (
  arith,
  sym (ap (λ q. length q.0) e),
  (encode_sxrc_payload-Keeps page (drop header_bytes scratch)).sized,
  length-append (take header_bytes scratch) r.0,
  length-take header_bytes scratch,
  length-drop header_bytes scratch,
)

raw_rejoined :
    (page scratch : List ℕ) (r : List ℕ × Result ℕ CompressionError)
    → IsPage page
    → header_bytes + page_bytes ≤ length scratch
    → encode_sxrc_payload page (drop header_bytes scratch) ≡ r
    → Chosen page scratch (
      copy_at (take header_bytes scratch ++ r.0) header_bytes page,
      ok (CompressionClass.raw, page_bytes),
    )
raw_rejoined page scratch r paged room e =
    let same = rejoined page scratch r (omega arith) e in
    Chosen-cast same
      (raw_copied page (take header_bytes scratch ++ r.0) paged (omega (arith, same, room)))

sxrc_or_raw-Chosen :
    (page scratch : List ℕ)
    → IsPage page
    → header_bytes + page_bytes ≤ length scratch
    → (r : List ℕ × Result ℕ CompressionError)
    → encode_sxrc_payload page (drop header_bytes scratch) ≡ r
    → Chosen page scratch (sxrc_or_raw page (take header_bytes scratch ++ r.0) r.1)
unfolding sxrc_or_raw
sxrc_or_raw-Chosen page scratch paged room (out, ok n) e = elim (Bool-cases (ltb n page_bytes)) [
  | inl small ↦
      let (spells, inside) =
        encode_sxrc_payload-Spells page (drop header_bytes scratch) out n paged e in
      let same = rejoined page scratch (out, ok n) (omega arith) e in
      let front : drop header_bytes (take header_bytes scratch ++ out) ≡ out =
        drop-append header_bytes (take header_bytes scratch) out
          (omega (arith, length-take header_bytes scratch)) in
      rw (small, sxrc_or_raw)
        (record {
          class = CompressionClass.sxrc;
          n = n;
          done = refl;
          short = omega (arith, ltb→lt n page_bytes small);
          fits = omega (
            arith,
            inside,
            length-append (take header_bytes scratch) out,
            length-take header_bytes scratch,
          );
          sized = same;
          coded = subst (λ l. Spells (take n l) page) (sym front) spells;
        })
  | inr large ↦ rw (large, sxrc_or_raw) (raw_rejoined page scratch (out, ok n) paged room e)
]
sxrc_or_raw-Chosen page scratch paged room (out, err CompressionError.output_too_small) e =
    raw_rejoined page scratch (out, err CompressionError.output_too_small) paged room e
sxrc_or_raw-Chosen page scratch paged room (out, err x) e = absurd (
    cc ((encode_sxrc_payload-Keeps page (drop header_bytes scratch)).one_error x (ap (λ q. q.1) e)))

pub choose_class-Chosen :
    (page scratch : List ℕ)
    → IsPage page
    → max_encoded_page_bytes ≤ length scratch
    → Chosen page scratch (choose_class page scratch)
unfolding choose_class
choose_class-Chosen page scratch paged room = elim (Bool-cases (is_zero_page page)) [
  | inl zeros ↦
      rw (zeros, choose_class)
        (record {
          class = CompressionClass.zero;
          n = 0;
          done = refl;
          short = omega arith;
          fits = omega arith;
          sized = refl;
          coded = (refl, all_equal-replicate 0 page zeros ∙ ap (λ n. replicate n 0) paged.sized);
        })
  | inr mixed ↦ elim (Bool-cases (is_same_page page)) [
    | inl same ↦
        let b = get_or page 0 0 in
        let large : ltb (length scratch) (header_bytes + 1) ≡ false =
          le→ltb_false (length scratch) (header_bytes + 1) (omega arith) in
        rw (mixed, same, large, choose_class)
          (record {
            class = CompressionClass.same;
            n = 1;
            done = refl;
            short = omega arith;
            fits = omega (arith, length-set scratch header_bytes b);
            sized = length-set scratch header_bytes b;
            coded = (
              b,
              slice-set scratch header_bytes b (omega arith),
              all_equal-replicate b page same ∙ ap (λ n. replicate n b) paged.sized,
            );
          })
    | inr varied ↦
        let large : ltb (length scratch) (header_bytes + page_bytes) ≡ false =
          le→ltb_false (length scratch) (header_bytes + page_bytes) (omega arith) in
        rw (mixed, varied, large, choose_class)
          (sxrc_or_raw-Chosen page scratch paged (omega arith) _ refl)
  ]
]
