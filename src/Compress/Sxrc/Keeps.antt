-- ===== src/Compress/Sxrc/Keeps.antt =====
-- The encoder of kernel/src/mm/compress/codec.rs never changes the size of the buffer, and has one error.
use hxnu.Base.{
  ℕ, zero, suc, ◌+◌, ◌-◌, ◌≤◌, ◌≡◌, refl, ◌∙◌, List, arith, length, length-set, length-copy_at,
  length-take, set, copy_at, slice, drop, min, sat_add, ok, err, ltb, ends_past, Bool-cases, Result,
  Result-cases, Option-cases, inl, inr, ◌==◌, u16_bytes,
}
use hxnu.Compress.{CompressionError, page_bytes}
use hxnu.Compress.Sxrc.Buffer.{Write, ◌>>=◌, return, token_literal, token_ref_bytes}
use hxnu.Compress.Sxrc.Tables.{EncodeToken, dictionary, pattern, pick_token}
use hxnu.Compress.Sxrc.Encoder.{
  Encoder, emit_chunks, emit_literal_run, emit_ref_token, emit_token, flush, extend_literal,
  encode_round, encode_loop, encode_sxrc_payload,
}

-- What holds of the outcome of a step on the buffer `out`.
pub record KeepsOf (A : Type 0) (out : List ℕ) (r : List ℕ × Result A CompressionError)
    : Type 0 where
  pub sized : length r.0 ≡ length out
  pub one_error : (e : CompressionError) → r.1 ≡ err e → e ≡ CompressionError.output_too_small

abbrev pub Keeps : {A : Type 0} → Write A → Type 0
Keeps {A} m = (out : List ℕ) → KeepsOf A out (m out)

KeepsOf-ok :
    {A : Type 0} (a : A) (out out' : List ℕ) → length out' ≡ length out → KeepsOf A out (out', ok a)
KeepsOf-ok a out out' s = record { sized = s; one_error = λ e h. cc }

KeepsOf-too-small :
    {A : Type 0} (out : List ℕ) → KeepsOf A out (out, err CompressionError.output_too_small)
KeepsOf-too-small out = record { sized = refl; one_error = λ e h. ground arith }

return-Keeps : {A : Type 0} (a : A) → Keeps (return a)
return-Keeps a out = KeepsOf-ok a out out refl

>>=-Keeps :
    {A B : Type 0} (m : Write A) (f : A → Write B)
    → Keeps m
    → ((a : A) → Keeps (f a))
    → Keeps (m >>= f)
>>=-Keeps {A} {B} m f km kf out = elim (Result-cases (m out).1) [
  | inl (a, e) ↦
      let k = kf a (m out).0 in
      rw (e, ◌>>=◌) (record { sized = k.sized ∙ (km out).sized; one_error = k.one_error })
  | inr (y, e) ↦
      let small = (km out).one_error y e in
      rw (e, ◌>>=◌) (record { sized = (km out).sized; one_error = λ x h. ground arith })
]

emit_chunks-Keeps :
    (fuel : ℕ) (bytes : List ℕ) (offset write : ℕ) → Keeps (emit_chunks fuel bytes offset write)
unfolding emit_chunks
emit_chunks-Keeps zero bytes offset write out = return-Keeps write out
emit_chunks-Keeps (suc fuel) bytes offset write out =
    let chunk = min (length bytes - offset) 255 in
    let needed = sat_add 2 chunk in
    let o1 = set out write token_literal in
    let o2 = set o1 (write + 1) chunk in
    let o3 = copy_at o2 (write + 2) (slice bytes offset chunk) in
    elim (Bool-cases (ltb offset (length bytes))) [
      | inr done ↦ rw (done, emit_chunks) (return-Keeps write out)
      | inl more ↦ elim (Bool-cases (ends_past write needed (length out))) [
        | inl past ↦ rw (more, past, emit_chunks) (KeepsOf-too-small out)
        | inr room ↦
            let ih =
              emit_chunks-Keeps fuel bytes (sat_add offset chunk) (sat_add write needed) o3 in
            let fits : write + 2 + length (slice bytes offset chunk) ≤ length o2 = ground (
              arith,
              length-set out write token_literal,
              length-set o1 (write + 1) chunk,
              length-take chunk (drop offset bytes),
            ) in
            let sized : length o3 ≡ length out =
              length-copy_at (write + 2) o2 (slice bytes offset chunk) fits
              ∙ length-set o1 (write + 1) chunk
              ∙ length-set out write token_literal in
            rw (more, room, emit_chunks)
              (record { sized = ih.sized ∙ sized; one_error = ih.one_error })
      ]
    ]

emit_literal_run-Keeps : (write : ℕ) (bytes : List ℕ) → Keeps (emit_literal_run write bytes)
unfolding emit_literal_run
emit_literal_run-Keeps write bytes = emit_chunks-Keeps (length bytes) bytes 0 write

emit_ref_token-Keeps : (write tag id : ℕ) → Keeps (emit_ref_token write tag id)
unfolding emit_ref_token
emit_ref_token-Keeps write tag id out =
    elim (Bool-cases (ends_past write token_ref_bytes (length out))) [
      | inl past ↦ rw (past, emit_ref_token) (KeepsOf-too-small out)
      | inr room ↦
          rw (room, emit_ref_token)
            (KeepsOf-ok _ out _ (
              length-copy_at (write + 1) (set out write tag) (u16_bytes id)
                (ground (arith, length-set out write tag))
              ∙ length-set out write tag))
    ]

emit_token-Keeps : (write : ℕ) (t : EncodeToken) → Keeps (emit_token write t)
emit_token-Keeps write (dictionary id n) = emit_ref_token-Keeps write _ id
emit_token-Keeps write (pattern id n) = emit_ref_token-Keeps write _ id

flush-Keeps : (page : List ℕ) (s : Encoder) → Keeps (flush page s)
unfolding flush
flush-Keeps page s out = elim (Bool-cases (ltb 0 s.literal_len)) [
  | inl some_bytes ↦ rw (some_bytes, flush) (emit_literal_run-Keeps s.write _ out)
  | inr no_bytes ↦ rw (no_bytes, flush) (return-Keeps s.write out)
]

extend_literal-Keeps : (page : List ℕ) (s : Encoder) → Keeps (extend_literal page s)
unfolding extend_literal
extend_literal-Keeps page s out = elim (Bool-cases (sat_add s.literal_len 1 == 255)) [
  | inl full ↦
      rw (full, extend_literal)
        (>>=-Keeps _ _ (emit_literal_run-Keeps s.write _) (λ w. return-Keeps _) out)
  | inr short ↦ rw (short, extend_literal) (return-Keeps _ out)
]

encode_round-Keeps : (page : List ℕ) (s : Encoder) → Keeps (encode_round page s)
unfolding encode_round
encode_round-Keeps page s out = elim (Option-cases (pick_token page s.read)) [
  | inl nothing ↦ rw (nothing, encode_round) (extend_literal-Keeps page s out)
  | inr (t, found) ↦
      rw (found, encode_round)
        (>>=-Keeps _ _ (flush-Keeps page s)
          (λ w. >>=-Keeps _ _ (emit_token-Keeps w t) (λ w'. return-Keeps _)) out)
]

encode_loop-Keeps : (fuel : ℕ) (page : List ℕ) (s : Encoder) → Keeps (encode_loop fuel page s)
unfolding encode_loop
encode_loop-Keeps zero page s out = flush-Keeps page s out
encode_loop-Keeps (suc fuel) page s out = elim (Bool-cases (ltb s.read page_bytes)) [
  | inl more ↦
      rw (more, encode_loop)
        (>>=-Keeps (encode_round page s) (encode_loop fuel page) (encode_round-Keeps page s)
          (encode_loop-Keeps fuel page) out)
  | inr done ↦ rw (done, encode_loop) (flush-Keeps page s out)
]

pub encode_sxrc_payload-Keeps : (page : List ℕ) → Keeps (encode_sxrc_payload page)
unfolding encode_sxrc_payload
encode_sxrc_payload-Keeps page = encode_loop-Keeps page_bytes page _
