-- ===== src/Compress/Sxrc/Emit.antt =====
-- The two writers of tokens in kernel/src/mm/compress/codec.rs.
use hxnu.Base.{
  ℕ, zero, suc, ◌+◌, ◌-◌, ◌≤◌, ◌<◌, ◌≡◌, refl, ap, ◌∙◌, List, [], ◌∷◌, ◌++◌, append_assoc, arith,
  length, length-set, length-copy_at, take-set, take-copy_at, take, set, copy_at, u16_bytes, min,
  sat_add, ok, err, ends_past, Bool-cases, inl, inr, lt→ltb, take_all, le→ltb_false, if◌then◌else◌,
}
use hxnu.Compress.{CompressionError}
use hxnu.Compress.Sxrc.Buffer.{token_literal, token_ref_bytes}
use hxnu.Compress.Sxrc.Encoder.{emit_chunks, emit_literal_run, emit_ref_token}

-- The buffer in front of `write` gains `bytes`, and keeps its size.
pub record Emits (out : List ℕ) (write : ℕ) (bytes : List ℕ) (out' : List ℕ) (write' : ℕ)
    : Type 0 where
  pub front : take write' out' ≡ take write out ++ bytes
  pub room : write' ≤ length out'
  pub sized : length out' ≡ length out
  pub moved : write' ≡ write + length bytes

emit_chunks_end :
    (fuel : ℕ) (bytes : List ℕ) (offset write : ℕ) (out : List ℕ)
    → offset ≡ length bytes
    → emit_chunks fuel bytes offset write out ≡ (out, ok write)
unfolding emit_chunks
emit_chunks_end zero bytes offset write out e = refl
emit_chunks_end (suc fuel) bytes offset write out e =
    rw (le→ltb_false offset (length bytes) (omega arith), emit_chunks) refl

-- The buffer after one chunk that holds all of `bytes`.
abbrev chunk_written : List ℕ → ℕ → List ℕ → List ℕ
chunk_written out write bytes =
    copy_at (set (set out write token_literal) (write + 1) (length bytes)) (write + 2) bytes

-- A run of 1 to 255 bytes is one chunk.
emit_one_chunk :
    (fuel : ℕ) (bytes : List ℕ) (write : ℕ) (out : List ℕ)
    → 0 < length bytes
    → length bytes ≤ 255
    → emit_chunks (suc fuel) bytes 0 write out ≡ (
        if ends_past write (length bytes + 2) (length out)
        then (out, err CompressionError.output_too_small)
        else (chunk_written out write bytes, ok (write + (length bytes + 2))))
unfolding emit_chunks
emit_one_chunk fuel bytes write out some_bytes few =
    let whole : min (length bytes - 0) 255 ≡ length bytes = omega arith in
    let needed : sat_add 2 (length bytes) ≡ length bytes + 2 = omega arith in
    elim (Bool-cases (ends_past write (length bytes + 2) (length out))) [
      | inl past ↦ rw (lt→ltb 0 (length bytes) some_bytes, whole, needed, past, emit_chunks) refl
      | inr room ↦
          let moved : sat_add write (length bytes + 2) ≡ write + (length bytes + 2) =
            ground arith in
          rw
            (
              lt→ltb 0 (length bytes) some_bytes,
              whole,
              needed,
              room,
              moved,
              take_all (length bytes) bytes (omega arith),
              emit_chunks,
            )
            (emit_chunks_end fuel bytes (sat_add 0 (length bytes)) (write + (length bytes + 2))
              (chunk_written out write bytes) (omega arith))
    ]

two_in_front :
    (front : List ℕ) (a b : ℕ) (bytes : List ℕ)
    → (front ++ (a ∷ [])) ++ (b ∷ []) ++ bytes ≡ front ++ (a ∷ b ∷ bytes)
two_in_front front a b bytes =
    append_assoc (front ++ (a ∷ [])) (b ∷ []) bytes ∙ append_assoc front (a ∷ []) (b ∷ bytes)

-- A byte, then another, then a run, written one after the other.
tagged_write :
    (out : List ℕ) (write a b : ℕ) (bytes : List ℕ)
    → write + (length bytes + 2) ≤ length out
    → Emits out write
        (a ∷ b ∷ bytes)
        (copy_at (set (set out write a) (write + 1) b) (write + 2) bytes)
        (write + (length bytes + 2))
tagged_write out write a b bytes room =
    let o1 = set out write a in
    let o2 = set o1 (write + 1) b in
    let s1 = length-set out write a in
    let s2 = length-set o1 (write + 1) b in
    let sized = length-copy_at (write + 2) o2 bytes (omega arith) in
    record {
      front =
          take-copy_at (write + 2) (write + (length bytes + 2)) o2 bytes (omega arith) (omega arith)
          ∙ ap (λ l. l ++ bytes)
              (take-set (write + 1) (write + 2) o1 b (omega arith) (omega arith)
                ∙ ap (λ l. l ++ (b ∷ [])) (take-set write (write + 1) out a refl (omega arith)))
          ∙ two_in_front (take write out) a b bytes;
      room = omega arith;
      sized = omega arith;
      moved = omega arith;
    }

-- A run of 1 to 255 bytes that was emitted stands behind its tag and its length.
pub emit_literal_run-Emits :
    (out : List ℕ) (write : ℕ) (bytes : List ℕ) (out' : List ℕ) (write' : ℕ)
    → 0 < length bytes
    → length bytes ≤ 255
    → emit_literal_run write bytes out ≡ (out', ok write')
    → Emits out write (token_literal ∷ length bytes ∷ bytes) out' write'
unfolding emit_literal_run
emit_literal_run-Emits out write [] out' write' some_bytes few e = absurd (omega arith)
emit_literal_run-Emits out write (b ∷ bs) out' write' some_bytes few e =
    let run : List ℕ = b ∷ bs in
    let once = emit_one_chunk (length bs) run write out some_bytes few in
    elim (Bool-cases (ends_past write (length run + 2) (length out))) [
      | inl past ↦ absurd (ground arith)
      | inr room ↦
          let shape : out' ≡ chunk_written out write run = ground arith in
          let moved : write' ≡ write + (length run + 2) = ground arith in
          rw (shape, moved) (tagged_write out write token_literal (length run) run (ground arith))
    ]

-- A reference is three bytes.
pub emit_ref_token-Emits :
    (out : List ℕ) (write tag id : ℕ) (out' : List ℕ) (write' : ℕ)
    → emit_ref_token write tag id out ≡ (out', ok write')
    → Emits out write (tag ∷ u16_bytes id) out' write'
unfolding emit_ref_token
emit_ref_token-Emits out write tag id out' write' e =
    elim (Bool-cases (ends_past write token_ref_bytes (length out))) [
      | inl past ↦ absurd (ground arith)
      | inr room ↦
          let shape : out' ≡ copy_at (set out write tag) (write + 1) (u16_bytes id) =
            ground arith in
          let moved : write' ≡ write + 3 = ground arith in
          let fits : write + 3 ≤ length out = ground arith in
          let s1 = length-set out write tag in
          let sized = length-copy_at (write + 1) (set out write tag) (u16_bytes id) (omega arith) in
          rw (shape, moved)
            (record {
              front =
                  take-copy_at (write + 1) (write + 3) (set out write tag) (u16_bytes id)
                    (omega arith) (omega arith)
                  ∙ ap (λ l. l ++ u16_bytes id)
                      (take-set write (write + 1) out tag refl (omega arith))
                  ∙ append_assoc (take write out) (tag ∷ []) (u16_bytes id);
              room = omega arith;
              sized = omega arith;
              moved = omega arith;
            })
    ]
