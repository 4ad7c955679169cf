-- ===== src/Compress/Sxrc/Encoder.antt =====
-- `encode_sxrc_payload` of kernel/src/mm/compress/codec.rs.
use hxnu.Base.{
  ℕ, zero, suc, ◌+◌, ◌-◌, none, some, not, List, ok, err, ltb, ◌==◌, if◌then◌else◌, sat_add,
  ends_past, min, set, copy_at, slice, length, u16_bytes,
}
use hxnu.Compress.{CompressionError, page_bytes}
use hxnu.Compress.Sxrc.Buffer.{
  Write, ◌>>=◌, return, token_literal, token_dict, token_pattern, token_ref_bytes,
}
use hxnu.Compress.Sxrc.Tables.{EncodeToken, dictionary, pattern, pick_token}

-- The loop of `emit_literal_run`, one round for each chunk of at most 255 bytes.
unfoldable pub emit_chunks : ℕ → List ℕ → ℕ → ℕ → Write ℕ
emit_chunks zero bytes offset write out = (out, ok write)
emit_chunks (suc fuel) bytes offset write out =
    let chunk = min (length bytes - offset) 255 in
    let needed = sat_add 2 chunk in
    let rest = emit_chunks fuel bytes (sat_add offset chunk) (sat_add write needed) in
    if not (ltb offset (length bytes))
    then (out, ok write)
    else if ends_past write needed (length out)
    then (out, err CompressionError.output_too_small)
    else rest (
        copy_at (set (set out write token_literal) (write + 1) chunk) (write + 2)
          (slice bytes offset chunk))

unfoldable pub emit_literal_run : ℕ → List ℕ → Write ℕ
emit_literal_run write bytes = emit_chunks (length bytes) bytes 0 write

unfoldable pub emit_ref_token : ℕ → ℕ → ℕ → Write ℕ
emit_ref_token write tag id out =
    if ends_past write token_ref_bytes (length out)
    then (out, err CompressionError.output_too_small)
    else (copy_at (set out write tag) (write + 1) (u16_bytes id), ok (write + token_ref_bytes))

-- The local variables of `encode_sxrc_payload`.
pub record Encoder : Type 0 where
  pub read : ℕ
  pub write : ℕ
  pub literal_start : ℕ
  pub literal_len : ℕ

-- `if literal_len > 0 { write = emit_literal_run(..)? }`
unfoldable pub flush : List ℕ → Encoder → Write ℕ
flush page s =
    if ltb 0 s.literal_len
    then emit_literal_run s.write (slice page s.literal_start s.literal_len)
    else return s.write

abbrev pub emit_token : ℕ → EncodeToken → Write ℕ
emit_token write (dictionary id decoded_len) = emit_ref_token write token_dict id
emit_token write (pattern id decoded_len) = emit_ref_token write token_pattern id

abbrev pub decoded_len : EncodeToken → ℕ
decoded_len (dictionary id n) = n
decoded_len (pattern id n) = n

-- The state with one more byte in the literal run.
abbrev pub longer : Encoder → Encoder
longer s = record s {
  literal_start = if s.literal_len == 0 then s.read else s.literal_start;
  literal_len = sat_add s.literal_len 1;
  read = sat_add s.read 1;
}

abbrev pub run_written : Encoder → ℕ → Write Encoder
run_written s write = return (record s { write = write; literal_len = 0 })

-- No token fits: the byte joins the literal run, which is written out at 255 bytes.
unfoldable pub extend_literal : List ℕ → Encoder → Write Encoder
extend_literal page s =
    if (longer s).literal_len == 255
    then (emit_literal_run s.write (slice page (longer s).literal_start (longer s).literal_len)
        >>= run_written (longer s))
    else return (longer s)

abbrev pub token_written : Encoder → EncodeToken → ℕ → Write Encoder
token_written s token write =
    return (record s { read = sat_add s.read (decoded_len token); write = write; literal_len = 0 })

abbrev pub write_token : Encoder → EncodeToken → ℕ → Write Encoder
write_token s token write = emit_token write token >>= token_written s token

unfoldable pub encode_round : List ℕ → Encoder → Write Encoder
encode_round page s = elim (pick_token page s.read) [
  | some token ↦ flush page s >>= write_token s token
  | none ↦ extend_literal page s
]

-- `while read < PAGE_BYTES`, then the last literal run. A round reads a byte or more.
unfoldable pub encode_loop : ℕ → List ℕ → Encoder → Write ℕ
encode_loop zero page s = flush page s
encode_loop (suc fuel) page s =
    let rounds = encode_round page s >>= encode_loop fuel page in
    if not (ltb s.read page_bytes) then flush page s else rounds

unfoldable pub encode_sxrc_payload : List ℕ → Write ℕ
encode_sxrc_payload page =
    encode_loop page_bytes page (record { read = 0; write = 0; literal_start = 0; literal_len = 0 })
