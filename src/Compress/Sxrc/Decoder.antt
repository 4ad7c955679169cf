-- ===== src/Compress/Sxrc/Decoder.antt =====
-- `decode_sxrc_payload` of kernel/src/mm/compress/codec.rs.
use hxnu.Base.{
  ℕ, zero, suc, ◌+◌, Option, none, some, not, List, Result, ok, err, ltb, leb, ◌==◌, if◌then◌else◌,
  sat_add, ends_past, get_or, copy_at, slice, length, u32_bytes, u16_of_bytes,
}
use hxnu.Compress.{CompressionError, page_bytes}
use hxnu.Compress.Sxrc.Buffer.{
  Write, ◌>>=◌, return, throw, token_literal, token_dict, token_pattern,
}
use hxnu.Compress.Sxrc.Tables.{lookup_dictionary_by_id, lookup_pattern_by_id}

-- The indices of `decode_sxrc_payload`.
pub record Decoder : Type 0 where
  pub read : ℕ
  pub write : ℕ

-- `read_u16`: the number, and the index after it.
unfoldable pub read_u16 : List ℕ → ℕ → Result (ℕ × ℕ) CompressionError
read_u16 payload read =
    if ends_past read 2 (length payload)
    then err CompressionError.invalid_payload_length
    else ok (u16_of_bytes (get_or payload read 0) (get_or payload (read + 1) 0), sat_add read 2)

-- The copy of `bytes` to the page, which must have room.
unfoldable pub put_decoded : ℕ → ℕ → List ℕ → Write Decoder
put_decoded read write bytes out =
    if ends_past write (length bytes) page_bytes
    then (out, err CompressionError.invalid_payload_length)
    else (
      copy_at out write bytes,
      ok (record { read = read; write = sat_add write (length bytes) }),
    )

-- The arm of `TOKEN_LITERAL`; `read` stands at the length byte.
unfoldable pub decode_literal : List ℕ → ℕ → ℕ → Write Decoder
decode_literal payload read write =
    let len = get_or payload read 0 in
    let from = sat_add read 1 in
    if leb (length payload) read
    then throw CompressionError.invalid_payload_length
    else if len == 0
    then throw CompressionError.invalid_payload_length
    else if ends_past from len (length payload)
    then throw CompressionError.invalid_payload_length
    else put_decoded (sat_add from len) write (slice payload from len)

-- The arms of `TOKEN_DICT` and `TOKEN_PATTERN`, which differ in the table.
unfoldable pub decode_reference : (ℕ → Option (List ℕ)) → List ℕ → ℕ → ℕ → Write Decoder
decode_reference table payload read write = elim (read_u16 payload read) [
  | err e ↦ throw e
  | ok (id, read') ↦ elim (table id) [
    | none ↦ throw CompressionError.invalid_payload_length
    | some bytes ↦ put_decoded read' write bytes
  ]
]

abbrev pub dictionary_bytes : ℕ → Option (List ℕ)
dictionary_bytes id = elim (lookup_dictionary_by_id id) [
  | none ↦ none
  | some word ↦ some (u32_bytes word)
]

unfoldable pub decode_round : List ℕ → Decoder → Write Decoder
decode_round payload s =
    let token = get_or payload s.read 0 in
    let read = sat_add s.read 1 in
    if leb (length payload) s.read
    then throw CompressionError.invalid_payload_length
    else if token == token_literal
    then decode_literal payload read s.write
    else if token == token_dict
    then decode_reference dictionary_bytes payload read s.write
    else if token == token_pattern
    then decode_reference lookup_pattern_by_id payload read s.write
    else throw CompressionError.invalid_payload_length

-- `if read != payload.len()`
unfoldable pub decode_end : List ℕ → Decoder → Write (Unit {0})
decode_end payload s =
    if not (s.read == length payload)
    then throw CompressionError.invalid_payload_length
    else return tt

-- `while write < PAGE_BYTES`. A round writes a byte or more.
unfoldable pub decode_loop : ℕ → List ℕ → Decoder → Write (Unit {0})
decode_loop zero payload s = decode_end payload s
decode_loop (suc fuel) payload s =
    let rounds = decode_round payload s >>= decode_loop fuel payload in
    if not (ltb s.write page_bytes) then decode_end payload s else rounds

unfoldable pub decode_sxrc_payload : List ℕ → Write (Unit {0})
decode_sxrc_payload payload = decode_loop page_bytes payload (record { read = 0; write = 0 })
