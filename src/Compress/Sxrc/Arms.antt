-- ===== src/Compress/Sxrc/Arms.antt =====
-- One round of `decode_sxrc_payload` of kernel/src/mm/compress/codec.rs, in both directions.
use hxnu.Base.{
  ℕ, suc, ◌+◌, ◌-◌, ◌/◌, ◌%◌, ◌≤◌, ◌<◌, ◌^◌, ◌≡◌, refl, ap, sym, ◌∙◌, List, [], ◌∷◌, ◌++◌, Option,
  some, false, arith, length, length-append, take, take-append, length-drop, slice, drop, drop_next,
  get_or-drop, lt_of_drop, copy_at, leb, lt→leb_false, ◌==◌, sat_add, ok, ends_past, u16_bytes,
  u32_bytes, u16_of_bytes, u64_max,
}
use hxnu.Compress.{page_bytes}
use hxnu.Compress.Sxrc.Tables.{lookup_pattern_by_id}
use hxnu.Compress.Sxrc.Decoder.{
  Decoder, read_u16, put_decoded, decode_literal, decode_reference, dictionary_bytes, decode_round,
}
use hxnu.Compress.Sxrc.Tokens.{Token, literal, word, known, code, value, TokenOk}

-- `out[write..].copy_from_slice(bytes)` succeeds exactly when the bytes end within the page.
put_decoded_fits :
    (read write : ℕ) (bytes out : List ℕ)
    → write + length bytes ≤ page_bytes
    → put_decoded read write bytes out
      ≡ (copy_at out write bytes, ok (record { read = read; write = write + length bytes }))
unfolding put_decoded
put_decoded_fits read write bytes out h = ground arith

-- What a round leaves after decoding `bytes` up to the index `read`.
pub record Puts (out : List ℕ) (write : ℕ) (bytes : List ℕ) (read : ℕ) (out' : List ℕ)
    (s' : Decoder) : Type 0 where
  pub fits : write + length bytes ≤ page_bytes
  pub page : out' ≡ copy_at out write bytes
  pub moved : s' ≡ record { read = read; write = write + length bytes }

pub put_decoded-Puts :
    (read write : ℕ) (bytes out out' : List ℕ) (s' : Decoder)
    → put_decoded read write bytes out ≡ (out', ok s')
    → Puts out write bytes read out' s'
unfolding put_decoded
put_decoded-Puts read write bytes out out' s' e = ground arith

pub u16_bytes-of : (a b : ℕ) → a < 256 → b < 256 → u16_bytes (u16_of_bytes a b) ≡ a ∷ b ∷ []
u16_bytes-of a b ha hb = ground arith

u16_of-bytes : (v : ℕ) → v < 2 ^ 16 → u16_of_bytes (v % 256) (v / 256 % 256) ≡ v
u16_of-bytes v h = omega arith

module _ (payload : List ℕ) (sized : length payload ≤ u64_max) where
  -- `read_u16` on a payload that goes on with a number.
  read_u16_fits :
      (read id : ℕ) (rest : List ℕ)
      → id < 2 ^ 16
      → drop read payload ≡ u16_bytes id ++ rest
      → (read_u16 payload read ≡ ok (id, read + 2)) × (drop (read + 2) payload ≡ rest)
  unfolding read_u16
  read_u16_fits read id rest small e =
      let e1 = drop_next read (read + 1) payload _ _ e refl in
      let e2 = drop_next (read + 1) (read + 2) payload _ _ e1 (omega arith) in
      let b0 = get_or-drop read payload _ _ 0 e in
      let b1 = get_or-drop (read + 1) payload _ _ 0 e1 in
      let l1 = lt_of_drop (read + 1) payload _ _ e1 in (ground arith, e2)

  decode_reference_fits :
      (table : ℕ → Option (List ℕ)) (read write id : ℕ) (bytes rest out : List ℕ)
      → id < 2 ^ 16
      → table id ≡ some bytes
      → drop read payload ≡ u16_bytes id ++ rest
      → write + length bytes ≤ page_bytes
      → decode_reference table payload read write out
        ≡ (copy_at out write bytes, ok (record { read = read + 2; write = write + length bytes }))
  unfolding decode_reference
  decode_reference_fits table read write id bytes rest out small found e fits =
      rw ((read_u16_fits read id rest small e).0, found, decode_reference)
        (put_decoded_fits (read + 2) write bytes out fits)

  decode_literal_fits :
      (read write : ℕ) (bytes rest out : List ℕ)
      → 0 < length bytes
      → drop read payload ≡ length bytes ∷ bytes ++ rest
      → write + length bytes ≤ page_bytes
      → decode_literal payload read write out ≡ (
        copy_at out write bytes,
        ok (record { read = read + 1 + length bytes; write = write + length bytes }),
      )
  unfolding decode_literal
  decode_literal_fits read write bytes rest out some_bytes e fits =
      let here = lt_of_drop read payload _ _ e in
      let len = get_or-drop read payload _ _ 0 e in
      let tail = drop_next read (read + 1) payload _ _ e refl in
      let size : length payload - (read + 1) ≡ length bytes + length rest =
        sym (length-drop (read + 1) payload) ∙ ap length tail ∙ length-append bytes rest in
      let from : sat_add read 1 ≡ read + 1 = omega arith in
      let piece : slice payload (read + 1) (length bytes) ≡ bytes =
        ap (take (length bytes)) tail ∙ take-append (length bytes) bytes rest refl in
      let present : leb (length payload) read ≡ false = lt→leb_false _ _ here in
      let nonzero : (length bytes == 0) ≡ false = ground arith in
      let inside : ends_past (read + 1) (length bytes) (length payload) ≡ false = ground arith in
      let next : sat_add (read + 1) (length bytes) ≡ read + 1 + length bytes = omega arith in
      rw (len, from, present, nonzero, inside, piece, next, decode_literal)
        (put_decoded_fits (read + 1 + length bytes) write bytes out fits)

  -- One round on a payload that goes on with a token.
  pub decode_round_fits :
      (s : Decoder) (t : Token) (rest out : List ℕ)
      → TokenOk t
      → drop s.read payload ≡ code t ++ rest
      → s.write + length (value t) ≤ page_bytes
      → decode_round payload s out ≡ (
        copy_at out s.write (value t),
        ok (record { read = s.read + length (code t); write = s.write + length (value t) }),
      )
  unfolding decode_round
  decode_round_fits s (literal bs) rest out fine e fits =
      let tag = get_or-drop s.read payload _ _ 0 e in
      let present : leb (length payload) s.read ≡ false =
        lt→leb_false (length payload) s.read (lt_of_drop s.read payload _ _ e) in
      let from : sat_add s.read 1 ≡ s.read + 1 = ground arith in
      let end : s.read + 1 + 1 + length bs ≡ s.read + suc (suc (length bs)) = omega arith in
      rw (present, tag, from, ← end, decode_round)
        (decode_literal_fits (s.read + 1) s.write bs rest out fine.0
          (drop_next s.read (s.read + 1) payload _ _ e refl) fits)
  decode_round_fits s (word id w) rest out fine e fits =
      let tag = get_or-drop s.read payload _ _ 0 e in
      let present : leb (length payload) s.read ≡ false =
        lt→leb_false (length payload) s.read (lt_of_drop s.read payload _ _ e) in
      let from : sat_add s.read 1 ≡ s.read + 1 = ground arith in
      let end : s.read + 1 + 2 ≡ s.read + 3 = omega arith in
      rw (present, tag, from, ← end, decode_round)
        (decode_reference_fits dictionary_bytes (s.read + 1) s.write id (u32_bytes w) rest out
          fine.0 (rw (fine.1, dictionary_bytes)) (drop_next s.read (s.read + 1) payload _ _ e refl)
          fits)
  decode_round_fits s (known id bs) rest out fine e fits =
      let tag = get_or-drop s.read payload _ _ 0 e in
      let present : leb (length payload) s.read ≡ false =
        lt→leb_false (length payload) s.read (lt_of_drop s.read payload _ _ e) in
      let from : sat_add s.read 1 ≡ s.read + 1 = ground arith in
      let end : s.read + 1 + 2 ≡ s.read + 3 = omega arith in
      rw (present, tag, from, ← end, decode_round)
        (decode_reference_fits lookup_pattern_by_id (s.read + 1) s.write id bs rest out fine.0
          fine.1 (drop_next s.read (s.read + 1) payload _ _ e refl) fits)
