-- ===== src/Compress/Sxrc/Accepts.antt =====
-- A round of `decode_sxrc_payload` (kernel/src/mm/compress/codec.rs) that succeeds has read a token.
use hxnu.Base.{
  ℕ, ◌+◌, ◌≤◌, ◌<◌, ◌^◌, ◌≡◌, refl, ap, sym, ◌∙◌, inl, inr, List, ◌∷◌, ◌++◌, Option, some, arith,
  All, All-get_or, length, length-take, length-drop, slice, drop, drop-drop, drop_one, get_or,
  copy_at, leb, leb_false→lt, ==→eq, ◌==◌, sat_add, Bool-cases, Option-cases, Result-cases, ok,
  ends_past, u16_bytes, u32_bytes, u16_of_bytes, subst, take-append-drop, u64_max,
}
use hxnu.Compress.{page_bytes, IsByte}
use hxnu.Compress.Sxrc.Buffer.{token_literal, token_dict, token_pattern}
use hxnu.Compress.Sxrc.Tables.{lookup_dictionary_by_id, lookup_pattern_by_id, pattern_with_id}
use hxnu.Compress.Sxrc.Decoder.{
  Decoder, read_u16, decode_literal, decode_reference, dictionary_bytes, decode_round,
}
use hxnu.Compress.Sxrc.Tokens.{Token, literal, word, known, code, value, TokenOk}
use hxnu.Compress.Sxrc.Arms.{Puts, put_decoded-Puts, u16_bytes-of}

module _ (payload : List ℕ) (sized : length payload ≤ u64_max) (bytes : All IsByte payload) where
  read_u16_reads :
      (read id read' : ℕ)
      → read_u16 payload read ≡ ok (id, read')
      → (id < 2 ^ 16)
        × (read' ≡ read + 2)
        × (read + 2 ≤ length payload)
        × (drop read payload ≡ u16_bytes id ++ drop (read + 2) payload)
  unfolding read_u16
  read_u16_reads read id read' e =
      let b0 = get_or payload read 0 in
      let b1 = get_or payload (read + 1) 0 in
      let h0 = All-get_or IsByte read payload 0 bytes (omega arith) in
      let h1 = All-get_or IsByte (read + 1) payload 0 bytes (omega arith) in
      let inside : read + 2 ≤ length payload = ground arith in
      let id_is : id ≡ u16_of_bytes b0 b1 = ground arith in
      let split : drop read payload ≡ b0 ∷ b1 ∷ drop (read + 1 + 1) payload =
        drop_one read payload 0 (omega arith)
        ∙ ap (◌∷◌ b0) (drop_one (read + 1) payload 0 (omega arith)) in
      let shift : read + 1 + 1 ≡ read + 2 = omega arith in
      (
        omega arith,
        ground arith,
        inside,
        split
            ∙ ap (λ n. b0 ∷ b1 ∷ drop n payload) shift
            ∙ ap (λ l. l ++ drop (read + 2) payload)
                (sym (u16_bytes-of b0 b1 h0 h1) ∙ ap u16_bytes (sym id_is)),
      )

  decode_reference_reads :
      (table : ℕ → Option (List ℕ)) (read write : ℕ) (out out' : List ℕ) (s' : Decoder)
      → decode_reference table payload read write out ≡ (out', ok s')
      → (id : ℕ) × (bs : List ℕ) × (id < 2 ^ 16)
        × (table id ≡ some bs)
        × (read + 2 ≤ length payload)
        × (drop read payload ≡ u16_bytes id ++ drop (read + 2) payload)
        × Puts out write bs (read + 2) out' s'
  unfolding decode_reference
  decode_reference_reads table read write out out' s' e =
      elim (Result-cases (read_u16 payload read)) [
        | inr (x, bad) ↦ absurd (ground arith)
        | inl ((id, read'), number) ↦ elim (Option-cases (table id)) [
          | inl unknown ↦ absurd (ground arith)
          | inr (bs, found) ↦
              let (small, moved, inside, split) = read_u16_reads read id read' number in
              (
                id,
                bs,
                small,
                found,
                inside,
                split,
                put_decoded-Puts (read + 2) write bs out out' s'
                    (rw (number, found, moved, decode_reference) at e),
              )
        ]
      ]

  decode_literal_reads :
      (read write : ℕ) (out out' : List ℕ) (s' : Decoder)
      → decode_literal payload read write out ≡ (out', ok s')
      → (bs : List ℕ) × (n : ℕ) × (length bs ≡ n)
        × (0 < n)
        × (n ≤ 255)
        × (read + 1 + n ≤ length payload)
        × (drop read payload ≡ n ∷ bs ++ drop (read + 1 + n) payload)
        × Puts out write bs (read + 1 + n) out' s'
  unfolding decode_literal
  decode_literal_reads read write out out' s' e =
      let len = get_or payload read 0 in
      let bs = slice payload (read + 1) len in
      let small = All-get_or IsByte read payload 0 bytes (omega arith) in
      elim (Bool-cases (leb (length payload) read)) [
        | inl past ↦ absurd (ground arith)
        | inr present ↦ elim (Bool-cases (len == 0)) [
          | inl empty ↦ absurd (ground arith)
          | inr some_bytes ↦ elim (Bool-cases (ends_past (sat_add read 1) len (length payload))) [
            | inl past ↦ absurd (ground arith)
            | inr inside ↦
                let from : sat_add read 1 ≡ read + 1 = ground arith in
                let fits : read + 1 + len ≤ length payload = ground arith in
                let size : length bs ≡ len = omega (
                  arith,
                  length-take len (drop (read + 1) payload),
                  length-drop (read + 1) payload,
                ) in
                let next : sat_add (read + 1) len ≡ read + 1 + len = omega arith in
                (
                  bs,
                  len,
                  size,
                  ground arith,
                  omega arith,
                  fits,
                  drop_one read payload 0 (omega arith)
                      ∙ ap (◌∷◌ len) (
                          sym (take-append-drop len (drop (read + 1) payload))
                          ∙ ap (◌++◌ bs) (drop-drop (read + 1) len (read + 1 + len) payload refl)),
                  put_decoded-Puts (read + 1 + len) write bs out out' s' (
                      rw (present, some_bytes, from, rw from at inside, next, decode_literal) at e),
                )
          ]
        ]
      ]

  -- A token, and what the round made of it.
  pub record Reads (s : Decoder) (out out' : List ℕ) (s' : Decoder) : Type 0 where
    pub token : Token
    pub fine : TokenOk token
    pub split : drop s.read payload ≡ code token ++ drop s'.read payload
    pub page : out' ≡ copy_at out s.write (value token)
    pub moved : s'.write ≡ s.write + length (value token)
    pub fits : s'.write ≤ page_bytes
    pub inside : s'.read ≤ length payload

  Puts-Reads :
      (s s' : Decoder) (out out' : List ℕ) (t : Token) (read : ℕ)
      → TokenOk t
      → drop s.read payload ≡ code t ++ drop read payload
      → read ≤ length payload
      → Puts out s.write (value t) read out' s'
      → Reads s out out' s'
  Puts-Reads s s' out out' t read fine split inside p =
      rw (p.moved, p.page)
        (record {
          token = t;
          fine = fine;
          split = split;
          page = refl;
          moved = refl;
          fits = p.fits;
          inside = inside;
        })

  pattern_some_bytes : (id : ℕ) (bs : List ℕ) → lookup_pattern_by_id id ≡ some bs → 0 < length bs
  unfolding lookup_pattern_by_id pattern_with_id
  pattern_some_bytes id bs e = ground arith

  word_of_dictionary :
      (id : ℕ) (bs : List ℕ)
      → dictionary_bytes id ≡ some bs
      → (w : ℕ) × (lookup_dictionary_by_id id ≡ some w) × (bs ≡ u32_bytes w)
  word_of_dictionary id bs e = elim (Option-cases (lookup_dictionary_by_id id)) [
    | inl gone ↦ absurd (ground arith)
    | inr (w, found) ↦ (w, found, ground arith)
  ]

  pub decode_round-Reads :
      (s s' : Decoder) (out out' : List ℕ)
      → decode_round payload s out ≡ (out', ok s')
      → Reads s out out' s'
  unfolding decode_round
  decode_round-Reads s s' out out' e =
      let tag = get_or payload s.read 0 in
      elim (Bool-cases (leb (length payload) s.read)) [
        | inl past ↦ absurd (ground arith)
        | inr present ↦
            let head = drop_one s.read payload 0 (leb_false→lt (length payload) s.read present) in
            let from : sat_add s.read 1 ≡ s.read + 1 = ground arith in
            elim (Bool-cases (tag == token_literal)) [
              | inl is_literal ↦
                  let (bs, n, size, some_bytes, few, inside, split, puts) =
                    decode_literal_reads (s.read + 1) s.write out out' s'
                      (rw (present, is_literal, from, decode_round) at e) in
                  Puts-Reads s s' out out' (literal bs) (s.read + 1 + 1 + n) (omega arith)
                    (head
                      ∙ ap (λ l. tag ∷ l) split
                      ∙ ap (λ k. k ∷ n ∷ bs ++ drop (s.read + 1 + 1 + n) payload)
                          (==→eq tag token_literal is_literal)
                      ∙ ap (λ k. token_literal ∷ k ∷ bs ++ drop (s.read + 1 + 1 + n) payload)
                          (sym size))
                    inside puts
              | inr not_literal ↦ elim (Bool-cases (tag == token_dict)) [
                | inl is_dict ↦
                    let (id, bs, small, found, inside, split, puts) =
                      decode_reference_reads dictionary_bytes (s.read + 1) s.write out out' s'
                        (rw (present, not_literal, is_dict, from, decode_round) at e) in
                    let (w, listed, shape) = word_of_dictionary id bs found in
                    Puts-Reads s s' out out' (word id w) (s.read + 1 + 2) (small, listed)
                      (head
                        ∙ ap (λ l. tag ∷ l) split
                        ∙ ap (λ k. k ∷ u16_bytes id ++ drop (s.read + 1 + 2) payload)
                            (==→eq tag token_dict is_dict))
                      inside (subst (λ b. Puts out s.write b (s.read + 1 + 2) out' s') shape puts)
                | inr not_dict ↦ elim (Bool-cases (tag == token_pattern)) [
                  | inl is_pattern ↦
                      let (id, bs, small, found, inside, split, puts) =
                        decode_reference_reads lookup_pattern_by_id (s.read + 1) s.write out out' s'
                          (rw (present, not_literal, not_dict, is_pattern, from, decode_round) at
                            e) in
                      Puts-Reads s s' out out' (known id bs) (s.read + 1 + 2)
                        (small, found, pattern_some_bytes id bs found)
                        (head
                          ∙ ap (λ l. tag ∷ l) split
                          ∙ ap (λ k. k ∷ u16_bytes id ++ drop (s.read + 1 + 2) payload)
                              (==→eq tag token_pattern is_pattern))
                        inside puts
                  | inr unknown ↦
                      absurd (cc (rw (present, not_literal, not_dict, unknown, decode_round) at e))
                ]
              ]
            ]
      ]
