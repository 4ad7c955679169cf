-- ===== src/Compress/Sxrc/Encode.antt =====
-- What `encode_sxrc_payload` of kernel/src/mm/compress/codec.rs writes spells the page.
use hxnu.Base.{
  ℕ, zero, suc, ◌+◌, ◌-◌, ◌≤◌, ◌<◌, ◌≡◌, refl, ap, sym, ◌∙◌, ◌⊎◌, inl, inr, List, [], ◌∷◌, ◌++◌,
  some, arith, All, All-append, length, take, take-plus, take_all, length-take, length-drop, slice,
  drop, ltb, Bool-cases, Option-cases, ok, ltb→lt, ltb_false→le, ==→eq, ◌==◌, sat_add, subst,
}
use hxnu.Compress.{page_bytes, IsPage}
use hxnu.Compress.Sxrc.Buffer.{>>=-ok, token_dict}
use hxnu.Compress.Sxrc.Tables.{EncodeToken, pick_token, word_at}
use hxnu.Compress.Sxrc.Encoder.{
  Encoder, emit_literal_run, emit_ref_token, emit_token, flush, extend_literal, encode_round,
  encode_loop, encode_sxrc_payload, decoded_len, longer, run_written, token_written, write_token,
}
use hxnu.Compress.Sxrc.Tokens.{
  Token, literal, word, code, value, TokenOk, codes, values, codes-snoc, values-snoc, Spells,
}
use hxnu.Compress.Sxrc.Emit.{Emits, emit_literal_run-Emits, emit_ref_token-Emits}
use hxnu.Compress.Sxrc.Choice.{pick_token-some, lookup_dictionary-inverse, word_at-slice}

-- The buffer up to `write` spells the page up to `read`.
pub record Spelled (page out : List ℕ) (write read : ℕ) : Type 0 where
  pub tokens : List Token
  pub fine : All TokenOk tokens
  pub front : take write out ≡ codes tokens
  pub room : write ≤ length out
  pub meant : values tokens ≡ take read page

Spelled-cast :
    {page out out' : List ℕ} {write write' read read' : ℕ}
    → out ≡ out'
    → write ≡ write'
    → read ≡ read'
    → Spelled page out write read
    → Spelled page out' write' read'
Spelled-cast p q r s = rw (← p, ← q, ← r) s

Spelled-emit :
    (page out out' : List ℕ) (write write' read read' n : ℕ) (t : Token)
    → Spelled page out write read
    → Emits out write (code t) out' write'
    → TokenOk t
    → value t ≡ slice page read n
    → read' ≡ read + n
    → Spelled page out' write' read'
Spelled-emit page out out' write write' read read' n t s e fine means moved = record {
  tokens = s.tokens ++ t ∷ [];
  fine = All-append TokenOk s.tokens (t ∷ []) s.fine (fine, tt);
  front = e.front ∙ ap (λ l. l ++ code t) s.front ∙ sym (codes-snoc s.tokens t);
  room = e.room;
  meant =
      values-snoc s.tokens t
      ∙ ap (λ l. l ++ value t) s.meant
      ∙ ap (◌++◌ (take read page)) means
      ∙ sym (take-plus read n read' page moved);
}

length-slice : (page : List ℕ) (i n : ℕ) → i + n ≤ length page → length (slice page i n) ≡ n
length-slice page i n h = omega (arith, length-take n (drop i page), length-drop i page)

module _ (page : List ℕ) (paged : IsPage page) where
  -- Between two rounds: up to `read`, less the bytes of the literal run that is still held.
  record Encoding (s : Encoder) (out : List ℕ) : Type 0 where
    spelled : Spelled page out s.write (s.read - s.literal_len)
    short : s.literal_len < 255
    held : s.literal_len ≤ s.read
    starts : (s.literal_len ≡ 0) ⊎ (s.literal_start + s.literal_len ≡ s.read)
    bounded : s.read ≤ page_bytes

  run-Spelled :
      (out out' : List ℕ) (write write' start n : ℕ)
      → Spelled page out write start
      → 0 < n
      → n ≤ 255
      → start + n ≤ page_bytes
      → emit_literal_run write (slice page start n) out ≡ (out', ok write')
      → Spelled page out' write' (start + n)
  run-Spelled out out' write write' start n s some_bytes few fits e =
      let size = length-slice page start n (omega (arith, paged.sized)) in
      Spelled-emit page out out' write write' start (start + n) n (literal (slice page start n)) s
        (emit_literal_run-Emits out write (slice page start n) out' write' (omega arith)
          (omega arith) e)
        (omega arith, omega arith) refl refl

  flush-Spelled :
      (s : Encoder) (out out' : List ℕ) (write : ℕ)
      → Encoding s out
      → flush page s out ≡ (out', ok write)
      → Spelled page out' write s.read
  unfolding flush
  flush-Spelled s out out' write i e = elim (Bool-cases (ltb 0 s.literal_len)) [
    | inr no_bytes ↦
        Spelled-cast (ground arith) (ground arith)
          (omega (arith, ltb_false→le 0 s.literal_len no_bytes)) i.spelled
    | inl some_bytes ↦
        let some_held = ltb→lt 0 s.literal_len some_bytes in
        let starts : s.literal_start + s.literal_len ≡ s.read = ground arith in
        Spelled-cast refl refl starts (
          run-Spelled out out' s.write write s.literal_start s.literal_len
            (Spelled-cast refl refl (omega arith) i.spelled) some_held (omega arith) (omega arith)
            (rw (some_bytes, flush) at e))
  ]

  token-Spelled :
      (out out' : List ℕ) (write write' read : ℕ) (t : EncodeToken)
      → Spelled page out write read
      → pick_token page read ≡ some t
      → emit_token write t out ≡ (out', ok write')
      → Spelled page out' write' (read + 4) × (decoded_len t ≡ 4) × (read + 4 ≤ page_bytes)
  token-Spelled out out' write write' read t s picked e =
      let (id, shape, fits, found) = pick_token-some page read t picked in
      let (small, listed) = lookup_dictionary-inverse (word_at page read) id found in
      let e' : emit_ref_token write token_dict id out ≡ (out', ok write') =
        subst (λ k. emit_token write k out ≡ (out', ok write')) shape e in
      (
        Spelled-emit page out out' write write' read (read + 4) 4 (word id (word_at page read)) s
            (emit_ref_token-Emits out write token_dict id out' write' e') (small, listed)
            (word_at-slice page read (omega (arith, paged.sized)) paged.bytes) refl,
        ap decoded_len shape,
        fits,
      )

  extend-Encoding :
      (s s' : Encoder) (out out' : List ℕ)
      → Encoding s out
      → s.read < page_bytes
      → extend_literal page s out ≡ (out', ok s')
      → Encoding s' out' × (s.read < s'.read)
  unfolding extend_literal
  extend-Encoding s s' out out' i more e = elim (Bool-cases ((longer s).literal_len == 255)) [
    | inr short ↦
        let same : out' ≡ out = ground arith in
        let next : s' ≡ longer s = ground arith in
        rw (same, next)
          (
            record {
              spelled = Spelled-cast refl refl (omega arith) i.spelled;
              short = ground arith;
              held = omega arith;
              starts = inr (ground arith);
              bounded = omega arith;
            },
            omega arith,
          )
    | inl full ↦
        let run = slice page (longer s).literal_start (longer s).literal_len in
        let (o1, w1, emitted, e1) =
          >>=-ok (emit_literal_run s.write run) (run_written (longer s)) out out' s'
            (rw (full, extend_literal) at e) in
        let same : out' ≡ o1 = ground arith in
        let next : s' ≡ record (longer s) { write = w1; literal_len = 0 } = ground arith in
        let starts : (longer s).literal_start + (longer s).literal_len ≡ (longer s).read =
          ground arith in
        let size : (longer s).literal_len ≡ 255 = ==→eq _ _ full in
        rw (same, next)
          (
            record {
              spelled = Spelled-cast refl refl (omega arith) (
                  run-Spelled out o1 s.write w1 (longer s).literal_start (longer s).literal_len
                    (Spelled-cast refl refl (omega arith) i.spelled) (omega arith) (omega arith)
                    (omega arith) emitted);
              short = omega arith;
              held = omega arith;
              starts = inl refl;
              bounded = omega arith;
            },
            omega arith,
          )
  ]

  round-Encoding :
      (s s' : Encoder) (out out' : List ℕ)
      → Encoding s out
      → s.read < page_bytes
      → encode_round page s out ≡ (out', ok s')
      → Encoding s' out' × (s.read < s'.read)
  unfolding encode_round
  round-Encoding s s' out out' i more e = elim (Option-cases (pick_token page s.read)) [
    | inl nothing ↦ extend-Encoding s s' out out' i more (rw (nothing, encode_round) at e)
    | inr (t, picked) ↦
        let (o1, w1, flushed, e1) =
          >>=-ok (flush page s) (write_token s t) out out' s' (rw (picked, encode_round) at e) in
        let (o2, w2, emitted, e2) = >>=-ok (emit_token w1 t) (token_written s t) o1 out' s' e1 in
        let (spelled, size, fits) =
          token-Spelled o1 o2 w1 w2 s.read t (flush-Spelled s out o1 w1 i flushed) picked emitted in
        let same : out' ≡ o2 = ground arith in
        let next : s'
            ≡ record s { read = sat_add s.read (decoded_len t); write = w2; literal_len = 0 } =
          ground arith in
        rw (same, next)
          (
            record {
              spelled = Spelled-cast refl refl (omega arith) spelled;
              short = omega arith;
              held = omega arith;
              starts = inl refl;
              bounded = omega arith;
            },
            omega arith,
          )
  ]

  loop-Spelled :
      (fuel : ℕ) (s : Encoder) (out out' : List ℕ) (write : ℕ)
      → Encoding s out
      → page_bytes ≤ s.read + fuel
      → encode_loop fuel page s out ≡ (out', ok write)
      → Spelled page out' write page_bytes
  unfolding encode_loop
  loop-Spelled zero s out out' write i enough e =
      Spelled-cast refl refl (omega (arith, i.bounded)) (flush-Spelled s out out' write i e)
  loop-Spelled (suc fuel) s out out' write i enough e = elim (Bool-cases (ltb s.read page_bytes)) [
    | inr done ↦
        Spelled-cast refl refl (omega (arith, i.bounded, ltb_false→le s.read page_bytes done))
          (flush-Spelled s out out' write i (rw (done, encode_loop) at e))
    | inl more ↦
        let (o1, s1, round, rest) =
          >>=-ok (encode_round page s) (encode_loop fuel page) out out' write
            (rw (more, encode_loop) at e) in
        let (i1, moved) = round-Encoding s s1 out o1 i (ltb→lt s.read page_bytes more) round in
        loop-Spelled fuel s1 o1 out' write i1 (omega arith) rest
  ]

-- What the encoder has written when it succeeds spells the page, whatever the buffer held before.
pub encode_sxrc_payload-Spells :
    (page out out' : List ℕ) (n : ℕ)
    → IsPage page
    → encode_sxrc_payload page out ≡ (out', ok n)
    → Spells (take n out') page × (n ≤ length out')
unfolding encode_sxrc_payload
encode_sxrc_payload-Spells page out out' n paged e =
    let s =
      loop-Spelled page paged page_bytes
        (record { read = 0; write = 0; literal_start = 0; literal_len = 0 }) out out' n
        (record {
          spelled = record {
            tokens = [];
            fine = tt;
            front = refl;
            room = omega arith;
            meant = refl;
          };
          short = omega arith;
          held = omega arith;
          starts = inl refl;
          bounded = omega arith;
        })
        (omega arith) e in
    (
      record {
        tokens = s.tokens;
        fine = s.fine;
        spelled = s.front;
        meant = s.meant ∙ take_all page_bytes page (omega (arith, paged.sized));
      },
      s.room,
    )
