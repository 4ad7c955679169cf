-- ===== src/Compress/Sxrc/Decode.antt =====
-- `decode_sxrc_payload` of kernel/src/mm/compress/codec.rs accepts a payload exactly when it spells a page.
use hxnu.Base.{
  ℕ, zero, suc, ◌+◌, ◌≤◌, ◌<◌, ◌≡◌, refl, ap, sym, ◌∙◌, inl, inr, List, [], ◌∷◌, ◌++◌, append-nil,
  append_assoc, arith, All, length, length-append, length-copy_at, take, take-copy_at, take_all,
  drop, drop-append, drop-drop, drop_all, length-drop, copy_at, ltb, Bool-cases, ok, ltb_false→le,
  lt→ltb, le→ltb_false, eq→==, u64_max, ◌↔◌,
}
use hxnu.Compress.{page_bytes, IsByte}
use hxnu.Compress.Sxrc.Buffer.{>>=-ok, >>=_ok}
use hxnu.Compress.Sxrc.Decoder.{Decoder, decode_round, decode_end, decode_loop, decode_sxrc_payload}
use hxnu.Compress.Sxrc.Tokens.{
  Token, literal, word, known, code, value, TokenOk, codes, values, Spells,
}
use hxnu.Compress.Sxrc.Arms.{decode_round_fits}
use hxnu.Compress.Sxrc.Accepts.{decode_round-Reads}

-- A token adds a byte or more to the page.
value_pos : (t : Token) → TokenOk t → 0 < length (value t)
value_pos (literal bs) h = h.0
value_pos (word id w) h = omega arith
value_pos (known id bs) h = h.2

module _ (payload : List ℕ) where
  decode_end_read :
      (s : Decoder) (out : List ℕ)
      → drop s.read payload ≡ []
      → s.read ≤ length payload
      → decode_end payload s out ≡ (out, ok tt)
  unfolding decode_end
  decode_end_read s out e inside =
      let all : s.read ≡ length payload = omega (arith, length-drop s.read payload, ap length e) in
      rw (eq→== s.read (length payload) all, decode_end) refl

  whole : (out : List ℕ) (n : ℕ) → length out ≡ page_bytes → n ≡ page_bytes → out ≡ take n out ++ []
  whole out n size e = sym (append-nil (take n out) ∙ take_all n out (omega arith))

module _ (payload : List ℕ) (sized : length payload ≤ u64_max) where
  loop_fits :
      (ts : List Token) (fuel : ℕ) (s : Decoder) (out : List ℕ)
      → All TokenOk ts
      → drop s.read payload ≡ codes ts
      → s.read ≤ length payload
      → length out ≡ page_bytes
      → s.write + length (values ts) ≡ page_bytes
      → page_bytes ≤ s.write + fuel
      → decode_loop fuel payload s out ≡ (take s.write out ++ values ts, ok tt)
  unfolding decode_loop decode_end
  loop_fits [] zero s out fine e inside page full enough =
      decode_end_read payload s out e inside
      ∙ ap (λ l. (l, ok tt)) (whole payload out s.write page (omega arith))
  loop_fits [] (suc fuel) s out fine e inside page full enough =
      rw (le→ltb_false s.write page_bytes (omega arith), decode_loop)
        (decode_end_read payload s out e inside
          ∙ ap (λ l. (l, ok tt)) (whole payload out s.write page (omega arith)))
  loop_fits (t ∷ ts) zero s out fine e inside page full enough =
      absurd (omega (arith, value_pos t fine.0, length-append (value t) (values ts)))
  loop_fits (t ∷ ts) (suc fuel) s out fine e inside page full enough =
      let sizes = length-append (value t) (values ts) in
      let some_bytes = value_pos t fine.0 in
      let fits : s.write + length (value t) ≤ page_bytes = omega arith in
      let out1 = copy_at out s.write (value t) in
      let s1 : Decoder = record {
        read = s.read + length (code t);
        write = s.write + length (value t);
      } in
      let rest : drop (s.read + length (code t)) payload ≡ codes ts =
        sym (drop-drop s.read (length (code t)) (s.read + length (code t)) payload refl)
        ∙ ap (drop (length (code t))) e
        ∙ drop-append (length (code t)) (code t) (codes ts) refl in
      let front : take (s.write + length (value t)) out1 ≡ take s.write out ++ value t =
        take-copy_at s.write (s.write + length (value t)) out (value t) refl (omega arith) in
      let read_to : s.read + length (code t) ≤ length payload =
        omega (arith, length-drop s.read payload, ap length e, length-append (code t) (codes ts)) in
      let round = decode_round_fits payload sized s t (codes ts) out fine.0 e fits in
      rw (lt→ltb s.write page_bytes (omega arith), decode_loop)
        (>>=_ok (decode_round payload s) (decode_loop fuel payload) out s1 (ap (λ r. r.1) round)
          ∙ ap (λ r. decode_loop fuel payload s1 r.0) round
          ∙ loop_fits ts fuel s1 out1 fine.1 rest read_to
              (length-copy_at s.write out (value t) (omega arith) ∙ page) (omega arith)
              (omega arith)
          ∙ ap (λ l. (l ++ values ts, ok tt)) front
          ∙ ap (λ l. (l, ok tt)) (append_assoc (take s.write out) (value t) (values ts)))

-- A payload that spells a page is decoded to it, whatever the buffer held.
pub decode_sxrc_payload-Spells :
    (payload out page : List ℕ)
    → length payload ≤ u64_max
    → length out ≡ page_bytes
    → length page ≡ page_bytes
    → Spells payload page
    → decode_sxrc_payload payload out ≡ (page, ok tt)
unfolding decode_sxrc_payload
decode_sxrc_payload-Spells payload out page sized size paged s =
    loop_fits payload sized s.tokens page_bytes (record { read = 0; write = 0 }) out s.fine
      s.spelled (omega arith) size (omega (arith, ap length s.meant)) (omega arith)
    ∙ ap (λ l. (l, ok tt)) s.meant

-- The tokens from an index on, as the loop reads them to its end.
record Rest (payload : List ℕ) (s : Decoder) (out out' : List ℕ) : Type 0 where
  tokens : List Token
  fine : All TokenOk tokens
  split : drop s.read payload ≡ codes tokens
  page : out' ≡ take s.write out ++ values tokens

module _ (payload : List ℕ) (sized : length payload ≤ u64_max) (bytes : All IsByte payload) where
  end-Rest :
      (s : Decoder) (out out' : List ℕ)
      → s.read ≤ length payload
      → s.write ≤ page_bytes
      → page_bytes ≤ s.write
      → length out ≡ page_bytes
      → decode_end payload s out ≡ (out', ok tt)
      → Rest payload s out out'
  unfolding decode_end
  end-Rest s out out' inside low high size e =
      let all : s.read ≡ length payload = ground arith in
      let same : out' ≡ out = ground arith in
      record {
        tokens = [];
        fine = tt;
        split = drop_all s.read payload (omega arith);
        page = same ∙ whole payload out s.write size (omega arith);
      }

  loop-Rest :
      (fuel : ℕ) (s : Decoder) (out out' : List ℕ)
      → s.read ≤ length payload
      → s.write ≤ page_bytes
      → page_bytes ≤ s.write + fuel
      → length out ≡ page_bytes
      → decode_loop fuel payload s out ≡ (out', ok tt)
      → Rest payload s out out'
  unfolding decode_loop
  loop-Rest zero s out out' inside low enough size e =
      end-Rest s out out' inside low (omega arith) size e
  loop-Rest (suc fuel) s out out' inside low enough size e =
      elim (Bool-cases (ltb s.write page_bytes)) [
        | inr done ↦
            end-Rest s out out' inside low (ltb_false→le s.write page_bytes done) size
              (rw (done, decode_loop) at e)
        | inl more ↦
            let (o1, s1, round, rest) =
              >>=-ok (decode_round payload s) (decode_loop fuel payload) out out' tt
                (rw (more, decode_loop) at e) in
            let r = decode_round-Reads payload sized bytes s s1 out o1 round in
            let some_bytes = value_pos r.token r.fine in
            let size1 : length o1 ≡ page_bytes =
              ap length r.page
              ∙ length-copy_at s.write out (value r.token) (omega (arith, r.moved, r.fits))
              ∙ size in
            let ih =
              loop-Rest fuel s1 o1 out' r.inside r.fits (omega (arith, r.moved)) size1 rest in
            record {
              tokens = r.token ∷ ih.tokens;
              fine = (r.fine, ih.fine);
              split = r.split ∙ ap (λ l. code r.token ++ l) ih.split;
              page =
                  ih.page
                  ∙ ap (λ l. l ++ values ih.tokens)
                      (ap (λ n. take n o1) r.moved
                        ∙ ap (take (s.write + length (value r.token))) r.page
                        ∙ take-copy_at s.write (s.write + length (value r.token)) out
                            (value r.token) refl (omega (arith, r.moved, r.fits)))
                  ∙ append_assoc (take s.write out) (value r.token) (values ih.tokens);
            }
      ]

  -- On a buffer of one page, the decoder accepts a payload of bytes, of a length in 64 bits, and
  -- leaves a given page exactly when the payload is the code of a sequence of tokens whose values
  -- are that page.
  pub decode_sxrc_payload_iff :
      (out page : List ℕ)
      → length out ≡ page_bytes
      → length page ≡ page_bytes
      → (decode_sxrc_payload payload out ≡ (page, ok tt)) ↔ Spells payload page
  unfolding decode_sxrc_payload
  decode_sxrc_payload_iff out page size paged = (
    λ e.
        let r =
          loop-Rest page_bytes (record { read = 0; write = 0 }) out page (omega arith) (omega arith)
            (omega arith) size e in
        record { tokens = r.tokens; fine = r.fine; spelled = r.split; meant = sym r.page },
    decode_sxrc_payload-Spells payload out page sized size paged,
  )
