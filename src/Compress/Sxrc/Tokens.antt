-- ===== src/Compress/Sxrc/Tokens.antt =====
-- What a payload of kernel/src/mm/compress/codec.rs means: a sequence of tokens.
use hxnu.Base.{
  ℕ, ◌≤◌, ◌<◌, ◌^◌, ◌≡◌, refl, ap, ◌∙◌, sym, List, [], ◌∷◌, ◌++◌, append-nil, append_assoc, some,
  All, length, u16_bytes, u32_bytes,
}
use hxnu.Compress.Sxrc.Buffer.{token_literal, token_dict, token_pattern}
use hxnu.Compress.Sxrc.Tables.{lookup_dictionary_by_id, lookup_pattern_by_id}

pub data Token : Type 0 where
  literal : List ℕ → Token
  word : ℕ → ℕ → Token
  known : ℕ → List ℕ → Token

-- The bytes of a token in the payload, and in the page.
abbrev pub code : Token → List ℕ
code (literal bs) = token_literal ∷ length bs ∷ bs
code (word id w) = token_dict ∷ u16_bytes id
code (known id bs) = token_pattern ∷ u16_bytes id

abbrev pub value : Token → List ℕ
value (literal bs) = bs
value (word id w) = u32_bytes w
value (known id bs) = bs

abbrev pub TokenOk : Token → Type 0
TokenOk (literal bs) = (0 < length bs) × (length bs ≤ 255)
TokenOk (word id w) = (id < 2 ^ 16) × (lookup_dictionary_by_id id ≡ some w)
TokenOk (known id bs) = (id < 2 ^ 16) × (lookup_pattern_by_id id ≡ some bs) × (0 < length bs)

abbrev pub codes : List Token → List ℕ
codes [] = []
codes (t ∷ ts) = code t ++ codes ts

abbrev pub values : List Token → List ℕ
values [] = []
values (t ∷ ts) = value t ++ values ts

pub codes-append : (ts us : List Token) → codes (ts ++ us) ≡ codes ts ++ codes us
codes-append [] us = refl
codes-append (t ∷ ts) us =
    ap (◌++◌ (code t)) (codes-append ts us) ∙ sym (append_assoc (code t) (codes ts) (codes us))

pub values-append : (ts us : List Token) → values (ts ++ us) ≡ values ts ++ values us
values-append [] us = refl
values-append (t ∷ ts) us =
    ap (◌++◌ (value t)) (values-append ts us) ∙ sym (append_assoc (value t) (values ts) (values us))

pub codes-snoc : (ts : List Token) (t : Token) → codes (ts ++ t ∷ []) ≡ codes ts ++ code t
codes-snoc ts t = codes-append ts (t ∷ []) ∙ ap (◌++◌ (codes ts)) (append-nil (code t))

pub values-snoc : (ts : List Token) (t : Token) → values (ts ++ t ∷ []) ≡ values ts ++ value t
values-snoc ts t = values-append ts (t ∷ []) ∙ ap (◌++◌ (values ts)) (append-nil (value t))

-- A payload that spells the page.
pub record Spells (payload page : List ℕ) : Type 0 where
  pub tokens : List Token
  pub fine : All TokenOk tokens
  pub spelled : payload ≡ codes tokens
  pub meant : values tokens ≡ page
