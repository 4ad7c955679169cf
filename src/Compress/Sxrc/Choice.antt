-- ===== src/Compress/Sxrc/Choice.antt =====
-- What `pick_token` of kernel/src/mm/compress/codec.rs chooses under the profile.
use native.Mathlib.Numerals.{towards_suc}
use hxnu.Base.{
  ℕ, suc, ◌+◌, ◌≤◌, ◌<◌, ◌^◌, ◌≡◌, refl, ap, sym, ◌∙◌, List, [], ◌∷◌, Option, some, none, arith,
  All, All-get_or, length, get_or, drop, take, slice, drop_cons, leb, Bool-cases, Option-cases, inl,
  inr, u32_bytes, u32_of_bytes, leb→le,
}
use hxnu.Compress.{page_bytes, static_patterns, IsByte}
use hxnu.Compress.Sxrc.Buffer.{dict_decode_bytes}
use hxnu.Compress.Sxrc.Tables.{
  EncodeToken, dictionary, pick_token, best_pattern, best_pattern_at, better_pattern,
  dictionary_choice, lookup_dictionary_by_id, lookup_dictionary_by_value, word_with_id, id_of_word,
  word_at,
}

-- The dictionary finds a word again by the identifier that it gave for it.
pub lookup_dictionary-inverse :
    (v id : ℕ)
    → lookup_dictionary_by_value v ≡ some id
    → (id < 2 ^ 16) × (lookup_dictionary_by_id id ≡ some v)
unfolding lookup_dictionary_by_value lookup_dictionary_by_id id_of_word word_with_id
lookup_dictionary-inverse v id e = ground arith

abbrev IsShort : Option (ℕ × List ℕ) → Type 0
IsShort none = Unit {0}
IsShort (some p) = length p.1 ≤ 3

-- The longest pattern has three bytes, which is what a reference to it takes.
best_pattern-IsShort :
    (page : List ℕ) (offset : ℕ) (table : List (ℕ × List ℕ)) (best : Option (ℕ × List ℕ))
    → All (λ p. length p.1 ≤ 3) table
    → IsShort best
    → IsShort (best_pattern page offset table best)
unfolding best_pattern
best_pattern-IsShort page offset [] best t b = b
best_pattern-IsShort page offset ((id, bytes) ∷ rest) best t b =
    best_pattern-IsShort page offset rest _ t.1 (ground arith)

better_pattern-eq :
    (p : Option (ℕ × List ℕ)) (best : Option (ℕ × EncodeToken))
    → IsShort p
    → better_pattern p best ≡ best
unfolding better_pattern
better_pattern-eq none best h = refl
better_pattern-eq (some (id, bytes)) best h = ground arith

no_pattern :
    (page : List ℕ) (offset : ℕ)
    → better_pattern (best_pattern_at page offset) (dictionary_choice page offset)
      ≡ dictionary_choice page offset
unfolding best_pattern_at
no_pattern page offset =
    better_pattern-eq (best_pattern_at page offset) (dictionary_choice page offset)
      (best_pattern-IsShort page offset static_patterns none (omega arith) tt)

-- Whatever the page, a token that is picked is a dictionary word that stands there whole; a pattern
-- is never picked.
pub pick_token-some :
    (page : List ℕ) (offset : ℕ) (t : EncodeToken)
    → pick_token page offset ≡ some t
    → (id : ℕ) × (t ≡ dictionary id dict_decode_bytes)
      × (offset + dict_decode_bytes ≤ page_bytes)
      × (lookup_dictionary_by_value (word_at page offset) ≡ some id)
unfolding pick_token dictionary_choice
pick_token-some page offset t e = elim (Bool-cases (leb (offset + dict_decode_bytes) page_bytes)) [
  | inl room ↦ elim (Option-cases (lookup_dictionary_by_value (word_at page offset))) [
    | inl gone ↦ absurd (ground (arith, no_pattern page offset))
    | inr (id, found) ↦ (
      id,
      ground (arith, no_pattern page offset),
      leb→le (offset + dict_decode_bytes) page_bytes room,
      found,
    )
  ]
  | inr short ↦ absurd (ground (arith, no_pattern page offset))
]

u32_bytes-of :
    (a b c d : ℕ)
    → a < 256
    → b < 256
    → c < 256
    → d < 256
    → u32_bytes (u32_of_bytes a b c d) ≡ a ∷ b ∷ c ∷ d ∷ []
u32_bytes-of a b c d ha hb hc hd = ground arith

-- The bytes of the word that was read are those of the page.
pub word_at-slice :
    (page : List ℕ) (offset : ℕ)
    → offset + 4 ≤ length page
    → All IsByte page
    → u32_bytes (word_at page offset) ≡ slice page offset 4
word_at-slice page offset room bytes =
    let byte = λ (i : ℕ). All-get_or IsByte i page 0 bytes (omega arith) in
    u32_bytes-of (get_or page offset 0) (get_or page (offset + 1) 0) (get_or page (offset + 2) 0)
      (get_or page (offset + 3) 0) (byte offset) (byte (offset + 1)) (byte (offset + 2))
      (byte (offset + 3))
    ∙ sym (ap (take 4) split)
  where
    split :
        drop offset page
        ≡ get_or page offset 0
          ∷ get_or page (offset + 1) 0
          ∷ get_or page (offset + 2) 0
          ∷ get_or page (offset + 3) 0
          ∷ drop (offset + 4) page
    split = simp towards_suc (
        rw
          (
            drop_cons offset page 0 (omega arith),
            drop_cons (suc offset) page 0 (omega arith),
            drop_cons (suc (suc offset)) page 0 (omega arith),
            drop_cons (suc (suc (suc offset))) page 0 (omega arith),
          )
          refl)
