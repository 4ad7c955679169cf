-- ===== src/Compress/Sxrc/Tables.antt =====
-- The searches of the profile's tables in kernel/src/mm/compress/codec.rs, and the choice of a token.
use hxnu.Base.{
  ℕ, ◌+◌, Option, none, some, Bool, true, false, not, ◌&&◌, List, [], ◌∷◌, ltb, leb, ◌==◌,
  if◌then◌else◌, sat_sub, get_or, slice, length, u32_of_bytes,
}
use hxnu.Compress.{page_bytes, static_dictionary, static_patterns}
use hxnu.Compress.Sxrc.Buffer.{token_ref_bytes, dict_decode_bytes}

-- The searches of the profile's tables.
unfoldable pub word_with_id : List (ℕ × ℕ) → ℕ → Option ℕ
word_with_id [] id = none
word_with_id ((entry_id, word) ∷ rest) id =
    if entry_id == id then some word else word_with_id rest id

unfoldable pub id_of_word : List (ℕ × ℕ) → ℕ → Option ℕ
id_of_word [] value = none
id_of_word ((id, word) ∷ rest) value = if word == value then some id else id_of_word rest value

unfoldable pub pattern_with_id : List (ℕ × List ℕ) → ℕ → Option (List ℕ)
pattern_with_id [] id = none
pattern_with_id ((entry_id, bytes) ∷ rest) id =
    if entry_id == id then some bytes else pattern_with_id rest id

unfoldable pub lookup_dictionary_by_id : ℕ → Option ℕ
lookup_dictionary_by_id = word_with_id static_dictionary

unfoldable pub lookup_dictionary_by_value : ℕ → Option ℕ
lookup_dictionary_by_value = id_of_word static_dictionary

unfoldable pub lookup_pattern_by_id : ℕ → Option (List ℕ)
lookup_pattern_by_id = pattern_with_id static_patterns

-- `==` on byte slices
unfoldable pub same_bytes : List ℕ → List ℕ → Bool
same_bytes [] [] = true
same_bytes [] (y ∷ ys) = false
same_bytes (x ∷ xs) [] = false
same_bytes (x ∷ xs) (y ∷ ys) = x == y && same_bytes xs ys

abbrev pub is_longer : ℕ → Option (ℕ × List ℕ) → Bool
is_longer len none = true
is_longer len (some (id, current)) = ltb (length current) len

-- The loop of `best_pattern_at`, with the best pattern so far.
unfoldable pub best_pattern :
    List ℕ → ℕ → List (ℕ × List ℕ) → Option (ℕ × List ℕ) → Option (ℕ × List ℕ)
best_pattern page offset [] best = best
best_pattern page offset ((id, bytes) ∷ rest) best = best_pattern page offset rest (
    if length bytes == 0
    then best
    else if ltb page_bytes (offset + length bytes)
    then best
    else if not (same_bytes (slice page offset (length bytes)) bytes)
    then best
    else if is_longer (length bytes) best
    then some (id, bytes)
    else best)

unfoldable pub best_pattern_at : List ℕ → ℕ → Option (ℕ × List ℕ)
best_pattern_at page offset = best_pattern page offset static_patterns none

pub data EncodeToken : Type 0 where
  dictionary : ℕ → ℕ → EncodeToken
  pattern : ℕ → ℕ → EncodeToken

-- `decoded_len.saturating_sub(TOKEN_REF_BYTES)`
abbrev pub savings : ℕ → ℕ
savings decoded_len = sat_sub decoded_len token_ref_bytes

abbrev pub word_at : List ℕ → ℕ → ℕ
word_at page offset =
    u32_of_bytes (get_or page offset 0) (get_or page (offset + 1) 0) (get_or page (offset + 2) 0)
      (get_or page (offset + 3) 0)

unfoldable pub dictionary_choice : List ℕ → ℕ → Option (ℕ × EncodeToken)
dictionary_choice page offset =
    if leb (offset + dict_decode_bytes) page_bytes
    then elim (lookup_dictionary_by_value (word_at page offset)) [
      | none ↦ none
      | some id ↦
          if ltb 0 (savings dict_decode_bytes)
          then some (savings dict_decode_bytes, dictionary id dict_decode_bytes)
          else none
    ]
    else none

abbrev pub saves_more : ℕ → Option (ℕ × EncodeToken) → Bool
saves_more saved none = true
saves_more saved (some (current, token)) = ltb current saved

unfoldable pub better_pattern :
    Option (ℕ × List ℕ) → Option (ℕ × EncodeToken) → Option (ℕ × EncodeToken)
better_pattern none best = best
better_pattern (some (id, bytes)) best =
    if ltb 0 (savings (length bytes)) && saves_more (savings (length bytes)) best
    then some (savings (length bytes), pattern id (length bytes))
    else best

unfoldable pub pick_token : List ℕ → ℕ → Option EncodeToken
pick_token page offset =
    elim (better_pattern (best_pattern_at page offset) (dictionary_choice page offset)) [
      | none ↦ none
      | some (saved, token) ↦ some token
    ]
