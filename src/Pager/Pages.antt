-- ===== src/Pager/Pages.antt =====
-- The test pages of kernel/src/mm/pager.rs.
use hxnu.Base.{
  All-set, if◌then◌else◌, ℕ, zero, suc, ◌+◌, ◌*◌, ◌%◌, ◌≡◌, refl, ◌∙◌, inl, inr, List, [], ◌∷◌,
  ◌++◌, arith, All, All-append, All-drop, All-replicate, length, length-set, length-copy_at,
  length-replicate, replicate, set, copy_at, take, drop, ltb, leb, leb→le, Bool-cases, u32_bytes,
}
use hxnu.Compress.{IsByte, IsPage, page_bytes}

abbrev pub zero_page : List ℕ
zero_page = replicate page_bytes 0

abbrev pub same_byte_page : ℕ → List ℕ
same_byte_page byte = replicate page_bytes byte

-- The loops that fill a page, on fuel: each round moves the index on.
pub pattern_loop : ℕ → List ℕ → ℕ → List ℕ
pattern_loop zero page index = page
pattern_loop (suc fuel) page index =
    let rest =
      pattern_loop fuel (set page index ((index % 256 * 17 % 256 + 5) % 256)) (index + 1) in
    if ltb index (length page) then rest else page

pub pattern_page : List ℕ
pattern_page = pattern_loop page_bytes (replicate page_bytes 0) 0

pub word_loop : ℕ → List ℕ → List ℕ → ℕ → List ℕ
word_loop zero bytes page index = page
word_loop (suc fuel) bytes page index =
    let rest = word_loop fuel bytes (copy_at page index bytes) (index + 4) in
    if leb (index + 4) (length page) then rest else page

pub dictionary_word_page : ℕ → List ℕ
dictionary_word_page word = word_loop page_bytes (u32_bytes word) (replicate page_bytes 0) 0

pub same_byte_page-IsPage : (b : ℕ) → IsByte b → IsPage (same_byte_page b)
same_byte_page-IsPage b h = record {
  sized = length-replicate page_bytes b;
  bytes = All-replicate IsByte page_bytes b h;
}

module _ {ℓ κ} {A : Type ℓ} (P : A → Type κ) where
  All-take : (n : ℕ) (xs : List A) → All P xs → All P (take n xs)
  All-take zero xs p = tt
  All-take (suc n) [] p = tt
  All-take (suc n) (x ∷ xs) p = (p.0, All-take n xs p.1)

pattern_loop-IsPage :
    (fuel : ℕ) (page : List ℕ) (index : ℕ) → IsPage page → IsPage (pattern_loop fuel page index)
unfolding pattern_loop
pattern_loop-IsPage zero page index v = v
pattern_loop-IsPage (suc fuel) page index v = elim (Bool-cases (ltb index (length page))) [
  | inl more ↦
      let b = (index % 256 * 17 % 256 + 5) % 256 in
      rw (more, pattern_loop)
        (pattern_loop-IsPage fuel (set page index b) (index + 1) (record {
          sized = length-set page index b ∙ v.sized;
          bytes = All-set IsByte page index b v.bytes (omega arith);
        }))
  | inr done ↦ rw (done, pattern_loop) v
]

pub pattern_page-IsPage : IsPage pattern_page
unfolding pattern_page
pattern_page-IsPage =
    pattern_loop-IsPage page_bytes (replicate page_bytes 0) 0
      (same_byte_page-IsPage 0 (omega arith))

word_loop-IsPage :
    (fuel : ℕ) (bytes page : List ℕ) (index : ℕ)
    → length bytes ≡ 4
    → All IsByte bytes
    → IsPage page
    → IsPage (word_loop fuel bytes page index)
unfolding word_loop
word_loop-IsPage zero bytes page index four small v = v
word_loop-IsPage (suc fuel) bytes page index four small v =
    elim (Bool-cases (leb (index + 4) (length page))) [
      | inl more ↦
          let room = leb→le (index + 4) (length page) more in
          rw (more, word_loop)
            (word_loop-IsPage fuel bytes (copy_at page index bytes) (index + 4) four small (record {
              sized = length-copy_at index page bytes (omega arith) ∙ v.sized;
              bytes =
                  All-append IsByte (take index page ++ bytes) (drop (index + length bytes) page)
                    (All-append IsByte (take index page) bytes (All-take IsByte index page v.bytes)
                      small)
                    (All-drop IsByte (index + length bytes) page v.bytes);
            }))
      | inr done ↦ rw (done, word_loop) v
    ]

pub dictionary_word_page-IsPage : (word : ℕ) → IsPage (dictionary_word_page word)
unfolding dictionary_word_page
dictionary_word_page-IsPage word =
    word_loop-IsPage page_bytes (u32_bytes word) (replicate page_bytes 0) 0 refl (ground arith)
      (same_byte_page-IsPage 0 (omega arith))
