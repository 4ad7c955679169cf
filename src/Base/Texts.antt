-- ===== src/Base/Texts.antt =====
-- Texts as the lists of their bytes: comparison, prefixes, and the pieces between separators.
use Prim.Native.Nat.{ℕ}
use mathlib.Core.Path.{◌≡◌, refl, ap, ◌∙◌}
use mathlib.Core.Logic.{inl, inr}
use mathlib.Core.Bool.{Bool, true, false, ◌&&◌, ◌||◌}
use mathlib.Core.List.{List, [], ◌∷◌, ◌++◌}
use native.Mathlib.Omega.{arith}
use hxnu.Base.Tests.{◌==◌, if◌then◌else◌, Bool-cases, ==→eq, eq→==}

abbrev pub text_eq : List ℕ → List ℕ → Bool
text_eq [] [] = true
text_eq [] (d ∷ ds) = false
text_eq (c ∷ cs) [] = false
text_eq (c ∷ cs) (d ∷ ds) = c == d && text_eq cs ds

abbrev pub starts_with : List ℕ → List ℕ → Bool
starts_with text [] = true
starts_with [] (d ∷ ds) = false
starts_with (c ∷ cs) (d ∷ ds) = c == d && starts_with cs ds

-- `contains` and `split` for one byte, which is the separator.
abbrev pub contains : List ℕ → ℕ → Bool
contains [] sep = false
contains (c ∷ cs) sep = c == sep || contains cs sep

abbrev pub put_front : ℕ → List (List ℕ) → List (List ℕ)
put_front c [] = (c ∷ []) ∷ []
put_front c (piece ∷ pieces) = (c ∷ piece) ∷ pieces

abbrev pub split : ℕ → List ℕ → List (List ℕ)
split sep [] = [] ∷ []
split sep (c ∷ cs) = let rest = split sep cs in if c == sep then [] ∷ rest else put_front c rest

pub text_eq→eq : (a b : List ℕ) → text_eq a b ≡ true → a ≡ b
text_eq→eq [] [] e = refl
text_eq→eq [] (d ∷ ds) e = absurd (ground arith)
text_eq→eq (c ∷ cs) [] e = absurd (ground arith)
text_eq→eq (c ∷ cs) (d ∷ ds) e =
    let head : c ≡ d = ==→eq c d (ground arith) in
    let tail : cs ≡ ds = text_eq→eq cs ds (ground arith) in
    ap (λ l. c ∷ l) tail ∙ ap (λ n. n ∷ ds) head

pub text_eq_refl : (a : List ℕ) → text_eq a a ≡ true
text_eq_refl [] = refl
text_eq_refl (c ∷ cs) = ground (arith, eq→== c c refl, text_eq_refl cs)

pub text_eq_comm : (a b : List ℕ) → text_eq a b ≡ text_eq b a
text_eq_comm [] [] = refl
text_eq_comm [] (d ∷ ds) = refl
text_eq_comm (c ∷ cs) [] = refl
text_eq_comm (c ∷ cs) (d ∷ ds) = ground (arith, text_eq_comm cs ds)

-- The pieces of a text that goes on behind a separator.
pub split-append :
    (sep : ℕ) (piece rest : List ℕ)
    → contains piece sep ≡ false
    → split sep (piece ++ sep ∷ rest) ≡ piece ∷ split sep rest
split-append sep [] rest free = rw (eq→== sep sep refl) refl
split-append sep (c ∷ cs) rest free = elim (Bool-cases (c == sep)) [
  | inl here ↦ absurd (ground (arith, here, free))
  | inr other ↦ let e = split-append sep cs rest (ground (arith, other, free)) in rw (other, e) refl
]

pub split_whole :
    (sep : ℕ) (piece : List ℕ) → contains piece sep ≡ false → split sep piece ≡ piece ∷ []
split_whole sep [] free = refl
split_whole sep (c ∷ cs) free = elim (Bool-cases (c == sep)) [
  | inl here ↦ absurd (ground (arith, here, free))
  | inr other ↦ let e = split_whole sep cs (ground (arith, other, free)) in rw (other, e) refl
]

-- No piece has the separator.
abbrev pub Pieces : ℕ → List (List ℕ) → Type 0
Pieces sep [] = Unit
Pieces sep (p ∷ ps) = (contains p sep ≡ false) × Pieces sep ps

put_front-Pieces :
    (sep c : ℕ) (ps : List (List ℕ))
    → (c == sep) ≡ false
    → Pieces sep ps
    → Pieces sep (put_front c ps)
put_front-Pieces sep c [] other v = (ground (arith, other), tt)
put_front-Pieces sep c (p ∷ ps) other v = (ground (arith, other, v.0), v.1)

pub split-Pieces : (sep : ℕ) (text : List ℕ) → Pieces sep (split sep text)
split-Pieces sep [] = (refl, tt)
split-Pieces sep (c ∷ cs) = elim (Bool-cases (c == sep)) [
  | inl here ↦ rw here (refl, split-Pieces sep cs)
  | inr other ↦ rw other (put_front-Pieces sep c (split sep cs) other (split-Pieces sep cs))
]
