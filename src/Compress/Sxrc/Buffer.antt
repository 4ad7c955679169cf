-- ===== src/Compress/Sxrc/Buffer.antt =====
-- Steps on the output buffer of kernel/src/mm/compress/codec.rs, which an error leaves as far as it was
-- written, and the format's constants.
use hxnu.Base.{ℕ, List, Result, ok, err, ◌≡◌, refl}
use hxnu.Compress.{CompressionError}

-- A step on the output buffer that may fail.
abbrev pub Write : Type 0 → Type 0
Write A = List ℕ → List ℕ × Result A CompressionError

infixl 5 ◌>>=◌
abbrev pub ◌>>=◌ : {A B : Type 0} → Write A → (A → Write B) → Write B
◌>>=◌ m f out = let r = m out in elim r.1 [ ok a ↦ f a r.0 | err e ↦ (r.0, err e) ]

abbrev pub return : {A : Type 0} → A → Write A
return a out = (out, ok a)

abbrev pub throw : {A : Type 0} → CompressionError → Write A
throw e out = (out, err e)

abbrev pub token_literal : ℕ
token_literal = 0

abbrev pub token_dict : ℕ
token_dict = 1

abbrev pub token_pattern : ℕ
token_pattern = 2

abbrev pub token_ref_bytes : ℕ
token_ref_bytes = 3

abbrev pub dict_decode_bytes : ℕ
dict_decode_bytes = 4

-- Inversion of a step that succeeded.
pub >>=-ok :
    {A B : Type 0} (m : Write A) (f : A → Write B) (out out' : List ℕ) (b : B)
    → (m >>= f) out ≡ (out', ok b)
    → (mid : List ℕ) × (a : A) × (m out ≡ (mid, ok a)) × (f a mid ≡ (out', ok b))
>>=-ok {A} {B} m f out out' b e = go (m out) refl e
  where
    go :
        (r : List ℕ × Result A CompressionError)
        → m out ≡ r
        → elim r.1 as (λ _. List ℕ × Result B CompressionError) [
          | ok a ↦ f a r.0
          | err x ↦ (r.0, err x)
        ]
          ≡ (out', ok b)
        → (mid : List ℕ) × (a : A) × (m out ≡ (mid, ok a)) × (f a mid ≡ (out', ok b))
    go (mid, ok a) p q = (mid, a, p, q)
    go (mid, err x) p q = cc

pub >>=_ok :
    {A B : Type 0} (m : Write A) (f : A → Write B) (out : List ℕ) (a : A)
    → (m out).1 ≡ ok a
    → (m >>= f) out ≡ f a (m out).0
>>=_ok m f out a e = rw (e, ◌>>=◌) refl

pub >>=_err :
    {A B : Type 0} (m : Write A) (f : A → Write B) (out : List ℕ) (x : CompressionError)
    → (m out).1 ≡ err x
    → (m >>= f) out ≡ ((m out).0, err x)
>>=_err m f out x e = rw (e, ◌>>=◌) refl
