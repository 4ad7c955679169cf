-- ===== src/Base/Lists.antt =====
-- Lists measured and indexed by native numbers: arrays and slices of bytes.
use Prim.Native.Nat.{ℕ, zero, suc, ◌+◌, ◌-◌, ◌≤◌, ◌<◌, min}
use mathlib.Core.Path.{◌≡◌, refl, ap, sym, ◌∙◌}
use mathlib.Core.List.{List, [], ◌∷◌, ◌++◌, append_assoc}
use native.Mathlib.Omega.{arith}
use native.Mathlib.Numerals.{add-one}

module _ {ℓ} {A : Type ℓ} where
  abbrev pub length : List A → ℕ
  length [] = 0
  length (x ∷ xs) = suc (length xs)

  abbrev pub get_or : List A → ℕ → A → A
  get_or [] i d = d
  get_or (x ∷ xs) zero d = x
  get_or (x ∷ xs) (suc i) d = get_or xs i d

  -- A write out of bounds changes nothing.
  abbrev pub set : List A → ℕ → A → List A
  set [] i v = []
  set (x ∷ xs) zero v = v ∷ xs
  set (x ∷ xs) (suc i) v = x ∷ set xs i v

  abbrev pub take : ℕ → List A → List A
  take zero xs = []
  take (suc n) [] = []
  take (suc n) (x ∷ xs) = x ∷ take n xs

  abbrev pub drop : ℕ → List A → List A
  drop zero xs = xs
  drop (suc n) [] = []
  drop (suc n) (x ∷ xs) = drop n xs

  abbrev pub replicate : ℕ → A → List A
  replicate zero a = []
  replicate (suc n) a = a ∷ replicate n a

  -- `xs[i..i + n]`
  abbrev pub slice : List A → ℕ → ℕ → List A
  slice xs i n = take n (drop i xs)

  pub length-append : (xs ys : List A) → length (xs ++ ys) ≡ length xs + length ys
  length-append [] ys = omega arith
  length-append (x ∷ xs) ys = omega (arith, length-append xs ys)

  -- `xs[i..i + ys.len()].copy_from_slice(ys)`
  abbrev pub copy_at : List A → ℕ → List A → List A
  copy_at xs i ys = take i xs ++ ys ++ drop (i + length ys) xs

  abbrev pub All {κ} : (A → Type κ) → List A → Type κ
  All P [] = Unit
  All P (x ∷ xs) = P x × All P xs

module _ {ℓ} {A : Type ℓ} where
  pub length-take : (n : ℕ) (xs : List A) → length (take n xs) ≡ min n (length xs)
  length-take zero xs = omega arith
  length-take (suc n) [] = omega arith
  length-take (suc n) (x ∷ xs) = omega (arith, length-take n xs)

  pub length-drop : (n : ℕ) (xs : List A) → length (drop n xs) ≡ length xs - n
  length-drop zero xs = omega arith
  length-drop (suc n) [] = omega arith
  length-drop (suc n) (x ∷ xs) = omega (arith, length-drop n xs)

  pub length-set : (xs : List A) (i : ℕ) (v : A) → length (set xs i v) ≡ length xs
  length-set [] i v = refl
  length-set (x ∷ xs) zero v = refl
  length-set (x ∷ xs) (suc i) v = ap suc (length-set xs i v)

  pub length-replicate : (n : ℕ) (a : A) → length (replicate n a) ≡ n
  length-replicate zero a = refl
  length-replicate (suc n) a = ap suc (length-replicate n a)

  pub take-append-drop : (n : ℕ) (xs : List A) → take n xs ++ drop n xs ≡ xs
  take-append-drop zero xs = refl
  take-append-drop (suc n) [] = refl
  take-append-drop (suc n) (x ∷ xs) = ap (◌∷◌ x) (take-append-drop n xs)

  pub take_all : (n : ℕ) (xs : List A) → length xs ≤ n → take n xs ≡ xs
  take_all zero [] h = refl
  take_all zero (x ∷ xs) h = absurd (omega arith)
  take_all (suc n) [] h = refl
  take_all (suc n) (x ∷ xs) h = ap (◌∷◌ x) (take_all n xs (omega arith))

  pub drop_all : (n : ℕ) (xs : List A) → length xs ≤ n → drop n xs ≡ []
  drop_all zero [] h = refl
  drop_all zero (x ∷ xs) h = absurd (omega arith)
  drop_all (suc n) [] h = refl
  drop_all (suc n) (x ∷ xs) h = drop_all n xs (omega arith)

  -- The first `length xs` elements of `xs ++ ys`, and what follows them.
  pub take-append : (n : ℕ) (xs ys : List A) → n ≡ length xs → take n (xs ++ ys) ≡ xs
  take-append zero [] ys e = refl
  take-append zero (x ∷ xs) ys e = absurd (omega arith)
  take-append (suc n) [] ys e = absurd (omega arith)
  take-append (suc n) (x ∷ xs) ys e = ap (◌∷◌ x) (take-append n xs ys (omega arith))

  pub drop-append : (n : ℕ) (xs ys : List A) → n ≡ length xs → drop n (xs ++ ys) ≡ ys
  drop-append zero [] ys e = refl
  drop-append zero (x ∷ xs) ys e = absurd (omega arith)
  drop-append (suc n) [] ys e = absurd (omega arith)
  drop-append (suc n) (x ∷ xs) ys e = drop-append n xs ys (omega arith)

  pub drop-drop : (i j k : ℕ) (xs : List A) → k ≡ i + j → drop j (drop i xs) ≡ drop k xs
  drop-drop zero j k xs e = let e' : j ≡ k = omega arith in ap (λ n. drop n xs) e'
  drop-drop (suc i) zero zero [] e = refl
  drop-drop (suc i) zero (suc k) [] e = refl
  drop-drop (suc i) (suc j) zero [] e = refl
  drop-drop (suc i) (suc j) (suc k) [] e = refl
  drop-drop (suc i) j zero (x ∷ xs) e = absurd (omega arith)
  drop-drop (suc i) j (suc k) (x ∷ xs) e = drop-drop i j k xs (omega arith)

  pub take-plus : (i j k : ℕ) (xs : List A) → k ≡ i + j → take k xs ≡ take i xs ++ slice xs i j
  take-plus zero j k xs e = let e' : k ≡ j = omega arith in ap (λ n. take n xs) e'
  take-plus (suc i) zero zero [] e = refl
  take-plus (suc i) zero (suc k) [] e = refl
  take-plus (suc i) (suc j) zero [] e = refl
  take-plus (suc i) (suc j) (suc k) [] e = refl
  take-plus (suc i) j zero (x ∷ xs) e = absurd (omega arith)
  take-plus (suc i) j (suc k) (x ∷ xs) e = ap (◌∷◌ x) (take-plus i j k xs (omega arith))

  -- Reading the element at `i` of a list whose tail from `i` is known.
  pub get_or-drop :
      (i : ℕ) (xs : List A) (y : A) (ys : List A) (d : A) → drop i xs ≡ y ∷ ys → get_or xs i d ≡ y
  get_or-drop zero [] y ys d e = cc
  get_or-drop zero (x ∷ xs) y ys d e = cc
  get_or-drop (suc i) [] y ys d e = cc
  get_or-drop (suc i) (x ∷ xs) y ys d e = get_or-drop i xs y ys d e

  pub lt_of_drop : (i : ℕ) (xs : List A) (y : A) (ys : List A) → drop i xs ≡ y ∷ ys → i < length xs
  lt_of_drop zero [] y ys e = cc
  lt_of_drop zero (x ∷ xs) y ys e = omega arith
  lt_of_drop (suc i) [] y ys e = cc
  lt_of_drop (suc i) (x ∷ xs) y ys e = omega (arith, lt_of_drop i xs y ys e)

  pub drop_cons :
      (i : ℕ) (xs : List A) (d : A) → i < length xs → drop i xs ≡ get_or xs i d ∷ drop (suc i) xs
  drop_cons i [] d h = absurd (omega arith)
  drop_cons zero (x ∷ xs) d h = refl
  drop_cons (suc i) (x ∷ xs) d h = drop_cons i xs d (omega arith)

  pub drop_one :
      (i : ℕ) (xs : List A) (d : A) → i < length xs → drop i xs ≡ get_or xs i d ∷ drop (i + 1) xs
  drop_one i xs d h = rw add-one (drop_cons i xs d h)

  -- The tail of a tail that is known.
  pub drop_next :
      (i j : ℕ) (xs : List A) (y : A) (ys : List A)
      → drop i xs ≡ y ∷ ys
      → j ≡ i + 1
      → drop j xs ≡ ys
  drop_next i j xs y ys e k = sym (drop-drop i 1 j xs k) ∙ ap (drop 1) e

  -- A write of one element, and of a run, seen from the front.
  pub take-set :
      (i j : ℕ) (xs : List A) (v : A)
      → j ≡ i + 1
      → i < length xs
      → take j (set xs i v) ≡ take i xs ++ v ∷ []
  take-set i j [] v e h = absurd (omega arith)
  take-set zero zero (x ∷ xs) v e h = absurd (omega arith)
  take-set zero (suc zero) (x ∷ xs) v e h = refl
  take-set zero (suc (suc j)) (x ∷ xs) v e h = absurd (omega arith)
  take-set (suc i) zero (x ∷ xs) v e h = absurd (omega arith)
  take-set (suc i) (suc j) (x ∷ xs) v e h =
      ap (◌∷◌ x) (take-set i j xs v (omega arith) (omega arith))

  pub take-copy_at :
      (i n : ℕ) (xs ys : List A)
      → n ≡ i + length ys
      → n ≤ length xs
      → take n (copy_at xs i ys) ≡ take i xs ++ ys
  take-copy_at i n xs ys e h =
      take-append n (take i xs ++ ys) (drop (i + length ys) xs)
        (omega (arith, length-append (take i xs) ys, length-take i xs))

  pub length-copy_at :
      (i : ℕ) (xs ys : List A) → i + length ys ≤ length xs → length (copy_at xs i ys) ≡ length xs
  length-copy_at i xs ys h = omega (
    arith,
    length-append (take i xs ++ ys) (drop (i + length ys) xs),
    length-append (take i xs) ys,
    length-take i xs,
    length-drop (i + length ys) xs,
  )

module _ {ℓ} {A : Type ℓ} where
  pub take-append_more :
      (k n : ℕ) (xs ys : List A) → k ≡ length xs + n → take k (xs ++ ys) ≡ xs ++ take n ys
  take-append_more k n [] ys e = let e' : k ≡ n = omega arith in ap (λ m. take m ys) e'
  take-append_more zero n (x ∷ xs) ys e = absurd (omega arith)
  take-append_more (suc k) n (x ∷ xs) ys e = ap (◌∷◌ x) (take-append_more k n xs ys (omega arith))

  -- What was written is read back.
  pub slice-set : (xs : List A) (i : ℕ) (v : A) → i < length xs → slice (set xs i v) i 1 ≡ v ∷ []
  slice-set [] i v h = absurd (omega arith)
  slice-set (x ∷ xs) zero v h = refl
  slice-set (x ∷ xs) (suc i) v h = slice-set xs i v (omega arith)

  pub slice-copy_at :
      (i : ℕ) (xs ys : List A) → i ≤ length xs → slice (copy_at xs i ys) i (length ys) ≡ ys
  slice-copy_at i xs ys h =
      ap (λ l. take (length ys) (drop i l)) (append_assoc (take i xs) ys (drop (i + length ys) xs))
      ∙ ap (take (length ys)) (
          drop-append i (take i xs) (ys ++ drop (i + length ys) xs)
            (omega (arith, length-take i xs)))
      ∙ take-append (length ys) ys (drop (i + length ys) xs) refl

module _ {ℓ κ} {A : Type ℓ} (P : A → Type κ) where
  pub All-append : (xs ys : List A) → All P xs → All P ys → All P (xs ++ ys)
  All-append [] ys p q = q
  All-append (x ∷ xs) ys p q = (p.0, All-append xs ys p.1 q)

  pub All-replicate : (n : ℕ) (a : A) → P a → All P (replicate n a)
  All-replicate zero a p = tt
  All-replicate (suc n) a p = (p, All-replicate n a p)

  pub All-drop : (n : ℕ) (xs : List A) → All P xs → All P (drop n xs)
  All-drop zero xs p = p
  All-drop (suc n) [] p = tt
  All-drop (suc n) (x ∷ xs) p = All-drop n xs p.1

  pub All-get_or : (i : ℕ) (xs : List A) (d : A) → All P xs → P d → P (get_or xs i d)
  All-get_or i [] d p q = q
  All-get_or zero (x ∷ xs) d p q = p.0
  All-get_or (suc i) (x ∷ xs) d p q = All-get_or i xs d p.1 q
