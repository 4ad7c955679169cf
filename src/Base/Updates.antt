-- ===== src/Base/Updates.antt =====
-- Arrays of slots: reads behind writes, in the form that automation uses, and membership.
use Prim.Native.Nat.{ℕ, zero, suc, ◌+◌, ◌≤◌, ◌<◌}
use mathlib.Core.Path.{◌≡◌, refl, ap}
use mathlib.Core.Logic.{◌≢◌, inl, inr}
use mathlib.Core.Bool.{Bool, true, false, ◌||◌}
use mathlib.Core.List.{List, [], ◌∷◌, ◌++◌}
use native.Mathlib.Omega.{arith}
use hxnu.Base.Tests.{◌==◌, if◌then◌else◌, Bool-cases, ==→eq}
use hxnu.Base.Lists.{length, get_or, set, replicate, All}

module _ {ℓ} {A : Type ℓ} where
  pub get_or-set_self :
      (xs : List A) (i : ℕ) (v d : A) → i < length xs → get_or (set xs i v) i d ≡ v
  get_or-set_self [] i v d h = absurd (omega arith)
  get_or-set_self (x ∷ xs) zero v d h = refl
  get_or-set_self (x ∷ xs) (suc i) v d h = get_or-set_self xs i v d (omega arith)

  pub get_or-set_other :
      (xs : List A) (i j : ℕ) (v d : A) → j ≢ i → get_or (set xs i v) j d ≡ get_or xs j d
  get_or-set_other [] i j v d h = refl
  get_or-set_other (x ∷ xs) zero zero v d h = absurd (h refl)
  get_or-set_other (x ∷ xs) zero (suc j) v d h = refl
  get_or-set_other (x ∷ xs) (suc i) zero v d h = refl
  get_or-set_other (x ∷ xs) (suc i) (suc j) v d h = get_or-set_other xs i j v d (λ e. h (ap suc e))

  pub get_or-set :
      (xs : List A) (i j : ℕ) (v d : A)
      → i < length xs
      → get_or (set xs i v) j d ≡ (if j == i then v else get_or xs j d)
  get_or-set [] i j v d h = absurd (omega arith)
  get_or-set (x ∷ xs) zero zero v d h = refl
  get_or-set (x ∷ xs) zero (suc j) v d h = ground arith
  get_or-set (x ∷ xs) (suc i) zero v d h = ground arith
  get_or-set (x ∷ xs) (suc i) (suc j) v d h = ground (arith, get_or-set xs i j v d)

  pub set-get_or : (xs : List A) (i : ℕ) (d : A) → set xs i (get_or xs i d) ≡ xs
  set-get_or [] i d = refl
  set-get_or (x ∷ xs) zero d = refl
  set-get_or (x ∷ xs) (suc i) d = ap (◌∷◌ x) (set-get_or xs i d)

  pub get_or-replicate : (n i : ℕ) (v d : A) → i < n → get_or (replicate n v) i d ≡ v
  get_or-replicate zero i v d h = absurd (omega arith)
  get_or-replicate (suc n) zero v d h = refl
  get_or-replicate (suc n) (suc i) v d h = get_or-replicate n i v d (omega arith)

  pub get_or-replicate_same : (n i : ℕ) (v : A) → get_or (replicate n v) i v ≡ v
  get_or-replicate_same zero i v = refl
  get_or-replicate_same (suc n) zero v = refl
  get_or-replicate_same (suc n) (suc i) v = get_or-replicate_same n i v

  pub get_or-append_front :
      (xs ys : List A) (i : ℕ) (d : A) → i < length xs → get_or (xs ++ ys) i d ≡ get_or xs i d
  get_or-append_front [] ys i d h = absurd (omega arith)
  get_or-append_front (x ∷ xs) ys zero d h = refl
  get_or-append_front (x ∷ xs) ys (suc i) d h = get_or-append_front xs ys i d (omega arith)

  pub set-set : (xs : List A) (i : ℕ) (v w : A) → set (set xs i v) i w ≡ set xs i w
  set-set [] i v w = refl
  set-set (x ∷ xs) zero v w = refl
  set-set (x ∷ xs) (suc i) v w = ap (◌∷◌ x) (set-set xs i v w)

  pub All-set {κ} :
      (P : A → Type κ) (xs : List A) (i : ℕ) (v : A) → All P xs → P v → All P (set xs i v)
  All-set P [] i v p q = tt
  All-set P (x ∷ xs) zero v p q = (q, p.1)
  All-set P (x ∷ xs) (suc i) v p q = (p.0, All-set P xs i v p.1 q)

abbrev pub has : List ℕ → ℕ → Bool
has [] x = false
has (y ∷ ys) x = y == x || has ys x

-- The list without the first `x`.
abbrev pub erase : ℕ → List ℕ → List ℕ
erase x [] = []
erase x (y ∷ ys) = if y == x then ys else y ∷ erase x ys

abbrev pub Distinct : List ℕ → Type 0
Distinct [] = Unit
Distinct (x ∷ xs) = (has xs x ≡ false) × Distinct xs

pub has-append : (xs : List ℕ) (y x : ℕ) → has (xs ++ y ∷ []) x ≡ (has xs x || y == x)
has-append [] y x = ground arith
has-append (z ∷ zs) y x = ground (arith, has-append zs y x)

pub Distinct-append :
    (xs : List ℕ) (y : ℕ) → Distinct xs → has xs y ≡ false → Distinct (xs ++ y ∷ [])
Distinct-append [] y u e = (refl, tt)
Distinct-append (x ∷ xs) y u e =
    (ground (arith, has-append xs y x), Distinct-append xs y u.1 (ground arith))

pub erase_absent : (x : ℕ) (xs : List ℕ) → has xs x ≡ false → erase x xs ≡ xs
erase_absent x [] e = refl
erase_absent x (y ∷ ys) e = ground (arith, erase_absent x ys)

pub has-erase_other : (x y : ℕ) (xs : List ℕ) → y ≢ x → has (erase x xs) y ≡ has xs y
has-erase_other x y [] apart = refl
has-erase_other x y (z ∷ zs) apart = ground (arith, has-erase_other x y zs apart)

pub has-erase_self : (x : ℕ) (xs : List ℕ) → Distinct xs → has (erase x xs) x ≡ false
has-erase_self x [] u = refl
has-erase_self x (y ∷ ys) u = ground (arith, has-erase_self x ys u.1)

pub has-erase_some : (x y : ℕ) (xs : List ℕ) → has xs y ≡ false → has (erase x xs) y ≡ false
has-erase_some x y [] e = refl
has-erase_some x y (z ∷ zs) e = ground (arith, has-erase_some x y zs)

pub Distinct-erase : (x : ℕ) (xs : List ℕ) → Distinct xs → Distinct (erase x xs)
Distinct-erase x [] u = tt
Distinct-erase x (y ∷ ys) u = elim (Bool-cases (y == x)) [
  | inl e ↦ rw e u.1
  | inr e ↦ rw e (has-erase_some x y ys u.0, Distinct-erase x ys u.1)
]

pub length-erase : (x : ℕ) (xs : List ℕ) → has xs x ≡ true → length (erase x xs) + 1 ≡ length xs
length-erase x [] e = absurd (ground arith)
length-erase x (y ∷ ys) e = ground (arith, length-erase x ys)

-- Numbers below `n`, each at most once, are at most `n`.
pub length_bounded :
    (n : ℕ) (xs : List ℕ) → ((x : ℕ) → has xs x ≡ true → x < n) → Distinct xs → length xs ≤ n
length_bounded zero [] below u = omega arith
length_bounded zero (x ∷ xs) below u = absurd (ground (arith, below x))
length_bounded (suc n) xs below u =
    let rest =
      length_bounded n (erase n xs)
        (λ x e. elim (Bool-cases (x == n)) [
          | inl same ↦ absurd (ground (arith, has-erase_self n xs u, ==→eq x n same))
          | inr other ↦ ground (arith, below x, has-erase_other n x xs)
        ])
        (Distinct-erase n xs u) in
    elim (Bool-cases (has xs n)) [
      | inl there ↦ omega (arith, length-erase n xs there)
      | inr gone ↦ let same = erase_absent n xs gone in omega (arith, ap length same)
    ]

-- Where a number stands.
pub position :
    (xs : List ℕ) (x d : ℕ) → has xs x ≡ true → (i : ℕ) × (i < length xs) × (get_or xs i d ≡ x)
position [] x d e = absurd (ground arith)
position (y ∷ ys) x d e = elim (Bool-cases (y == x)) [
  | inl here ↦ (0, omega arith, ==→eq y x here)
  | inr other ↦
      let (i, below, at) = position ys x d (ground (arith, other, e)) in
      (suc i, omega (arith, below), at)
]
