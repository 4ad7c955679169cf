-- ===== src/Base/Bits.antt =====
-- The mask `!(2^k - 1)` of a 64-bit word as arithmetic: it rounds down to a multiple of `2^k`.
use Prim.Native.Nat.{ℕ, zero, suc, ◌+◌, ◌-◌, ◌*◌, ◌/◌, ◌%◌, ◌^◌, ◌≤◌, ◌<◌}
use Prim.Native.Nat.{min, bit_and, digits, bit_and-bitwise}
use mathlib.Core.Path.{◌≡◌, refl, ap, ◌∙◌}
use native.Mathlib.Nat.{pow-suc, one-le-pow}
use native.Mathlib.Omega.{arith}

-- The digits of `a` where those of `mask` are 1, for an `a` of at most `fuel`.
abbrev masked : ℕ → ℕ → ℕ → ℕ
masked fuel a mask = digits (λ _. zero) min fuel a mask

-- A mask of ones keeps every digit.
masked_ones : (fuel n a : ℕ) → a ≤ fuel → a < 2 ^ n → masked fuel a (2 ^ n - 1) ≡ a
masked_ones zero n zero low small = refl
masked_ones zero n (suc a) low small = absurd (omega arith)
masked_ones (suc fuel) n zero low small = refl
masked_ones (suc fuel) zero (suc a) low small = absurd (omega arith)
masked_ones (suc fuel) (suc n) (suc a) low small =
    ground (arith, pow-suc 2 n, one-le-pow n 2, masked_ones fuel n (suc a / 2))

-- With `k` zeros below, the mask keeps `q * 2^k` of `q * 2^k + r`.
masked_high :
    (k fuel n q r a : ℕ)
    → k ≤ n
    → r < 2 ^ k
    → a ≡ q * 2 ^ k + r
    → a ≤ fuel
    → a < 2 ^ n
    → masked fuel a (2 ^ n - 2 ^ k) ≡ q * 2 ^ k
masked_high zero fuel n q r a inside rest parts low small =
    masked_ones fuel n a low small ∙ omega arith
masked_high (suc k) fuel zero q r a inside rest parts low small = absurd (omega arith)
masked_high (suc k) zero (suc n) q r zero inside rest parts low small = omega arith
masked_high (suc k) zero (suc n) q r (suc a) inside rest parts low small = absurd (omega arith)
masked_high (suc k) (suc fuel) (suc n) q r zero inside rest parts low small = omega arith
masked_high (suc k) (suc fuel) (suc n) q r (suc a) inside rest parts low small =
    let half : q * 2 ^ suc k ≡ 2 * (q * 2 ^ k) =
      omega (arith, ap (λ (t : ℕ). q * t) (pow-suc 2 k)) in
    ground (
      arith,
      half,
      pow-suc 2 k,
      pow-suc 2 n,
      masked_high k fuel n q (r / 2) (suc a / 2) (omega arith),
    )

-- Clearing the low `k` bits of an `n`-bit word.
pub bit_and_high_mask :
    (k n a : ℕ) → k ≤ n → a < 2 ^ n → bit_and a (2 ^ n - 2 ^ k) ≡ a / 2 ^ k * 2 ^ k
bit_and_high_mask k n a inside small =
    bit_and-bitwise a (2 ^ n - 2 ^ k)
    ∙ masked_high k a n (a / 2 ^ k) (a % 2 ^ k) a inside (ground (arith, one-le-pow k 2))
        (ground (arith, one-le-pow k 2)) (omega arith) small
