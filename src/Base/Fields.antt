-- ===== src/Base/Fields.antt =====
-- Fields of a machine word: `|` of disjoint fields is a sum, and the mask `2^k - 1` is a remainder.
use Prim.Native.Nat.{
  ℕ, zero, suc, ◌+◌, ◌-◌, ◌*◌, ◌/◌, ◌%◌, ◌^◌, ◌≤◌, ◌<◌, min, max, bit_and, bit_or, digits,
  bit_and-bitwise, bit_or-bitwise,
}
use mathlib.Core.Path.{◌≡◌, refl, ap, ◌∙◌}
use native.Mathlib.Nat.{pow-suc, one-le-pow}
use native.Mathlib.Omega.{arith}

joined_fields :
    (fuel k q a b : ℕ) → a ≡ q * 2 ^ k → b < 2 ^ k → a ≤ fuel → digits (λ c. c) max fuel a b ≡ a + b
joined_fields zero k q zero b parts small low = omega arith
joined_fields zero k q (suc a) b parts small low = absurd (omega arith)
joined_fields (suc fuel) k q zero b parts small low = omega arith
joined_fields (suc fuel) zero q (suc a) b parts small low =
    ground (arith, joined_fields fuel zero (suc a / 2) (suc a / 2) (b / 2) (omega arith))
joined_fields (suc fuel) (suc k) q (suc a) b parts small low =
    let half : q * 2 ^ suc k ≡ 2 * (q * 2 ^ k) =
      omega (arith, ap (λ (t : ℕ). q * t) (pow-suc 2 k)) in
    ground (arith, half, pow-suc 2 k, joined_fields fuel k q (suc a / 2) (b / 2) (omega arith))

-- A multiple of `2^k` and a number of `k` bits.
pub bit_or_fields : (k q b : ℕ) → b < 2 ^ k → bit_or (q * 2 ^ k) b ≡ q * 2 ^ k + b
bit_or_fields k q b small =
    bit_or-bitwise (q * 2 ^ k) b
    ∙ joined_fields (q * 2 ^ k) k q (q * 2 ^ k) b refl small (omega arith)

low_field :
    (fuel k q r a : ℕ)
    → a ≡ q * 2 ^ k + r
    → r < 2 ^ k
    → a ≤ fuel
    → digits (λ _. zero) min fuel a (2 ^ k - 1) ≡ r
low_field zero k q r zero parts small low = omega arith
low_field (suc fuel) k q r zero parts small low = omega arith
low_field zero k q r (suc a) parts small low = absurd (omega arith)
low_field (suc fuel) zero q r (suc a) parts small low =
    ground (arith, low_field fuel zero (suc a / 2) zero (suc a / 2) (omega arith))
low_field (suc fuel) (suc k) q r (suc a) parts small low =
    let half : q * 2 ^ suc k ≡ 2 * (q * 2 ^ k) =
      omega (arith, ap (λ (t : ℕ). q * t) (pow-suc 2 k)) in
    ground (
      arith,
      half,
      pow-suc 2 k,
      one-le-pow k 2,
      low_field fuel k q (r / 2) (suc a / 2) (omega arith),
    )

-- The low `k` bits.
pub bit_and_low_mask : (k a : ℕ) → bit_and a (2 ^ k - 1) ≡ a % 2 ^ k
bit_and_low_mask k a =
    bit_and-bitwise a (2 ^ k - 1)
    ∙ low_field a k (a / 2 ^ k) (a % 2 ^ k) a (ground (arith, one-le-pow k 2))
        (ground (arith, one-le-pow k 2)) (omega arith)
