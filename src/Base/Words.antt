-- ===== src/Base/Words.antt =====
-- Unsigned machine words: `u64` and `usize` (64 bits on the kernel's targets), with the saturating
-- and checked operations of Rust's integers, and little-endian bytes.
use Prim.Native.Nat.{ℕ, ◌+◌, ◌-◌, ◌*◌, ◌/◌, ◌%◌, min}
use mathlib.Core.Bool.{Bool, ◌||◌}
use mathlib.Core.List.{List, [], ◌∷◌}
use hxnu.Base.Tests.{ltb}

abbrev pub u64_max : ℕ
u64_max = 18446744073709551615

-- `a.saturating_add(b)`, `a.saturating_sub(b)`, `a.saturating_mul(b)`
abbrev pub sat_add : ℕ → ℕ → ℕ
sat_add a b = min (a + b) u64_max

abbrev pub sat_sub : ℕ → ℕ → ℕ
sat_sub a b = a - b

abbrev pub sat_mul : ℕ → ℕ → ℕ
sat_mul a b = min (a * b) u64_max

-- `a.checked_add(b).is_none_or(|end| end > limit)`
abbrev pub ends_past : ℕ → ℕ → ℕ → Bool
ends_past a b limit = ltb u64_max (a + b) || ltb limit (a + b)

abbrev pub u16_bytes : ℕ → List ℕ
u16_bytes v = v % 256 ∷ v / 256 % 256 ∷ []

abbrev pub u32_bytes : ℕ → List ℕ
u32_bytes v = v % 256 ∷ v / 256 % 256 ∷ v / 65536 % 256 ∷ v / 16777216 % 256 ∷ []

abbrev pub u16_of_bytes : ℕ → ℕ → ℕ
u16_of_bytes a b = a + 256 * b

abbrev pub u32_of_bytes : ℕ → ℕ → ℕ → ℕ → ℕ
u32_of_bytes a b c d = a + 256 * b + 65536 * c + 16777216 * d
