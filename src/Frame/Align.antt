-- ===== src/Frame/Align.antt =====
-- `align_up` and `align_down` of kernel/src/mm/frame.rs (and of mm/heap.rs) as arithmetic.
use native.Mathlib.Nat.{one-le-pow}
use hxnu.Base.{ℕ, ◌+◌, ◌-◌, ◌*◌, ◌/◌, ◌%◌, ◌^◌, ◌≤◌, ◌<◌, ◌≡◌, arith, u64_max, min, bit_and}
use hxnu.Base.Bits.{bit_and_high_mask}
use hxnu.Frame.{align_up, align_down, page_size}

-- `value & !(2^k - 1)`
bit_and_not :
    (k v : ℕ) → k ≤ 64 → v ≤ u64_max → bit_and v (u64_max - (2 ^ k - 1)) ≡ v / 2 ^ k * 2 ^ k
bit_and_not k v hk hv =
    let e : u64_max - (2 ^ k - 1) ≡ 2 ^ 64 - 2 ^ k = omega (arith, one-le-pow k 2) in
    rw e (bit_and_high_mask k 64 v hk (omega arith))

pub align_down-eq : (k v : ℕ) → k ≤ 64 → v ≤ u64_max → align_down v (2 ^ k) ≡ v / 2 ^ k * 2 ^ k
unfolding align_down
align_down-eq k v hk hv = ground (arith, one-le-pow k 2, bit_and_not k v hk hv)

pub align_up-eq :
    (k v : ℕ) → k ≤ 64 → v + 2 ^ k ≤ u64_max → align_up v (2 ^ k) ≡ (v + 2 ^ k - 1) / 2 ^ k * 2 ^ k
unfolding align_up
align_up-eq k v hk hv =
    ground (arith, one-le-pow k 2, bit_and_not k (min (v + (2 ^ k - 1)) u64_max) hk)

-- Saturation: past the top, the result is the greatest multiple of the alignment.
pub align_up_saturated :
    (k v : ℕ) → k ≤ 64 → u64_max ≤ v + (2 ^ k - 1) → align_up v (2 ^ k) ≡ u64_max / 2 ^ k * 2 ^ k
unfolding align_up
align_up_saturated k v hk hv =
    ground (arith, one-le-pow k 2, bit_and_not k (min (v + (2 ^ k - 1)) u64_max) hk)

pub align_down_page : (v : ℕ) → v ≤ u64_max → align_down v page_size ≡ v / page_size * page_size
align_down_page v h = align_down-eq 12 v (omega arith) h

-- Whatever the value, the result is a multiple of the page size within 64 bits, and below the
-- saturation point it is the least one that is not below the value.
pub align_up_page :
    (v : ℕ)
    → v ≤ u64_max
    → (align_up v page_size % page_size ≡ 0)
      × (align_up v page_size ≤ u64_max - 4095)
      × (align_up v page_size < v + page_size)
      × (v ≤ u64_max - 4095 → v ≤ align_up v page_size)
      × (u64_max - 4095 ≤ v → align_up v page_size ≡ u64_max - 4095)
unfolding align_up
align_up_page v h = ground (arith, bit_and_not 12 (min (v + 4095) u64_max))
