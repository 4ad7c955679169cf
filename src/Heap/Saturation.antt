-- ===== src/Heap/Saturation.antt =====
-- Where rounding up saturates in kernel/src/mm/heap.rs.
use hxnu.Base.{ℕ, ◌+◌, ◌*◌, ◌/◌, ◌^◌, ◌≤◌, ◌<◌, ◌≡◌, true, arith, u64_max, some}
use native.Mathlib.Nat.{one-le-pow}
use hxnu.Frame.Align.{align_up_saturated}
use hxnu.Heap.{BumpAllocator, alloc}

-- On an initialised heap that starts above the greatest multiple of the alignment in 64 bits, a
-- block with that alignment that ends within the heap's end is granted at that multiple, which is
-- below the start of the heap, and the bump pointer moves to the end of that block.
pub alloc_escapes :
    (h : BumpAllocator) (size k : ℕ)
    → h.initialized ≡ true
    → k < 64
    → h.start ≤ h.next
    → h.end ≤ u64_max
    → u64_max / 2 ^ k * 2 ^ k < h.start
    → u64_max / 2 ^ k * 2 ^ k + size ≤ h.end
    → ((alloc h size (2 ^ k)).1 ≡ some (u64_max / 2 ^ k * 2 ^ k))
      × ((alloc h size (2 ^ k)).0.next ≡ u64_max / 2 ^ k * 2 ^ k + size)
unfolding alloc
alloc_escapes h size k on hk order top above fits =
    ground (arith, align_up_saturated k h.next (omega arith) (omega (arith, one-le-pow k 2)))
