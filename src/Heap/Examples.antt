-- ===== src/Heap/Examples.antt =====
-- Runs of the heap (kernel/src/mm/heap.rs), and the theorems at concrete inputs.
use hxnu.Base.{length, List, [], ◌∷◌, ℕ, ◌+◌, ◌^◌, ◌≡◌, refl, some, [], ◌∷◌, arith, All}
use hxnu.Frame
use hxnu.Frame.{align_up, FrameAllocator, MemoryMapEntry, MemoryMapEntryType}
use hxnu.Frame.Valid
use hxnu.Heap.{BumpAllocator, alloc, dealloc, initialize_at, initialize, new}
use hxnu.Heap.Blocks.{allocates, Reach, here, next, AllClear, Inside}
use hxnu.Heap.History.{initial, Reach-initial}
use hxnu.Heap.Saturation.{alloc_escapes}

-- 8 MiB in the higher half.
abbrev base : ℕ
base = 0xffff_8000_0020_0000

abbrev booted : BumpAllocator
booted = (initial base 8388608).allocator

abbrev first : BumpAllocator
first = (alloc booted 10 8).0

abbrev second : BumpAllocator
second = (alloc first 100 16).0

held_two :
    Reach
      (initial base 8388608)
      (record { allocator = second; blocks = (base + 16, 100) ∷ (base, 10) ∷ [] })
unfolding alloc align_up initialize_at
held_two =
    next
      (next here
        (allocates booted first [] 10 3 base (omega arith) (omega arith) (omega arith) refl))
      (allocates first second ((base, 10) ∷ []) 100 4 (base + 16) (omega arith) (omega arith)
        (omega arith) refl)

Reach-initial_example :
    AllClear ((base + 16, 100) ∷ (base, 10) ∷ [])
    × All (Inside base (base + 8388608)) ((base + 16, 100) ∷ (base, 10) ∷ [])
    × (second.allocations ≡ 2)
Reach-initial_example = Reach-initial base 8388608 (omega arith) (omega arith) held_two

-- The last block to be freed gives the heap back.
all_freed : dealloc (dealloc second) ≡ booted
unfolding alloc dealloc align_up initialize_at
all_freed = refl

-- An alignment of 2^48 on that heap.
alloc_escapes_example :
    ((alloc booted 64 (2 ^ 48)).1 ≡ some 0xffff_0000_0000_0000)
    × ((alloc booted 64 (2 ^ 48)).0.next ≡ 0xffff_0000_0000_0040)
unfolding initialize_at
alloc_escapes_example =
    alloc_escapes booted 64 48 refl (omega arith) (omega arith) (omega arith) (omega arith)
      (omega arith)

-- Four times the frames of a heap, from 2 MiB on.
abbrev big_map : List MemoryMapEntry
big_map = record { base = 2097152; length = 33554432; entry_type = MemoryMapEntryType.usable } ∷ []

abbrev frames : FrameAllocator
frames = (Frame.initialize Frame.new big_map).0
