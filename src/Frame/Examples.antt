-- ===== src/Frame/Examples.antt =====
-- Runs of the frame allocator (kernel/src/mm/frame.rs), and the theorems at concrete inputs.
use hxnu.Base.{
  ℕ, ◌≤◌, ◌<◌, ◌≡◌, refl, ◌↔◌, ◌⊎◌, inl, true, none, List, [], ◌∷◌, arith, All, length, err, ok,
}
use hxnu.Frame.{
  FrameAllocator, MemoryMapEntry, MemoryMapEntryType, new, initialize, add_entries, add_entry,
  align_up, align_down, allocate, allocate_contiguous, reserve, reserve_frames,
  bootstrap_reserved_end, FrameAllocatorInitError, max_usable_regions, stats,
}
use hxnu.Frame.Regions.{Free}
use hxnu.Frame.Init.{live}
use hxnu.Frame.Valid.{IsValid, MapOk, Loaded-IsValid}
use hxnu.Frame.Init.{map_regions}
use hxnu.Frame.Boot.{initialize-new, initialize_when, Loaded}
use hxnu.Frame.Alloc.{Granted, allocate-Granted, allocate_contiguous-Granted, allocate_exhausted}
use hxnu.Frame.History.{one, contiguous, run, run-initialize, Aligned, Within, Usable, NoOverlap}

abbrev entry : ℕ → ℕ → MemoryMapEntryType → MemoryMapEntry
entry b n t = record { base = b; length = n; entry_type = t }

-- Low memory, a reserved hole, and two pages from 2 MiB on, the first of them cut.
abbrev small_map : List MemoryMapEntry
small_map =
    entry 0 1058816 MemoryMapEntryType.usable
    ∷ entry 1058816 4096 MemoryMapEntryType.reserved
    ∷ entry 2097153 12287 MemoryMapEntryType.usable
    ∷ []

abbrev booted : FrameAllocator
booted = (initialize new small_map).0

-- The second region is used up first where two frames are asked for.
booted_grants :
    run booted (one ∷ contiguous 2 ∷ one ∷ one ∷ one ∷ [])
    ≡ (1048576, 4096) ∷ (2101248, 8192) ∷ (1052672, 4096) ∷ []
unfolding initialize add_entries add_entry align_up align_down run allocate allocate_contiguous
    reserve reserve_frames
booted_grants = refl

small_map_ok : MapOk small_map
small_map_ok = (
  (omega arith, omega arith),
  ((λ _ e. cc), ((λ _ _. inl (omega arith)), tt)),
  ((omega arith, omega arith), ((λ e _. cc), tt), ((omega arith, omega arith), tt, tt)),
)

two_regions : length (map_regions small_map) ≡ 2
unfolding align_up align_down
two_regions = refl

booted-IsValid : IsValid booted
booted-IsValid =
    Loaded-IsValid small_map booted small_map_ok (omega (arith, two_regions))
      ((initialize_when small_map).2 (omega (arith, two_regions)) (omega (arith, two_regions))).1

initialize-new_example :
    ((length (map_regions small_map) ≡ 0)
      × ((initialize new small_map).1 ≡ err FrameAllocatorInitError.no_usable_regions))
    ⊎ ((max_usable_regions < length (map_regions small_map))
        × ((initialize new small_map).1 ≡ err FrameAllocatorInitError.too_many_regions))
    ⊎ ((0 < length (map_regions small_map))
        × (length (map_regions small_map) ≤ max_usable_regions)
        × ((initialize new small_map).1 ≡ ok (stats booted))
        × Loaded small_map booted)
initialize-new_example = initialize-new small_map

allocate-Granted_example : Granted booted (record { start_address = 1048576 }) 1 (allocate booted).0
unfolding initialize add_entries add_entry align_up align_down allocate reserve reserve_frames
allocate-Granted_example =
    allocate-Granted booted (record { start_address = 1048576 }) booted-IsValid refl

allocate_contiguous-Granted_example :
    (0 < 2) × Granted booted (record { start_address = 1048576 }) 2 (allocate_contiguous booted 2).0
unfolding initialize add_entries add_entry align_up align_down allocate_contiguous reserve
    reserve_frames
allocate_contiguous-Granted_example =
    allocate_contiguous-Granted booted 2 (record { start_address = 1048576 }) booted-IsValid refl

booted_ready : booted.initialized ≡ true
unfolding initialize add_entries add_entry align_up align_down
booted_ready = refl

allocate_exhausted_example : ((allocate booted).1 ≡ none) ↔ ((x : ℕ) → ¬ Free x (live booted))
allocate_exhausted_example = allocate_exhausted booted booted-IsValid booted_ready

run-initialize_example :
    All Aligned (run booted (one ∷ contiguous 2 ∷ []))
    × All
        (Within (λ x. (bootstrap_reserved_end ≤ x) × Usable x small_map))
        (run booted (one ∷ contiguous 2 ∷ []))
    × NoOverlap (run booted (one ∷ contiguous 2 ∷ []))
run-initialize_example =
    run-initialize small_map (one ∷ contiguous 2 ∷ []) small_map_ok (omega (arith, two_regions))
      (omega (arith, two_regions))
