-- ===== src/Frame.antt =====
-- kernel/src/mm/frame.rs: the physical frame allocator, over the memory map of kernel/src/limine.rs.
-- The global allocator is a value that each operation takes and returns.
pub mod Align
pub mod Regions
pub mod Init
pub mod Boot
pub mod Valid
pub mod Alloc
pub mod History
mod Examples
use hxnu.Base.{
  ℕ, zero, suc, ◌+◌, ◌-◌, ◌≡◌, Bool, true, false, not, Option, none, some, List, [], ◌∷◌, ◌++◌,
  bit_and, ltb, leb, ◌==◌, if◌then◌else◌, Result, ok, err, sat_add, sat_sub, sat_mul, u64_max, max,
  take, drop, set, replicate, ◌||◌,
}
use mathlib.Core.Option

abbrev pub page_size : ℕ
page_size = 4096

abbrev pub max_usable_regions : ℕ
max_usable_regions = 64

abbrev pub bootstrap_reserved_end : ℕ
bootstrap_reserved_end = 1048576

pub data MemoryMapEntryType : Type 0 where
  usable reserved acpi_reclaimable acpi_nvs bad_memory bootloader_reclaimable : MemoryMapEntryType
  executable_and_modules framebuffer : MemoryMapEntryType
  unknown : ℕ → MemoryMapEntryType

pub record MemoryMapEntry : Type 0 where
  pub base : ℕ
  pub length : ℕ
  pub entry_type : MemoryMapEntryType

abbrev pub is_usable_type : MemoryMapEntryType → Bool
is_usable_type MemoryMapEntryType.usable = true
is_usable_type _ = false

abbrev pub is_usable : MemoryMapEntry → Bool
is_usable e = is_usable_type e.entry_type

-- `!(alignment - 1)` is the complement in 64 bits.
unfoldable pub align_up : ℕ → ℕ → ℕ
align_up value alignment =
    if alignment == 0
    then value
    else bit_and (sat_add value (alignment - 1)) (u64_max - (alignment - 1))

unfoldable pub align_down : ℕ → ℕ → ℕ
align_down value alignment =
    if alignment == 0 then value else bit_and value (u64_max - (alignment - 1))

pub record FrameRegion : Type 0 where
  pub start : ℕ
  pub end : ℕ
  pub next : ℕ

abbrev pub empty : FrameRegion
empty = record { start = 0; end = 0; next = 0 }

abbrev pub size : FrameRegion → ℕ
size r = sat_sub r.end r.start

abbrev pub remaining : FrameRegion → ℕ
remaining r = sat_sub r.end r.next

pub record PhysicalFrame : Type 0 where
  pub start_address : ℕ

pub data FrameAllocatorInitError : Type 0 where
  already_initialized no_usable_regions too_many_regions : FrameAllocatorInitError

pub record FrameAllocator : Type 0 where
  pub initialized : Bool
  pub region_count : ℕ
  pub total_bytes : ℕ
  pub allocatable_bytes : ℕ
  pub allocated_frames : ℕ
  pub regions : List FrameRegion

pub record FrameAllocatorStats : Type 0 where
  pub usable_regions : ℕ
  pub total_bytes : ℕ
  pub allocatable_bytes : ℕ
  pub allocated_frames : ℕ

abbrev pub new : FrameAllocator
new = record {
  initialized = false;
  region_count = 0;
  total_bytes = 0;
  allocatable_bytes = 0;
  allocated_frames = 0;
  regions = replicate max_usable_regions empty;
}

abbrev pub stats : FrameAllocator → FrameAllocatorStats
stats a = record {
  usable_regions = a.region_count;
  total_bytes = a.total_bytes;
  allocatable_bytes = a.allocatable_bytes;
  allocated_frames = a.allocated_frames;
}

abbrev pub region_start : MemoryMapEntry → ℕ
region_start e = align_up (max e.base bootstrap_reserved_end) page_size

abbrev pub region_end : MemoryMapEntry → ℕ
region_end e = align_down (sat_add e.base e.length) page_size

-- One round of the loop of `initialize`. `ok` goes on to the next entry.
pub add_entry :
    MemoryMapEntry → FrameAllocator → FrameAllocator × Result (Unit {0}) FrameAllocatorInitError
add_entry e a =
    let region : FrameRegion = record {
      start = region_start e;
      end = region_end e;
      next = region_start e;
    } in
    let counted = record a { total_bytes = sat_add a.total_bytes e.length } in
    if not (is_usable e)
    then (a, ok tt)
    else if leb (region_end e) (region_start e)
    then (counted, ok tt)
    else if leb max_usable_regions a.region_count
    then (counted, err FrameAllocatorInitError.too_many_regions)
    else (
      record counted {
        allocatable_bytes = sat_add a.allocatable_bytes (size region);
        regions = set a.regions a.region_count region;
        region_count = a.region_count + 1;
      },
      ok tt,
    )

pub add_entries :
    List MemoryMapEntry
    → FrameAllocator
    → FrameAllocator × Result (Unit {0}) FrameAllocatorInitError
add_entries [] a = (a, ok tt)
add_entries (e ∷ es) a =
    let (a', r) = add_entry e a in elim r [ ok _ ↦ add_entries es a' | err x ↦ (a', err x) ]

-- An error leaves what the loop had done before it.
pub initialize :
    FrameAllocator
    → List MemoryMapEntry
    → FrameAllocator × Result FrameAllocatorStats FrameAllocatorInitError
initialize a entries =
    let (a', r) = add_entries entries a in
    let done = record a' { initialized = true } in
    if a.initialized then (a, err FrameAllocatorInitError.already_initialized) else elim r [
      | err x ↦ (a', err x)
      | ok _ ↦
          if a'.region_count == 0
          then (a', err FrameAllocatorInitError.no_usable_regions)
          else (done, ok (stats done))
    ]

-- The loop of both allocation functions: the first region with `requested` bytes left.
pub reserve : ℕ → List FrameRegion → Option (PhysicalFrame × List FrameRegion)
reserve requested [] = none
reserve requested (r ∷ rs) =
    let rest = reserve requested rs in
    if ltb (remaining r) requested
    then elim rest [ none ↦ none | some (f, rs') ↦ some (f, r ∷ rs') ]
    else some (record { start_address = r.next }, record r { next = sat_add r.next requested } ∷ rs)

-- `count` frames, from the regions in use.
pub reserve_frames : ℕ → ℕ → FrameAllocator → FrameAllocator × Option PhysicalFrame
reserve_frames requested count a = elim (reserve requested (take a.region_count a.regions)) [
  | none ↦ (a, none)
  | some (f, rs) ↦ (
    record a {
      allocated_frames = sat_add a.allocated_frames count;
      regions = rs ++ drop a.region_count a.regions;
    },
    some f,
  )
]

pub allocate : FrameAllocator → FrameAllocator × Option PhysicalFrame
allocate a = if not a.initialized then (a, none) else reserve_frames page_size 1 a

pub allocate_contiguous : FrameAllocator → ℕ → FrameAllocator × Option PhysicalFrame
allocate_contiguous a count =
    if not a.initialized || count == 0
    then (a, none)
    else reserve_frames (sat_mul count page_size) count a
