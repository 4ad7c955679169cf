-- ===== src/Heap.antt =====
-- kernel/src/mm/heap.rs: the bump allocator behind the kernel's heap. A pointer is its address, and
-- the null pointer is `none`. Rounding up is `align_up` of `Frame`, the same code as in frame.rs.
pub mod Blocks
pub mod History
pub mod Saturation
pub mod Boot
mod Examples
use hxnu.Base.{
  ℕ, ◌+◌, ◌-◌, ◌*◌, Bool, true, false, not, Option, none, some, ltb, ◌==◌, if◌then◌else◌, Result,
  ok, err, sat_add, sat_sub,
}
use hxnu.Frame.{FrameAllocator, PhysicalFrame, align_up, allocate_contiguous, page_size}

abbrev pub heap_pages : ℕ
heap_pages = 2048

pub record BumpAllocator : Type 0 where
  pub start : ℕ
  pub end : ℕ
  pub next : ℕ
  pub allocations : ℕ
  pub initialized : Bool

abbrev pub new : BumpAllocator
new = record { start = 0; end = 0; next = 0; allocations = 0; initialized = false }

pub record HeapStats : Type 0 where
  pub start : ℕ
  pub size_bytes : ℕ
  pub used_bytes : ℕ
  pub allocation_count : ℕ

pub data HeapInitError : Type 0 where
  already_initialized out_of_frames : HeapInitError

abbrev pub stats : BumpAllocator → HeapStats
stats h = record {
  start = h.start;
  size_bytes = sat_sub h.end h.start;
  used_bytes = sat_sub h.next h.start;
  allocation_count = h.allocations;
}

pub initialize_at : BumpAllocator → ℕ → ℕ → BumpAllocator × Result HeapStats HeapInitError
initialize_at h start size =
    let ready : BumpAllocator = record {
      start = start;
      end = sat_add start size;
      next = start;
      allocations = 0;
      initialized = true;
    } in
    if h.initialized
    then (h, err HeapInitError.already_initialized)
    else if size == 0
    then (h, err HeapInitError.out_of_frames)
    else (ready, ok (stats ready))

-- `alloc` with the layout's size and alignment.
pub alloc : BumpAllocator → ℕ → ℕ → BumpAllocator × Option ℕ
alloc h size align =
    let alloc_start = align_up h.next align in
    let alloc_end = sat_add alloc_start size in
    if not h.initialized
    then (h, none)
    else if ltb h.end alloc_end
    then (h, none)
    else (record h { next = alloc_end; allocations = sat_add h.allocations 1 }, some alloc_start)

-- The pointer and the layout are not looked at.
pub dealloc : BumpAllocator → BumpAllocator
dealloc h =
    if ltb 0 h.allocations
    then if h.allocations - 1 == 0
      then record h { allocations = h.allocations - 1; next = h.start }
      else record h { allocations = h.allocations - 1 }
    else h

-- `initialize` takes its memory from the frame allocator.
pub initialize :
    FrameAllocator
    → BumpAllocator
    → ℕ
    → FrameAllocator × BumpAllocator × Result HeapStats HeapInitError
initialize a h hhdm_offset =
    let (a', frame) = allocate_contiguous a heap_pages in
    elim frame [
      | none ↦ (a', h, err HeapInitError.out_of_frames)
      | some f ↦
          let (h', r) =
            initialize_at h (sat_add hhdm_offset f.start_address) (heap_pages * page_size) in
          (a', h', r)
    ]
