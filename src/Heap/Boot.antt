-- ===== src/Heap/Boot.antt =====
-- `initialize` of kernel/src/mm/heap.rs: the heap over frames of the frame allocator.
use hxnu.Base.{ℕ, ◌*◌, true, sat_add}
use hxnu.Frame.{PhysicalFrame, page_size}
use hxnu.Heap.{BumpAllocator, heap_pages}

-- The heap over a run of frames, seen through the direct map.
abbrev pub over : ℕ → PhysicalFrame → BumpAllocator
over hhdm_offset f =
    let start = sat_add hhdm_offset f.start_address in
    record {
      start = start;
      end = sat_add start (heap_pages * page_size);
      next = start;
      allocations = 0;
      initialized = true;
    }
