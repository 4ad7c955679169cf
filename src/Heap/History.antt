-- ===== src/Heap/History.antt =====
-- Any history of calls of the heap (kernel/src/mm/heap.rs), from its initialisation on.
use hxnu.Base.{ℕ, ◌+◌, ◌<◌, ◌≡◌, refl, ◌∙◌, [], arith, u64_max, All, length, subst}
use hxnu.Heap.{new, initialize_at, alloc, dealloc}
use hxnu.Heap.Blocks.{
  allocates, refuses, frees, here, next, AllClear, Inside, Heap, IsValid, Step, Reach, alloc-some,
  Inside-mono, Clear-above, dealloc-IsValid,
}

pub Step-IsValid : {s t : Heap} → Step s t → IsValid s → IsValid t
Step-IsValid (allocates h h' bs size k p some_bytes hk fits e) v =
    let (aligned, low, near, high, shape) = alloc-some h h' size k p hk fits v.room e in
    rw shape (record {
      ready = v.ready;
      below = omega arith;
      above = omega arith;
      room = v.room;
      counted = omega arith;
      counted_bytes = omega arith;
      inside = (omega arith, Inside-mono h.start h.next (p + size) bs (omega arith) v.inside);
      clear = (Clear-above h.start h.next p size bs low v.inside, v.clear);
    })
Step-IsValid (refuses h h' bs size align e) v =
    let same : h' ≡ h = unfold alloc in ground arith in rw same v
Step-IsValid (frees h xs ys b) v = dealloc-IsValid h xs ys b v

Reach-IsValid : {s t : Heap} → IsValid s → Reach s t → IsValid t
Reach-IsValid v here = v
Reach-IsValid v (next r s) = Step-IsValid s (Reach-IsValid v r)

Step-bounds :
    {s t : Heap}
    → Step s t
    → (t.allocator.start ≡ s.allocator.start) × (t.allocator.end ≡ s.allocator.end)
unfolding alloc dealloc
Step-bounds (allocates h h' bs size k p some_bytes hk fits e) = ground arith
Step-bounds (refuses h h' bs size align e) = ground arith
Step-bounds (frees h xs ys b) = ground arith

Reach-bounds :
    {s t : Heap}
    → Reach s t
    → (t.allocator.start ≡ s.allocator.start) × (t.allocator.end ≡ s.allocator.end)
Reach-bounds here = (refl, refl)
Reach-bounds (next r k) =
    let (a, b) = Reach-bounds r in let (c, d) = Step-bounds k in (c ∙ a, d ∙ b)

-- The heap after `initialize_at`, with no block held.
abbrev pub initial : ℕ → ℕ → Heap
initial start size = record { allocator = (initialize_at new start size).0; blocks = [] }

initial_bounds :
    (start size : ℕ)
    → 0 < size
    → start + size < u64_max
    → ((initial start size).allocator.start ≡ start)
      × ((initial start size).allocator.end ≡ start + size)
unfolding initialize_at
initial_bounds start size some_bytes room = ground arith

initial-IsValid :
    (start size : ℕ) → 0 < size → start + size < u64_max → IsValid (initial start size)
unfolding initialize_at
initial-IsValid start size some_bytes room = ground arith

-- From a heap initialised over a range of some bytes that ends below the top of the address space,
-- however its callers allocate (some bytes, with an alignment of a power of two that the bump
-- pointer can be rounded up to within 64 bits) and free, the blocks they hold lie inside the range
-- and share no byte, and the allocator counts them exactly.
pub Reach-initial :
    (start size : ℕ) {t : Heap}
    → 0 < size
    → start + size < u64_max
    → Reach (initial start size) t
    → AllClear t.blocks
      × All (Inside start (start + size)) t.blocks
      × (t.allocator.allocations ≡ length t.blocks)
Reach-initial start size {t} some_bytes room r =
    let v = Reach-IsValid (initial-IsValid start size some_bytes room) r in
    let (low, high) = Reach-bounds r in
    let (from, to) = initial_bounds start size some_bytes room in
    (
      v.clear,
      Inside-mono start t.allocator.next (start + size) t.blocks (omega (arith, v.above, high, to))
          (subst (λ n. All (Inside n t.allocator.next) t.blocks) (low ∙ from) v.inside),
      v.counted,
    )
