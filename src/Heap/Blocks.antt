-- ===== src/Heap/Blocks.antt =====
-- The blocks that callers of kernel/src/mm/heap.rs hold, and one call that allocates or frees.
use native.Mathlib.Nat.{one-le-pow, mul-mod_left}
use hxnu.Base.{
  ℕ, ◌+◌, ◌-◌, ◌%◌, ◌^◌, ◌≤◌, ◌<◌, ◌≡◌, ◌⊎◌, inl, inr, true, List, [], ◌∷◌, ◌++◌, arith, u64_max,
  sat_add, All, length, length-append, some, none, Bool-cases, ltb, ltb→lt, ltb_false→le,
}
use hxnu.Frame.{align_up}
use hxnu.Frame.Align.{align_up-eq}
use hxnu.Heap.{BumpAllocator, alloc, dealloc}

-- A block handed out: where it starts, and its size.
abbrev pub Block : Type 0
Block = ℕ × ℕ

abbrev pub Clear : Block → Block → Type 0
Clear a b = (a.0 + a.1 ≤ b.0) ⊎ (b.0 + b.1 ≤ a.0)

abbrev pub AllClear : List Block → Type 0
AllClear [] = Unit
AllClear (b ∷ bs) = All (Clear b) bs × AllClear bs

abbrev pub Inside : ℕ → ℕ → Block → Type 0
Inside from to b = (from ≤ b.0) × (b.0 + b.1 ≤ to)

-- The allocator together with the blocks that are held.
pub record Heap : Type 0 where
  pub allocator : BumpAllocator
  pub blocks : List Block

pub record IsValid (s : Heap) : Type 0 where
  pub ready : s.allocator.initialized ≡ true
  pub below : s.allocator.start ≤ s.allocator.next
  pub above : s.allocator.next ≤ s.allocator.end
  pub room : s.allocator.end < u64_max
  pub counted : s.allocator.allocations ≡ length s.blocks
  pub counted_bytes : length s.blocks ≤ s.allocator.next - s.allocator.start
  pub inside : All (Inside s.allocator.start s.allocator.next) s.blocks
  pub clear : AllClear s.blocks

-- One call. `GlobalAlloc` asks of a caller that a layout has a size above 0 and an alignment that is
-- a power of two, and that a block is freed once. The premise on `next` keeps `align_up` from
-- saturating.
pub data Step : Heap → Heap → Type 0 where
  allocates :
      (h h' : BumpAllocator) (bs : List Block) (size k p : ℕ)
      → 0 < size
      → k < 64
      → h.next + 2 ^ k ≤ u64_max
      → alloc h size (2 ^ k) ≡ (h', some p)
      → Step
          (record { allocator = h; blocks = bs })
          (record { allocator = h'; blocks = (p, size) ∷ bs })
  refuses :
      (h h' : BumpAllocator) (bs : List Block) (size align : ℕ)
      → alloc h size align ≡ (h', none)
      → Step (record { allocator = h; blocks = bs }) (record { allocator = h'; blocks = bs })
  frees :
      (h : BumpAllocator) (xs ys : List Block) (b : Block)
      → Step
          (record { allocator = h; blocks = xs ++ (b ∷ ys) })
          (record { allocator = dealloc h; blocks = xs ++ ys })

pub data Reach (s : Heap) : Heap → Type 0 where
  here : Reach s s
  next : {t u : Heap} → Reach s t → Step t u → Reach s u

-- Rounding up moves by less than the alignment.
round_up :
    (k v : ℕ)
    → k < 64
    → v + 2 ^ k ≤ u64_max
    → (v ≤ align_up v (2 ^ k)) × (align_up v (2 ^ k) < v + 2 ^ k)
round_up k v hk h = rw (align_up-eq k v (omega arith) h) (omega (arith, one-le-pow k 2))

-- What a successful `alloc` returns: an aligned block between `next` and the new `next`.
pub alloc-some :
    (h h' : BumpAllocator) (size k p : ℕ)
    → k < 64
    → h.next + 2 ^ k ≤ u64_max
    → h.end < u64_max
    → alloc h size (2 ^ k) ≡ (h', some p)
    → (p % 2 ^ k ≡ 0)
      × (h.next ≤ p)
      × (p < h.next + 2 ^ k)
      × (p + size ≤ h.end)
      × (h' ≡ record h { next = p + size; allocations = sat_add h.allocations 1 })
unfolding alloc
alloc-some h h' size k p hk fits room e =
    let (low, high) = round_up k h.next hk fits in
    let start : p ≡ align_up h.next (2 ^ k) = ground arith in
    (
      rw (start, align_up-eq k h.next (omega arith) fits) (mul-mod_left _ (2 ^ k)),
      omega arith,
      omega arith,
      ground arith,
      ground arith,
    )

pub Inside-mono :
    (from to to' : ℕ) (bs : List Block)
    → to ≤ to'
    → All (Inside from to) bs
    → All (Inside from to') bs
Inside-mono from to to' [] h i = tt
Inside-mono from to to' (b ∷ bs) h i = (omega arith, Inside-mono from to to' bs h i.1)

pub Clear-above :
    (from to p n : ℕ) (bs : List Block) → to ≤ p → All (Inside from to) bs → All (Clear (p, n)) bs
Clear-above from to p n [] h i = tt
Clear-above from to p n (b ∷ bs) h i = (omega arith, Clear-above from to p n bs h i.1)

All-remove {ℓ} :
    (P : Block → Type ℓ) (xs ys : List Block) (b : Block)
    → All P (xs ++ (b ∷ ys))
    → All P (xs ++ ys)
All-remove P [] ys b h = h.1
All-remove P (x ∷ xs) ys b h = (h.0, All-remove P xs ys b h.1)

AllClear-remove : (xs ys : List Block) (b : Block) → AllClear (xs ++ (b ∷ ys)) → AllClear (xs ++ ys)
AllClear-remove [] ys b h = h.1
AllClear-remove (x ∷ xs) ys b h = (All-remove (Clear x) xs ys b h.0, AllClear-remove xs ys b h.1)

All-empty {ℓ} : (P : Block → Type ℓ) (bs : List Block) → length bs ≡ 0 → All P bs
All-empty P [] e = tt
All-empty P (b ∷ bs) e = absurd (omega arith)

-- Freeing the last block gives the whole heap back; freeing any other, none of it.
pub dealloc_last :
    (h : BumpAllocator)
    → h.allocations ≡ 1
    → dealloc h ≡ record h { allocations = h.allocations - 1; next = h.start }
unfolding dealloc
dealloc_last h e = ground arith

pub dealloc_more :
    (h : BumpAllocator)
    → 1 < h.allocations
    → dealloc h ≡ record h { allocations = h.allocations - 1 }
unfolding dealloc
dealloc_more h e = ground arith

pub dealloc-IsValid :
    (h : BumpAllocator) (xs ys : List Block) (b : Block)
    → IsValid (record { allocator = h; blocks = xs ++ (b ∷ ys) })
    → IsValid (record { allocator = dealloc h; blocks = xs ++ ys })
dealloc-IsValid h xs ys b v = elim (Bool-cases (ltb 1 h.allocations)) [
  | inl more ↦ rw (dealloc_more h (ltb→lt _ _ more)) (record {
    ready = v.ready;
    below = v.below;
    above = v.above;
    room = v.room;
    counted = omega (arith, sizes, v.counted);
    counted_bytes = omega (arith, sizes, v.counted_bytes);
    inside = All-remove (Inside h.start h.next) xs ys b v.inside;
    clear = AllClear-remove xs ys b v.clear;
  })
  | inr last ↦
      let one : h.allocations ≡ 1 = omega (arith, sizes, v.counted, ltb_false→le _ _ last) in
      let none_left : length (xs ++ ys) ≡ 0 = omega (arith, sizes, v.counted) in
      rw (dealloc_last h one) (record {
        ready = v.ready;
        below = omega arith;
        above = omega (arith, v.below, v.above);
        room = v.room;
        counted = omega arith;
        counted_bytes = omega arith;
        inside = All-empty (Inside h.start h.start) (xs ++ ys) none_left;
        clear = AllClear-remove xs ys b v.clear;
      })
]
  where
    sizes : length (xs ++ (b ∷ ys)) ≡ length (xs ++ ys) + 1
    sizes = omega (arith, length-append xs (b ∷ ys), length-append xs ys)
