-- ===== src/Frame/Alloc.antt =====
-- `allocate` and `allocate_contiguous`: what a call grants, and any history of calls.
use hxnu.Base.{
  ℕ, ◌+◌, ◌*◌, ◌%◌, ◌≤◌, ◌<◌, ◌≡◌, refl, sym, ◌∙◌, ◌⊎◌, inl, inr, ◌↔◌, true, not, ◌||◌, List, [],
  ◌∷◌, ◌++◌, arith, u64_max, sat_add, sat_mul, ◌==◌, All, length, length-append, length-drop, take,
  drop, take-append, ltb, leb, Bool-cases, Option-cases, some, none, ltb→lt, subst, leb→le,
  leb_false→lt,
}
use hxnu.Frame.{
  FrameAllocator, FrameRegion, PhysicalFrame, reserve, reserve_frames, allocate,
  allocate_contiguous, page_size, bootstrap_reserved_end, remaining,
}
use hxnu.Frame.Regions.{
  RegionOk, Free, Taken, used, InRange, Reserved, reserve-Reserved, reserve-none,
}
use hxnu.Frame.Init.{live}
use hxnu.Frame.Valid.{IsValid, length-live}

-- At most 64 regions of 64-bit addresses: the frame counter never saturates.
used-le : (rs : List FrameRegion) → All RegionOk rs → used rs ≤ length rs * u64_max
used-le [] h = omega arith
used-le (r ∷ rs) h = omega (arith, used-le rs h.1)

-- What granting `count` frames as the `q` bytes from `f` does to the allocator.
pub record Granted (a : FrameAllocator) (f : PhysicalFrame) (count : ℕ) (a' : FrameAllocator)
    : Type 0 where
  pub valid : IsValid a'
  pub ready : a'.initialized ≡ a.initialized
  pub frames : a'.allocated_frames ≡ a.allocated_frames + count
  pub aligned : f.start_address % page_size ≡ 0
  pub low : bootstrap_reserved_end ≤ f.start_address
  pub high : f.start_address + count * page_size ≤ u64_max
  pub was_free : (x : ℕ) → InRange x f.start_address (count * page_size) → Free x (live a)
  pub taken :
      (x : ℕ)
      → Taken x (live a') ↔ (Taken x (live a) ⊎ InRange x f.start_address (count * page_size))
  pub shrinks : (x : ℕ) → Free x (live a') → Free x (live a)

abbrev after_reserve : FrameAllocator → ℕ → List FrameRegion → FrameAllocator
after_reserve a count rs = record a {
  allocated_frames = sat_add a.allocated_frames count;
  regions = rs ++ drop a.region_count a.regions;
}

reserve_frames-some :
    (a : FrameAllocator) (q count : ℕ) (f : PhysicalFrame)
    → (reserve_frames q count a).1 ≡ some f
    → (rs : List FrameRegion) × (reserve q (live a) ≡ some (f, rs))
      × ((reserve_frames q count a).0 ≡ after_reserve a count rs)
unfolding reserve_frames
reserve_frames-some a q count f e = elim (Option-cases (reserve q (live a))) [
  | inl gone ↦ ground arith
  | inr ((g, rs), found) ↦ (rs, ground arith, ground arith)
]

after_reserve-Granted :
    (a : FrameAllocator) (count : ℕ) (f : PhysicalFrame) (rs : List FrameRegion)
    → IsValid a
    → Reserved (count * page_size) (live a) f rs
    → Granted a f count (after_reserve a count rs)
after_reserve-Granted a count f rs v r = record {
  valid = record {
    count = v.count;
    slots = omega (
      arith,
      sizes,
      v.slots,
      v.count,
      length-append rs (drop a.region_count a.regions),
      length-drop a.region_count a.regions,
    );
    regions = rw same r.regions;
    disjoint = rw same r.disjoint;
    frames = rw same (omega (arith, exact, r.bytes, v.frames));
  };
  ready = refl;
  frames = exact;
  aligned = r.aligned;
  low = r.low;
  high = r.high;
  was_free = r.was_free;
  taken = λ x. rw same (r.taken x);
  shrinks = λ x. rw same (r.shrinks x);
}
  where
    sizes : length rs ≡ a.region_count
    sizes = r.count ∙ length-live a v

    same : take a.region_count (rs ++ drop a.region_count a.regions) ≡ rs
    same = take-append a.region_count rs (drop a.region_count a.regions) (sym sizes)

    exact : sat_add a.allocated_frames count ≡ a.allocated_frames + count
    exact = grind (arith, sizes, r.bytes, v.frames, v.count, used-le rs r.regions)

reserve_frames-Granted :
    (a : FrameAllocator) (q count : ℕ) (f : PhysicalFrame)
    → IsValid a
    → q ≡ count * page_size
    → (reserve_frames q count a).1 ≡ some f
    → Granted a f count (reserve_frames q count a).0
reserve_frames-Granted a q count f v size e =
    let (rs, found, shape) = reserve_frames-some a q count f e in
    rw shape (
      after_reserve-Granted a count f rs v (
        reserve-Reserved (count * page_size) (live a) f rs (omega arith) v.regions v.disjoint
          (subst (λ n. reserve n (live a) ≡ some (f, rs)) size found)))

remaining_small : (rs : List FrameRegion) → All RegionOk rs → All (λ r. remaining r < u64_max) rs
remaining_small [] h = tt
remaining_small (r ∷ rs) h = (omega arith, remaining_small rs h.1)

-- A request whose size saturates finds no region.
reserve_saturated :
    (a : FrameAllocator) (count : ℕ) → IsValid a → (reserve_frames u64_max count a).1 ≡ none
unfolding reserve_frames
reserve_saturated a count v =
    rw ((reserve-none u64_max (live a)).1 (remaining_small (live a) v.regions), reserve_frames) refl

allocate_ready :
    (a : FrameAllocator) → a.initialized ≡ true → allocate a ≡ reserve_frames page_size 1 a
unfolding allocate
allocate_ready a on = ground arith

-- A frame that `allocate` returns from a well-formed allocator is page-aligned, was free in every
-- address, lies in 64 bits above the first megabyte, and afterwards exactly it is taken in
-- addition; the allocator stays well formed and its frame counter grows by 1.
pub allocate-Granted :
    (a : FrameAllocator) (f : PhysicalFrame)
    → IsValid a
    → (allocate a).1 ≡ some f
    → Granted a f 1 (allocate a).0
allocate-Granted a f v e = elim (Bool-cases a.initialized) [
  | inl on ↦
      rw (allocate_ready a on)
        (reserve_frames-Granted a page_size 1 f v refl (rw (allocate_ready a on) at e))
  | inr off ↦ absurd (unfold allocate in ground arith)
]

-- A run of frames that `allocate_contiguous` returns from a well-formed allocator has a frame or
-- more, is page-aligned, was free in every address, lies in 64 bits above the first megabyte, and
-- afterwards exactly it is taken in addition; the allocator stays well formed and its frame
-- counter grows by their number.
pub allocate_contiguous-Granted :
    (a : FrameAllocator) (count : ℕ) (f : PhysicalFrame)
    → IsValid a
    → (allocate_contiguous a count).1 ≡ some f
    → (0 < count) × Granted a f count (allocate_contiguous a count).0
unfolding allocate_contiguous
allocate_contiguous-Granted a count f v e = elim (Bool-cases (not a.initialized || count == 0)) [
  | inl refused ↦ absurd (ground arith)
  | inr on ↦ elim (Bool-cases (leb (count * page_size) u64_max)) [
    | inl fits ↦
        let size : sat_mul count page_size ≡ count * page_size = omega (arith, leb→le _ _ fits) in
        rw (on, allocate_contiguous)
          (
            ground arith,
            reserve_frames-Granted a (sat_mul count page_size) count f v size
                (rw (on, allocate_contiguous) at e),
          )
    | inr past ↦
        let size : sat_mul count page_size ≡ u64_max = omega (arith, leb_false→lt _ _ past) in
        absurd (ground (arith, reserve_saturated a count v))
  ]
]

-- A call that grants nothing leaves the allocator as it was.
pub allocate-none : (a : FrameAllocator) → (allocate a).1 ≡ none → (allocate a).0 ≡ a
unfolding allocate reserve_frames
allocate-none a e = ground arith

pub allocate_contiguous-none :
    (a : FrameAllocator) (n : ℕ)
    → (allocate_contiguous a n).1 ≡ none
    → (allocate_contiguous a n).0 ≡ a
unfolding allocate_contiguous reserve_frames
allocate_contiguous-none a n e = ground arith

full-not-Free :
    (x : ℕ) (rs : List FrameRegion)
    → All RegionOk rs
    → All (λ r. remaining r < page_size) rs
    → ¬ Free x rs
full-not-Free x [] h d k = k
full-not-Free x (r ∷ rs) h d (inl k) = omega arith
full-not-Free x (r ∷ rs) h d (inr k) = full-not-Free x rs h.1 d.1 k

full_of_not-Free :
    (rs : List FrameRegion)
    → All RegionOk rs
    → ((x : ℕ) → ¬ Free x rs)
    → All (λ r. remaining r < page_size) rs
full_of_not-Free [] h f = tt
full_of_not-Free (r ∷ rs) h f = (
  elim (Bool-cases (ltb (remaining r) page_size)) [
    | inl short ↦ ltb→lt _ _ short
    | inr room ↦ absurd (f r.next (inl (ground arith)))
  ],
  full_of_not-Free rs h.1 (λ x k. f x (inr k)),
)

-- On a well-formed, initialised allocator `allocate` fails exactly when no address of its regions
-- is free.
pub allocate_exhausted :
    (a : FrameAllocator)
    → IsValid a
    → a.initialized ≡ true
    → ((allocate a).1 ≡ none) ↔ ((x : ℕ) → ¬ Free x (live a))
allocate_exhausted a v on = (
  λ e x.
      full-not-Free x (live a) v.regions
        ((reserve-none page_size (live a)).0 (fails (rw (allocate_ready a on) at e))),
  λ f. rw (allocate_ready a on) (
      unfold reserve_frames in
      rw
        (
          (reserve-none page_size (live a)).1 (full_of_not-Free (live a) v.regions f),
          reserve_frames,
        )
        refl),
)
  where
    fails : (reserve_frames page_size 1 a).1 ≡ none → reserve page_size (live a) ≡ none
    fails e = unfold reserve_frames in ground arith
