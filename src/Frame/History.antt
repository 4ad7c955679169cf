-- ===== src/Frame/History.antt =====
-- Histories of calls to the frame allocator (kernel/src/mm/frame.rs): no address is handed out twice.
use hxnu.Base.{
  ℕ, ◌+◌, ◌*◌, ◌%◌, ◌≤◌, ◌<◌, ◌≡◌, ◌⊎◌, inl, inr, true, false, List, [], ◌∷◌, arith, All, length,
  leb, Bool-cases, Option-cases, Option, some, none, subst,
}
use hxnu.Frame.{
  FrameAllocator, PhysicalFrame, MemoryMapEntry, new, initialize, is_usable, region_start,
  region_end, allocate, allocate_contiguous, page_size, max_usable_regions, bootstrap_reserved_end,
}
use hxnu.Frame.Regions.{Free, InRange, not-Free-Taken}
use hxnu.Frame.Init.{live, map_regions}
use hxnu.Frame.Boot.{initialize_when}
use hxnu.Frame.Valid.{IsValid, MapOk, region_lem, Loaded-IsValid}
use hxnu.Frame.Alloc.{
  Granted, allocate-Granted, allocate_contiguous-Granted, allocate-none, allocate_contiguous-none,
}

pub data Call : Type 0 where
  one : Call
  contiguous : ℕ → Call

abbrev pub step : FrameAllocator → Call → FrameAllocator × Option PhysicalFrame
step a one = allocate a
step a (contiguous n) = allocate_contiguous a n

abbrev pub frames_of : Call → ℕ
frames_of one = 1
frames_of (contiguous n) = n

-- The granted ranges of a history of calls: where each starts, and its bytes.
unfoldable pub run : FrameAllocator → List Call → List (ℕ × ℕ)
run a [] = []
run a (c ∷ cs) =
    let rest = run (step a c).0 cs in
    elim (step a c).1 [ none ↦ rest | some f ↦ (f.start_address, frames_of c * page_size) ∷ rest ]

-- The grant of a call, if it makes one; a call that grants nothing changes nothing.
step-Granted :
    (a : FrameAllocator) (c : Call) (f : PhysicalFrame)
    → IsValid a
    → (step a c).1 ≡ some f
    → Granted a f (frames_of c) (step a c).0
step-Granted a one f v e = allocate-Granted a f v e
step-Granted a (contiguous n) f v e = (allocate_contiguous-Granted a n f v e).1

step-none : (a : FrameAllocator) (c : Call) → (step a c).1 ≡ none → (step a c).0 ≡ a
step-none a one e = allocate-none a e
step-none a (contiguous n) e = allocate_contiguous-none a n e

abbrev pub Within : (ℕ → Type 0) → ℕ × ℕ → Type 0
Within P (from, n) = (x : ℕ) → InRange x from n → P x

abbrev pub NoOverlap : List (ℕ × ℕ) → Type 0
NoOverlap [] = Unit
NoOverlap (g ∷ gs) = All (λ h. Within (λ x. ¬ InRange x g.0 g.1) h) gs × NoOverlap gs

Within-mono :
    (P Q : ℕ → Type 0) (gs : List (ℕ × ℕ))
    → ((x : ℕ) → P x → Q x)
    → All (Within P) gs
    → All (Within Q) gs
Within-mono P Q [] f h = tt
Within-mono P Q (g ∷ gs) f h = ((λ x k. f x (h.0 x k)), Within-mono P Q gs f h.1)

abbrev pub Aligned : ℕ × ℕ → Type 0
Aligned (from, n) = from % page_size ≡ 0

run_lem :
    (cs : List Call) (a : FrameAllocator)
    → IsValid a
    → All (Within (λ x. Free x (live a))) (run a cs) × All Aligned (run a cs) × NoOverlap (run a cs)
unfolding run
run_lem [] a v = (tt, tt, tt)
run_lem (c ∷ cs) a v = elim (Option-cases (step a c).1) [
  | inl nothing ↦ rw (nothing, step-none a c nothing, run) (run_lem cs a v)
  | inr (f, granted) ↦
      let g = step-Granted a c f v granted in
      let (free, aligned, apart) = run_lem cs (step a c).0 g.valid in
      rw (granted, run)
        (
          (
            g.was_free,
            Within-mono (λ x. Free x (live (step a c).0)) (λ x. Free x (live a)) _ g.shrinks free,
          ),
          (g.aligned, aligned),
          (
            Within-mono (λ x. Free x (live (step a c).0)) _ _
                (λ x unused mine.
                  not-Free-Taken x (live (step a c).0) g.valid.regions g.valid.disjoint unused
                    ((g.taken x).1 (inr mine)))
                free,
            apart,
          ),
        )
]

-- The addresses of the usable entries.
abbrev pub Usable : ℕ → List MemoryMapEntry → Type 0
Usable x [] = ⊥
Usable x (e ∷ es) = ((is_usable e ≡ true) × (e.base ≤ x) × (x < e.base + e.length)) ⊎ Usable x es

Free-Usable :
    (x : ℕ) (es : List MemoryMapEntry)
    → MapOk es
    → Free x (map_regions es)
    → (bootstrap_reserved_end ≤ x) × Usable x es
Free-Usable x [] m k = absurd k
Free-Usable x (e ∷ es) m k =
    let later = λ (h : Free x (map_regions es)). Free-Usable x es m.2 h in
    elim (Bool-cases (is_usable e)) [
      | inr unused ↦ let (low, there) = later (rw unused at k) in (low, inr there)
      | inl on ↦ elim (Bool-cases (leb (region_end e) (region_start e))) [
        | inl none_left ↦ let (low, there) = later (rw (on, none_left) at k) in (low, inr there)
        | inr part ↦ elim (in_first on part k) [
          | inl here ↦
              let (r, from, to) = region_lem e m.0 part in
              (omega arith, inl (on, omega arith, omega arith))
          | inr h ↦ let (low, there) = later h in (low, inr there)
        ]
      ]
    ]
  where
    in_first :
        is_usable e ≡ true
        → leb (region_end e) (region_start e) ≡ false
        → Free x (map_regions (e ∷ es))
        → ((region_start e ≤ x) × (x < region_end e)) ⊎ Free x (map_regions es)
    in_first on part h = rw (on, part) at h

-- From a memory map whose usable entries do not overlap and describe between one and 64 regions,
-- the allocator once initialised grants, over any history of single and contiguous requests, only
-- page-aligned ranges of usable memory above the first megabyte, no two of which share an address.
pub run-initialize :
    (es : List MemoryMapEntry) (cs : List Call)
    → MapOk es
    → 0 < length (map_regions es)
    → length (map_regions es) ≤ max_usable_regions
    → let grants = run (initialize new es).0 cs in
      All Aligned grants
      × All (Within (λ x. (bootstrap_reserved_end ≤ x) × Usable x es)) grants
      × NoOverlap grants
run-initialize es cs m some_regions few =
    let a = (initialize new es).0 in
    let loaded = ((initialize_when es).2 some_regions few).1 in
    let (free, aligned, apart) = run_lem cs a (Loaded-IsValid es a m few loaded) in
    (
      aligned,
      Within-mono (λ x. Free x (live a)) _ _
          (λ x k. Free-Usable x es m (subst (Free x) loaded.regions k)) free,
      apart,
    )
