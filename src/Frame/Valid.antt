-- ===== src/Frame/Valid.antt =====
-- The invariant of the frame allocator, and that `initialize` establishes it on a proper memory map.
use hxnu.Base.{
  ◌+◌, ◌*◌, ◌≤◌, ◌≡◌, refl, sym, ap, ◌⊎◌, inl, inr, true, false, List, [], ◌∷◌, arith, u64_max, max,
  min, All, length, length-take, leb, Bool-cases, subst,
}
use hxnu.Frame.{
  FrameAllocator, MemoryMapEntry, is_usable, region_start, region_end, page_size,
  max_usable_regions, bootstrap_reserved_end,
}
use hxnu.Frame.Align.{align_up_page, align_down_page}
use hxnu.Frame.Regions.{RegionOk, Apart, Disjoint, used}
use hxnu.Frame.Init.{live, region, map_regions}
use hxnu.Frame.Boot.{Loaded}

pub record IsValid (a : FrameAllocator) : Type 0 where
  pub count : a.region_count ≤ max_usable_regions
  pub slots : length a.regions ≡ max_usable_regions
  pub regions : All RegionOk (live a)
  pub disjoint : Disjoint (live a)
  pub frames : a.allocated_frames * page_size ≡ used (live a)

-- Entries of the memory map: 64-bit numbers, and usable ones do not overlap.
abbrev pub EntryOk : MemoryMapEntry → Type 0
EntryOk e = (e.base ≤ u64_max) × (e.length ≤ u64_max)

abbrev pub EntriesApart : MemoryMapEntry → MemoryMapEntry → Type 0
EntriesApart e f =
    (is_usable e ≡ true)
    → (is_usable f ≡ true)
    → (e.base + e.length ≤ f.base) ⊎ (f.base + f.length ≤ e.base)

abbrev pub MapOk : List MemoryMapEntry → Type 0
MapOk [] = Unit
MapOk (e ∷ es) = EntryOk e × All (EntriesApart e) es × MapOk es

-- A region of the map lies inside its entry.
pub region_lem :
    (e : MemoryMapEntry)
    → EntryOk e
    → leb (region_end e) (region_start e) ≡ false
    → RegionOk (region e) × (e.base ≤ region_start e) × (region_end e ≤ e.base + e.length)
region_lem e h part = ground (
  arith,
  align_up_page (max e.base bootstrap_reserved_end),
  align_down_page (min (e.base + e.length) u64_max),
)

-- The region of a used entry is apart from those of later entries.
map_regions-Apart :
    (e : MemoryMapEntry) (es : List MemoryMapEntry)
    → EntryOk e
    → is_usable e ≡ true
    → leb (region_end e) (region_start e) ≡ false
    → All (EntriesApart e) es
    → MapOk es
    → All (Apart (region e)) (map_regions es)
map_regions-Apart e [] k used part d m = tt
map_regions-Apart e (f ∷ es) k used part d m = elim (Bool-cases (is_usable f)) [
  | inr unused ↦ rw unused (map_regions-Apart e es k used part d.1 m.2)
  | inl used' ↦ elim (Bool-cases (leb (region_end f) (region_start f))) [
    | inl none_left ↦ rw (used', none_left) (map_regions-Apart e es k used part d.1 m.2)
    | inr part' ↦
        let here = region_lem e k part in
        let there = region_lem f m.0 part' in
        let far = d.0 used used' in
        rw (used', part') (omega arith, map_regions-Apart e es k used part d.1 m.2)
  ]
]

pub map_regions_ok :
    (es : List MemoryMapEntry)
    → MapOk es
    → All RegionOk (map_regions es) × Disjoint (map_regions es) × (used (map_regions es) ≡ 0)
map_regions_ok [] m = (tt, tt, refl)
map_regions_ok (e ∷ es) m =
    let ih = map_regions_ok es m.2 in
    elim (Bool-cases (is_usable e)) [
      | inr unused ↦ rw unused ih
      | inl on ↦ elim (Bool-cases (leb (region_end e) (region_start e))) [
        | inl none_left ↦ rw (on, none_left) ih
        | inr part ↦
            rw (on, part)
              (
                ((region_lem e m.0 part).0, ih.0),
                (map_regions-Apart e es m.0 on part m.1 m.2, ih.1),
                omega arith,
              )
      ]
    ]

pub Loaded-IsValid :
    (es : List MemoryMapEntry) (a : FrameAllocator)
    → MapOk es
    → length (map_regions es) ≤ max_usable_regions
    → Loaded es a
    → IsValid a
Loaded-IsValid es a m h l =
    let fine = map_regions_ok es m in
    record {
      count = omega (arith, l.count);
      slots = l.slots;
      regions = subst (All RegionOk) (sym l.regions) fine.0;
      disjoint = subst Disjoint (sym l.regions) fine.1;
      frames = omega (arith, l.frames, ap used l.regions);
    }

pub length-live : (a : FrameAllocator) → IsValid a → length (live a) ≡ a.region_count
length-live a v = omega (arith, length-take a.region_count a.regions, v.slots, v.count)
