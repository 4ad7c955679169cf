-- ===== src/Frame/Init.antt =====
-- The loop of `initialize` (kernel/src/mm/frame.rs) against a description of the regions it should hold.
use hxnu.Base.{
  ◌+◌, ◌≤◌, ◌<◌, ◌≡◌, refl, sym, ap, ◌∙◌, inl, inr, true, false, List, [], ◌∷◌, ◌++◌, append-nil,
  append_assoc, arith, u64_max, min, length, length-append, length-set, length-replicate, take,
  take-set, leb, if◌then◌else◌, Bool-cases, ok, err, lt→leb_false, leb_false→lt, leb→le,
  leb_false→lt, leb→le,
}
use hxnu.Frame.{
  FrameAllocator, FrameRegion, MemoryMapEntry, FrameAllocatorInitError, new, is_usable,
  region_start, region_end, add_entry, add_entries, max_usable_regions, empty,
}
use hxnu.Frame.Regions.{used, total}

-- The regions in use, `self.regions[..self.region_count]`.
abbrev pub live : FrameAllocator → List FrameRegion
live a = take a.region_count a.regions

abbrev pub region : MemoryMapEntry → FrameRegion
region e = record { start = region_start e; end = region_end e; next = region_start e }

-- The whole pages of a usable entry above the reserved megabyte.
abbrev pub entry_regions : MemoryMapEntry → List FrameRegion
entry_regions e =
    if is_usable e then (if leb (region_end e) (region_start e) then [] else region e ∷ []) else []

abbrev pub map_regions : List MemoryMapEntry → List FrameRegion
map_regions [] = []
map_regions (e ∷ es) = entry_regions e ++ map_regions es

pub record Grown (a : FrameAllocator) (rs : List FrameRegion) (a' : FrameAllocator) : Type 0 where
  pub regions : live a' ≡ live a ++ rs
  pub count : a'.region_count ≡ a.region_count + length rs
  pub slots : length a'.regions ≡ max_usable_regions
  pub bytes : a'.allocatable_bytes ≡ min (a.allocatable_bytes + total rs) u64_max
  pub frames : a'.allocated_frames ≡ a.allocated_frames

pub record Starts (a : FrameAllocator) : Type 0 where
  pub count : a.region_count ≤ max_usable_regions
  pub slots : length a.regions ≡ max_usable_regions
  pub bytes : a.allocatable_bytes ≤ u64_max

-- The three ways in which a round goes on.
entry_regions_push :
    (e : MemoryMapEntry)
    → is_usable e ≡ true
    → leb (region_end e) (region_start e) ≡ false
    → entry_regions e ≡ region e ∷ []
entry_regions_push e used part = rw (used, part)

add_entry-Grown :
    (e : MemoryMapEntry) (a : FrameAllocator)
    → Starts a
    → a.region_count + length (entry_regions e) ≤ max_usable_regions
    → ((add_entry e a).1 ≡ ok tt) × Grown a (entry_regions e) (add_entry e a).0
unfolding add_entry
add_entry-Grown e a s h = elim (Bool-cases (is_usable e)) [
  | inr unused ↦
      rw (unused, add_entry)
        (
          refl,
          record {
            regions = sym (append-nil (live a));
            count = omega arith;
            slots = s.slots;
            bytes = omega arith;
            frames = refl;
          },
        )
  | inl used ↦ elim (Bool-cases (leb (region_end e) (region_start e))) [
    | inl none_left ↦
        rw (used, none_left, add_entry)
          (
            refl,
            record {
              regions = sym (append-nil (live a));
              count = omega arith;
              slots = s.slots;
              bytes = omega arith;
              frames = refl;
            },
          )
    | inr part ↦
        let one : length (entry_regions e) ≡ 1 = ap length (entry_regions_push e used part) in
        let open_slot : leb max_usable_regions a.region_count ≡ false =
          lt→leb_false _ _ (omega arith) in
        rw (used, part, open_slot, add_entry)
          (
            refl,
            record {
              regions =
                  take-set a.region_count (a.region_count + 1) a.regions (region e) refl
                    (omega arith);
              count = omega arith;
              slots = length-set a.regions a.region_count (region e) ∙ s.slots;
              bytes = omega arith;
              frames = refl;
            },
          )
  ]
]

add_entry_full :
    (e : MemoryMapEntry) (a : FrameAllocator)
    → a.region_count ≤ max_usable_regions
    → max_usable_regions < a.region_count + length (entry_regions e)
    → (add_entry e a).1 ≡ err FrameAllocatorInitError.too_many_regions
unfolding add_entry
add_entry_full e a s h = ground arith

Grown-trans :
    {a b c : FrameAllocator} {rs ss : List FrameRegion}
    → Grown a rs b
    → Grown b ss c
    → Grown a (rs ++ ss) c
Grown-trans {a} {b} {c} {rs} {ss} g h = record {
  regions = h.regions ∙ ap (λ l. l ++ ss) g.regions ∙ append_assoc (live a) rs ss;
  count = omega (arith, g.count, h.count, length-append rs ss);
  slots = h.slots;
  bytes = omega (arith, g.bytes, h.bytes, total-append rs ss);
  frames = h.frames ∙ g.frames;
}
  where
    total-append : (xs ys : List FrameRegion) → total (xs ++ ys) ≡ total xs + total ys
    total-append [] ys = omega arith
    total-append (x ∷ xs) ys = omega (arith, total-append xs ys)

Grown-Starts :
    {a b : FrameAllocator} {rs : List FrameRegion}
    → Starts a
    → a.region_count + length rs ≤ max_usable_regions
    → Grown a rs b
    → Starts b
Grown-Starts s h g = record {
  count = omega (arith, g.count);
  slots = g.slots;
  bytes = omega (arith, g.bytes);
}

pub add_entries-Grown :
    (es : List MemoryMapEntry) (a : FrameAllocator)
    → Starts a
    → a.region_count + length (map_regions es) ≤ max_usable_regions
    → ((add_entries es a).1 ≡ ok tt) × Grown a (map_regions es) (add_entries es a).0
unfolding add_entries
add_entries-Grown [] a s h = (
  refl,
  record {
    regions = sym (append-nil (live a));
    count = omega arith;
    slots = s.slots;
    bytes = omega (arith, s.bytes);
    frames = refl;
  },
)
add_entries-Grown (e ∷ es) a s h =
    let sizes = length-append (entry_regions e) (map_regions es) in
    let (fine, grown) = add_entry-Grown e a s (omega arith) in
    let (rest, more) =
      add_entries-Grown es (add_entry e a).0 (Grown-Starts s (omega arith) grown)
        (omega (arith, grown.count)) in
    rw (fine, add_entries) (rest, Grown-trans grown more)

pub add_entries_full :
    (es : List MemoryMapEntry) (a : FrameAllocator)
    → Starts a
    → max_usable_regions < a.region_count + length (map_regions es)
    → (add_entries es a).1 ≡ err FrameAllocatorInitError.too_many_regions
unfolding add_entries
add_entries_full [] a s h = absurd (omega (arith, s.count))
add_entries_full (e ∷ es) a s h =
    elim (Bool-cases (leb (a.region_count + length (entry_regions e)) max_usable_regions)) [
      | inr full ↦ rw (add_entry_full e a s.count (leb_false→lt _ _ full), add_entries) refl
      | inl room ↦
          let sizes = length-append (entry_regions e) (map_regions es) in
          let (fine, grown) = add_entry-Grown e a s (leb→le _ _ room) in
          rw (fine, add_entries)
            (add_entries_full es (add_entry e a).0 (Grown-Starts s (leb→le _ _ room) grown)
              (omega (arith, grown.count)))
    ]

pub new-Starts : Starts new
new-Starts = record { count = omega arith; slots = length-replicate 64 empty; bytes = omega arith }
