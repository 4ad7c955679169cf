-- ===== src/Frame/Boot.antt =====
-- `initialize` of kernel/src/mm/frame.rs, by what the memory map describes.
use hxnu.Base.{
  ◌⊎◌, ==→eq, ltb, ltb→lt, ltb_false→le, ◌≤◌, ◌<◌, ◌≡◌, refl, inl, inr, true, false, List, arith,
  u64_max, min, length, Bool-cases, ok, err, eq→==, ◌==◌, eq→==, ◌==◌,
}
use hxnu.Frame.{
  FrameAllocator, MemoryMapEntry, FrameAllocatorInitError, new, stats, add_entries, initialize,
  max_usable_regions,
}
use hxnu.Frame.Regions.{total}
use hxnu.Frame.Init.{live, map_regions, add_entries-Grown, add_entries_full, new-Starts}

-- What `initialize` leaves: the described regions, untouched.
pub record Loaded (es : List MemoryMapEntry) (a : FrameAllocator) : Type 0 where
  pub regions : live a ≡ map_regions es
  pub count : a.region_count ≡ length (map_regions es)
  pub slots : length a.regions ≡ max_usable_regions
  pub bytes : a.allocatable_bytes ≡ min (total (map_regions es)) u64_max
  pub frames : a.allocated_frames ≡ 0
  pub ready : a.initialized ≡ true

-- `initialize` by the number of regions that the map describes.
pub initialize_when :
    (es : List MemoryMapEntry)
    → (length (map_regions es) ≡ 0
        → (initialize new es).1 ≡ err FrameAllocatorInitError.no_usable_regions)
      × (max_usable_regions < length (map_regions es)
          → (initialize new es).1 ≡ err FrameAllocatorInitError.too_many_regions)
      × (0 < length (map_regions es)
          → length (map_regions es) ≤ max_usable_regions
          → ((initialize new es).1 ≡ ok (stats (initialize new es).0))
            × Loaded es (initialize new es).0)
unfolding initialize
initialize_when es = (
  λ h.
      let (fine, grown) = add_entries-Grown es new new-Starts (omega arith) in
      rw
        (fine, eq→== (add_entries es new).0.region_count 0 (omega (arith, grown.count)), initialize)
        refl,
  λ h. rw (add_entries_full es new new-Starts (omega arith), initialize) refl,
  λ some_regions h.
      let (fine, grown) = add_entries-Grown es new new-Starts (omega arith) in
      let counted : ((add_entries es new).0.region_count == 0) ≡ false =
        ground (arith, grown.count) in
      rw (fine, counted, initialize)
        (
          refl,
          record {
            regions = grown.regions;
            count = omega (arith, grown.count);
            slots = grown.slots;
            bytes = omega (arith, grown.bytes);
            frames = grown.frames;
            ready = refl;
          },
        ),
)

-- From the initial allocator, `initialize` succeeds exactly when the memory map describes between
-- one and 64 regions, and the regions in use are then those described, in the map's order; with
-- none, and with more than 64, it reports the error that says so.
pub initialize-new :
    (es : List MemoryMapEntry)
    → ((length (map_regions es) ≡ 0)
        × ((initialize new es).1 ≡ err FrameAllocatorInitError.no_usable_regions))
      ⊎ ((max_usable_regions < length (map_regions es))
          × ((initialize new es).1 ≡ err FrameAllocatorInitError.too_many_regions))
      ⊎ ((0 < length (map_regions es))
          × (length (map_regions es) ≤ max_usable_regions)
          × ((initialize new es).1 ≡ ok (stats (initialize new es).0))
          × Loaded es (initialize new es).0)
initialize-new es = elim (Bool-cases (length (map_regions es) == 0)) [
  | inl none_there ↦
      let e : length (map_regions es) ≡ 0 = ==→eq (length (map_regions es)) 0 none_there in
      inl (e, (initialize_when es).0 e)
  | inr some_there ↦
      let few_or_many = Bool-cases (ltb max_usable_regions (length (map_regions es))) in
      elim few_or_many [
        | inl many ↦
            let h = ltb→lt max_usable_regions (length (map_regions es)) many in
            inr (inl (h, (initialize_when es).1 h))
        | inr few ↦
            let h = ltb_false→le max_usable_regions (length (map_regions es)) few in
            let positive : 0 < length (map_regions es) = ground arith in
            let (done, loaded) = (initialize_when es).2 positive h in
            inr (inr (positive, h, done, loaded))
      ]
]
