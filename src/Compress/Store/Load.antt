-- ===== src/Compress/Store/Load.antt =====
-- `` of kernel/src/mm/compress/store.rs, alone and after `store_page`.
use hxnu.Base.{
  not, if◌then◌else◌, ℕ, ◌≡◌, refl, true, none, some, List, arith, length, get_or, subst, Result,
  inl, inr, ok, err, Option-cases, sat_add,
}
use hxnu.Compress.{CompressionError, IsPage, page_bytes}
use hxnu.Compress.Codec.Encode.{Encodes}
use hxnu.Compress.Runtime
use hxnu.Compress.Runtime.{CompressionRuntime}
use hxnu.Compress.Runtime.Counters.{decode_page_ready}
use hxnu.Compress.Store.{
  StoreSlot, slot_page, not_initialized, not_found, decode, StoreState, StoreEntry, StoreError,
  empty, find_slot, store_page,
}
use hxnu.Compress.Store.Slots.{lookup, find_slot-none, find_slot-some}
use hxnu.Compress.Store.Totals.{Tallied-more}
use hxnu.Compress.Store.Valid.{IsValid}
use hxnu.Compress.Store.Put.{Holds}
use hxnu.Compress.Store.Kept.{store_page-Stored}

-- The counters of a request to load a page.
abbrev pub load_requested : StoreState → StoreState
load_requested s = record s {
  stats = record (s.stats) { load_requests = sat_add s.stats.load_requests 1 };
}

abbrev pub load_missed : StoreState → StoreState
load_missed s = record s {
  stats = record (s.stats) { load_misses = sat_add s.stats.load_misses 1 };
}

pub load_decoded :
    ℕ
    → StoreSlot
    → Result (Unit {0}) CompressionError
    → StoreState
    → StoreState × Result StoreEntry StoreError
load_decoded page_id slot (ok _) s = (
  record s { stats = record (s.stats) { load_successes = sat_add s.stats.load_successes 1 } },
  ok (record { page_id = page_id; class = slot.class; encoded_bytes = slot.encoded_len }),
)
load_decoded page_id slot (err x) s = (
  record s { stats = record (s.stats) { decode_failures = sat_add s.stats.decode_failures 1 } },
  err (decode x),
)

-- The page buffer `out` is state, too.
pub load_page :
    CompressionRuntime
    → StoreState
    → ℕ
    → List ℕ
    → CompressionRuntime × StoreState × List ℕ × Result StoreEntry StoreError
load_page c s page_id out =
    let requested = load_requested s in
    if not s.initialized
    then (c, s, out, err not_initialized)
    else elim (find_slot s.slots page_id) [
      | none ↦ (c, load_missed requested, out, err not_found)
      | some i ↦
          let slot = get_or s.slots i empty in
          let (c', out', r) = Runtime.decode_page c (slot_page slot) out in
          let (s', result) = load_decoded page_id slot r requested in (c', s', out', result)
    ]

-- The state after a load that succeeds.
abbrev loaded : StoreState → StoreState
loaded s = record s {
  stats = record (s.stats) {
    load_requests = sat_add s.stats.load_requests 1;
    load_successes = sat_add s.stats.load_successes 1;
  };
}

loaded-IsValid : (s : StoreState) → IsValid s → IsValid (loaded s)
loaded-IsValid s v = record {
  ready = v.ready;
  sized = v.sized;
  victim = v.victim;
  slots = v.slots;
  distinct = v.distinct;
  tallied = Tallied-more _ _ _ _ _ _ _ _ _ _ _ _ v.tallied;
}

-- The outcome of a load.
pub record Loaded (s : StoreState) (id : ℕ) (page : List ℕ)
    (r : CompressionRuntime × StoreState × List ℕ × Result StoreEntry StoreError) : Type 0 where
  pub entry : StoreEntry
  pub done : r.3 ≡ ok entry
  pub named : entry.page_id ≡ id
  pub filled : r.2 ≡ page
  pub still : r.0.initialized ≡ true
  pub valid : IsValid r.1
  pub slots : r.1.slots ≡ s.slots
  pub victim : r.1.next_evict ≡ s.next_evict

found_at :
    (s : StoreState) (id : ℕ) (page : List ℕ)
    → Holds s id page
    → (i : ℕ) × (find_slot s.slots id ≡ some i) × Encodes (slot_page (get_or s.slots i empty)) page
found_at s id page h = elim (Option-cases (find_slot s.slots id)) [
  | inl gone ↦ absurd (cc (find_slot-none s.slots id gone, h.found))
  | inr (i, e) ↦
      let there : h.slot ≡ get_or s.slots i empty =
        cc (h.found, (find_slot-some s.slots id i empty e).1) in
      (i, e, subst (λ slot. Encodes (slot_page slot) page) there h.codes)
]

load_page-found :
    (c : CompressionRuntime) (s : StoreState) (id i : ℕ) (out : List ℕ)
    → s.initialized ≡ true
    → find_slot s.slots id ≡ some i
    → (Runtime.decode_page c (slot_page (get_or s.slots i empty)) out).2 ≡ ok tt
    → load_page c s id out ≡ (
      (Runtime.decode_page c (slot_page (get_or s.slots i empty)) out).0,
      loaded s,
      (Runtime.decode_page c (slot_page (get_or s.slots i empty)) out).1,
      ok (record {
        page_id = id;
        class = (get_or s.slots i empty).class;
        encoded_bytes = (get_or s.slots i empty).encoded_len;
      }),
    )
unfolding load_page load_decoded
load_page-found c s id i out ready e done = ground arith

-- Loading a page that a well-formed store holds, over an initialised runtime and into any page
-- buffer, fills the buffer with that page and succeeds; it changes neither the slots nor the next
-- victim.
pub load_page-Holds :
    (c : CompressionRuntime) (s : StoreState) (id : ℕ) (page out : List ℕ)
    → c.initialized ≡ true
    → IsValid s
    → Holds s id page
    → length out ≡ page_bytes
    → Loaded s id page (load_page c s id out)
load_page-Holds c s id page out on v h size =
    let (i, e, codes) = found_at s id page h in
    let (filled, done, still) =
      decode_page_ready c (slot_page (get_or s.slots i empty)) page out on codes h.paged.sized
        size in
    rw (load_page-found c s id i out v.ready e done) (record {
      entry = _;
      done = refl;
      named = refl;
      filled = filled;
      still = still;
      valid = loaded-IsValid s v;
      slots = refl;
      victim = refl;
    })

pub load_page-missing :
    (c : CompressionRuntime) (s : StoreState) (id : ℕ) (out : List ℕ)
    → s.initialized ≡ true
    → lookup s.slots id ≡ none
    → load_page c s id out ≡ (c, load_missed (load_requested s), out, err StoreError.not_found)
unfolding load_page
load_page-missing c s id out ready lost = elim (Option-cases (find_slot s.slots id)) [
  | inl gone ↦ ground arith
  | inr (i, e) ↦ absurd (cc (lost, (find_slot-some s.slots id i empty e).1))
]

-- Over an initialised runtime, a page that a well-formed store was given is what it gives back under
-- that identifier, into any page buffer.
pub load_page-store_page :
    (c : CompressionRuntime) (s : StoreState) (id : ℕ) (page out : List ℕ)
    → c.initialized ≡ true
    → IsValid s
    → IsPage page
    → length out ≡ page_bytes
    → let (c', s', _) = store_page c s id page in Loaded s' id page (load_page c' s' id out)
load_page-store_page c s id page out on v paged size =
    let (entry, done, named, still, stored) = store_page-Stored c s id page on v paged in
    load_page-Holds _ _ id page out still stored.valid stored.holds size
