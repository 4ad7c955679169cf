-- ===== src/Compress/Store.antt =====
-- kernel/src/mm/compress/store.rs: 64 slots of encoded pages, by page identifier. The global store
-- and the compression runtime that it calls are values that each operation takes and returns.
pub mod Slots
pub mod Totals
pub mod Count
pub mod Valid
pub mod Put
pub mod Kept
pub mod Load
pub mod History
use hxnu.Base.{
  ℕ, zero, suc, ◌+◌, ◌-◌, ◌*◌, ◌%◌, ◌^◌, Bool, true, false, not, ◌&&◌, Option, none, some, List, [],
  ◌∷◌, Result, ok, err, ltb, ◌==◌, if◌then◌else◌, sat_add, sat_sub, get_or, set, take, copy_at,
  length, replicate,
}
use hxnu.Compress.{CompressionClass, CompressionError, page_bytes, max_encoded_page_bytes}
use hxnu.Compress.Codec.{EncodedPage}
use hxnu.Compress.Runtime
use hxnu.Compress.Runtime.{CompressionRuntime}
use mathlib.Core.Option

abbrev pub store_capacity_pages : ℕ
store_capacity_pages = 64

abbrev pub store_capacity_bytes : ℕ
store_capacity_bytes = store_capacity_pages * max_encoded_page_bytes

pub record StoreSummary : Type 0 where
  pub capacity_pages : ℕ
  pub capacity_bytes : ℕ
  pub page_bytes : ℕ
  pub max_encoded_page_bytes : ℕ

pub data StoreInitError : Type 0 where
  already_initialized compression_runtime_unavailable : StoreInitError

pub data StoreError : Type 0 where
  not_initialized not_found : StoreError
  encode decode : CompressionError → StoreError

pub record StoreEntry : Type 0 where
  pub page_id : ℕ
  pub class : CompressionClass
  pub encoded_bytes : ℕ

-- The two capacities are constants, and left out.
pub record StoreStats : Type 0 where
  pub stored_pages : ℕ
  pub stored_zero_pages : ℕ
  pub stored_same_pages : ℕ
  pub stored_sxrc_pages : ℕ
  pub stored_raw_pages : ℕ
  pub current_encoded_bytes : ℕ
  pub total_input_bytes : ℕ
  pub total_encoded_bytes : ℕ
  pub store_requests : ℕ
  pub store_successes : ℕ
  pub load_requests : ℕ
  pub load_successes : ℕ
  pub load_misses : ℕ
  pub replacements : ℕ
  pub evictions : ℕ
  pub encode_failures : ℕ
  pub decode_failures : ℕ

abbrev pub no_stats : StoreStats
no_stats = record {
  stored_pages = 0;
  stored_zero_pages = 0;
  stored_same_pages = 0;
  stored_sxrc_pages = 0;
  stored_raw_pages = 0;
  current_encoded_bytes = 0;
  total_input_bytes = 0;
  total_encoded_bytes = 0;
  store_requests = 0;
  store_successes = 0;
  load_requests = 0;
  load_successes = 0;
  load_misses = 0;
  replacements = 0;
  evictions = 0;
  encode_failures = 0;
  decode_failures = 0;
}

pub record StoreSlot : Type 0 where
  pub occupied : Bool
  pub page_id : ℕ
  pub class : CompressionClass
  pub encoded_len : ℕ
  pub encoded : List ℕ

abbrev pub empty : StoreSlot
empty = record {
  occupied = false;
  page_id = 0;
  class = CompressionClass.raw;
  encoded_len = 0;
  encoded = replicate max_encoded_page_bytes 0;
}

pub record StoreState : Type 0 where
  pub initialized : Bool
  pub next_evict : ℕ
  pub slots : List StoreSlot
  pub stats : StoreStats

pub new : StoreState
new = record {
  initialized = false;
  next_evict = 0;
  slots = replicate store_capacity_pages empty;
  stats = no_stats;
}

abbrev pub summary : StoreSummary
summary = record {
  capacity_pages = store_capacity_pages;
  capacity_bytes = store_capacity_bytes;
  page_bytes = page_bytes;
  max_encoded_page_bytes = max_encoded_page_bytes;
}

pub initialize : CompressionRuntime → StoreState → StoreState × Result StoreSummary StoreInitError
initialize c s =
    if s.initialized
    then (s, err StoreInitError.already_initialized)
    else if not c.initialized
    then (s, err StoreInitError.compression_runtime_unavailable)
    else (record s { initialized = true }, ok summary)

-- The two loops over the slots: the first index that fits.
pub find_slot : List StoreSlot → ℕ → Option ℕ
find_slot [] page_id = none
find_slot (slot ∷ slots) page_id =
    if slot.occupied && slot.page_id == page_id
    then some 0
    else Option.map suc (find_slot slots page_id)

pub find_empty_slot : List StoreSlot → Option ℕ
find_empty_slot [] = none
find_empty_slot (slot ∷ slots) =
    if not slot.occupied then some 0 else Option.map suc (find_empty_slot slots)

abbrev pub count_class : (ℕ → ℕ) → CompressionClass → StoreStats → StoreStats
count_class f CompressionClass.zero t = record t { stored_zero_pages = f t.stored_zero_pages }
count_class f CompressionClass.same t = record t { stored_same_pages = f t.stored_same_pages }
count_class f CompressionClass.sxrc t = record t { stored_sxrc_pages = f t.stored_sxrc_pages }
count_class f CompressionClass.raw t = record t { stored_raw_pages = f t.stored_raw_pages }

pub account_added : CompressionClass → ℕ → StoreStats → StoreStats
account_added class n t =
    count_class (λ k. sat_add k 1) class
      (record t { current_encoded_bytes = sat_add t.current_encoded_bytes n })

pub account_removed : CompressionClass → ℕ → StoreStats → StoreStats
account_removed class n t =
    count_class (λ k. sat_sub k 1) class
      (record t { current_encoded_bytes = sat_sub t.current_encoded_bytes n })

-- The slot to write: the page's own, else an empty one, else the next to be evicted.
pub target : ℕ → StoreState → StoreState × ℕ
target page_id s = elim (find_slot s.slots page_id) [
  | some i ↦
      (record s { stats = record (s.stats) { replacements = sat_add s.stats.replacements 1 } }, i)
  | none ↦ elim (find_empty_slot s.slots) [
    | some i ↦ (s, i)
    | none ↦ (
      record s {
        next_evict = (s.next_evict + 1) % store_capacity_pages;
        stats = record (s.stats) { evictions = sat_add s.stats.evictions 1 };
      },
      s.next_evict,
    )
  ]
]

-- The counters after what the slot held is gone.
pub account_old : StoreSlot → StoreStats → StoreStats
account_old slot t =
    if slot.occupied
    then account_removed slot.class slot.encoded_len t
    else record t { stored_pages = sat_add t.stored_pages 1 }

abbrev pub filled : ℕ → EncodedPage → StoreSlot → StoreSlot
filled page_id e slot = record slot {
  occupied = true;
  page_id = page_id;
  class = e.class;
  encoded_len = length e.bytes % 2 ^ 16;
  encoded = copy_at slot.encoded 0 e.bytes;
}

-- `store_page` from the choice of the slot on, and behind it.
pub place_at : ℕ → EncodedPage → StoreState × ℕ → StoreState × StoreEntry
place_at page_id e (s1, i) =
    let slot = get_or s1.slots i empty in
    let t = account_added e.class (length e.bytes) (account_old slot s1.stats) in
    (
      record s1 {
        slots = set s1.slots i (filled page_id e slot);
        stats = record t {
          store_successes = sat_add t.store_successes 1;
          total_encoded_bytes = sat_add t.total_encoded_bytes (length e.bytes);
        };
      },
      record { page_id = page_id; class = e.class; encoded_bytes = length e.bytes },
    )

abbrev pub place : ℕ → EncodedPage → StoreState → StoreState × StoreEntry
place page_id e s = place_at page_id e (target page_id s)

-- The counters of a request to store a page.
abbrev pub store_requested : StoreState → StoreState
store_requested s = record s {
  stats = record (s.stats) {
    store_requests = sat_add s.stats.store_requests 1;
    total_input_bytes = sat_add s.stats.total_input_bytes page_bytes;
  };
}

pub store_encoded :
    ℕ → Result EncodedPage CompressionError → StoreState → StoreState × Result StoreEntry StoreError
store_encoded page_id (err x) s = (
  record s { stats = record (s.stats) { encode_failures = sat_add s.stats.encode_failures 1 } },
  err (encode x),
)
store_encoded page_id (ok e) s = let (s', entry) = place page_id e s in (s', ok entry)

pub store_page :
    CompressionRuntime
    → StoreState
    → ℕ
    → List ℕ
    → CompressionRuntime × StoreState × Result StoreEntry StoreError
store_page c s page_id page =
    let (c', scratch, r) = Runtime.encode_page c page (replicate max_encoded_page_bytes 0) in
    let (s', result) = store_encoded page_id r (store_requested s) in
    if not s.initialized then (c, s, err not_initialized) else (c', s', result)

-- What `load_page` hands to the runtime.
abbrev pub slot_page : StoreSlot → EncodedPage
slot_page slot = record { class = slot.class; bytes = take slot.encoded_len slot.encoded }
