-- ===== src/Compress/Store/Kept.antt =====
-- `store_page` of kernel/src/mm/compress/store.rs: the page that is stored, and the others.
use hxnu.Base.{
  ℕ, ◌≡◌, ◌≢◌, refl, ◌⊎◌, true, none, List, arith, length, get_or, ok, replicate, length-replicate,
}
use hxnu.Compress.{IsPage, max_encoded_page_bytes}
use hxnu.Compress.Codec.{EncodedPage}
use hxnu.Compress.Codec.RoundTrip.{length-Encodes}
use hxnu.Compress.Store.{
  StoreState, StoreEntry, empty, find_empty_slot, place, place_at, target, store_page,
  store_encoded, store_requested, StoreEntry,
}
use hxnu.Compress.Runtime
use hxnu.Compress.Runtime.{CompressionRuntime}
use hxnu.Compress.Runtime.Counters.{encode_page_ready}
use hxnu.Compress.Store.Slots.{lookup, matches}
use hxnu.Compress.Store.Valid.{IsValid, target-Targeted}
use hxnu.Compress.Store.Put.{Holds, Stored, Targeted-Stored, requested-IsValid}

store_page-encoded :
    (c : CompressionRuntime) (s : StoreState) (id : ℕ) (page : List ℕ) (e : EncodedPage)
    → s.initialized ≡ true
    → (Runtime.encode_page c page (replicate max_encoded_page_bytes 0)).2 ≡ ok e
    → store_page c s id page ≡ (
      (Runtime.encode_page c page (replicate max_encoded_page_bytes 0)).0,
      (place id e (store_requested s)).0,
      ok (place id e (store_requested s)).1,
    )
unfolding store_page store_encoded
store_page-encoded c s id page e ready done = rw (ready, done, store_page, store_encoded) refl

-- What `store_page` does on a well-formed store over an initialised runtime.
pub store_page-Stored :
    (c : CompressionRuntime) (s : StoreState) (id : ℕ) (page : List ℕ)
    → c.initialized ≡ true
    → IsValid s
    → IsPage page
    → (entry : StoreEntry) × ((store_page c s id page).2 ≡ ok entry)
      × (entry.page_id ≡ id)
      × ((store_page c s id page).0.initialized ≡ true)
      × Stored s id page (store_page c s id page).1
unfolding place_at
store_page-Stored c s id page on v paged =
    let scratch : List ℕ = replicate max_encoded_page_bytes 0 in
    let size : length scratch ≡ max_encoded_page_bytes =
      length-replicate {A = ℕ} max_encoded_page_bytes 0 in
    let (e, done, codes, still) = encode_page_ready c page scratch on paged (omega arith) in
    let requested = requested-IsValid s v in
    let stored =
      Targeted-Stored (store_requested s) id e page (target id (store_requested s)) requested
        (target-Targeted (store_requested s) id requested) paged codes
        (length-Encodes e page codes) in
    rw (store_page-encoded c s id page e v.ready done) (
      (place id e (store_requested s)).1,
      refl,
      refl,
      still,
      record { valid = stored.valid; holds = stored.holds; keeps = stored.keeps },
    )

-- Storing a page in a well-formed store over an initialised runtime succeeds and leaves both so,
-- and the page is held under its identifier.
pub store_page-Holds :
    (c : CompressionRuntime) (s : StoreState) (id : ℕ) (page : List ℕ)
    → c.initialized ≡ true
    → IsValid s
    → IsPage page
    → (entry : StoreEntry) × ((store_page c s id page).2 ≡ ok entry)
      × (entry.page_id ≡ id)
      × ((store_page c s id page).0.initialized ≡ true)
      × IsValid (store_page c s id page).1
      × Holds (store_page c s id page).1 id page
store_page-Holds c s id page on v paged =
    let (entry, done, named, still, stored) = store_page-Stored c s id page on v paged in
    (entry, done, named, still, stored.valid, stored.holds)

-- When a page is stored in a well-formed store over an initialised runtime, every other identifier
-- keeps its slot, unless it stood in the slot that was next to be evicted, the stored page was not
-- there before, and no slot was empty.
pub store_page_others :
    (c : CompressionRuntime) (s : StoreState) (id : ℕ) (page : List ℕ) (other : ℕ)
    → c.initialized ≡ true
    → IsValid s
    → IsPage page
    → other ≢ id
    → let s' = (store_page c s id page).1 in
      (lookup s'.slots other ≡ lookup s.slots other)
      ⊎ ((lookup s'.slots other ≡ none)
          × (matches (get_or s.slots s.next_evict empty) other ≡ true)
          × (lookup s.slots id ≡ none)
          × (find_empty_slot s.slots ≡ none))
store_page_others c s id page other on v paged apart =
    let (_, _, _, _, stored) = store_page-Stored c s id page on v paged in stored.keeps other apart
