-- ===== src/Pager/Restore.antt =====
-- Reclaiming and restoring pages with the pager of kernel/src/mm/pager.rs.
use hxnu.Base.{
  ◌⊎◌, ◌↔◌, inl, inr, false, Bool-cases, ℕ, ◌≡◌, refl, ap, ◌∙◌, true, none, List, [], ◌∷◌, arith,
  length, length-replicate, replicate, ok, err, sat_add,
}
use hxnu.Compress.{IsPage, page_bytes}
use hxnu.Compress.Store
use hxnu.Compress.Store.Load
use hxnu.Compress.Store.{StoreState, StoreEntry, StoreError}
use hxnu.Compress.Store.Slots.{lookup}
use hxnu.Compress.Store.Valid.{IsValid}
use hxnu.Compress.Store.Put.{Holds}
use hxnu.Compress.Store.Kept.{store_page-Stored}
use hxnu.Compress.Store.Load.{load_page-Holds, load_page-missing}
use hxnu.Pager.{
  PagerState, initialize, summary, Machine, PagerEntry, PagerError, pager_entry, reclaim_page,
  reclaimed, restore_page, restored, verify_roundtrip, equal,
}

-- A machine whose three parts are initialised, and whose store is well formed.
pub record IsReady (m : Machine) : Type 0 where
  pub runtime : m.runtime.initialized ≡ true
  pub shelf : IsValid m.shelf
  pub pager : m.pager.initialized ≡ true

reclaim_page-ok :
    (m : Machine) (id : ℕ) (page : List ℕ) (e : StoreEntry)
    → m.pager.initialized ≡ true
    → (Store.store_page m.runtime m.shelf id page).2 ≡ ok e
    → ((reclaim_page m id page).1 ≡ ok (pager_entry e))
      × ((reclaim_page m id page).0.runtime ≡ (Store.store_page m.runtime m.shelf id page).0)
      × ((reclaim_page m id page).0.shelf ≡ (Store.store_page m.runtime m.shelf id page).1)
      × ((reclaim_page m id page).0.pager.initialized ≡ true)
unfolding reclaim_page reclaimed
reclaim_page-ok m id page e on done = ground arith

-- A ready machine reclaims every page; it stays ready and holds the page.
pub reclaim_page-Holds :
    (m : Machine) (id : ℕ) (page : List ℕ)
    → IsReady m
    → IsPage page
    → (entry : PagerEntry) × ((reclaim_page m id page).1 ≡ ok entry)
      × (entry.page_id ≡ id)
      × IsReady (reclaim_page m id page).0
      × Holds (reclaim_page m id page).0.shelf id page
reclaim_page-Holds m id page v paged =
    let (e, done, named, still, stored) =
      store_page-Stored m.runtime m.shelf id page v.runtime v.shelf paged in
    let (answer, runtime, shelf, on) = reclaim_page-ok m id page e v.pager done in
    (
      pager_entry e,
      answer,
      named,
      record {
        runtime = ap (λ c. c.initialized) runtime ∙ still;
        shelf = rw shelf stored.valid;
        pager = on;
      },
      rw shelf stored.holds,
    )

restore_page-ok :
    (m : Machine) (id : ℕ) (out : List ℕ) (e : StoreEntry)
    → m.pager.initialized ≡ true
    → (Load.load_page m.runtime m.shelf id out).3 ≡ ok e
    → ((restore_page m id out).2 ≡ ok (pager_entry e))
      × ((restore_page m id out).0.runtime ≡ (Load.load_page m.runtime m.shelf id out).0)
      × ((restore_page m id out).0.shelf ≡ (Load.load_page m.runtime m.shelf id out).1)
      × ((restore_page m id out).0.pager.initialized ≡ true)
      × ((restore_page m id out).1 ≡ (Load.load_page m.runtime m.shelf id out).2)
unfolding restore_page restored
restore_page-ok m id out e on done = ground arith

-- A ready machine restores a page that it holds, whole, and stays ready.
pub restore_page-Holds :
    (m : Machine) (id : ℕ) (page out : List ℕ)
    → IsReady m
    → Holds m.shelf id page
    → length out ≡ page_bytes
    → (entry : PagerEntry) × ((restore_page m id out).2 ≡ ok entry)
      × (entry.page_id ≡ id)
      × ((restore_page m id out).1 ≡ page)
      × IsReady (restore_page m id out).0
      × ((restore_page m id out).0.shelf.slots ≡ m.shelf.slots)
restore_page-Holds m id page out v h size =
    let k = load_page-Holds m.runtime m.shelf id page out v.runtime v.shelf h size in
    let (answer, runtime, shelf, on, buffer) = restore_page-ok m id out k.entry v.pager k.done in
    (
      pager_entry k.entry,
      answer,
      k.named,
      buffer ∙ k.filled,
      record {
        runtime = ap (λ c. c.initialized) runtime ∙ k.still;
        shelf = rw shelf k.valid;
        pager = on;
      },
      ap (λ s. s.slots) shelf ∙ k.slots,
    )

-- Reclaiming a page on a ready machine and then restoring it, into any page buffer, gives it back.
pub restore_page-reclaim_page :
    (m : Machine) (id : ℕ) (page out : List ℕ)
    → IsReady m
    → IsPage page
    → length out ≡ page_bytes
    → let m1 = (reclaim_page m id page).0 in
      (entry : PagerEntry) × ((restore_page m1 id out).2 ≡ ok entry)
      × (entry.page_id ≡ id)
      × ((restore_page m1 id out).1 ≡ page)
restore_page-reclaim_page m id page out v paged size =
    let (e, done, named, ready, holds) = reclaim_page-Holds m id page v paged in
    let (e', done', named', buffer, _, _) = restore_page-Holds _ id page out ready holds size in
    (e', done', named', buffer)

-- Restoring a page that an initialised store does not hold, with an initialised pager, leaves the
-- buffer and the slots and reports it as not found; a failure and a miss are counted, and no
-- success.
pub restore_page-missing :
    (m : Machine) (id : ℕ) (out : List ℕ)
    → m.pager.initialized ≡ true
    → m.shelf.initialized ≡ true
    → lookup m.shelf.slots id ≡ none
    → ((restore_page m id out).2 ≡ err (PagerError.store StoreError.not_found))
      × ((restore_page m id out).1 ≡ out)
      × ((restore_page m id out).0.shelf.slots ≡ m.shelf.slots)
      × ((restore_page m id out).0.pager.stats.restore_misses
          ≡ sat_add m.pager.stats.restore_misses 1)
      × ((restore_page m id out).0.pager.stats.restore_failures
          ≡ sat_add m.pager.stats.restore_failures 1)
      × ((restore_page m id out).0.pager.stats.restore_successes ≡ m.pager.stats.restore_successes)
unfolding restore_page restored
restore_page-missing m id out on ready lost =
    let e = load_page-missing m.runtime m.shelf id out ready lost in ground arith

equal_refl : (xs : List ℕ) → equal xs xs ≡ true
unfolding equal
equal_refl [] = refl
equal_refl (x ∷ xs) = ground (arith, equal_refl xs)

-- The round trip of a page through a ready machine is verified, and leaves the machine ready.
pub verify_roundtrip-ok :
    (m : Machine) (id : ℕ) (page : List ℕ)
    → IsReady m
    → IsPage page
    → ((verify_roundtrip m id page).1 ≡ ok tt) × IsReady (verify_roundtrip m id page).0
unfolding verify_roundtrip
verify_roundtrip-ok m id page v paged =
    let (e, done, named, ready, holds) = reclaim_page-Holds m id page v paged in
    let m1 = (reclaim_page m id page).0 in
    let (e', done', named', buffer, ready', _) =
      restore_page-Holds m1 id page (replicate page_bytes 0) ready holds
        (length-replicate {A = ℕ} page_bytes 0) in
    rw (done, done', buffer, equal_refl page, verify_roundtrip) (refl, ready')

-- `initialize` succeeds exactly on a pager that is not initialised over a store that is; the pager
-- is initialised afterwards exactly if it was before or the store is; the counters stay.
pub initialize_iff :
    (s : StoreState) (p : PagerState)
    → (((initialize s p).1 ≡ ok summary) ↔ ((p.initialized ≡ false) × (s.initialized ≡ true)))
      × (((initialize s p).0.initialized ≡ true)
          ↔ ((p.initialized ≡ true) ⊎ (s.initialized ≡ true)))
      × ((initialize s p).0.stats ≡ p.stats)
unfolding initialize
initialize_iff s p = elim (Bool-cases (p.initialized)) [
  | inl on ↦
      ((λ e. ground arith, λ e. ground arith), (λ e. ground arith, λ e. ground arith), ground arith)
  | inr off ↦ elim (Bool-cases (s.initialized)) [
    | inl ready ↦
        ((λ e. (off, ready), λ e. ground arith), (λ e. inr ready, λ e. ground arith), ground arith)
    | inr missing ↦ (
      (λ e. ground arith, λ e. ground arith),
      (λ e. ground arith, λ e. ground arith),
      ground arith,
    )
  ]
]
