-- ===== src/Pager.antt =====
-- kernel/src/mm/pager.rs: pages reclaimed to and restored from the compressed store. The three
-- global states that a call goes through are one record, which each operation takes and returns.
pub mod Pages
pub mod Restore
pub mod Smoke
pub mod Counters
pub mod Examples
use hxnu.Base.{
  ℕ, zero, suc, ◌+◌, ◌*◌, ◌%◌, Bool, true, false, not, ◌&&◌, List, [], ◌∷◌, Result, ok, err, ◌==◌,
  leb, ltb, if◌then◌else◌, sat_add, length, set, copy_at, replicate, u32_bytes,
}
use hxnu.Compress.{CompressionClass, page_bytes}
use hxnu.Compress.Runtime.{CompressionRuntime}
use hxnu.Compress.Store
use hxnu.Compress.Store.Load
use hxnu.Compress.Store.{StoreState, StoreEntry, StoreError}

pub record PagerSummary : Type 0 where
  pub page_bytes : ℕ
  pub store_capacity_pages : ℕ

pub data PagerInitError : Type 0 where
  already_initialized compression_store_unavailable : PagerInitError

pub data PagerError : Type 0 where
  not_initialized verify_failed : PagerError
  store : StoreError → PagerError

pub record PagerEntry : Type 0 where
  pub page_id : ℕ
  pub class : CompressionClass
  pub encoded_bytes : ℕ

pub record PagerStats : Type 0 where
  pub reclaim_requests : ℕ
  pub reclaim_successes : ℕ
  pub reclaim_failures : ℕ
  pub restore_requests : ℕ
  pub restore_successes : ℕ
  pub restore_failures : ℕ
  pub restore_misses : ℕ
  pub verify_failures : ℕ
  pub reclaimed_zero_pages : ℕ
  pub reclaimed_same_pages : ℕ
  pub reclaimed_sxrc_pages : ℕ
  pub reclaimed_raw_pages : ℕ
  pub restored_zero_pages : ℕ
  pub restored_same_pages : ℕ
  pub restored_sxrc_pages : ℕ
  pub restored_raw_pages : ℕ
  pub smoke_runs : ℕ
  pub smoke_successes : ℕ

pub record PagerSmokeSummary : Type 0 where
  pub tested_pages : ℕ
  pub verified_pages : ℕ

pub record PagerState : Type 0 where
  pub initialized : Bool
  pub stats : PagerStats

abbrev pub no_stats : PagerStats
no_stats = record {
  reclaim_requests = 0;
  reclaim_successes = 0;
  reclaim_failures = 0;
  restore_requests = 0;
  restore_successes = 0;
  restore_failures = 0;
  restore_misses = 0;
  verify_failures = 0;
  reclaimed_zero_pages = 0;
  reclaimed_same_pages = 0;
  reclaimed_sxrc_pages = 0;
  reclaimed_raw_pages = 0;
  restored_zero_pages = 0;
  restored_same_pages = 0;
  restored_sxrc_pages = 0;
  restored_raw_pages = 0;
  smoke_runs = 0;
  smoke_successes = 0;
}

abbrev pub new : PagerState
new = record { initialized = false; stats = no_stats }

-- The global runtime, store and pager.
pub record Machine : Type 0 where
  pub runtime : CompressionRuntime
  pub shelf : StoreState
  pub pager : PagerState

abbrev pub summary : PagerSummary
summary = record { page_bytes = page_bytes; store_capacity_pages = Store.summary.capacity_pages }

pub initialize : StoreState → PagerState → PagerState × Result PagerSummary PagerInitError
initialize s p =
    if p.initialized
    then (p, err PagerInitError.already_initialized)
    else if not s.initialized
    then (p, err PagerInitError.compression_store_unavailable)
    else (record p { initialized = true }, ok summary)

abbrev pub account_reclaimed_class : CompressionClass → PagerStats → PagerStats
account_reclaimed_class CompressionClass.zero t = record t {
  reclaimed_zero_pages = sat_add t.reclaimed_zero_pages 1;
}
account_reclaimed_class CompressionClass.same t = record t {
  reclaimed_same_pages = sat_add t.reclaimed_same_pages 1;
}
account_reclaimed_class CompressionClass.sxrc t = record t {
  reclaimed_sxrc_pages = sat_add t.reclaimed_sxrc_pages 1;
}
account_reclaimed_class CompressionClass.raw t = record t {
  reclaimed_raw_pages = sat_add t.reclaimed_raw_pages 1;
}

abbrev pub account_restored_class : CompressionClass → PagerStats → PagerStats
account_restored_class CompressionClass.zero t = record t {
  restored_zero_pages = sat_add t.restored_zero_pages 1;
}
account_restored_class CompressionClass.same t = record t {
  restored_same_pages = sat_add t.restored_same_pages 1;
}
account_restored_class CompressionClass.sxrc t = record t {
  restored_sxrc_pages = sat_add t.restored_sxrc_pages 1;
}
account_restored_class CompressionClass.raw t = record t {
  restored_raw_pages = sat_add t.restored_raw_pages 1;
}

abbrev pub pager_entry : StoreEntry → PagerEntry
pager_entry e = record { page_id = e.page_id; class = e.class; encoded_bytes = e.encoded_bytes }

-- The counters after the store's answer to a reclaim, and the pager's answer.
pub reclaimed :
    Result StoreEntry StoreError → PagerStats → PagerStats × Result PagerEntry PagerError
reclaimed (ok e) t = (
  account_reclaimed_class e.class (record t { reclaim_successes = sat_add t.reclaim_successes 1 }),
  ok (pager_entry e),
)
reclaimed (err x) t =
    (record t { reclaim_failures = sat_add t.reclaim_failures 1 }, err (PagerError.store x))

pub reclaim_page : Machine → ℕ → List ℕ → Machine × Result PagerEntry PagerError
reclaim_page m page_id page =
    let p = m.pager in
    let (c, s, r) = Store.store_page m.runtime m.shelf page_id page in
    let (t, result) =
      reclaimed r (record (p.stats) { reclaim_requests = sat_add p.stats.reclaim_requests 1 }) in
    if not p.initialized
    then (m, err PagerError.not_initialized)
    else (record { runtime = c; shelf = s; pager = record p { stats = t } }, result)

-- `matches!(error, StoreError::NotFound)`
abbrev pub count_miss : StoreError → PagerStats → PagerStats
count_miss StoreError.not_found t = record t { restore_misses = sat_add t.restore_misses 1 }
count_miss x t = t

-- The counters after the store's answer to a restore, and the pager's answer.
pub restored : Result StoreEntry StoreError → PagerStats → PagerStats × Result PagerEntry PagerError
restored (ok e) t = (
  account_restored_class e.class (record t { restore_successes = sat_add t.restore_successes 1 }),
  ok (pager_entry e),
)
restored (err x) t = (
  count_miss x (record t { restore_failures = sat_add t.restore_failures 1 }),
  err (PagerError.store x),
)

-- The page buffer `out` is state, too.
pub restore_page : Machine → ℕ → List ℕ → Machine × List ℕ × Result PagerEntry PagerError
restore_page m page_id out =
    let p = m.pager in
    let (c, s, out', r) = Load.load_page m.runtime m.shelf page_id out in
    let (t, result) =
      restored r (record (p.stats) { restore_requests = sat_add p.stats.restore_requests 1 }) in
    if not p.initialized
    then (m, out, err PagerError.not_initialized)
    else (record { runtime = c; shelf = s; pager = record p { stats = t } }, out', result)

-- `page == restored`
pub equal : List ℕ → List ℕ → Bool
equal [] [] = true
equal (x ∷ xs) (y ∷ ys) = x == y && equal xs ys
equal _ _ = false

-- The comparison behind a restore.
abbrev pub verified :
    List ℕ
    → Machine × List ℕ × Result PagerEntry PagerError
    → Machine × Result (Unit {0}) PagerError
verified page (m, out, err x) = (m, err x)
verified page (m, out, ok _) =
    let p = m.pager in
    if not (equal page out)
    then (
      record m {
        pager = record p {
          stats = record (p.stats) { verify_failures = sat_add p.stats.verify_failures 1 };
        };
      },
      err PagerError.verify_failed,
    )
    else (m, ok tt)

abbrev pub restore_and_verify :
    ℕ → List ℕ → Machine × Result PagerEntry PagerError → Machine × Result (Unit {0}) PagerError
restore_and_verify page_id page (m, err x) = (m, err x)
restore_and_verify page_id page (m, ok _) =
    verified page (restore_page m page_id (replicate page_bytes 0))

pub verify_roundtrip : Machine → ℕ → List ℕ → Machine × Result (Unit {0}) PagerError
verify_roundtrip m page_id page = restore_and_verify page_id page (reclaim_page m page_id page)
