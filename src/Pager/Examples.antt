-- ===== src/Pager/Examples.antt =====
-- The theorems on kernel/src/mm/pager.rs at concrete inputs.
use hxnu.Base.{◌⊎◌, false, ◌↔◌, ℕ, ◌≡◌, refl, true, arith, length, length-replicate, ok, err}
use hxnu.Compress.{page_bytes}
use hxnu.Compress.Runtime.{CompressionRuntime}
use hxnu.Compress.Runtime
use hxnu.Compress.Store.{StoreError}
use hxnu.Compress.Store.Put.{Holds}
use hxnu.Compress.Store.History.{fresh, fresh-IsValid, fresh_holds_none}
use hxnu.Pager.{
  initialize, new, summary, Machine, PagerEntry, PagerError, reclaim_page, restore_page,
  verify_roundtrip, no_stats,
}
use hxnu.Pager.Smoke.{run_bootstrap_smoke}
use hxnu.Pager.Pages.{same_byte_page, pattern_page, zero_page}
use hxnu.Pager.Pages.{same_byte_page-IsPage, pattern_page-IsPage}
use hxnu.Pager.Restore.{
  IsReady, reclaim_page-Holds, restore_page-reclaim_page, restore_page-missing, verify_roundtrip-ok,
  initialize_iff,
}
use hxnu.Pager.Smoke.{run_bootstrap_smoke-ok}
use hxnu.Pager.Counters.{Balanced, pager-Balanced}

abbrev runtime : CompressionRuntime
runtime = record { initialized = true; stats = Runtime.no_stats }

-- The three parts after their initialisation.
abbrev booted : Machine
booted = record {
  runtime = runtime;
  shelf = fresh runtime;
  pager = record { initialized = true; stats = no_stats };
}

booted-IsReady : IsReady booted
booted-IsReady = record { runtime = refl; shelf = fresh-IsValid runtime refl; pager = refl }

zeros_sized : length zero_page ≡ page_bytes
zeros_sized = length-replicate {A = ℕ} page_bytes 0

reclaim_page-Holds_example :
    (entry : PagerEntry) × ((reclaim_page booted 9 pattern_page).1 ≡ ok entry)
    × (entry.page_id ≡ 9)
    × IsReady (reclaim_page booted 9 pattern_page).0
    × Holds (reclaim_page booted 9 pattern_page).0.shelf 9 pattern_page
reclaim_page-Holds_example =
    reclaim_page-Holds booted 9 pattern_page booted-IsReady pattern_page-IsPage

restore_page-reclaim_page_example :
    (entry : PagerEntry) × ((restore_page (reclaim_page booted 9 pattern_page).0 9 zero_page).2
      ≡ ok entry)
    × (entry.page_id ≡ 9)
    × ((restore_page (reclaim_page booted 9 pattern_page).0 9 zero_page).1 ≡ pattern_page)
restore_page-reclaim_page_example =
    restore_page-reclaim_page booted 9 pattern_page zero_page booted-IsReady pattern_page-IsPage
      zeros_sized

restore_page-missing_example :
    ((restore_page booted 9 zero_page).2 ≡ err (PagerError.store StoreError.not_found))
    × ((restore_page booted 9 zero_page).1 ≡ zero_page)
    × ((restore_page booted 9 zero_page).0.shelf.slots ≡ booted.shelf.slots)
    × ((restore_page booted 9 zero_page).0.pager.stats.restore_misses ≡ 1)
    × ((restore_page booted 9 zero_page).0.pager.stats.restore_failures ≡ 1)
    × ((restore_page booted 9 zero_page).0.pager.stats.restore_successes ≡ 0)
restore_page-missing_example =
    restore_page-missing booted 9 zero_page refl booted-IsReady.shelf.ready
      (fresh_holds_none runtime 9 refl)

verify_roundtrip-ok_example :
    ((verify_roundtrip booted 9 (same_byte_page 0x55)).1 ≡ ok tt)
    × IsReady (verify_roundtrip booted 9 (same_byte_page 0x55)).0
verify_roundtrip-ok_example =
    verify_roundtrip-ok booted 9 (same_byte_page 0x55) booted-IsReady
      (same_byte_page-IsPage 0x55 (omega arith))

run_bootstrap_smoke-ok_example :
    ((run_bootstrap_smoke booted).1 ≡ ok (record { tested_pages = 4; verified_pages = 4 }))
    × IsReady (run_bootstrap_smoke booted).0
run_bootstrap_smoke-ok_example = run_bootstrap_smoke-ok booted booted-IsReady

pager-Balanced_example :
    Balanced (reclaim_page booted 9 pattern_page).0.pager.stats
    × Balanced (restore_page booted 9 zero_page).0.pager.stats
pager-Balanced_example =
    pager-Balanced booted 9 pattern_page zero_page (omega arith) (omega arith) (record {
      reclaims = refl;
      reclaim_classes = refl;
      restores = refl;
      restore_classes = refl;
      misses = omega arith;
    })

initialize_iff_example :
    (((initialize (fresh runtime) new).1 ≡ ok summary)
      ↔ ((new.initialized ≡ false) × ((fresh runtime).initialized ≡ true)))
    × (((initialize (fresh runtime) new).0.initialized ≡ true)
        ↔ ((new.initialized ≡ true) ⊎ ((fresh runtime).initialized ≡ true)))
    × ((initialize (fresh runtime) new).0.stats ≡ no_stats)
initialize_iff_example = initialize_iff (fresh runtime) new
