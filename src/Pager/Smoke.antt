-- ===== src/Pager/Smoke.antt =====
-- The bootstrap test of kernel/src/mm/pager.rs.
use hxnu.Base.{sat_add, ℕ, ◌≡◌, refl, ap, true, List, arith, Result, not, if◌then◌else◌, ok, err}
use hxnu.Compress.{IsPage}
use hxnu.Pager.{Machine, PagerError, PagerSmokeSummary, verify_roundtrip}
use hxnu.Pager.Pages.{zero_page, same_byte_page, pattern_page, dictionary_word_page}
use hxnu.Pager.Pages.{same_byte_page-IsPage, pattern_page-IsPage, dictionary_word_page-IsPage}
use hxnu.Pager.Restore.{IsReady, verify_roundtrip-ok}

-- The `?` operator on a machine.
infixl 5 ◌>>◌
abbrev pub ◌>>◌ :
    Machine × Result (Unit {0}) PagerError
    → (Machine → Machine × Result (Unit {0}) PagerError)
    → Machine × Result (Unit {0}) PagerError
(m, ok _) >> f = f m
(m, err x) >> f = (m, err x)

abbrev pub smoke_ended :
    Machine × Result (Unit {0}) PagerError → Machine × Result PagerSmokeSummary PagerError
smoke_ended (m, err x) = (m, err x)
smoke_ended (m, ok _) =
    let p = m.pager in
    (
      record m {
        pager = record p {
          stats = record (p.stats) { smoke_successes = sat_add p.stats.smoke_successes 1 };
        };
      },
      ok (record { tested_pages = 4; verified_pages = 4 }),
    )

-- The machine with one more run counted.
abbrev pub smoke_counted : Machine → Machine
smoke_counted m =
    let p = m.pager in
    record m {
      pager = record p { stats = record (p.stats) { smoke_runs = sat_add p.stats.smoke_runs 1 } };
    }

-- The four round trips.
pub smoke_pages : Machine → Machine × Result (Unit {0}) PagerError
smoke_pages m =
    verify_roundtrip m 0x1000 zero_page
    >> (λ m1. verify_roundtrip m1 0x1001 (same_byte_page 0xAA))
    >> (λ m2. verify_roundtrip m2 0x1002 pattern_page)
    >> (λ m3. verify_roundtrip m3 0x1003 (dictionary_word_page 0x0000_ffff))

pub run_bootstrap_smoke : Machine → Machine × Result PagerSmokeSummary PagerError
run_bootstrap_smoke m =
    if not m.pager.initialized
    then (m, err PagerError.not_initialized)
    else smoke_ended (smoke_pages (smoke_counted m))

-- A ready machine with the outcome of a step that went well.
abbrev Fine : Machine × Result (Unit {0}) PagerError → Type 0
Fine r = (r.1 ≡ ok tt) × IsReady r.0

>>-Fine :
    (r : Machine × Result (Unit {0}) PagerError) (id : ℕ) (page : List ℕ)
    → Fine r
    → IsPage page
    → Fine (r >> (λ m. verify_roundtrip m id page))
>>-Fine (m, ok _) id page v paged = verify_roundtrip-ok m id page v.1 paged
>>-Fine (m, err x) id page v paged = absurd (cc v.0)

smoke_ended-Fine :
    (r : Machine × Result (Unit {0}) PagerError)
    → Fine r
    → ((smoke_ended r).1 ≡ ok (record { tested_pages = 4; verified_pages = 4 }))
      × IsReady (smoke_ended r).0
smoke_ended-Fine (m, ok _) v =
    (refl, record { runtime = v.1.runtime; shelf = v.1.shelf; pager = v.1.pager })
smoke_ended-Fine (m, err x) v = absurd (cc v.0)

smoke_pages-Fine : (m : Machine) → IsReady m → Fine (smoke_pages m)
unfolding smoke_pages
smoke_pages-Fine m v =
    let one = verify_roundtrip-ok m 0x1000 zero_page v (same_byte_page-IsPage 0 (omega arith)) in
    let two =
      >>-Fine (verify_roundtrip m 0x1000 zero_page) 0x1001 (same_byte_page 0xAA) one
        (same_byte_page-IsPage 0xAA (omega arith)) in
    let three = >>-Fine _ 0x1002 pattern_page two pattern_page-IsPage in
    >>-Fine _ 0x1003 (dictionary_word_page 0x0000_ffff) three
      (dictionary_word_page-IsPage 0x0000_ffff)

smoke_run :
    (m : Machine)
    → m.pager.initialized ≡ true
    → run_bootstrap_smoke m ≡ smoke_ended (smoke_pages (smoke_counted m))
unfolding run_bootstrap_smoke
smoke_run m on =
    ap
      (λ b.
        if not b
        then (m, err PagerError.not_initialized)
        else smoke_ended (smoke_pages (smoke_counted m)))
      on

-- On a ready machine the bootstrap test verifies its four pages, and leaves the machine ready.
pub run_bootstrap_smoke-ok :
    (m : Machine)
    → IsReady m
    → ((run_bootstrap_smoke m).1 ≡ ok (record { tested_pages = 4; verified_pages = 4 }))
      × IsReady (run_bootstrap_smoke m).0
run_bootstrap_smoke-ok m v = rw (smoke_run m v.pager) (
    smoke_ended-Fine (smoke_pages (smoke_counted m)) (
      smoke_pages-Fine (smoke_counted m)
        (record { runtime = v.runtime; shelf = v.shelf; pager = v.pager })))
