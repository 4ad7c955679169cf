-- ===== src/Pager/Counters.antt =====
-- The counters of kernel/src/mm/pager.rs.
use hxnu.Base.{
  ℕ, ◌+◌, ◌≤◌, ◌<◌, ◌≡◌, List, arith, sat_add, u64_max, ok, err, Result, Bool-cases, inl, inr,
}
use hxnu.Compress.{CompressionClass}
use hxnu.Compress.Store.{StoreEntry, StoreError}
use hxnu.Pager.{
  Machine, PagerStats, reclaim_page, reclaimed, restore_page, restored, account_reclaimed_class,
  account_restored_class,
}

-- Every request has succeeded or failed, every success has its class, and misses are failures.
pub record Balanced (t : PagerStats) : Type 0 where
  pub reclaims : t.reclaim_requests ≡ t.reclaim_successes + t.reclaim_failures
  pub reclaim_classes :
      t.reclaim_successes
      ≡ t.reclaimed_zero_pages + t.reclaimed_same_pages + t.reclaimed_sxrc_pages
        + t.reclaimed_raw_pages
  pub restores : t.restore_requests ≡ t.restore_successes + t.restore_failures
  pub restore_classes :
      t.restore_successes
      ≡ t.restored_zero_pages + t.restored_same_pages + t.restored_sxrc_pages + t.restored_raw_pages
  pub misses : t.restore_misses ≤ t.restore_failures

reclaimed-Balanced :
    (t : PagerStats) (r : Result StoreEntry StoreError)
    → t.reclaim_requests < u64_max
    → Balanced t
    → Balanced (reclaimed r (record t { reclaim_requests = sat_add t.reclaim_requests 1 })).0
unfolding reclaimed
reclaimed-Balanced t (ok e) room b = go e.class
  where
    go :
        (k : CompressionClass)
        → Balanced (
            account_reclaimed_class k (record t {
              reclaim_requests = sat_add t.reclaim_requests 1;
              reclaim_successes = sat_add t.reclaim_successes 1;
            }))
    go k = record {
      reclaims = ground (arith, b.reclaims);
      reclaim_classes = ground (arith, b.reclaims, b.reclaim_classes);
      restores = ground (arith, b.restores);
      restore_classes = ground (arith, b.restore_classes);
      misses = ground (arith, b.misses);
    }
reclaimed-Balanced t (err x) room b = record {
  reclaims = omega (arith, b.reclaims);
  reclaim_classes = b.reclaim_classes;
  restores = b.restores;
  restore_classes = b.restore_classes;
  misses = b.misses;
}

restored-Balanced :
    (t : PagerStats) (r : Result StoreEntry StoreError)
    → t.restore_requests < u64_max
    → Balanced t
    → Balanced (restored r (record t { restore_requests = sat_add t.restore_requests 1 })).0
unfolding restored
restored-Balanced t (ok e) room b = go e.class
  where
    go :
        (k : CompressionClass)
        → Balanced (
            account_restored_class k (record t {
              restore_requests = sat_add t.restore_requests 1;
              restore_successes = sat_add t.restore_successes 1;
            }))
    go k = record {
      reclaims = ground (arith, b.reclaims);
      reclaim_classes = ground (arith, b.reclaim_classes);
      restores = ground (arith, b.restores);
      restore_classes = ground (arith, b.restores, b.restore_classes);
      misses = ground (arith, b.misses);
    }
restored-Balanced t (err x) room b = record {
  reclaims = ground (arith, b.reclaims);
  reclaim_classes = ground (arith, b.reclaim_classes);
  restores = ground (arith, b.restores);
  restore_classes = ground (arith, b.restore_classes);
  misses = ground (arith, b.misses, b.restores);
}

-- While the requests are below their maximum, a reclaim and a restore each keep the pager's account
-- balanced, on any machine and whatever the outcome.
pub pager-Balanced :
    (m : Machine) (id : ℕ) (page out : List ℕ)
    → m.pager.stats.reclaim_requests < u64_max
    → m.pager.stats.restore_requests < u64_max
    → Balanced m.pager.stats
    → Balanced (reclaim_page m id page).0.pager.stats
      × Balanced (restore_page m id out).0.pager.stats
unfolding reclaim_page restore_page
pager-Balanced m id page out room room' b = elim (Bool-cases (m.pager.initialized)) [
  | inl on ↦
      rw (on, reclaim_page, restore_page)
        (reclaimed-Balanced m.pager.stats _ room b, restored-Balanced m.pager.stats _ room' b)
  | inr off ↦ rw (off, reclaim_page, restore_page) (b, b)
]
