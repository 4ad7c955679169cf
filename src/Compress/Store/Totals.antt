-- ===== src/Compress/Store/Totals.antt =====
-- Sums over the slots of kernel/src/mm/compress/store.rs, and the counters that hold them.
use hxnu.Base.{
  ℕ, zero, suc, ◌+◌, ◌*◌, ◌≤◌, ◌<◌, ◌≡◌, Bool, ◌&&◌, List, [], ◌∷◌, arith, ◌==◌, if◌then◌else◌, All,
  length, get_or, set,
}
use hxnu.Compress.{CompressionClass, class_id}
use hxnu.Compress.Store.{StoreSlot, StoreStats}

abbrev pub total : (StoreSlot → ℕ) → List StoreSlot → ℕ
total f [] = 0
total f (x ∷ xs) = f x + total f xs

pub total-set :
    (f : StoreSlot → ℕ) (xs : List StoreSlot) (i : ℕ) (new d : StoreSlot)
    → i < length xs
    → total f (set xs i new) + f (get_or xs i d) ≡ total f xs + f new
total-set f [] i new d h = absurd (omega arith)
total-set f (x ∷ xs) zero new d h = omega arith
total-set f (x ∷ xs) (suc i) new d h = omega (arith, total-set f xs i new d (omega arith))

pub get_or-total :
    (f : StoreSlot → ℕ) (xs : List StoreSlot) (i : ℕ) (d : StoreSlot)
    → i < length xs
    → f (get_or xs i d) ≤ total f xs
get_or-total f [] i d h = absurd (omega arith)
get_or-total f (x ∷ xs) zero d h = omega arith
get_or-total f (x ∷ xs) (suc i) d h = omega (arith, get_or-total f xs i d (omega arith))

-- 4112 is `MAX_ENCODED_PAGE_BYTES`.
pub total_bounded :
    (f : StoreSlot → ℕ) (xs : List StoreSlot)
    → All (λ x. f x ≤ 4112) xs
    → total f xs ≤ 4112 * length xs
total_bounded f [] a = omega arith
total_bounded f (x ∷ xs) a = omega (arith, total_bounded f xs a.1, a.0)

abbrev pub one_if : Bool → ℕ
one_if b = if b then 1 else 0

abbrev pub occupied : StoreSlot → ℕ
occupied slot = one_if (slot.occupied)

abbrev pub of_class : CompressionClass → StoreSlot → ℕ
of_class class slot = one_if (slot.occupied && class_id slot.class == class_id class)

abbrev pub held_bytes : StoreSlot → ℕ
held_bytes slot = if slot.occupied then slot.encoded_len else 0

-- The counters of what is stored now.
pub record Tallied (t : StoreStats) (xs : List StoreSlot) : Type 0 where
  pub pages : t.stored_pages ≡ total occupied xs
  pub zeros : t.stored_zero_pages ≡ total (of_class CompressionClass.zero) xs
  pub sames : t.stored_same_pages ≡ total (of_class CompressionClass.same) xs
  pub sxrcs : t.stored_sxrc_pages ≡ total (of_class CompressionClass.sxrc) xs
  pub raws : t.stored_raw_pages ≡ total (of_class CompressionClass.raw) xs
  pub held : t.current_encoded_bytes ≡ total held_bytes xs

-- The other counters do not matter.
pub Tallied-more :
    (t : StoreStats) (xs : List StoreSlot)
    (input encoded requests successes loads loaded misses : ℕ) (replaced evicted failures : ℕ)
    → Tallied t xs
    → Tallied
        (record t {
          total_input_bytes = input;
          total_encoded_bytes = encoded;
          store_requests = requests;
          store_successes = successes;
          load_requests = loads;
          load_successes = loaded;
          load_misses = misses;
          replacements = replaced;
          evictions = evicted;
          encode_failures = failures;
        })
        xs
Tallied-more t xs input encoded requests successes loads loaded misses replaced evicted failures a =
    record {
      pages = a.pages;
      zeros = a.zeros;
      sames = a.sames;
      sxrcs = a.sxrcs;
      raws = a.raws;
      held = a.held;
    }
