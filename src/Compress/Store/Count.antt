-- ===== src/Compress/Store/Count.antt =====
-- The counters of kernel/src/mm/compress/store.rs when one slot is replaced.
use hxnu.Base.{
  ℕ, ◌+◌, ◌*◌, ◌≤◌, ◌<◌, ◌≡◌, refl, Bool, true, ◌&&◌, List, [], ◌∷◌, arith, All, length, get_or,
  set, ◌==◌,
}
use hxnu.Compress.{CompressionClass, class_id}
use hxnu.Compress.Store.{
  StoreSlot, StoreStats, store_capacity_pages, account_added, account_removed, account_old,
}
use hxnu.Compress.Store.Totals.{
  Tallied, total, total-set, get_or-total, total_bounded, occupied, of_class, held_bytes, one_if,
}

one_small : (f : StoreSlot → Bool) (xs : List StoreSlot) → All (λ x. one_if (f x) ≤ 4112) xs
one_small f [] = tt
one_small f (x ∷ xs) = (ground arith, one_small f xs)

-- One sum before and after slot `i` changes from `old` to `new`.
record Moved (f : StoreSlot → ℕ) (xs : List StoreSlot) (i : ℕ) (old new : StoreSlot) : Type 0 where
  sum : total f (set xs i new) + f old ≡ total f xs + f new
  least : f old ≤ total f xs
  most : total f xs ≤ 4112 * length xs

move :
    (f : StoreSlot → ℕ) (xs : List StoreSlot) (i : ℕ) (new d : StoreSlot)
    → i < length xs
    → All (λ x. f x ≤ 4112) xs
    → Moved f xs i (get_or xs i d) new
move f xs i new d h small = record {
  sum = total-set f xs i new d h;
  least = get_or-total f xs i d h;
  most = total_bounded f xs small;
}

module _ (t : StoreStats) (xs : List StoreSlot) (i n : ℕ) (old new : StoreSlot) (a : Tallied t xs)
    (size : length xs ≡ store_capacity_pages) (on : new.occupied ≡ true) (len : new.encoded_len ≡ n)
    (short : n ≤ 4112) where
  counted :
      (k : CompressionClass)
      → Moved occupied xs i old new
      → Moved (of_class CompressionClass.zero) xs i old new
      → Moved (of_class CompressionClass.same) xs i old new
      → Moved (of_class CompressionClass.sxrc) xs i old new
      → Moved (of_class CompressionClass.raw) xs i old new
      → Moved held_bytes xs i old new
      → new.class ≡ k
      → Tallied (account_added k n (account_old old t)) (set xs i new)
  unfolding account_added account_old account_removed
  counted k p z s x r b c = record {
    pages = ground (arith, p.sum, p.least, p.most, a.pages);
    zeros = ground (arith, z.sum, z.least, z.most, a.zeros);
    sames = ground (arith, s.sum, s.least, s.most, a.sames);
    sxrcs = ground (arith, x.sum, x.least, x.most, a.sxrcs);
    raws = ground (arith, r.sum, r.least, r.most, a.raws);
    held = ground (arith, b.sum, b.least, b.most, a.held);
  }

held_small :
    (xs : List StoreSlot)
    → All (λ x. x.occupied ≡ true → x.encoded_len ≤ 4112) xs
    → All (λ x. held_bytes x ≤ 4112) xs
held_small [] a = tt
held_small (x ∷ xs) a = (ground (arith, a.0), held_small xs a.1)

-- The counters are those of the slots again after one is filled.
pub Tallied-put :
    (t : StoreStats) (xs : List StoreSlot) (i n : ℕ) (new d : StoreSlot)
    → Tallied t xs
    → All (λ x. x.occupied ≡ true → x.encoded_len ≤ 4112) xs
    → length xs ≡ store_capacity_pages
    → i < length xs
    → new.occupied ≡ true
    → new.encoded_len ≡ n
    → n ≤ 4112
    → Tallied (account_added new.class n (account_old (get_or xs i d) t)) (set xs i new)
Tallied-put t xs i n new d a small size h on len short =
    counted t xs i n (get_or xs i d) new a size on len short new.class
      (move occupied xs i new d h (one_small (λ x. x.occupied) xs)) (of CompressionClass.zero)
      (of CompressionClass.same) (of CompressionClass.sxrc) (of CompressionClass.raw)
      (move held_bytes xs i new d h (held_small xs small)) refl
  where
    of : (k : CompressionClass) → Moved (of_class k) xs i (get_or xs i d) new
    of k =
        move (of_class k) xs i new d h
          (one_small (λ x. x.occupied && class_id x.class == class_id k) xs)
