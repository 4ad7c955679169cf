-- ===== src/Compress/Store/Slots.antt =====
-- The table of slots of kernel/src/mm/compress/store.rs as a map from page identifiers.
use hxnu.Base.{
  ℕ, zero, suc, ◌<◌, ◌≡◌, refl, Bool, true, false, ◌&&◌, Option, none, some, List, [], ◌∷◌, arith,
  ◌==◌, if◌then◌else◌, length, get_or, set,
}
use hxnu.Compress.Store.{StoreSlot, find_slot, find_empty_slot}

abbrev pub matches : StoreSlot → ℕ → Bool
matches slot page_id = slot.occupied && slot.page_id == page_id

-- The slot that holds a page.
abbrev pub lookup : List StoreSlot → ℕ → Option StoreSlot
lookup [] page_id = none
lookup (slot ∷ slots) page_id = if matches slot page_id then some slot else lookup slots page_id

-- No two occupied slots hold the same page.
abbrev pub Distinct : List StoreSlot → Type 0
Distinct [] = Unit
Distinct (slot ∷ slots) = (slot.occupied ≡ true → lookup slots slot.page_id ≡ none) × Distinct slots

-- The page is in no slot but the one at `i`.
abbrev pub Alone : List StoreSlot → ℕ → ℕ → Type 0
Alone [] i page_id = Unit
Alone (slot ∷ slots) zero page_id = lookup slots page_id ≡ none
Alone (slot ∷ slots) (suc i) page_id = (matches slot page_id ≡ false) × Alone slots i page_id

matches→page_id :
    (slot : StoreSlot) (id : ℕ)
    → matches slot id ≡ true
    → (slot.occupied ≡ true) × (slot.page_id ≡ id)
matches→page_id slot id m = ground arith

pub find_slot-none : (xs : List StoreSlot) (id : ℕ) → find_slot xs id ≡ none → lookup xs id ≡ none
unfolding find_slot
find_slot-none [] id e = refl
find_slot-none (x ∷ xs) id e = ground (arith, find_slot-none xs id)

pub find_slot-some :
    (xs : List StoreSlot) (id i : ℕ) (d : StoreSlot)
    → find_slot xs id ≡ some i
    → (i < length xs) × (lookup xs id ≡ some (get_or xs i d))
unfolding find_slot
find_slot-some [] id i d e = cc
find_slot-some (x ∷ xs) id zero d e = ground arith
find_slot-some (x ∷ xs) id (suc i) d e = ground (arith, find_slot-some xs id i d)

pub find_empty_slot-some :
    (xs : List StoreSlot) (i : ℕ) (d : StoreSlot)
    → find_empty_slot xs ≡ some i
    → (i < length xs) × ((get_or xs i d).occupied ≡ false)
unfolding find_empty_slot
find_empty_slot-some [] i d e = cc
find_empty_slot-some (x ∷ xs) zero d e = ground arith
find_empty_slot-some (x ∷ xs) (suc i) d e = ground (arith, find_empty_slot-some xs i d)

pub lookup-none-matches :
    (xs : List StoreSlot) (id i : ℕ) (d : StoreSlot)
    → lookup xs id ≡ none
    → i < length xs
    → matches (get_or xs i d) id ≡ false
lookup-none-matches [] id i d e h = absurd (omega arith)
lookup-none-matches (x ∷ xs) id zero d e h = ground arith
lookup-none-matches (x ∷ xs) id (suc i) d e h = ground (arith, lookup-none-matches xs id i d)

pub lookup-none-Alone : (xs : List StoreSlot) (id i : ℕ) → lookup xs id ≡ none → Alone xs i id
lookup-none-Alone [] id i e = tt
lookup-none-Alone (x ∷ xs) id zero e = ground arith
lookup-none-Alone (x ∷ xs) id (suc i) e = ground (arith, lookup-none-Alone xs id i)

pub find_slot-Alone :
    (xs : List StoreSlot) (id i : ℕ) → Distinct xs → find_slot xs id ≡ some i → Alone xs i id
unfolding find_slot
find_slot-Alone [] id i u e = tt
find_slot-Alone (x ∷ xs) id zero u e = ground arith
find_slot-Alone (x ∷ xs) id (suc i) u e = ground (arith, find_slot-Alone xs id i)

pub lookup-set_self :
    (xs : List StoreSlot) (i id : ℕ) (new : StoreSlot)
    → Alone xs i id
    → i < length xs
    → matches new id ≡ true
    → lookup (set xs i new) id ≡ some new
lookup-set_self [] i id new a h m = absurd (omega arith)
lookup-set_self (x ∷ xs) zero id new a h m = ground arith
lookup-set_self (x ∷ xs) (suc i) id new a h m = ground (arith, lookup-set_self xs i id new)

-- A write loses at most the page that stood there.
pub lookup-set_other :
    (xs : List StoreSlot) (i id : ℕ) (new d : StoreSlot)
    → Distinct xs
    → i < length xs
    → matches new id ≡ false
    → lookup (set xs i new) id ≡ (if matches (get_or xs i d) id then none else lookup xs id)
lookup-set_other [] i id new d u h m = absurd (omega arith)
lookup-set_other (x ∷ xs) zero id new d u h m = ground arith
lookup-set_other (x ∷ xs) (suc i) id new d u h m =
    ground
      (arith, lookup-set_other xs i id new d u.1 (omega arith) m, lookup-none-matches xs id i d)

pub Distinct-set :
    (xs : List StoreSlot) (i : ℕ) (new : StoreSlot)
    → Distinct xs
    → i < length xs
    → Alone xs i new.page_id
    → Distinct (set xs i new)
Distinct-set [] i new u h a = absurd (omega arith)
Distinct-set (x ∷ xs) zero new u h a = ((λ _. a), u.1)
Distinct-set (x ∷ xs) (suc i) new u h a = (
  λ on. ground (arith, lookup-set_other xs i x.page_id new new u.1 (omega arith)),
  Distinct-set xs i new u.1 (omega arith) a.1,
)
