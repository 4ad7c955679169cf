-- ===== src/Compress/Store/Put.antt =====
-- `store_page` of kernel/src/mm/compress/store.rs: what a slot holds after it is filled, and the
-- counters.
use hxnu.Base.{
  ℕ, zero, suc, ◌%◌, ◌^◌, ◌≤◌, ◌<◌, ◌≡◌, ◌≢◌, refl, ◌∙◌, ◌⊎◌, true, none, some, List, [], ◌∷◌,
  arith, inl, inr, Bool-cases, All, All-get_or, length, get_or, set, take-copy_at, length-copy_at,
  length-set, length-replicate, eq→==,
}
use hxnu.Compress.{IsPage, max_encoded_page_bytes}
use hxnu.Compress.Codec.{EncodedPage}
use hxnu.Compress.Codec.Encode.{Encodes}
use hxnu.Compress.Store.{
  StoreSlot, StoreState, empty, slot_page, filled, find_empty_slot, place_at, store_requested,
}
use hxnu.Compress.Store.Slots.{
  lookup, matches, Distinct, Distinct-set, lookup-set_self, lookup-set_other,
}
use hxnu.Compress.Store.Count.{Tallied-put}
use hxnu.Compress.Store.Totals.{Tallied-more}
use hxnu.Compress.Store.Valid.{SlotOk, IsValid, Choice, Targeted}

pub filled-SlotOk :
    (slot : StoreSlot) (id : ℕ) (e : EncodedPage) (page : List ℕ)
    → SlotOk slot
    → IsPage page
    → Encodes e page
    → length e.bytes ≤ max_encoded_page_bytes
    → SlotOk (filled id e slot) × Encodes (slot_page (filled id e slot)) page
filled-SlotOk slot id e page v paged c short =
    let codes : Encodes (slot_page (filled id e slot)) page = record {
      payload = c.payload;
      bytes =
          take-copy_at 0 (length e.bytes % 2 ^ 16) slot.encoded e.bytes (omega arith)
            (omega (arith, v.sized))
          ∙ c.bytes;
      short = c.short;
      coded = c.coded;
    } in
    (
      record {
        sized = length-copy_at 0 slot.encoded e.bytes (omega (arith, v.sized)) ∙ v.sized;
        shelved = λ _. record { short = omega arith; page = page; paged = paged; codes = codes };
      },
      codes,
    )

pub SlotOk-empty : SlotOk empty
SlotOk-empty = record {
  sized = length-replicate {A = ℕ} max_encoded_page_bytes 0;
  shelved = λ on. cc;
}

All-short :
    (xs : List StoreSlot) → All SlotOk xs → All (λ x. x.occupied ≡ true → x.encoded_len ≤ 4112) xs
All-short [] a = tt
All-short (x ∷ xs) a = (λ on. (a.0.shelved on).short, All-short xs a.1)

All-set :
    (xs : List StoreSlot) (i : ℕ) (new : StoreSlot)
    → All SlotOk xs
    → SlotOk new
    → All SlotOk (set xs i new)
All-set [] i new a v = tt
All-set (x ∷ xs) zero new a v = (v, a.1)
All-set (x ∷ xs) (suc i) new a v = (a.0, All-set xs i new a.1 v)

-- The page that a store holds under an identifier.
pub record Holds (s : StoreState) (id : ℕ) (page : List ℕ) : Type 0 where
  pub slot : StoreSlot
  pub found : lookup s.slots id ≡ some slot
  pub paged : IsPage page
  pub codes : Encodes (slot_page slot) page

-- What becomes of the other pages: each keeps its slot, but for one that is evicted, for a new page
-- in a full store.
abbrev pub Keeps : StoreState → StoreState → ℕ → Type 0
Keeps s s' id =
    (other : ℕ)
    → other ≢ id
    → (lookup s'.slots other ≡ lookup s.slots other)
      ⊎ ((lookup s'.slots other ≡ none)
          × (matches (get_or s.slots s.next_evict empty) other ≡ true)
          × (lookup s.slots id ≡ none)
          × (find_empty_slot s.slots ≡ none))

others-kept :
    (s : StoreState) (id i : ℕ) (new : StoreSlot)
    → Distinct s.slots
    → i < length s.slots
    → matches new id ≡ true
    → Choice s id i
    → (other : ℕ) → other ≢ id
    → (lookup (set s.slots i new) other ≡ lookup s.slots other)
      ⊎ ((lookup (set s.slots i new) other ≡ none)
          × (matches (get_or s.slots s.next_evict empty) other ≡ true)
          × (lookup s.slots id ≡ none)
          × (find_empty_slot s.slots ≡ none))
others-kept s id i new u h m c other apart =
    let moved = lookup-set_other s.slots i other new empty u h (ground arith) in
    elim (Bool-cases (matches (get_or s.slots i empty) other)) [
      | inr away ↦ inl (moved ∙ ground arith)
      | inl there ↦ elim c [
        | inl self ↦ absurd (ground arith)
        | inr (inl free) ↦ absurd (ground arith)
        | inr (inr (e, lost, full)) ↦ inr (ground arith, ground arith, lost, full)
      ]
    ]

-- The outcome of storing a page.
pub record Stored (s : StoreState) (id : ℕ) (page : List ℕ) (s' : StoreState) : Type 0 where
  pub valid : IsValid s'
  pub holds : Holds s' id page
  pub keeps : Keeps s s' id

pub Targeted-Stored :
    (s : StoreState) (id : ℕ) (e : EncodedPage) (page : List ℕ) (r : StoreState × ℕ)
    → IsValid s
    → Targeted s id r
    → IsPage page
    → Encodes e page
    → length e.bytes ≤ max_encoded_page_bytes
    → Stored s id page (place_at id e r).0
unfolding place_at
Targeted-Stored s id e page (s1, i) v t paged c short =
    let old = get_or s.slots i empty in
    let new = filled id e old in
    let inside : i < length s.slots = omega (arith, t.inside, v.sized) in
    let (fine, codes) =
      filled-SlotOk old id e page (All-get_or SlotOk i s.slots empty v.slots SlotOk-empty) paged c
        short in
    let m : matches new id ≡ true = eq→== id id refl in
    rw t.same (record {
      valid = record {
        ready = t.ready ∙ v.ready;
        sized = length-set s.slots i new ∙ v.sized;
        victim = t.victim;
        slots = All-set s.slots i new v.slots fine;
        distinct = Distinct-set s.slots i new v.distinct inside t.alone;
        tallied = Tallied-more _ _ _ _ _ _ _ _ _ _ _ _ (
            Tallied-put s1.stats s.slots i (length e.bytes) new empty t.tallied
              (All-short s.slots v.slots) v.sized inside refl (omega arith) (omega arith));
      };
      holds = record {
        slot = new;
        found = lookup-set_self s.slots i id new t.alone inside m;
        paged = paged;
        codes = codes;
      };
      keeps = others-kept s id i new v.distinct inside m t.chosen;
    })

pub requested-IsValid : (s : StoreState) → IsValid s → IsValid (store_requested s)
requested-IsValid s v = record {
  ready = v.ready;
  sized = v.sized;
  victim = v.victim;
  slots = v.slots;
  distinct = v.distinct;
  tallied = Tallied-more _ _ _ _ _ _ _ _ _ _ _ _ v.tallied;
}
