-- ===== src/Compress/Store/Valid.antt =====
-- When a state of kernel/src/mm/compress/store.rs is well formed, and the choice of a slot.
use hxnu.Base.{
  ℕ, zero, suc, ◌≤◌, ◌<◌, ◌≡◌, refl, ◌⊎◌, true, false, none, some, List, [], ◌∷◌, arith, inl, inr,
  Option-cases, All, length, get_or,
}
use hxnu.Compress.{IsPage, max_encoded_page_bytes}
use hxnu.Compress.Codec.Encode.{Encodes}
use hxnu.Compress.Store.{
  StoreSlot, StoreState, empty, slot_page, target, find_slot, find_empty_slot, store_capacity_pages,
}
use hxnu.Compress.Store.Slots.{
  Distinct, Alone, matches, lookup, find_slot-none, find_slot-some, find_empty_slot-some,
  find_slot-Alone, lookup-none-Alone,
}
use hxnu.Compress.Store.Totals.{Tallied, Tallied-more}

-- An occupied slot holds the encoding of a page.
pub record Shelved (slot : StoreSlot) : Type 0 where
  pub short : slot.encoded_len ≤ max_encoded_page_bytes
  pub page : List ℕ
  pub paged : IsPage page
  pub codes : Encodes (slot_page slot) page

pub record SlotOk (slot : StoreSlot) : Type 0 where
  pub sized : length slot.encoded ≡ max_encoded_page_bytes
  pub shelved : slot.occupied ≡ true → Shelved slot

pub record IsValid (s : StoreState) : Type 0 where
  pub ready : s.initialized ≡ true
  pub sized : length s.slots ≡ store_capacity_pages
  pub victim : s.next_evict < store_capacity_pages
  pub slots : All SlotOk s.slots
  pub distinct : Distinct s.slots
  pub tallied : Tallied s.stats s.slots

-- What stood in the chosen slot: the page itself, nothing, or, in a full store without the page, the
-- next victim.
abbrev pub Choice : StoreState → ℕ → ℕ → Type 0
Choice s id i =
    (matches (get_or s.slots i empty) id ≡ true)
    ⊎ ((get_or s.slots i empty).occupied ≡ false)
    ⊎ ((i ≡ s.next_evict) × (lookup s.slots id ≡ none) × (find_empty_slot s.slots ≡ none))

pub record Targeted (s : StoreState) (id : ℕ) (r : StoreState × ℕ) : Type 0 where
  pub ready : r.0.initialized ≡ s.initialized
  pub same : r.0.slots ≡ s.slots
  pub inside : r.1 < store_capacity_pages
  pub alone : Alone s.slots r.1 id
  pub victim : r.0.next_evict < store_capacity_pages
  pub tallied : Tallied r.0.stats s.slots
  pub chosen : Choice s id r.1

pub matches-found :
    (xs : List StoreSlot) (id i : ℕ) (d : StoreSlot)
    → find_slot xs id ≡ some i
    → matches (get_or xs i d) id ≡ true
unfolding find_slot
matches-found [] id i d e = cc
matches-found (x ∷ xs) id zero d e = ground arith
matches-found (x ∷ xs) id (suc i) d e = ground (arith, matches-found xs id i d)

pub target-Targeted : (s : StoreState) (id : ℕ) → IsValid s → Targeted s id (target id s)
unfolding target
target-Targeted s id v = elim (Option-cases (find_slot s.slots id)) [
  | inr (i, e) ↦
      rw (e, target)
        (record {
          ready = refl;
          same = refl;
          inside = omega (arith, (find_slot-some s.slots id i empty e).0, v.sized);
          alone = find_slot-Alone s.slots id i v.distinct e;
          victim = v.victim;
          tallied = Tallied-more _ _ _ _ _ _ _ _ _ _ _ _ v.tallied;
          chosen = inl (matches-found s.slots id i empty e);
        })
  | inl gone ↦
      let lost = find_slot-none s.slots id gone in
      elim (Option-cases (find_empty_slot s.slots)) [
        | inr (i, e) ↦
            rw (gone, e, target)
              (record {
                ready = refl;
                same = refl;
                inside = omega (arith, (find_empty_slot-some s.slots i empty e).0, v.sized);
                alone = lookup-none-Alone s.slots id i lost;
                victim = v.victim;
                tallied = v.tallied;
                chosen = inr (inl (find_empty_slot-some s.slots i empty e).1);
              })
        | inl full ↦
            rw (gone, full, target)
              (record {
                ready = refl;
                same = refl;
                inside = v.victim;
                alone = lookup-none-Alone s.slots id s.next_evict lost;
                victim = omega arith;
                tallied = Tallied-more _ _ _ _ _ _ _ _ _ _ _ _ v.tallied;
                chosen = inr (inr (refl, lost, full));
              })
      ]
]
