-- ===== src/Frame/Regions.antt =====
-- The regions of the allocator, as sets of addresses: what `reserve` takes, and that the regions
-- stay well formed and apart.
use hxnu.Base.{
  ℕ, suc, ◌+◌, ◌-◌, ◌%◌, ◌≤◌, ◌<◌, ◌≡◌, refl, ◌⊎◌, inl, inr, ◌↔◌, some, none, List, [], ◌∷◌, arith,
  u64_max, All, length, Option-cases, Bool-cases, ltb, sat_add, ap,
}
use hxnu.Frame.{FrameRegion, PhysicalFrame, reserve, remaining, page_size, bootstrap_reserved_end}

-- A region of whole pages above the reserved first megabyte, filled up to `next`.
pub record RegionOk (r : FrameRegion) : Type 0 where
  pub start_aligned : r.start % page_size ≡ 0
  pub next_aligned : r.next % page_size ≡ 0
  pub end_aligned : r.end % page_size ≡ 0
  pub above : bootstrap_reserved_end ≤ r.start
  pub started : r.start ≤ r.next
  pub within : r.next ≤ r.end
  pub fits : r.end ≤ u64_max

abbrev pub Apart : FrameRegion → FrameRegion → Type 0
Apart r s = (r.end ≤ s.start) ⊎ (s.end ≤ r.start)

abbrev pub Disjoint : List FrameRegion → Type 0
Disjoint [] = Unit
Disjoint (r ∷ rs) = All (Apart r) rs × Disjoint rs

-- The addresses that a region still has, and those that it has given away.
abbrev pub Free : ℕ → List FrameRegion → Type 0
Free a [] = ⊥
Free a (r ∷ rs) = ((r.next ≤ a) × (a < r.end)) ⊎ Free a rs

abbrev pub Taken : ℕ → List FrameRegion → Type 0
Taken a [] = ⊥
Taken a (r ∷ rs) = ((r.start ≤ a) × (a < r.next)) ⊎ Taken a rs

-- The bytes given away.
abbrev pub used : List FrameRegion → ℕ
used [] = 0
used (r ∷ rs) = (r.next - r.start) + used rs

abbrev pub total : List FrameRegion → ℕ
total [] = 0
total (r ∷ rs) = (r.end - r.start) + total rs

abbrev pub InRange : ℕ → ℕ → ℕ → Type 0
InRange a from n = (from ≤ a) × (a < from + n)

-- A split of a successful `reserve`: the first region serves, or it is too full.
reserve_cases :
    (q : ℕ) (r : FrameRegion) (rs : List FrameRegion) (f : PhysicalFrame) (rs' : List FrameRegion)
    → reserve q (r ∷ rs) ≡ some (f, rs')
    → ((q ≤ remaining r)
        × (f.start_address ≡ r.next)
        × (rs' ≡ record r { next = sat_add r.next q } ∷ rs))
      ⊎ ((rest : List FrameRegion) × (remaining r < q)
          × (reserve q rs ≡ some (f, rest))
          × (rs' ≡ r ∷ rest))
unfolding reserve
reserve_cases q r rs f rs' e = elim (Bool-cases (ltb (remaining r) q)) [
  | inl short ↦ elim (Option-cases (reserve q rs)) [
    | inl gone ↦ ground arith
    | inr ((g, rest), found) ↦ inr (rest, ground arith, ground arith, ground arith)
  ]
  | inr room ↦ inl (ground arith, ground arith, ground arith)
]

-- `reserve` moves no bounds.
reserve-All_bounds {ℓ} :
    (P : ℕ → ℕ → Type ℓ) (q : ℕ) (rs : List FrameRegion) (f : PhysicalFrame)
    (rs' : List FrameRegion)
    → reserve q rs ≡ some (f, rs')
    → All (λ s. P s.start s.end) rs
    → All (λ s. P s.start s.end) rs'
reserve-All_bounds P q [] f rs' e h = unfold reserve in cc
reserve-All_bounds P q (r ∷ rs) f rs' e h = elim (reserve_cases q r rs f rs' e) [
  | inl (room, at, shape) ↦ rw shape h
  | inr (rest, short, found, shape) ↦ rw shape (h.0, reserve-All_bounds P q rs f rest found h.1)
]

-- What a successful `reserve` of `q` bytes does to the regions.
pub record Reserved (q : ℕ) (rs : List FrameRegion) (f : PhysicalFrame) (rs' : List FrameRegion)
    : Type 0 where
  pub regions : All RegionOk rs'
  pub disjoint : Disjoint rs'
  pub count : length rs' ≡ length rs
  pub aligned : f.start_address % page_size ≡ 0
  pub low : bootstrap_reserved_end ≤ f.start_address
  pub high : f.start_address + q ≤ u64_max
  pub bytes : used rs' ≡ used rs + q
  pub size : total rs' ≡ total rs
  pub was_free : (a : ℕ) → InRange a f.start_address q → Free a rs
  pub taken : (a : ℕ) → Taken a rs' ↔ (Taken a rs ⊎ InRange a f.start_address q)
  pub shrinks : (a : ℕ) → Free a rs' → Free a rs

pub reserve-Reserved :
    (q : ℕ) (rs : List FrameRegion) (f : PhysicalFrame) (rs' : List FrameRegion)
    → q % page_size ≡ 0
    → All RegionOk rs
    → Disjoint rs
    → reserve q rs ≡ some (f, rs')
    → Reserved q rs f rs'
reserve-Reserved q [] f rs' pages h d e = unfold reserve in cc
reserve-Reserved q (r ∷ rs) f rs' pages h d e = elim (reserve_cases q r rs f rs' e) [
  | inl (room, at, shape) ↦ rw shape (record {
    regions = (omega arith, h.1);
    disjoint = d;
    count = refl;
    aligned = omega arith;
    low = omega arith;
    high = omega arith;
    bytes = omega arith;
    size = omega arith;
    was_free = λ a k. inl (omega arith);
    taken = λ a. ground arith;
    shrinks = λ a k. ground arith;
  })
  | inr (rest, short, found, shape) ↦
      let ih = reserve-Reserved q rs f rest pages h.1 d.1 found in
      rw shape (record {
        regions = (h.0, ih.regions);
        disjoint = (
          reserve-All_bounds (λ s t. (r.end ≤ s) ⊎ (t ≤ r.start)) q rs f rest found d.0,
          ih.disjoint,
        );
        count = ap suc ih.count;
        aligned = ih.aligned;
        low = ih.low;
        high = ih.high;
        bytes = omega arith;
        size = omega arith;
        was_free = λ a k. inr (ih.was_free a k);
        taken = λ a. ground (arith, ih.taken a);
        shrinks = λ a k. ground (arith, ih.shrinks a);
      })
]

-- An address is never both free and taken.
Free-Taken-Apart :
    (a : ℕ) (r : FrameRegion) (rs : List FrameRegion)
    → RegionOk r
    → All RegionOk rs
    → All (Apart r) rs
    → Free a rs ⊎ Taken a rs
    → (a < r.start) ⊎ (r.end ≤ a)
Free-Taken-Apart a r [] k h d (inl e) = absurd e
Free-Taken-Apart a r [] k h d (inr e) = absurd e
Free-Taken-Apart a r (s ∷ rs) k h d (inl (inl e)) = ground arith
Free-Taken-Apart a r (s ∷ rs) k h d (inl (inr e)) = Free-Taken-Apart a r rs k h.1 d.1 (inl e)
Free-Taken-Apart a r (s ∷ rs) k h d (inr (inl e)) = ground arith
Free-Taken-Apart a r (s ∷ rs) k h d (inr (inr e)) = Free-Taken-Apart a r rs k h.1 d.1 (inr e)

pub not-Free-Taken :
    (a : ℕ) (rs : List FrameRegion) → All RegionOk rs → Disjoint rs → Free a rs → Taken a rs → ⊥
not-Free-Taken a [] h d f t = f
not-Free-Taken a (r ∷ rs) h d (inl f) (inl t) = omega arith
not-Free-Taken a (r ∷ rs) h d (inl f) (inr t) =
    ground (arith, Free-Taken-Apart a r rs h.0 h.1 d.0 (inr t))
not-Free-Taken a (r ∷ rs) h d (inr f) (inl t) =
    ground (arith, Free-Taken-Apart a r rs h.0 h.1 d.0 (inl f))
not-Free-Taken a (r ∷ rs) h d (inr f) (inr t) = not-Free-Taken a rs h.1 d.1 f t

-- `reserve` fails exactly when no region has room.
pub reserve-none :
    (q : ℕ) (rs : List FrameRegion) → (reserve q rs ≡ none) ↔ All (λ r. remaining r < q) rs
unfolding reserve
reserve-none q [] = ground arith
reserve-none q (r ∷ rs) = ground (arith, reserve-none q rs)
