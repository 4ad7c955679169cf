-- ===== src/Sched/Queue.antt =====
-- What the loops over a run queue of kernel/src/sched.rs do to the entries in use.
use hxnu.Base.{
  ℕ, zero, suc, ◌+◌, ◌≤◌, ◌<◌, ◌≡◌, refl, ap, true, false, inl, inr, none, some, List, [], ◌∷◌,
  arith, length, take, get_or, ◌==◌, Bool-cases, eq→==, has, erase,
}
use hxnu.Sched.{shift_down, find_entry}

pub length-shift_down : (i n : ℕ) (q : List ℕ) → length (shift_down i n q) ≡ length q
length-shift_down i n [] = refl
length-shift_down (suc i) n (x ∷ xs) = ap suc (length-shift_down i n xs)
length-shift_down zero zero (x ∷ xs) = refl
length-shift_down zero (suc n) (x ∷ []) = refl
length-shift_down zero (suc n) (x ∷ y ∷ ys) = ap suc (length-shift_down zero n (y ∷ ys))

-- The first of the entries goes.
pub take-shift_down :
    (n : ℕ) (x : ℕ) (xs : List ℕ) → n ≤ length xs → take n (shift_down 0 n (x ∷ xs)) ≡ take n xs
take-shift_down zero x xs room = refl
take-shift_down (suc n) x [] room = absurd (omega arith)
take-shift_down (suc n) x (y ∷ ys) room = ap (λ l. y ∷ l) (take-shift_down n y ys (omega arith))

-- A search that finds nothing, and one that finds an entry.
pub find_entry-none :
    (d : ℕ) (q : List ℕ) (slot : ℕ) → find_entry d q slot ≡ none → has (take d q) slot ≡ false
find_entry-none zero q slot e = refl
find_entry-none (suc d) [] slot e = refl
find_entry-none (suc d) (x ∷ xs) slot e = ground (arith, find_entry-none d xs slot)

pub find_entry_below : (d : ℕ) (q : List ℕ) (slot i : ℕ) → find_entry d q slot ≡ some i → i < d
find_entry_below zero q slot i e = absurd (ground arith)
find_entry_below (suc d) [] slot i e = absurd (ground arith)
find_entry_below (suc d) (x ∷ xs) slot zero e = omega arith
find_entry_below (suc d) (x ∷ xs) slot (suc i) e = elim (Bool-cases (x == slot)) [
  | inl same ↦ absurd (ground arith)
  | inr other ↦ let below = find_entry_below d xs slot i (ground arith) in omega arith
]

-- With `j` entries behind the one that is found.
pub find_entry-some :
    (k : ℕ) (q : List ℕ) (slot i j : ℕ)
    → i + j ≡ k
    → suc k ≤ length q
    → find_entry (suc k) q slot ≡ some i
    → (take k (shift_down i j q) ≡ erase slot (take (suc k) q)) × (has (take (suc k) q) slot ≡ true)
find_entry-some k [] slot i j sum room e = absurd (omega arith)
find_entry-some k (x ∷ xs) slot zero j sum room e = elim (Bool-cases (x == slot)) [
  | inl same ↦
      let all : j ≡ k = omega arith in rw (same, all) (take-shift_down k x xs (omega arith), refl)
  | inr other ↦ absurd (ground arith)
]
find_entry-some zero (x ∷ xs) slot (suc i) j sum room e = absurd (omega arith)
find_entry-some (suc k) (x ∷ xs) slot (suc i) j sum room e = elim (Bool-cases (x == slot)) [
  | inl same ↦ absurd (ground arith)
  | inr other ↦
      let (kept, there) =
        find_entry-some k xs slot i j (omega arith) (omega arith) (ground arith) in
      rw other (ap (λ l. x ∷ l) kept, there)
]

-- The entry in front.
pub take_front :
    (d : ℕ) (q : List ℕ) (slot : ℕ) (rest : List ℕ)
    → take d q ≡ slot ∷ rest
    → (0 < d) × (get_or q 0 0 ≡ slot) × (find_entry d q slot ≡ some 0)
take_front zero q slot rest e = absurd (ground arith)
take_front (suc d) [] slot rest e = absurd (ground arith)
take_front (suc d) (x ∷ xs) slot rest e =
    let same : x ≡ slot = ground arith in (omega arith, same, rw (eq→== x slot same) refl)

pub erase_front : (slot : ℕ) (rest : List ℕ) → erase slot (slot ∷ rest) ≡ rest
erase_front slot rest = rw (eq→== slot slot refl) refl
