-- ===== src/Tmpfs/Paths.antt =====
-- Normalised paths of kernel/src/tmpfs.rs.
use hxnu.Base.{
  ℕ, ◌≡◌, refl, sym, ap, ◌∙◌, subst, true, false, not, inl, inr, ◌⊎◌, Option, none, some, List, [],
  ◌∷◌, ◌++◌, arith, ◌==◌, Bool-cases, Option-cases, eq→==, contains, split, split_whole, Pieces,
  split-Pieces, starts_with,
}
use hxnu.Tmpfs.{
  slash, is_empty_or_dot, is_dot_dot, push_segment, pop_segment, collect, join, print_path,
  normalize_path,
}

-- Segments that the loop keeps.
abbrev pub Kept : List (List ℕ) → Type 0
Kept [] = Unit
Kept (s ∷ ss) =
    ((contains s slash ≡ false) × (is_empty_or_dot s ≡ false) × (is_dot_dot s ≡ false)) × Kept ss

push_segment_lem :
    (s : List ℕ) (ss : List (List ℕ))
    → (push_segment s ss ≡ some ss)
      ⊎ (push_segment s ss ≡ pop_segment ss)
      ⊎ ((is_empty_or_dot s ≡ false) × (is_dot_dot s ≡ false) × (push_segment s ss ≡ some (s ∷ ss)))
push_segment_lem s ss = elim (Bool-cases (is_empty_or_dot s)) [
  | inl skipped ↦ inl (rw (push_segment, skipped) refl)
  | inr named ↦ elim (Bool-cases (is_dot_dot s)) [
    | inl up ↦ inr (inl (rw (push_segment, named, up) refl))
    | inr down ↦ inr (inr (named, down, rw (push_segment, named, down) refl))
  ]
]

popped-Kept : (ss out : List (List ℕ)) → pop_segment ss ≡ some out → Kept ss → Kept out
popped-Kept [] out e kept = absurd (ground arith)
popped-Kept (s ∷ ss) out e kept = let same : ss ≡ out = ground arith in subst Kept same kept.1

push_segment-Kept :
    (s : List ℕ) (ss out : List (List ℕ))
    → contains s slash ≡ false
    → Kept ss
    → push_segment s ss ≡ some out
    → Kept out
push_segment-Kept s ss out free kept e = elim (push_segment_lem s ss) [
  | inl same ↦ let there : ss ≡ out = ground (arith, sym same ∙ e) in subst Kept there kept
  | inr (inl up) ↦ popped-Kept ss out (sym up ∙ e) kept
  | inr (inr (named, down, pushed)) ↦
      let there : s ∷ ss ≡ out = ground (arith, sym pushed ∙ e) in
      subst Kept there ((free, named, down), kept)
]

collect-none : (pieces : List (List ℕ)) → collect pieces none ≡ none
unfolding collect
collect-none [] = refl
collect-none (p ∷ ps) = refl

pub collect-Kept :
    (pieces segments out : List (List ℕ))
    → Pieces slash pieces
    → Kept segments
    → collect pieces (some segments) ≡ some out
    → Kept out
unfolding collect
collect-Kept [] segments out free kept e =
    let same : segments ≡ out = ground arith in subst Kept same kept
collect-Kept (p ∷ ps) segments out free kept e = elim (Option-cases (push_segment p segments)) [
  | inl gone ↦ absurd (ground (arith, sym (ap (collect ps) gone ∙ collect-none ps) ∙ e))
  | inr (next, pushed) ↦
      collect-Kept ps next out free.1 (push_segment-Kept p segments next free.0 kept pushed)
        (sym (ap (collect ps) pushed) ∙ e)
]

-- The loop gives back the segments of a path that is printed.
abbrev ordered : List (List ℕ) → List (List ℕ)
ordered [] = []
ordered (s ∷ ss) = ordered ss ++ s ∷ []

collect-append :
    (xs ys : List (List ℕ)) (state : Option (List (List ℕ)))
    → collect (xs ++ ys) state ≡ collect ys (collect xs state)
unfolding collect
collect-append [] ys none = sym (collect-none ys)
collect-append [] ys (some ss) = refl
collect-append (x ∷ xs) ys none = sym (collect-none ys)
collect-append (x ∷ xs) ys (some ss) = collect-append xs ys (push_segment x ss)

collect-ordered : (ss : List (List ℕ)) → Kept ss → collect (ordered ss) (some []) ≡ some ss
unfolding collect
collect-ordered [] kept = refl
collect-ordered (s ∷ ss) kept =
    let (_, named, down) = kept.0 in
    let pushed : push_segment s ss ≡ some (s ∷ ss) = rw (push_segment, named, down) refl in
    collect-append (ordered ss) (s ∷ []) (some [])
    ∙ ap (collect (s ∷ [])) (collect-ordered ss kept.1)
    ∙ ap (collect []) pushed

split_cons :
    (sep : ℕ) (text : List ℕ) → (p : List ℕ) × (ps : List (List ℕ)) × (split sep text ≡ p ∷ ps)
split_cons sep [] = ([], [], refl)
split_cons sep (c ∷ cs) = elim (Bool-cases (c == sep)) [
  | inl here ↦ ([], split sep cs, rw here refl)
  | inr other ↦ let (p, ps, e) = split_cons sep cs in (c ∷ p, ps, rw (other, e) refl)
]

split_last :
    (sep : ℕ) (text piece : List ℕ)
    → contains piece sep ≡ false
    → split sep (text ++ sep ∷ piece) ≡ split sep text ++ piece ∷ []
split_last sep [] piece free =
    rw (eq→== sep sep refl) (ap (λ l. [] ∷ l) (split_whole sep piece free))
split_last sep (c ∷ cs) piece free =
    let rest = split_last sep cs piece free in
    elim (Bool-cases (c == sep)) [
      | inl here ↦ rw (here, rest) refl
      | inr other ↦ let (p, ps, e) = split_cons sep cs in rw (other, rest, e) refl
    ]

split-join : (ss : List (List ℕ)) → Kept ss → split slash (join ss) ≡ [] ∷ ordered ss
split-join [] kept = refl
split-join (s ∷ ss) kept =
    split_last slash (join ss) s kept.0.0 ∙ ap (λ l. l ++ s ∷ []) (split-join ss kept.1)

join_rooted : (s : List ℕ) (ss : List (List ℕ)) → (rest : List ℕ) × (join (s ∷ ss) ≡ slash ∷ rest)
join_rooted s [] = (s, refl)
join_rooted s (t ∷ ts) =
    let (rest, e) = join_rooted t ts in (rest ++ slash ∷ s, ap (λ l. l ++ slash ∷ s) e)

normalize_path-print :
    (ss : List (List ℕ)) → Kept ss → normalize_path (print_path ss) ≡ some (print_path ss)
unfolding normalize_path collect
normalize_path-print [] kept = refl
normalize_path-print (s ∷ ss) kept =
    let (rest, rooted) = join_rooted s ss in
    let absolute : starts_with (join (s ∷ ss)) (slash ∷ []) ≡ true =
      ap (λ l. starts_with l (slash ∷ [])) rooted in
    let again : collect (split slash (join (s ∷ ss))) (some []) ≡ some (s ∷ ss) =
      ap (λ l. collect l (some [])) (split-join (s ∷ ss) kept) ∙ collect-ordered (s ∷ ss) kept in
    let goes = ap not absolute in rw (normalize_path, goes, again) refl

-- A path that is normalised is the print of the segments that the loop kept.
pub normalize_path_lem :
    (path : List ℕ)
    → (normalize_path path ≡ none)
      ⊎ ((ss : List (List ℕ)) × Kept ss × (normalize_path path ≡ some (print_path ss)))
unfolding normalize_path
normalize_path_lem path = elim (Bool-cases (not (starts_with path (slash ∷ [])))) [
  | inl relative ↦ inl (rw (normalize_path, relative) refl)
  | inr absolute ↦ elim (Option-cases (collect (split slash path) (some []))) [
    | inl above ↦ inl (rw (normalize_path, absolute, above) refl)
    | inr (ss, kept) ↦ inr (
      ss,
      collect-Kept (split slash path) [] ss (split-Pieces slash path) tt kept,
      rw (normalize_path, absolute, kept) refl,
    )
  ]
]

-- Normalising a path that is the result of normalising one gives it back.
pub normalize_path-normalize_path :
    (path normalized : List ℕ)
    → normalize_path path ≡ some normalized
    → normalize_path normalized ≡ some normalized
normalize_path-normalize_path path normalized e = elim (normalize_path_lem path) [
  | inl gone ↦ absurd (ground (arith, sym gone ∙ e))
  | inr (ss, kept, printed) ↦
      let same : print_path ss ≡ normalized = ground (arith, sym printed ∙ e) in
      subst (λ q. normalize_path q ≡ some q) same (normalize_path-print ss kept)
]
