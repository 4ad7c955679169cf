-- ===== src/Tmpfs/Files.antt =====
-- The list of files of kernel/src/tmpfs.rs, searched and written.
use hxnu.Base.{
  ℕ, suc, ◌≡◌, refl, sym, ap, ◌∙◌, subst, Bool, true, false, inl, inr, Option, none, some, List, [],
  ◌∷◌, ◌++◌, arith, if◌then◌else◌, Bool-cases, text_eq, text_eq→eq, text_eq_comm, length, All,
}
use hxnu.Tmpfs.{TmpfsFile, find_file, set_content}

-- The content under a path.
abbrev pub content_at : List ℕ → List TmpfsFile → Option (List ℕ)
content_at path files = elim (find_file path files) [ none ↦ none | some f ↦ some f.content ]

-- Files with the same name hold no two contents.
abbrev pub Once : List TmpfsFile → Type 0
Once [] = Unit
Once (f ∷ fs) = (find_file f.path fs ≡ none) × Once fs

content_at_cons :
    (path : List ℕ) (f : TmpfsFile) (fs : List TmpfsFile)
    → content_at path (f ∷ fs)
      ≡ (if text_eq f.path path then some f.content else content_at path fs)
content_at_cons path f fs = elim (Bool-cases (text_eq f.path path)) [
  | inl here ↦ rw (content_at, here) refl
  | inr other ↦ rw (content_at, other) refl
]

under_test {ℓ} :
    {A : Type ℓ} (b : Bool) (x y z : A)
    → (b ≡ false → y ≡ z)
    → (if b then x else y) ≡ (if b then x else z)
under_test true x y z e = refl
under_test false x y z e = e refl

swap_tests :
    (q path : List ℕ) (g : TmpfsFile) (gs : List TmpfsFile) (content : List ℕ)
    → text_eq g.path path ≡ false
    → (if text_eq g.path q
        then some g.content
        else (if text_eq q path then some content else content_at q gs))
      ≡ (if text_eq q path then some content else content_at q (g ∷ gs))
swap_tests q path g gs content other = elim (Bool-cases (text_eq g.path q)) [
  | inl here ↦
      let apart : text_eq q path ≡ false =
        ap (λ n. text_eq n path) (sym (text_eq→eq g.path q here)) ∙ other in
      rw (apart, here)
        (sym
          (content_at_cons q g gs ∙ ap (λ b. if b then some g.content else content_at q gs) here))
  | inr elsewhere ↦
      let behind =
        content_at_cons q g gs
        ∙ ap (λ b. if b then some g.content else content_at q gs) elsewhere in
      rw elsewhere (ap (λ o. if text_eq q path then some content else o) (sym behind))
]

pub content_at-set_content :
    (path content q : List ℕ) (files : List TmpfsFile) (f : TmpfsFile)
    → find_file path files ≡ some f
    → content_at q (set_content path content files)
      ≡ (if text_eq q path then some content else content_at q files)
content_at-set_content path content q [] f found = absurd (ground arith)
content_at-set_content path content q (g ∷ gs) f found = elim (Bool-cases (text_eq g.path path)) [
  | inl here ↦
      let named : text_eq g.path q ≡ text_eq q path =
        text_eq_comm g.path q ∙ ap (text_eq q) (text_eq→eq g.path path here) in
      rw here (
        content_at_cons q (record g { content = content }) gs
        ∙ ap (λ b. if b then some content else content_at q gs) named
        ∙ under_test (text_eq q path) (some content) (content_at q gs) (content_at q (g ∷ gs))
            (λ apart. sym (
              content_at_cons q g gs
              ∙ ap (λ b. if b then some g.content else content_at q gs) (named ∙ apart))))
  | inr other ↦
      let rest = content_at-set_content path content q gs f (ground (arith, other, found)) in
      rw other (
        content_at_cons q g (set_content path content gs)
        ∙ ap (λ o. if text_eq g.path q then some g.content else o) rest
        ∙ swap_tests q path g gs content other)
]

-- Writing a content leaves the paths, and a file that is appended is found.
pub find_file-set_content :
    (path content q : List ℕ) (files : List TmpfsFile)
    → find_file q files ≡ none
    → find_file q (set_content path content files) ≡ none
find_file-set_content path content q [] gone = refl
find_file-set_content path content q (g ∷ gs) gone = elim (Bool-cases (text_eq g.path q)) [
  | inl here ↦ absurd (ground (arith, here, gone))
  | inr other ↦ elim (Bool-cases (text_eq g.path path)) [
    | inl target ↦ rw (target, other) (ground (arith, other, gone))
    | inr rest ↦
        rw (rest, other) (find_file-set_content path content q gs (ground (arith, other, gone)))
  ]
]

pub find_file-append :
    (q : List ℕ) (g : TmpfsFile) (files : List TmpfsFile)
    → find_file q files ≡ none
    → text_eq g.path q ≡ false
    → find_file q (files ++ g ∷ []) ≡ none
find_file-append q g [] gone other = rw other refl
find_file-append q g (f ∷ fs) gone other = elim (Bool-cases (text_eq f.path q)) [
  | inl here ↦ absurd (ground (arith, here, gone))
  | inr apart ↦ rw apart (find_file-append q g fs (ground (arith, apart, gone)) other)
]

pub Once-set_content :
    (path content : List ℕ) (files : List TmpfsFile)
    → Once files
    → Once (set_content path content files)
Once-set_content path content [] once = tt
Once-set_content path content (g ∷ gs) once = elim (Bool-cases (text_eq g.path path)) [
  | inl here ↦ rw here once
  | inr other ↦
      rw other (
        find_file-set_content path content g.path gs once.0,
        Once-set_content path content gs once.1,
      )
]

pub Once-append :
    (g : TmpfsFile) (files : List TmpfsFile)
    → find_file g.path files ≡ none
    → Once files
    → Once (files ++ g ∷ [])
Once-append g [] gone once = (refl, tt)
Once-append g (f ∷ fs) gone once =
    let apart : text_eq f.path g.path ≡ false = ground (arith, gone) in
    (
      find_file-append f.path g fs once.0 (text_eq_comm g.path f.path ∙ apart),
      Once-append g fs (ground (arith, apart, gone)) once.1,
    )

pub length-set_content :
    (path content : List ℕ) (files : List TmpfsFile)
    → length (set_content path content files) ≡ length files
length-set_content path content [] = refl
length-set_content path content (g ∷ gs) = elim (Bool-cases (text_eq g.path path)) [
  | inl here ↦ rw here refl
  | inr other ↦ rw other (ap suc (length-set_content path content gs))
]

pub All-set_content {ℓ} :
    (P : List ℕ → Type ℓ) (path content : List ℕ) (files : List TmpfsFile)
    → All (λ f. P f.path) files
    → All (λ f. P f.path) (set_content path content files)
All-set_content P path content [] all = tt
All-set_content P path content (g ∷ gs) all = elim (Bool-cases (text_eq g.path path)) [
  | inl here ↦ rw here all
  | inr other ↦ rw other (all.0, All-set_content P path content gs all.1)
]

-- A file that is found has the path, and what holds of every path holds of it.
pub find_file-All {ℓ} :
    (P : List ℕ → Type ℓ) (path : List ℕ) (files : List TmpfsFile) (f : TmpfsFile)
    → find_file path files ≡ some f
    → All (λ g. P g.path) files
    → P path
find_file-All P path [] f found all = absurd (ground arith)
find_file-All P path (g ∷ gs) f found all = elim (Bool-cases (text_eq g.path path)) [
  | inl here ↦ subst P (text_eq→eq g.path path here) all.0
  | inr other ↦ find_file-All P path gs f (ground (arith, other, found)) all.1
]
