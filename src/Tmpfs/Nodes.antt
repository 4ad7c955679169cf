-- ===== src/Tmpfs/Nodes.antt =====
-- kernel/src/tmpfs.rs: what a path names, and the text of a directory.
use mathlib.Core.Option
use hxnu.Base.{
  ℕ, ◌+◌, Bool, true, false, not, ◌&&◌, ◌||◌, Option, none, some, List, [], ◌∷◌, ◌++◌, ltb, ◌==◌,
  if◌then◌else◌, length, drop, starts_with, contains,
}
use hxnu.Tmpfs.{
  TmpfsFile, TmpfsState, TmpfsNodeKind, normalize_path, is_root, find_file, read_bytes, slash,
}

pub record TmpfsNodeInfo : Type 0 where
  pub size : ℕ

abbrev pub node_kind : List ℕ → Option TmpfsState → Option TmpfsNodeKind
node_kind path state = elim (normalize_path path) [
  | none ↦ none
  | some normalized ↦ if is_root normalized then some TmpfsNodeKind.directory else elim state [
    | none ↦ none
    | some s ↦ Option.map (λ f. TmpfsNodeKind.file) (find_file normalized s.files)
  ]
]

abbrev pub direct_child_name : List ℕ → List ℕ → Option (List ℕ)
direct_child_name parent path =
    if not (starts_with path (parent ++ slash ∷ []))
    then none
    else let suffix = drop (length parent + 1) path in
      if length suffix == 0 || contains suffix slash then none else some suffix

-- The order of texts, and their sort.
abbrev pub text_below : List ℕ → List ℕ → Bool
text_below [] ds = true
text_below (c ∷ cs) [] = false
text_below (c ∷ cs) (d ∷ ds) = ltb c d || c == d && text_below cs ds

abbrev pub insert : List ℕ → List (List ℕ) → List (List ℕ)
insert text [] = text ∷ []
insert text (t ∷ ts) =
    let rest = insert text ts in if text_below text t then text ∷ t ∷ ts else t ∷ rest

abbrev pub sort : List (List ℕ) → List (List ℕ)
sort [] = []
sort (t ∷ ts) = insert t (sort ts)

abbrev pub child_names : List ℕ → List TmpfsFile → List (List ℕ)
child_names path [] = []
child_names path (f ∷ fs) = elim (direct_child_name path f.path) [
  | none ↦ child_names path fs
  | some name ↦ name ∷ child_names path fs
]

-- A line for each entry, with a newline behind.
abbrev pub print_lines : List (List ℕ) → List ℕ
print_lines [] = []
print_lines (t ∷ ts) = t ++ 10 ∷ print_lines ts

abbrev pub render_directory : List ℕ → Option TmpfsState → Option (List ℕ)
render_directory path state = Option.map (λ s. print_lines (sort (child_names path s.files))) state

abbrev pub read : (List ℕ → List ℕ) → List ℕ → Option TmpfsState → Option (List ℕ)
read from_utf8_lossy path state = elim (normalize_path path) [
  | none ↦ none
  | some normalized ↦ elim (node_kind normalized state) [
    | none ↦ none
    | some TmpfsNodeKind.directory ↦ render_directory normalized state
    | some TmpfsNodeKind.file ↦ Option.map from_utf8_lossy (read_bytes normalized state)
  ]
]

abbrev pub node_info : (List ℕ → List ℕ) → List ℕ → Option TmpfsState → Option TmpfsNodeInfo
node_info from_utf8_lossy path state = elim (node_kind path state) [
  | none ↦ none
  | some TmpfsNodeKind.directory ↦
      Option.map (λ text. record { size = length text }) (read from_utf8_lossy path state)
  | some TmpfsNodeKind.file ↦
      Option.map (λ content. record { size = length content }) (read_bytes path state)
]
