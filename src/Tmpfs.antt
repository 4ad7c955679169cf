-- ===== src/Tmpfs.antt =====
-- kernel/src/tmpfs.rs: the files of /tmp and /run. A path and a content are lists of bytes; the state
-- is `none` before initialisation. What `String::from_utf8_lossy` makes of a content is an argument
-- of the one function that shows it.
pub mod Nodes
pub mod Paths
pub mod Files
pub mod Valid
pub mod Examples
use hxnu.Base.{
  ℕ, zero, suc, ◌+◌, ◌≡◌, Bool, true, false, not, ◌&&◌, ◌||◌, Option, none, some, List, [], ◌∷◌,
  ◌++◌, Result, ok, err, ltb, leb, ◌==◌, if◌then◌else◌, length, take, drop, sat_add, text_eq,
  starts_with, contains, split,
}

-- "/tmp" and "/run"
abbrev pub tmp_root_path : List ℕ
tmp_root_path = 47 ∷ 116 ∷ 109 ∷ 112 ∷ []

abbrev pub run_root_path : List ℕ
run_root_path = 47 ∷ 114 ∷ 117 ∷ 110 ∷ []

abbrev pub slash : ℕ
slash = 47

abbrev pub max_tmpfs_files : ℕ
max_tmpfs_files = 256

pub record TmpfsFile : Type 0 where
  pub path : List ℕ
  pub content : List ℕ

pub record TmpfsState : Type 0 where
  pub initialized : Bool
  pub files : List TmpfsFile

pub data TmpfsNodeKind : Type 0 where
  directory file : TmpfsNodeKind

pub record TmpfsSummary : Type 0 where
  pub directory_count : ℕ
  pub file_count : ℕ
  pub entry_count : ℕ
  pub total_bytes : ℕ

pub record TmpfsOpenFile : Type 0 where
  pub path : List ℕ
  pub content : List ℕ

pub data TmpfsError : Type 0 where
  already_initialized not_initialized invalid_path not_found is_directory file_limit_reached :
      TmpfsError

abbrev pub total_bytes_of : ℕ → List TmpfsFile → ℕ
total_bytes_of total [] = total
total_bytes_of total (f ∷ fs) = total_bytes_of (sat_add total (length f.content)) fs

abbrev pub summary : Option TmpfsState → TmpfsSummary
summary none = record { directory_count = 0; file_count = 0; entry_count = 0; total_bytes = 0 }
summary (some s) = record {
  directory_count = 2;
  file_count = length s.files;
  entry_count = sat_add 2 (length s.files);
  total_bytes = total_bytes_of 0 s.files;
}

abbrev pub fresh : TmpfsState
fresh = record { initialized = true; files = [] }

abbrev pub initialize : Option TmpfsState → Option TmpfsState × Result TmpfsSummary TmpfsError
initialize none = (some fresh, ok (summary (some fresh)))
initialize (some s) = (some s, err TmpfsError.already_initialized)

abbrev pub is_initialized : Option TmpfsState → Bool
is_initialized none = false
is_initialized (some s) = s.initialized

abbrev pub is_root : List ℕ → Bool
is_root path = text_eq path tmp_root_path || text_eq path run_root_path

abbrev pub handles_path : List ℕ → Bool
handles_path path =
    is_root path
    || starts_with path (tmp_root_path ++ slash ∷ [])
    || starts_with path (run_root_path ++ slash ∷ [])

-- "." and ".."
abbrev pub is_empty_or_dot : List ℕ → Bool
is_empty_or_dot segment = text_eq segment [] || text_eq segment (46 ∷ [])

abbrev pub is_dot_dot : List ℕ → Bool
is_dot_dot segment = text_eq segment (46 ∷ 46 ∷ [])

-- `segments.pop()?`
abbrev pub pop_segment : List (List ℕ) → Option (List (List ℕ))
pop_segment [] = none
pop_segment (s ∷ ss) = some ss

-- One round of the loop of `normalize_path`; the last segment stands first.
abbrev pub push_segment : List ℕ → List (List ℕ) → Option (List (List ℕ))
push_segment segment segments =
    if is_empty_or_dot segment
    then some segments
    else if is_dot_dot segment
    then pop_segment segments
    else some (segment ∷ segments)

unfoldable pub collect : List (List ℕ) → Option (List (List ℕ)) → Option (List (List ℕ))
collect pieces none = none
collect [] (some segments) = some segments
collect (piece ∷ pieces) (some segments) = collect pieces (push_segment piece segments)

-- The segments with a separator before each; the last stands first.
abbrev pub join : List (List ℕ) → List ℕ
join [] = []
join (s ∷ ss) = join ss ++ slash ∷ s

abbrev pub print_path : List (List ℕ) → List ℕ
print_path [] = slash ∷ []
print_path (s ∷ ss) = join (s ∷ ss)

unfoldable pub normalize_path : List ℕ → Option (List ℕ)
normalize_path path =
    if not (starts_with path (slash ∷ []))
    then none
    else elim (collect (split slash path) (some [])) [
      | none ↦ none
      | some segments ↦ some (print_path segments)
    ]

-- `files.iter().find(|file| file.path == path)`, and what `iter_mut` does to that file.
abbrev pub find_file : List ℕ → List TmpfsFile → Option TmpfsFile
find_file path [] = none
find_file path (f ∷ fs) =
    let rest = find_file path fs in if text_eq f.path path then some f else rest

abbrev pub set_content : List ℕ → List ℕ → List TmpfsFile → List TmpfsFile
set_content path content [] = []
set_content path content (f ∷ fs) =
    let rest = set_content path content fs in
    if text_eq f.path path then record f { content = content } ∷ fs else f ∷ rest

abbrev pub read_bytes : List ℕ → Option TmpfsState → Option (List ℕ)
read_bytes path state = elim (normalize_path path) [
  | none ↦ none
  | some normalized ↦ elim state [
    | none ↦ none
    | some s ↦ elim (find_file normalized s.files) [ none ↦ none | some f ↦ some f.content ]
  ]
]

-- The position of the last separator.
abbrev pub rfind : List ℕ → Option ℕ
rfind [] = none
rfind (c ∷ cs) = elim (rfind cs) [
  | some i ↦ some (suc i)
  | none ↦ if c == slash then some 0 else none
]

abbrev pub parent_directory : List ℕ → Option (List ℕ)
parent_directory path = elim (rfind path) [
  | none ↦ none
  | some i ↦ if i == 0 then some (slash ∷ []) else some (take i path)
]

unfoldable pub ensure_tmpfs_parent : List ℕ → Result (Unit {0}) TmpfsError
ensure_tmpfs_parent path =
    if not (handles_path path)
    then err TmpfsError.invalid_path
    else if is_root path
    then ok tt
    else elim (parent_directory path) [
      | none ↦ err TmpfsError.invalid_path
      | some parent ↦ if is_root parent then ok tt else err TmpfsError.invalid_path
    ]

-- `open_file` with a path that is normalised, on an initialised state.
unfoldable pub open_normalized :
    List ℕ → Bool → Bool → TmpfsState → TmpfsState × Result TmpfsOpenFile TmpfsError
open_normalized path create truncate s =
    if is_root path then (s, err TmpfsError.is_directory) else elim (find_file path s.files) [
      | some f ↦
          if truncate
          then (
            record s { files = set_content path [] s.files },
            ok (record { path = path; content = [] }),
          )
          else (s, ok (record { path = path; content = f.content }))
      | none ↦
          if not create
          then (s, err TmpfsError.not_found)
          else if leb max_tmpfs_files (length s.files)
          then (s, err TmpfsError.file_limit_reached)
          else (
            record s { files = s.files ++ record { path = path; content = [] } ∷ [] },
            ok (record { path = path; content = [] }),
          )
    ]

-- `as_mut().ok_or(TmpfsError::NotInitialized)?`
abbrev pub on_initialized {ℓ} :
    {A : Type ℓ}
    → Option TmpfsState
    → (TmpfsState → TmpfsState × Result A TmpfsError)
    → Option TmpfsState × Result A TmpfsError
on_initialized none act = (none, err TmpfsError.not_initialized)
on_initialized (some s) act = (some (act s).0, (act s).1)

-- What follows normalisation and the look at the parent.
abbrev pub on_state {ℓ} :
    {A : Type ℓ}
    → List ℕ
    → Option TmpfsState
    → (List ℕ → TmpfsState → TmpfsState × Result A TmpfsError)
    → Option TmpfsState × Result A TmpfsError
on_state path state act = elim (normalize_path path) [
  | none ↦ (state, err TmpfsError.invalid_path)
  | some normalized ↦ elim (ensure_tmpfs_parent normalized) [
    | err e ↦ (state, err e)
    | ok _ ↦ on_initialized state (act normalized)
  ]
]

abbrev pub open_file :
    List ℕ → Bool → Bool → Option TmpfsState → Option TmpfsState × Result TmpfsOpenFile TmpfsError
open_file path create truncate state =
    on_state path state (λ normalized s. open_normalized normalized create truncate s)

unfoldable pub write_normalized :
    List ℕ → List ℕ → TmpfsState → TmpfsState × Result (Unit {0}) TmpfsError
write_normalized content path s = elim (find_file path s.files) [
  | none ↦ (s, err TmpfsError.not_found)
  | some f ↦ (record s { files = set_content path content s.files }, ok tt)
]

abbrev pub write_file :
    List ℕ → List ℕ → Option TmpfsState → Option TmpfsState × Result (Unit {0}) TmpfsError
write_file path content state =
    on_state path state (λ normalized s. write_normalized content normalized s)
