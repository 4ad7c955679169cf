-- ===== src/Tmpfs/Valid.antt =====
-- The invariant of the files of kernel/src/tmpfs.rs, and what writing and reading a file do.
use hxnu.Base.{
  ℕ, ◌≤◌, ◌≡◌, refl, sym, ap, ◌∙◌, Bool, false, not, inl, inr, Option, none, some, List, [], ◌∷◌,
  arith, leb, leb_false→lt, if◌then◌else◌, Bool-cases, Option-cases, Result-cases, text_eq, length,
  length-append, All, All-append, Result, ok,
}
use hxnu.Tmpfs.{
  TmpfsFile, TmpfsState, TmpfsError, max_tmpfs_files, fresh, find_file, set_content, normalize_path,
  ensure_tmpfs_parent, is_root, open_normalized, write_normalized, open_file, write_file,
  read_bytes, initialize, on_state, on_initialized,
}
use hxnu.Tmpfs.Paths.{normalize_path-normalize_path}
use hxnu.Tmpfs.Files.{
  content_at, Once, content_at-set_content, Once-set_content, Once-append, length-set_content,
  All-set_content, find_file-All,
}

-- A path that a file may have: normalised, and right below /tmp or /run.
abbrev pub Placed : List ℕ → Type 0
Placed path =
    (normalize_path path ≡ some path) × (ensure_tmpfs_parent path ≡ ok tt) × (is_root path ≡ false)

pub record IsValid (s : TmpfsState) : Type 0 where
  pub few : length s.files ≤ max_tmpfs_files
  pub placed : All (λ f. Placed f.path) s.files
  pub once : Once s.files

pub fresh-IsValid : IsValid fresh
fresh-IsValid = record { few = omega arith; placed = tt; once = tt }

written-IsValid :
    (path content : List ℕ) (s : TmpfsState)
    → IsValid s
    → IsValid (record s { files = set_content path content s.files })
written-IsValid path content s v = record {
  few = omega (arith, v.few, length-set_content path content s.files);
  placed = All-set_content Placed path content s.files v.placed;
  once = Once-set_content path content s.files v.once;
}

pub write_normalized-IsValid :
    (content path : List ℕ) (s : TmpfsState)
    → IsValid s
    → IsValid (write_normalized content path s).0
unfolding write_normalized
write_normalized-IsValid content path s v = elim (Option-cases (find_file path s.files)) [
  | inl gone ↦ rw (write_normalized, gone) v
  | inr (f, found) ↦ rw (write_normalized, found) (written-IsValid path content s v)
]

pub open_normalized-IsValid :
    (path : List ℕ) (create truncate : Bool) (s : TmpfsState)
    → normalize_path path ≡ some path
    → ensure_tmpfs_parent path ≡ ok tt
    → IsValid s
    → IsValid (open_normalized path create truncate s).0
unfolding open_normalized
open_normalized-IsValid path create truncate s normal placed v = elim (Bool-cases (is_root path)) [
  | inl root ↦ rw (open_normalized, root) v
  | inr below ↦ elim (Option-cases (find_file path s.files)) [
    | inr (f, found) ↦ elim (Bool-cases truncate) [
      | inl cut ↦ rw (open_normalized, below, found, cut) (written-IsValid path [] s v)
      | inr kept ↦ rw (open_normalized, below, found, kept) v
    ]
    | inl gone ↦ elim (Bool-cases (not create)) [
      | inl only ↦ rw (open_normalized, below, gone, only) v
      | inr new ↦ elim (Bool-cases (leb max_tmpfs_files (length s.files))) [
        | inl full ↦ rw (open_normalized, below, gone, new, full) v
        | inr room ↦
            let f : TmpfsFile = record { path = path; content = [] } in
            rw (open_normalized, below, gone, new, room)
              (record {
                few = omega (
                  arith,
                  leb_false→lt max_tmpfs_files (length s.files) room,
                  length-append s.files (f ∷ []),
                );
                placed =
                    All-append (λ g. Placed g.path) s.files (f ∷ []) v.placed
                      ((normal, placed, below), tt);
                once = Once-append f s.files gone v.once;
              })
      ]
    ]
  ]
]

-- The states of the kernel: before initialisation, and valid ones.
pub data Ready : Option TmpfsState → Type 0 where
  before : Ready none
  after : (s : TmpfsState) → IsValid s → Ready (some s)

initialized_Ready :
    {A : Type 0} {state : Option TmpfsState} (act : TmpfsState → TmpfsState × Result A TmpfsError)
    → ((s : TmpfsState) → IsValid s → IsValid (act s).0)
    → Ready state
    → Ready (on_initialized state act).0
initialized_Ready act keeps before = before
initialized_Ready act keeps (after s v) = after (act s).0 (keeps s v)

-- An operation on valid states, for the paths that it is given.
on_state-Ready :
    {A : Type 0} (path : List ℕ) (state : Option TmpfsState)
    (act : List ℕ → TmpfsState → TmpfsState × Result A TmpfsError)
    → ((p : List ℕ) (s : TmpfsState)
        → normalize_path p ≡ some p
        → ensure_tmpfs_parent p ≡ ok tt
        → IsValid s
        → IsValid (act p s).0)
    → Ready state
    → Ready (on_state path state act).0
on_state-Ready path state act keeps ready = elim (Option-cases (normalize_path path)) [
  | inl gone ↦ rw (on_state, gone) ready
  | inr (p, normal) ↦ elim (Result-cases (ensure_tmpfs_parent p)) [
    | inr (e, outside) ↦ rw (on_state, normal, outside) ready
    | inl (t, inside) ↦
        rw (on_state, normal, inside)
          (initialized_Ready (act p)
            (λ s v. keeps p s (normalize_path-normalize_path path p normal) inside v) ready)
  ]
]

-- Sequences of calls.
pub data Reach : Option TmpfsState → Type 0 where
  boot : Reach none
  init : {s : Option TmpfsState} → Reach s → Reach (initialize s).0
  opens :
      {s : Option TmpfsState} (path : List ℕ) (create truncate : Bool)
      → Reach s
      → Reach (open_file path create truncate s).0
  writes :
      {s : Option TmpfsState} (path content : List ℕ)
      → Reach s
      → Reach (write_file path content s).0

initialize-Ready : {s : Option TmpfsState} → Ready s → Ready (initialize s).0
initialize-Ready before = after fresh fresh-IsValid
initialize-Ready (after s v) = after s v

-- After any sequence of initialisations, opens and writes the state is none, before the first
-- initialisation, or holds at most 256 files, no two of which have the same path; each path is
-- normalised and stands right below /tmp or /run.
pub Reach-Ready : {s : Option TmpfsState} → Reach s → Ready s
Reach-Ready boot = before
Reach-Ready (init r) = initialize-Ready (Reach-Ready r)
Reach-Ready (opens {s = s} path create truncate r) =
    on_state-Ready path s (λ p t. open_normalized p create truncate t)
      (λ p t normal placed v. open_normalized-IsValid p create truncate t normal placed v)
      (Reach-Ready r)
Reach-Ready (writes {s = s} path content r) =
    on_state-Ready path s (λ p t. write_normalized content p t)
      (λ p t normal placed v. write_normalized-IsValid content p t v) (Reach-Ready r)

read_bytes_at :
    (q r : List ℕ) (s : TmpfsState)
    → normalize_path q ≡ some r
    → read_bytes q (some s) ≡ content_at r s.files
read_bytes_at q r s normal = rw (read_bytes, normal) refl

write_normalized-found :
    (content path q : List ℕ) (s : TmpfsState) (f : TmpfsFile)
    → find_file path s.files ≡ some f
    → ((write_normalized content path s).1 ≡ ok tt)
      × (content_at q (write_normalized content path s).0.files
          ≡ (if text_eq q path then some content else content_at q s.files))
unfolding write_normalized
write_normalized-found content path q s f found =
    rw (write_normalized, found) (refl, content_at-set_content path content q s.files f found)

write_file_lem :
    (path normalized content : List ℕ) (s : TmpfsState)
    → normalize_path path ≡ some normalized
    → ensure_tmpfs_parent normalized ≡ ok tt
    → write_file path content (some s)
      ≡ (some (write_normalized content normalized s).0, (write_normalized content normalized s).1)
write_file_lem path normalized content s normal inside =
    rw (write_file, on_state, normal, inside) refl

-- On valid files a path that can be read can be written; afterwards every path of the same file
-- reads the new content, and every other path that has a normal form reads what it did.
pub read_bytes-write_file :
    (path normalized content old q r : List ℕ) (s : TmpfsState)
    → IsValid s
    → normalize_path path ≡ some normalized
    → read_bytes path (some s) ≡ some old
    → normalize_path q ≡ some r
    → ((write_file path content (some s)).1 ≡ ok tt)
      × (read_bytes q (write_file path content (some s)).0
          ≡ (if text_eq r normalized then some content else read_bytes q (some s)))
read_bytes-write_file path p content old q r s v normal old_content normal_q =
    elim (Option-cases (find_file p s.files)) [
      | inl gone ↦
          let nothing : content_at p s.files ≡ none = rw (content_at, gone) refl in
          absurd (ground (arith, sym (read_bytes_at path p s normal ∙ nothing) ∙ old_content))
      | inr (f, found) ↦
          let (_, inside, _) = find_file-All Placed p s.files f found v.placed in
          let (done, reads) = write_normalized-found content p r s f found in
          let w = write_normalized content p s in
          let written : write_file path content (some s) ≡ (some w.0, w.1) =
            write_file_lem path p content s normal inside in
          let before_it =
            sym
              (ap (λ o. if text_eq r p then some content else o) (read_bytes_at q r s normal_q)) in
          (
            ap (λ out. out.1) written ∙ done,
            ap (λ out. read_bytes q out.0) written
                ∙ read_bytes_at q r w.0 normal_q
                ∙ reads
                ∙ before_it,
          )
    ]
