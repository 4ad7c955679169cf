-- ===== src/Tmpfs/Examples.antt =====
-- Runs of kernel/src/tmpfs.rs, and its theorems at concrete inputs.
use hxnu.Base.{ℕ, ◌≡◌, refl, true, false, Option, none, some, List, [], ◌∷◌, ◌++◌, ok, err}
use hxnu.Tmpfs.{
  TmpfsState, TmpfsError, fresh, normalize_path, collect, ensure_tmpfs_parent, open_normalized,
  open_file, write_file, read_bytes, initialize,
}
use hxnu.Tmpfs.Nodes.{render_directory}
use hxnu.Tmpfs.Paths.{normalize_path-normalize_path}
use hxnu.Tmpfs.Valid.{
  Ready, boot, init, opens, writes, Reach-Ready, read_bytes-write_file, fresh-IsValid,
  open_normalized-IsValid,
}

-- "/tmp/a", "//tmp/./b/../a" and "/tmp/b"
abbrev path_a : List ℕ
path_a = 47 ∷ 116 ∷ 109 ∷ 112 ∷ 47 ∷ 97 ∷ []

abbrev odd_a : List ℕ
odd_a = 47 ∷ 47 ∷ 116 ∷ 109 ∷ 112 ∷ 47 ∷ 46 ∷ 47 ∷ 98 ∷ 47 ∷ 46 ∷ 46 ∷ 47 ∷ 97 ∷ []

abbrev path_b : List ℕ
path_b = 47 ∷ 116 ∷ 109 ∷ 112 ∷ 47 ∷ 98 ∷ []

normal_a : normalize_path odd_a ≡ some path_a
unfolding normalize_path collect
normal_a = refl

normalize_path-normalize_path_example : normalize_path path_a ≡ some path_a
normalize_path-normalize_path_example = normalize_path-normalize_path odd_a path_a normal_a

abbrev opened : Option TmpfsState
opened = (open_file path_a true false (initialize none).0).0

Reach-Ready_example : Ready (write_file odd_a (1 ∷ 2 ∷ []) opened).0
Reach-Ready_example = Reach-Ready (writes odd_a (1 ∷ 2 ∷ []) (opens path_a true false (init boot)))

abbrev one_file : TmpfsState
one_file = (open_normalized path_a true false fresh).0

read_bytes-write_file_example :
    ((write_file odd_a (1 ∷ 2 ∷ []) (some one_file)).1 ≡ ok tt)
    × (read_bytes path_a (write_file odd_a (1 ∷ 2 ∷ []) (some one_file)).0 ≡ some (1 ∷ 2 ∷ []))
unfolding normalize_path collect open_normalized ensure_tmpfs_parent
read_bytes-write_file_example =
    read_bytes-write_file odd_a path_a (1 ∷ 2 ∷ []) [] path_a path_a one_file
      (open_normalized-IsValid path_a true false fresh refl refl fresh-IsValid) refl refl refl

-- A directory below /tmp has no files.
too_deep : (open_file (path_a ++ path_b) true false (some fresh)).1 ≡ err TmpfsError.invalid_path
unfolding normalize_path collect ensure_tmpfs_parent
too_deep = refl

listing :
    render_directory
      (47 ∷ 116 ∷ 109 ∷ 112 ∷ [])
      (open_file path_a true false (open_file path_b true false (some fresh)).0).0
    ≡ some (97 ∷ 10 ∷ 98 ∷ 10 ∷ [])
unfolding normalize_path collect ensure_tmpfs_parent open_normalized
listing = refl
