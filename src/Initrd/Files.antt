-- ===== src/Initrd/Files.antt =====
-- kernel/src/initrd.rs: initialisation from the boot loader's modules, and the files by their paths.
use mathlib.Core.Option
use hxnu.Base.{
  ℕ, suc, bit_and, Bool, false, not, ◌&&◌, ◌||◌, Option, none, some, List, [], ◌∷◌, ◌++◌, Result,
  ok, err, ◌==◌, if◌then◌else◌, length, drop, text_eq, starts_with, contains,
}
use hxnu.Initrd.Names.{InitrdError, slash, normalize_vfs_path}
use hxnu.Initrd.{InitrdEntry, InitrdEntryKind, is_directory, parse_newc_archive}

-- A module of `limine`, with its strings and its bytes.
pub record Module : Type 0 where
  pub path : Option (List ℕ)
  pub string : Option (List ℕ)
  pub bytes : List ℕ

pub record InitrdState : Type 0 where
  pub module_path : Option (List ℕ)
  pub module_label : Option (List ℕ)
  pub module_count : ℕ
  pub archive : List ℕ
  pub archive_bytes : ℕ
  pub entries : List InitrdEntry

pub record InitrdSummary : Type 0 where
  pub module_count : ℕ
  pub archive_bytes : ℕ
  pub directory_count : ℕ
  pub file_count : ℕ
  pub entry_count : ℕ

pub record InitrdNodeInfo : Type 0 where
  pub kind : InitrdEntryKind
  pub size : ℕ
  pub executable : Bool

abbrev ends_with : List ℕ → List ℕ → Bool
ends_with [] end = text_eq [] end
ends_with (c ∷ cs) end = text_eq (c ∷ cs) end || ends_with cs end

-- "initrd" and "initrd.cpio"
abbrev initrd_label : List ℕ
initrd_label = 105 ∷ 110 ∷ 105 ∷ 116 ∷ 114 ∷ 100 ∷ []

abbrev initrd_file : List ℕ
initrd_file = initrd_label ++ 46 ∷ 99 ∷ 112 ∷ 105 ∷ 111 ∷ []

abbrev is_initrd : Module → Bool
is_initrd m =
    elim m.string [ none ↦ false | some label ↦ text_eq label initrd_label ]
    || elim m.path [ none ↦ false | some path ↦ ends_with path initrd_file ]

-- The loop of `select_initrd_module` behind its first module.
abbrev select_from : Module → List Module → Module
select_from first [] = first
select_from first (m ∷ ms) = let rest = select_from first ms in if is_initrd m then m else rest

abbrev pub select_initrd_module : List Module → Option Module
select_initrd_module [] = none
select_initrd_module (m ∷ ms) = some (select_from m (m ∷ ms))

abbrev count_directories : List InitrdEntry → ℕ
count_directories [] = 0
count_directories (e ∷ es) =
    let rest = count_directories es in if is_directory e.kind then suc rest else rest

abbrev count_files : List InitrdEntry → ℕ
count_files [] = 0
count_files (e ∷ es) = let rest = count_files es in if is_directory e.kind then rest else suc rest

abbrev pub summary : Option InitrdState → InitrdSummary
summary none = record {
  module_count = 0;
  archive_bytes = 0;
  directory_count = 0;
  file_count = 0;
  entry_count = 0;
}
summary (some s) = record {
  module_count = s.module_count;
  archive_bytes = s.archive_bytes;
  directory_count = count_directories s.entries;
  file_count = count_files s.entries;
  entry_count = length s.entries;
}

-- Initialisation with a module; nothing is returned while the parser runs.
abbrev initialize_with : ℕ → Module → Option (Option InitrdState × Result InitrdSummary InitrdError)
initialize_with count m = elim (parse_newc_archive m.bytes) [
  | none ↦ none
  | some (err e) ↦ some (none, err e)
  | some (ok entries) ↦
      let state : Option InitrdState = some (record {
        module_path = m.path;
        module_label = m.string;
        module_count = count;
        archive = m.bytes;
        archive_bytes = length m.bytes;
        entries = entries;
      }) in
      some (state, ok (summary state))
]

abbrev pub initialize :
    Option (List Module)
    → Option InitrdState
    → Option (Option InitrdState × Result InitrdSummary InitrdError)
initialize modules (some s) = some (some s, err InitrdError.already_initialized)
initialize none none = some (none, err InitrdError.module_missing)
initialize (some modules) none = elim (select_initrd_module modules) [
  | none ↦ some (none, err InitrdError.module_missing)
  | some m ↦ initialize_with (length modules) m
]

abbrev pub find_entry : List ℕ → List InitrdEntry → Option InitrdEntry
find_entry path [] = none
find_entry path (e ∷ es) =
    let rest = find_entry path es in if text_eq e.path path then some e else rest

-- The entry under a path of the virtual file system.
abbrev look_up : List ℕ → Option InitrdState → Option InitrdEntry
look_up path none = none
look_up path (some s) = elim (normalize_vfs_path path) [
  | err e ↦ none
  | ok normalized ↦ find_entry normalized s.entries
]

abbrev pub node_info : List ℕ → Option InitrdState → Option InitrdNodeInfo
node_info path state =
    Option.map
      (λ e. record {
        kind = e.kind;
        size = length e.bytes;
        executable = not (bit_and e.mode 73 == 0);
      })
      (look_up path state)

abbrev pub read_bytes : List ℕ → Option InitrdState → Option (List ℕ)
read_bytes path state = elim (look_up path state) [
  | none ↦ none
  | some e ↦ if is_directory e.kind then none else some e.bytes
]

-- ".hxext" and ".hxmd"
abbrev is_module : InitrdEntry → Bool
is_module e =
    not (is_directory e.kind)
    && (ends_with e.path (46 ∷ 104 ∷ 120 ∷ 101 ∷ 120 ∷ 116 ∷ [])
        || ends_with e.path (46 ∷ 104 ∷ 120 ∷ 109 ∷ 100 ∷ []))

abbrev module_paths_of : List InitrdEntry → List (List ℕ)
module_paths_of [] = []
module_paths_of (e ∷ es) =
    let rest = module_paths_of es in if is_module e then e.path ∷ rest else rest

abbrev pub get_module_paths : Option InitrdState → List (List ℕ)
get_module_paths none = []
get_module_paths (some s) = module_paths_of s.entries

-- A line for each entry right below the path.
abbrev pub render_entries : List ℕ → List InitrdEntry → List ℕ
render_entries path [] = []
render_entries path (e ∷ es) =
    let rest = render_entries path es in
    let prefix = path ++ slash ∷ [] in
    let remainder = drop (length prefix) e.path in
    if text_eq e.path path || not (starts_with e.path prefix)
    then rest
    else if text_eq remainder [] || contains remainder slash
    then rest
    else remainder ++ 10 ∷ rest

abbrev pub render_directory : InitrdState → List ℕ → List ℕ
render_directory s path = render_entries path s.entries
