-- ===== src/Initrd/Names.antt =====
-- kernel/src/initrd.rs: the errors, and the names of entries.
use hxnu.Base.{
  ℕ, Bool, true, false, not, ◌&&◌, ◌||◌, Option, none, some, List, [], ◌∷◌, ◌++◌, Result, ok, err,
  leb, ◌==◌, if◌then◌else◌, drop, text_eq, starts_with,
}

pub data InitrdError : Type 0 where
  already_initialized module_missing invalid_archive invalid_entry_name unsupported_path :
      InitrdError

-- "/initrd"
abbrev pub initrd_root : List ℕ
initrd_root = 47 ∷ 105 ∷ 110 ∷ 105 ∷ 116 ∷ 114 ∷ 100 ∷ []

abbrev pub slash : ℕ
slash = 47

-- The bytes that may follow one that begins a character of UTF-8, as ranges.
abbrev following : ℕ → Option (List (ℕ × ℕ))
following byte =
    let any : ℕ × ℕ = (128, 191) in
    if leb byte 127
    then some []
    else if leb 194 byte && leb byte 223
    then some (any ∷ [])
    else if byte == 224
    then some ((160, 191) ∷ any ∷ [])
    else if byte == 237
    then some ((128, 159) ∷ any ∷ [])
    else if leb 225 byte && leb byte 239
    then some (any ∷ any ∷ [])
    else if byte == 240
    then some ((144, 191) ∷ any ∷ any ∷ [])
    else if leb 241 byte && leb byte 243
    then some (any ∷ any ∷ any ∷ [])
    else if byte == 244
    then some ((128, 143) ∷ any ∷ any ∷ [])
    else none

abbrev utf8_rest : List (ℕ × ℕ) → List ℕ → Bool
utf8_rest [] [] = true
utf8_rest (r ∷ rs) [] = false
utf8_rest [] (b ∷ bs) = elim (following b) [ none ↦ false | some rs ↦ utf8_rest rs bs ]
utf8_rest (r ∷ rs) (b ∷ bs) = (leb r.0 b && leb b r.1) && utf8_rest rs bs

-- Whether `str::from_utf8` succeeds.
unfoldable pub from_utf8 : List ℕ → Bool
from_utf8 bytes = utf8_rest [] bytes

abbrev trim_start : List ℕ → List ℕ
trim_start [] = []
trim_start (c ∷ cs) = let rest = trim_start cs in if c == slash then rest else c ∷ cs

-- `trim_end_matches('/')`
abbrev pub trim_end : List ℕ → List ℕ
trim_end [] = []
trim_end (c ∷ cs) = let rest = trim_end cs in if c == slash && text_eq rest [] then [] else c ∷ rest

-- `contains("..")`
abbrev contains_dot_dot : List ℕ → Bool
contains_dot_dot [] = false
contains_dot_dot (c ∷ cs) = starts_with (c ∷ cs) (46 ∷ 46 ∷ []) || contains_dot_dot cs

-- `strip_prefix("./").unwrap_or(path)`
abbrev strip_dot : List ℕ → List ℕ
strip_dot path = if starts_with path (46 ∷ 47 ∷ []) then drop 2 path else path

unfoldable pub normalize_archive_path : List ℕ → Result (List ℕ) InitrdError
normalize_archive_path path =
    let trimmed = strip_dot (trim_end (trim_start path)) in
    if text_eq trimmed [] || text_eq trimmed (46 ∷ [])
    then ok initrd_root
    else if contains_dot_dot trimmed
    then err InitrdError.invalid_entry_name
    else ok (initrd_root ++ slash ∷ trimmed)

unfoldable pub normalize_vfs_path : List ℕ → Result (List ℕ) InitrdError
normalize_vfs_path path =
    if text_eq path initrd_root || text_eq path (initrd_root ++ slash ∷ [])
    then ok initrd_root
    else if not (starts_with path (initrd_root ++ slash ∷ []))
    then err InitrdError.unsupported_path
    else ok (trim_end path)
