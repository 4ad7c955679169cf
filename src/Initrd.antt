-- ===== src/Initrd.antt =====
-- kernel/src/initrd.rs: the archive of the initial ramdisk and the files in it. Texts are lists of
-- bytes; the state is `none` before initialisation.
pub mod Names
pub mod Files
pub mod Loop
pub mod Examples
use hxnu.Base.{
  ℕ, zero, suc, ◌+◌, ◌-◌, ◌*◌, ◌^◌, bit_and, Bool, true, false, not, ◌&&◌, ◌||◌, Option, none, some,
  List, [], ◌∷◌, ◌++◌, Result, ok, err, ◌>>=◌, ltb, leb, ◌==◌, if◌then◌else◌, length, take, drop,
  slice, get_or, text_eq,
}
use hxnu.Initrd.Names.{InitrdError, initrd_root, from_utf8, normalize_archive_path, slash}

-- "070701", "070702" and "TRAILER!!!"
abbrev pub newc_magic : List ℕ
newc_magic = 48 ∷ 55 ∷ 48 ∷ 55 ∷ 48 ∷ 49 ∷ []

abbrev pub crc_magic : List ℕ
crc_magic = 48 ∷ 55 ∷ 48 ∷ 55 ∷ 48 ∷ 50 ∷ []

abbrev pub trailer : List ℕ
trailer = 84 ∷ 82 ∷ 65 ∷ 73 ∷ 76 ∷ 69 ∷ 82 ∷ 33 ∷ 33 ∷ 33 ∷ []

abbrev pub cpio_header_len : ℕ
cpio_header_len = 110

-- Octal 170000, 040000 and 040755
abbrev file_type_mask : ℕ
file_type_mask = 61440

abbrev file_type_directory : ℕ
file_type_directory = 16384

abbrev pub default_directory_mode : ℕ
default_directory_mode = 16877

pub data InitrdEntryKind : Type 0 where
  directory file : InitrdEntryKind

pub record InitrdEntry : Type 0 where
  pub path : List ℕ
  pub kind : InitrdEntryKind
  pub mode : ℕ
  pub bytes : List ℕ

abbrev pub is_directory : InitrdEntryKind → Bool
is_directory InitrdEntryKind.directory = true
is_directory InitrdEntryKind.file = false

abbrev pub push_directory : List ℕ → ℕ → List InitrdEntry → List InitrdEntry
push_directory path mode [] =
    record { path = path; kind = InitrdEntryKind.directory; mode = mode; bytes = [] } ∷ []
push_directory path mode (e ∷ es) =
    let rest = push_directory path mode es in
    if is_directory e.kind && text_eq e.path path then record e { mode = mode } ∷ es else e ∷ rest

-- The search for separators from position `i` on, where the rest of the path begins.
abbrev ensure_from : List ℕ → ℕ → List ℕ → List InitrdEntry → List InitrdEntry
ensure_from path i [] entries = entries
ensure_from path i (c ∷ cs) entries =
    ensure_from path (i + 1) cs
      (if c == slash then push_directory (take i path) default_directory_mode entries else entries)

abbrev pub ensure_parent_directories : List ℕ → List InitrdEntry → List InitrdEntry
ensure_parent_directories path entries =
    let end = length initrd_root in
    if leb (length path) end
    then entries
    else ensure_from path (end + 1) (drop (end + 1) path) entries

abbrev hex_digit : ℕ → Option ℕ
hex_digit byte =
    if leb 48 byte && leb byte 57
    then some (byte - 48)
    else if leb 97 byte && leb byte 102
    then some (byte - 97 + 10)
    else if leb 65 byte && leb byte 70
    then some (byte - 65 + 10)
    else none

-- The loop of `parse_hex_u32` from a value on.
abbrev parse_hex_from : ℕ → List ℕ → Result ℕ InitrdError
parse_hex_from value [] = ok value
parse_hex_from value (byte ∷ bytes) =
    if leb (2 ^ 32) (value * 16) then err InitrdError.invalid_archive else elim (hex_digit byte) [
      | none ↦ err InitrdError.invalid_archive
      | some digit ↦ parse_hex_from (value * 16 + digit) bytes
    ]

unfoldable pub parse_hex_u32 : List ℕ → Result ℕ InitrdError
parse_hex_u32 bytes = parse_hex_from 0 bytes

unfoldable pub align4 : ℕ → ℕ
align4 value = bit_and (value + 3) (2 ^ 64 - 4)

-- The name of an entry without its last byte, which is zero, and the position behind it.
unfoldable pub parse_name : List ℕ → ℕ → ℕ → Result (ℕ × List ℕ) InitrdError
parse_name archive cursor name_size =
    if name_size == 0 || ltb (length archive) (cursor + name_size)
    then err InitrdError.invalid_archive
    else let next = align4 (cursor + name_size) in
      if ltb (length archive) next || not (get_or archive (cursor + name_size - 1) 0 == 0)
      then err InitrdError.invalid_archive
      else let raw_name = slice archive cursor (name_size - 1) in
        if from_utf8 raw_name then ok (next, raw_name) else err InitrdError.invalid_entry_name

-- The content of an entry, and the position behind it.
unfoldable pub parse_data : List ℕ → ℕ → ℕ → Result (ℕ × List ℕ) InitrdError
parse_data archive cursor file_size =
    if ltb (length archive) (cursor + file_size)
    then err InitrdError.invalid_archive
    else let next = align4 (cursor + file_size) in
      if ltb (length archive) next
      then err InitrdError.invalid_archive
      else ok (next, slice archive cursor file_size)

abbrev push_entry : List ℕ → ℕ → List ℕ → List InitrdEntry → List InitrdEntry
push_entry path mode content entries =
    if bit_and mode file_type_mask == file_type_directory
    then push_directory path mode entries
    else entries
      ++ record { path = path; kind = InitrdEntryKind.file; mode = mode; bytes = content } ∷ []

-- The entry behind its name.
abbrev pub parse_file :
    List ℕ
    → ℕ
    → ℕ
    → List InitrdEntry
    → ℕ × List ℕ
    → Result (Option (ℕ × List InitrdEntry)) InitrdError
parse_file archive mode file_size entries (cursor, raw_name) =
    normalize_archive_path raw_name >>= λ normalized.
    parse_data archive cursor file_size >>= λ read. ok (
      some
        (read.0, push_entry normalized mode read.1 (ensure_parent_directories normalized entries)))

-- A trailer ends the loop.
abbrev pub parse_named :
    List ℕ
    → ℕ
    → ℕ
    → List InitrdEntry
    → ℕ × List ℕ
    → Result (Option (ℕ × List InitrdEntry)) InitrdError
parse_named archive mode file_size entries named =
    if text_eq named.1 trailer then ok none else parse_file archive mode file_size entries named

-- The fields of a header whose magic is right, and what they describe.
abbrev pub parse_fields :
    List ℕ → List ℕ → ℕ → List InitrdEntry → Result (Option (ℕ × List InitrdEntry)) InitrdError
parse_fields header archive cursor entries = parse_hex_u32 (slice header 14 8) >>= λ mode.
    parse_hex_u32 (slice header 54 8) >>= λ file_size.
    parse_hex_u32 (slice header 94 8) >>= λ name_size.
    parse_name archive cursor name_size >>= λ named.
    parse_named archive mode file_size entries named

-- One round of the loop.
unfoldable pub parse_entry :
    List ℕ → ℕ → List InitrdEntry → Result (Option (ℕ × List InitrdEntry)) InitrdError
parse_entry archive cursor entries =
    let header = slice archive cursor cpio_header_len in
    let magic = take 6 header in
    if not (text_eq magic newc_magic || text_eq magic crc_magic)
    then err InitrdError.invalid_archive
    else parse_fields header archive (cursor + cpio_header_len) entries

unfoldable pub parse_loop :
    ℕ → List ℕ → ℕ → List InitrdEntry → Option (Result (List InitrdEntry) InitrdError)
parse_loop zero archive cursor entries = none
parse_loop (suc fuel) archive cursor entries =
    if ltb (length archive) (cursor + cpio_header_len)
    then some (err InitrdError.invalid_archive)
    else elim (parse_entry archive cursor entries) [
      | err e ↦ some (err e)
      | ok none ↦ some (ok entries)
      | ok (some (next, more)) ↦ parse_loop fuel archive next more
    ]

-- A round for each byte is enough, and one to end.
abbrev pub parse_newc_archive : List ℕ → Option (Result (List InitrdEntry) InitrdError)
parse_newc_archive archive =
    parse_loop (length archive + 1) archive 0 (push_directory initrd_root default_directory_mode [])
