-- ===== src/Initrd/Examples.antt =====
-- Runs of kernel/src/initrd.rs, and its theorem at a concrete input.
use hxnu.Base.{ℕ, ◌≡◌, refl, some, List, [], ◌∷◌, ◌++◌, arith, Result, ok, replicate}
use hxnu.Initrd.Names.{InitrdError, initrd_root, from_utf8, normalize_archive_path}
use hxnu.Initrd.{
  InitrdEntry, InitrdEntryKind, newc_magic, trailer, align4, parse_hex_u32, parse_name, parse_data,
  parse_entry, parse_loop, parse_newc_archive, default_directory_mode,
}
use hxnu.Initrd.Loop.{parse_newc_archive_returns}

-- A header with the last byte of the mode, of the file's size and of the name's size.
abbrev field : ℕ → List ℕ
field digit = replicate 7 48 ++ digit ∷ []

abbrev header : ℕ → ℕ → ℕ → List ℕ
header mode file_size name_size =
    newc_magic
    ++ field 48
    ++ field mode
    ++ replicate 32 48
    ++ field file_size
    ++ replicate 32 48
    ++ field name_size
    ++ field 48

-- A file "a" that holds "x", and the trailer.
abbrev archive : List ℕ
archive =
    header 52 49 50
    ++ 97 ∷ 0 ∷ []
    ++ 120 ∷ 0 ∷ 0 ∷ 0 ∷ []
    ++ header 48 48 66
    ++ trailer
    ++ 0 ∷ 0 ∷ 0 ∷ 0 ∷ []

archive_parsed :
    parse_newc_archive archive
    ≡ some (
        ok (
          record {
            path = initrd_root;
            kind = InitrdEntryKind.directory;
            mode = default_directory_mode;
            bytes = [];
          }
          ∷ record {
            path = initrd_root ++ 47 ∷ 97 ∷ [];
            kind = InitrdEntryKind.file;
            mode = 4;
            bytes = 120 ∷ [];
          }
          ∷ []))
unfolding parse_loop parse_entry parse_hex_u32 parse_name parse_data align4 from_utf8
    normalize_archive_path
archive_parsed = refl

parse_newc_archive_returns_example :
    (r : Result (List InitrdEntry) InitrdError) × (parse_newc_archive archive ≡ some r)
parse_newc_archive_returns_example = parse_newc_archive_returns archive (omega arith)
