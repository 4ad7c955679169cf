-- ===== src/Initrd/Loop.antt =====
-- The loop of `parse_newc_archive` of kernel/src/initrd.rs.
use hxnu.Base.{
  ℕ, zero, suc, ◌+◌, ◌-◌, ◌^◌, ◌≤◌, ◌<◌, ◌≡◌, refl, ap, ◌∙◌, not, ◌||◌, inl, inr, some, List, arith,
  Result, ok, err, ◌>>=◌, Result-cases, Option-cases, Bool-cases, ltb, ltb_false→le, ◌==◌, length,
  get_or, slice, text_eq, take,
}
use hxnu.Base.Bits.{bit_and_high_mask}
use hxnu.Initrd.Names.{InitrdError, from_utf8, normalize_archive_path}
use hxnu.Initrd.{
  InitrdEntry, cpio_header_len, newc_magic, crc_magic, trailer, align4, parse_name, parse_data,
  parse_named, parse_file, parse_fields, parse_entry, parse_loop, parse_newc_archive, parse_hex_u32,
}

bind_ok :
    {A B : Type 0} (r : Result A InitrdError) (f : A → Result B InitrdError) (b : B)
    → (r >>= f) ≡ ok b
    → (a : A) × (r ≡ ok a) × (f a ≡ ok b)
bind_ok (ok a) f b e = (a, refl, e)
bind_ok (err x) f b e = absurd (ground arith)

align4_up : (v : ℕ) → v + 3 < 2 ^ 64 → v ≤ align4 v
unfolding align4
align4_up v small =
    let masked = bit_and_high_mask 2 64 (v + 3) (omega arith) small in omega (arith, masked)

-- What is read lies in the archive, behind the cursor.
parse_data_forward :
    (archive : List ℕ) (cursor file_size : ℕ) (out : ℕ × List ℕ)
    → length archive + 3 < 2 ^ 64
    → parse_data archive cursor file_size ≡ ok out
    → (cursor ≤ out.0) × (out.0 ≤ length archive)
unfolding parse_data
parse_data_forward archive cursor file_size out small e =
    elim (Bool-cases (ltb (length archive) (cursor + file_size))) [
      | inl beyond ↦ absurd (ground (arith, beyond, e))
      | inr inside ↦
          let fits = ltb_false→le (length archive) (cursor + file_size) inside in
          elim (Bool-cases (ltb (length archive) (align4 (cursor + file_size)))) [
            | inl far ↦ absurd (ground (arith, inside, far, e))
            | inr near ↦
                let up = align4_up (cursor + file_size) (omega arith) in
                let close = ltb_false→le (length archive) (align4 (cursor + file_size)) near in
                let at : align4 (cursor + file_size) ≡ out.0 = ground (arith, inside, near, e) in
                (omega (arith, up, at), omega (arith, close, at))
          ]
    ]

parse_name_forward :
    (archive : List ℕ) (cursor name_size : ℕ) (out : ℕ × List ℕ)
    → length archive + 3 < 2 ^ 64
    → parse_name archive cursor name_size ≡ ok out
    → (cursor ≤ out.0) × (out.0 ≤ length archive)
unfolding parse_name
parse_name_forward archive cursor name_size out small e =
    let next = align4 (cursor + name_size) in
    let raw_name = slice archive cursor (name_size - 1) in
    elim (Bool-cases (name_size == 0 || ltb (length archive) (cursor + name_size))) [
      | inl beyond ↦ absurd (ground (arith, beyond, e))
      | inr inside ↦
          elim (Bool-cases
            (ltb (length archive) next || not (get_or archive (cursor + name_size - 1) 0 == 0))) [
              | inl bad ↦ absurd (ground (arith, inside, bad, e))
              | inr good ↦ elim (Bool-cases (from_utf8 raw_name)) [
                | inr odd ↦ absurd (ground (arith, inside, good, odd, e))
                | inl text ↦
                    let fits =
                      ltb_false→le (length archive) (cursor + name_size) (ground (arith, inside)) in
                    let close = ltb_false→le (length archive) next (ground (arith, good)) in
                    let up = align4_up (cursor + name_size) (omega arith) in
                    let at : next ≡ out.0 = ground (arith, inside, good, text, e) in
                    (omega (arith, up, at), omega (arith, close, at))
              ]
            ]
    ]

parse_named_forward :
    (archive : List ℕ) (mode file_size : ℕ) (entries : List InitrdEntry) (named : ℕ × List ℕ)
    (out : ℕ × List InitrdEntry)
    → length archive + 3 < 2 ^ 64
    → parse_named archive mode file_size entries named ≡ ok (some out)
    → (named.0 ≤ out.0) × (out.0 ≤ length archive)
parse_named_forward archive mode file_size entries (cursor, raw_name) out small e =
    elim (Bool-cases (text_eq raw_name trailer)) [
      | inl ends ↦ absurd (ground (arith, ends, e))
      | inr goes ↦
          let e0 : parse_file archive mode file_size entries (cursor, raw_name) ≡ ok (some out) =
            ground (arith, goes, e) in
          let (path, _, e1) = bind_ok (normalize_archive_path raw_name) _ (some out) e0 in
          let (read, e2, e3) = bind_ok (parse_data archive cursor file_size) _ (some out) e1 in
          let (low, high) = parse_data_forward archive cursor file_size read small e2 in
          let at : read.0 ≡ out.0 = ground (arith, e3) in
          (omega (arith, low, at), omega (arith, high, at))
    ]

parse_entry_forward :
    (archive : List ℕ) (cursor : ℕ) (entries : List InitrdEntry) (out : ℕ × List InitrdEntry)
    → length archive + 3 < 2 ^ 64
    → parse_entry archive cursor entries ≡ ok (some out)
    → (cursor + cpio_header_len ≤ out.0) × (out.0 ≤ length archive)
unfolding parse_entry
parse_entry_forward archive cursor entries out small e =
    let header = slice archive cursor cpio_header_len in
    let other = not (text_eq (take 6 header) newc_magic || text_eq (take 6 header) crc_magic) in
    elim (Bool-cases other) [
      | inl foreign ↦ absurd (ground (arith, foreign, e))
      | inr known ↦
          let e0 : parse_fields header archive (cursor + cpio_header_len) entries ≡ ok (some out) =
            ground (arith, known, e) in
          let (mode, _, e1) = bind_ok (parse_hex_u32 (slice header 14 8)) _ (some out) e0 in
          let (file_size, _, e2) = bind_ok (parse_hex_u32 (slice header 54 8)) _ (some out) e1 in
          let (name_size, _, e3) = bind_ok (parse_hex_u32 (slice header 94 8)) _ (some out) e2 in
          let (named, e4, e5) =
            bind_ok (parse_name archive (cursor + cpio_header_len) name_size) _ (some out) e3 in
          let (low, _) =
            parse_name_forward archive (cursor + cpio_header_len) name_size named small e4 in
          let (next, high) =
            parse_named_forward archive mode file_size entries named out small e5 in
          (omega (arith, low, next), high)
    ]

-- With a round for each byte behind the cursor, and one to end, the loop returns.
parse_loop_returns :
    (fuel : ℕ) (archive : List ℕ) (cursor : ℕ) (entries : List InitrdEntry)
    → length archive + 3 < 2 ^ 64
    → cursor ≤ length archive
    → length archive < cursor + fuel
    → (r : Result (List InitrdEntry) InitrdError) × (parse_loop fuel archive cursor entries
        ≡ some r)
unfolding parse_loop
parse_loop_returns zero archive cursor entries small inside enough = absurd (omega arith)
parse_loop_returns (suc fuel) archive cursor entries small inside enough =
    elim (Bool-cases (ltb (length archive) (cursor + cpio_header_len))) [
      | inl ends ↦ rw (parse_loop, ends) (_, refl)
      | inr more ↦ elim (Result-cases (parse_entry archive cursor entries)) [
        | inr (e, bad) ↦ rw (parse_loop, more, bad) (_, refl)
        | inl (step, read) ↦ elim (Option-cases step) [
          | inl last ↦ rw (parse_loop, more, read, last) (_, refl)
          | inr (out, next) ↦
              let (low, high) =
                parse_entry_forward archive cursor entries out small (read ∙ ap ok next) in
              rw (parse_loop, more, read, next)
                (parse_loop_returns fuel archive out.0 out.1 small high (omega (arith, low)))
        ]
      ]
    ]

-- On every archive that is at least four bytes shorter than the address space the parser returns:
-- entries, or an error.
pub parse_newc_archive_returns :
    (archive : List ℕ)
    → length archive + 3 < 2 ^ 64
    → (r : Result (List InitrdEntry) InitrdError) × (parse_newc_archive archive ≡ some r)
parse_newc_archive_returns archive small =
    parse_loop_returns (length archive + 1) archive 0 _ small (omega arith) (omega arith)
