-- ===== src/Compress/Examples.antt =====
-- The theorems on kernel/src/mm/compress at concrete inputs.
use hxnu.Base.{
  slice, ℕ, ◌+◌, ◌≤◌, ◌<◌, ◌≡◌, ◌⊎◌, ◌↔◌, refl, true, none, some, List, [], ◌∷◌, ◌++◌, arith,
  length, length-replicate, replicate, All-replicate, ok, get_or,
}
use hxnu.Compress.{
  header_bytes, CompressionClass, IsByte, IsPage, page_bytes, max_encoded_page_bytes,
}
use hxnu.Compress.Header.{EncodedHeader, header, decode}
use hxnu.Compress.Header.RoundTrip.{decode-header}
use hxnu.Compress.Sxrc.Buffer.{dict_decode_bytes}
use hxnu.Compress.Sxrc.Tables.{
  dictionary, pick_token, word_at, lookup_dictionary_by_value, dictionary_choice, better_pattern,
  best_pattern_at, best_pattern, id_of_word, same_bytes,
}
use hxnu.Compress.Sxrc.Tokens.{Spells}
use hxnu.Compress.Sxrc.Decoder.{decode_sxrc_payload}
use hxnu.Compress.Sxrc.Decode.{decode_sxrc_payload_iff}
use hxnu.Compress.Sxrc.Choice.{pick_token-some}
use hxnu.Compress.Codec
use hxnu.Compress.Codec.{EncodedPage}
use hxnu.Compress.Codec.Encode.{Coded, Encodes}
use hxnu.Compress.Codec.Success.{encode_page-Encodes}
use hxnu.Compress.Checksum.{fnv1a32, fnv1a32_from}
use hxnu.Compress.Codec.Decode.{decode_page-Encodes}
use hxnu.Compress.Codec.Accepts.{decode_page_accepts}
use hxnu.Compress.Codec.RoundTrip.{decode_page-encode_page}
use hxnu.Compress.Runtime
use hxnu.Compress.Runtime.{CompressionRuntime, no_stats}
use hxnu.Compress.Store.{StoreState, StoreEntry, empty, find_empty_slot, store_page}
use hxnu.Compress.Store.Load.{load_page}
use hxnu.Compress.Store.Slots.{lookup, matches}
use hxnu.Compress.Store.Valid.{IsValid}
use hxnu.Compress.Store.Put.{Holds}
use hxnu.Compress.Store.Kept.{store_page-Holds, store_page_others}
use hxnu.Compress.Store.Load.{Loaded, load_page-Holds, load_page-store_page}
use hxnu.Compress.Store.History.{
  Call, put, get, run, fresh, fresh-IsValid, Answers, log_after, load_page-run,
}

-- A page of one byte throughout, and a buffer.
abbrev sevens : List ℕ
sevens = replicate page_bytes 7

abbrev nines : List ℕ
nines = replicate page_bytes 9

abbrev zeros : List ℕ
zeros = replicate page_bytes 0

abbrev scratch : List ℕ
scratch = replicate max_encoded_page_bytes 0

filled-IsPage : (b : ℕ) → b < 256 → IsPage (replicate page_bytes b)
filled-IsPage b h = record {
  sized = length-replicate page_bytes b;
  bytes = All-replicate IsByte page_bytes b h;
}

page_sized : (b : ℕ) → length (replicate page_bytes b) ≡ page_bytes
page_sized b = length-replicate page_bytes b

scratch_sized : length scratch ≡ max_encoded_page_bytes
scratch_sized = length-replicate {A = ℕ} max_encoded_page_bytes 0

abbrev sample : EncodedHeader
sample = record { class = CompressionClass.sxrc; payload_len = 300; checksum = 0xdead_beef }

decode-header_example : decode (header sample ++ 1 ∷ 2 ∷ []) ≡ ok sample
decode-header_example = decode-header sample (1 ∷ 2 ∷ []) (omega arith) (omega arith)

-- A literal of one byte does not make a page.
decode_sxrc_payload_iff_example :
    (decode_sxrc_payload (0 ∷ 1 ∷ 7 ∷ []) zeros ≡ (sevens, ok tt)) ↔ Spells (0 ∷ 1 ∷ 7 ∷ []) sevens
decode_sxrc_payload_iff_example =
    decode_sxrc_payload_iff (0 ∷ 1 ∷ 7 ∷ []) (omega arith) (omega arith) zeros sevens (page_sized 0)
      (page_sized 7)

picked : pick_token (255 ∷ 255 ∷ 0 ∷ 0 ∷ []) 0 ≡ some (dictionary 2 4)
unfolding pick_token dictionary_choice better_pattern best_pattern_at best_pattern
    lookup_dictionary_by_value id_of_word same_bytes
picked = refl

pick_token-some_example :
    (id : ℕ) × (dictionary 2 4 ≡ dictionary id dict_decode_bytes)
    × (0 + dict_decode_bytes ≤ page_bytes)
    × (lookup_dictionary_by_value (word_at (255 ∷ 255 ∷ 0 ∷ 0 ∷ []) 0) ≡ some id)
pick_token-some_example = pick_token-some (255 ∷ 255 ∷ 0 ∷ 0 ∷ []) 0 (dictionary 2 4) picked

encode_page-Encodes_example :
    (e : EncodedPage) × ((Codec.encode_page sevens scratch).1 ≡ ok e) × Encodes e sevens
encode_page-Encodes_example =
    encode_page-Encodes sevens scratch (filled-IsPage 7 (omega arith))
      (omega (arith, scratch_sized))

decode_page-encode_page_example :
    (e : EncodedPage) × ((Codec.encode_page sevens scratch).1 ≡ ok e)
    × (length e.bytes ≤ max_encoded_page_bytes)
    × (Codec.decode_page e.bytes zeros ≡ (sevens, ok e.class))
decode_page-encode_page_example =
    decode_page-encode_page sevens scratch zeros (filled-IsPage 7 (omega arith))
      (omega (arith, scratch_sized)) (page_sized 0)

abbrev ready : CompressionRuntime
ready = record { initialized = true; stats = no_stats }

-- The encoding of a page of zeros.
abbrev zeros_encoded : List ℕ
zeros_encoded =
    0x48 ∷ 0x58 ∷ 0x43 ∷ 0x50 ∷ 1 ∷ 0 ∷ 0 ∷ 0 ∷ 0 ∷ 16 ∷ 0 ∷ 0 ∷ 0xc5 ∷ 0x9d ∷ 0x1c ∷ 0x81 ∷ []

zeros_encoded-Encodes :
    Encodes (record { class = CompressionClass.zero; bytes = zeros_encoded }) zeros
unfolding fnv1a32 fnv1a32_from
zeros_encoded-Encodes = record {
  payload = [];
  bytes = refl;
  short = omega arith;
  coded = (refl, refl);
}

zeros_decoded : Codec.decode_page zeros_encoded sevens ≡ (zeros, ok CompressionClass.zero)
zeros_decoded =
    decode_page-Encodes (record { class = CompressionClass.zero; bytes = zeros_encoded }) zeros
      sevens zeros_encoded-Encodes (page_sized 0) (page_sized 7)

decode_page_accepts_example :
    (h : EncodedHeader) × (decode zeros_encoded ≡ ok h)
    × (h.class ≡ CompressionClass.zero)
    × (length zeros_encoded ≡ header_bytes + h.payload_len)
    × (fnv1a32 (slice zeros_encoded header_bytes h.payload_len) ≡ h.checksum)
    × Coded CompressionClass.zero (slice zeros_encoded header_bytes h.payload_len) zeros
decode_page_accepts_example =
    decode_page_accepts zeros_encoded zeros sevens CompressionClass.zero (omega arith) (omega arith)
      (page_sized 7) (page_sized 0) zeros_decoded

abbrev shelf : StoreState
shelf = fresh ready

shelf-IsValid : IsValid shelf
shelf-IsValid = fresh-IsValid ready refl

abbrev stocked : StoreState
stocked = (store_page ready shelf 5 sevens).1

abbrev stocked_runtime : CompressionRuntime
stocked_runtime = (store_page ready shelf 5 sevens).0

store_page-Holds_example :
    (entry : StoreEntry) × ((store_page ready shelf 5 sevens).2 ≡ ok entry)
    × (entry.page_id ≡ 5)
    × (stocked_runtime.initialized ≡ true)
    × IsValid stocked
    × Holds stocked 5 sevens
store_page-Holds_example =
    store_page-Holds ready shelf 5 sevens refl shelf-IsValid (filled-IsPage 7 (omega arith))

stocked_lem : (stocked_runtime.initialized ≡ true) × IsValid stocked × Holds stocked 5 sevens
stocked_lem =
    let (_, _, _, on, valid, holds) =
      store_page-Holds ready shelf 5 sevens refl shelf-IsValid (filled-IsPage 7 (omega arith)) in
    (on, valid, holds)

store_page_others_example :
    (lookup (store_page stocked_runtime stocked 6 nines).1.slots 5 ≡ lookup stocked.slots 5)
    ⊎ ((lookup (store_page stocked_runtime stocked 6 nines).1.slots 5 ≡ none)
        × (matches (get_or stocked.slots stocked.next_evict empty) 5 ≡ true)
        × (lookup stocked.slots 6 ≡ none)
        × (find_empty_slot stocked.slots ≡ none))
store_page_others_example =
    store_page_others stocked_runtime stocked 6 nines 5 stocked_lem.0 stocked_lem.1
      (filled-IsPage 9 (omega arith)) (omega arith)

load_page-Holds_example : Loaded stocked 5 sevens (load_page stocked_runtime stocked 5 zeros)
load_page-Holds_example =
    load_page-Holds stocked_runtime stocked 5 sevens zeros stocked_lem.0 stocked_lem.1 stocked_lem.2
      (page_sized 0)

load_page-store_page_example : Loaded stocked 5 sevens (load_page stocked_runtime stocked 5 nines)
load_page-store_page_example =
    load_page-store_page ready shelf 5 sevens nines refl shelf-IsValid
      (filled-IsPage 7 (omega arith)) (page_sized 9)

-- A page stored, another one stored over it, and a load between.
abbrev calls : List Call
calls = put 5 sevens ∷ get 5 zeros ∷ put 5 nines ∷ []

load_page-run_example :
    Answers
      (log_after calls [])
      5
      zeros
      (run calls (ready, shelf)).1
      (load_page (run calls (ready, shelf)).0 (run calls (ready, shelf)).1 5 zeros)
load_page-run_example =
    load_page-run ready calls 5 zeros refl
      (filled-IsPage 7 (omega arith), (page_sized 0, (filled-IsPage 9 (omega arith), tt)))
      (page_sized 0)
