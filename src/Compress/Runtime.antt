-- ===== src/Compress/Runtime.antt =====
-- The backend and the runtime of kernel/src/mm/compress/mod.rs: the codec with its counters, behind
-- an initialisation flag. The global runtime is a value that each operation takes and returns.
pub mod Counters
use hxnu.Base.{
  ℕ, ◌+◌, Bool, true, false, not, List, Result, ok, err, sat_add, if◌then◌else◌, length,
}
use hxnu.Compress.{
  CompressionClass, CompressionError, header_bytes, page_bytes, max_encoded_page_bytes,
  static_dictionary, static_patterns,
}
use hxnu.Compress.Codec
use hxnu.Compress.Codec.{EncodedPage}

pub record CompressionStats : Type 0 where
  pub encoded_pages : ℕ
  pub decoded_pages : ℕ
  pub zero_pages : ℕ
  pub same_pages : ℕ
  pub sxrc_pages : ℕ
  pub raw_pages : ℕ
  pub fallback_raw_pages : ℕ
  pub encode_failures : ℕ
  pub decode_failures : ℕ

abbrev pub no_stats : CompressionStats
no_stats = record {
  encoded_pages = 0;
  decoded_pages = 0;
  zero_pages = 0;
  same_pages = 0;
  sxrc_pages = 0;
  raw_pages = 0;
  fallback_raw_pages = 0;
  encode_failures = 0;
  decode_failures = 0;
}

pub data CompressionInitError : Type 0 where
  already_initialized : CompressionInitError

-- `account_encoded_class`
abbrev pub account_encoded_class : CompressionStats → CompressionClass → CompressionStats
account_encoded_class t CompressionClass.zero = record t { zero_pages = sat_add t.zero_pages 1 }
account_encoded_class t CompressionClass.same = record t { same_pages = sat_add t.same_pages 1 }
account_encoded_class t CompressionClass.sxrc = record t { sxrc_pages = sat_add t.sxrc_pages 1 }
account_encoded_class t CompressionClass.raw = record t {
  raw_pages = sat_add t.raw_pages 1;
  fallback_raw_pages = sat_add t.fallback_raw_pages 1;
}

-- The counters after an encoding, by its outcome.
abbrev pub account_encoded :
    CompressionStats → Result EncodedPage CompressionError → CompressionStats
account_encoded t (ok e) = account_encoded_class t e.class
account_encoded t (err x) = record t { encode_failures = sat_add t.encode_failures 1 }

-- `NullBackend::encode_page` on the backend's counters.
pub backend_encode :
    CompressionStats
    → List ℕ
    → List ℕ
    → CompressionStats × List ℕ × Result EncodedPage CompressionError
backend_encode t page scratch =
    let (scratch', r) = Codec.encode_page page scratch in
    (account_encoded (record t { encoded_pages = sat_add t.encoded_pages 1 }) r, scratch', r)

abbrev pub account_decoded :
    CompressionStats
    → List ℕ × Result CompressionClass CompressionError
    → CompressionStats × List ℕ × Result (Unit {0}) CompressionError
account_decoded t (out, ok _) = (record t { decoded_pages = sat_add t.decoded_pages 1 }, out, ok tt)
account_decoded t (out, err e) =
    (record t { decode_failures = sat_add t.decode_failures 1 }, out, err e)

-- `NullBackend::decode_page`; the class of the encoded page is not looked at.
pub backend_decode :
    CompressionStats
    → EncodedPage
    → List ℕ
    → CompressionStats × List ℕ × Result (Unit {0}) CompressionError
backend_decode t encoded out = account_decoded t (Codec.decode_page encoded.bytes out)

pub record CompressionRuntime : Type 0 where
  pub initialized : Bool
  pub stats : CompressionStats

abbrev pub new : CompressionRuntime
new = record { initialized = false; stats = no_stats }

pub record CompressionRuntimeSummary : Type 0 where
  pub profile_version : ℕ
  pub page_bytes : ℕ
  pub compression_unit_bytes : ℕ
  pub little_endian : Bool
  pub dynamic_patterns : Bool
  pub static_dictionary_entries : ℕ
  pub static_pattern_entries : ℕ
  pub encoded_header_bytes : ℕ
  pub max_encoded_page_bytes : ℕ

-- The names of the backend and the profile are left out.
abbrev pub summary : CompressionRuntimeSummary
summary = record {
  profile_version = 1;
  page_bytes = page_bytes;
  compression_unit_bytes = 2;
  little_endian = true;
  dynamic_patterns = false;
  static_dictionary_entries = length static_dictionary;
  static_pattern_entries = length static_patterns;
  encoded_header_bytes = header_bytes;
  max_encoded_page_bytes = max_encoded_page_bytes;
}

pub initialize :
    CompressionRuntime → CompressionRuntime × Result CompressionRuntimeSummary CompressionInitError
initialize c =
    if c.initialized
    then (c, err CompressionInitError.already_initialized)
    else (record c { initialized = true }, ok summary)

pub encode_page :
    CompressionRuntime
    → List ℕ
    → List ℕ
    → CompressionRuntime × List ℕ × Result EncodedPage CompressionError
encode_page c page scratch =
    let (t, scratch', r) = backend_encode c.stats page scratch in
    if not c.initialized
    then (c, scratch, err CompressionError.not_initialized)
    else (record c { stats = t }, scratch', r)

pub decode_page :
    CompressionRuntime
    → EncodedPage
    → List ℕ
    → CompressionRuntime × List ℕ × Result (Unit {0}) CompressionError
decode_page c encoded out =
    let (t, out', r) = backend_decode c.stats encoded out in
    if not c.initialized
    then (c, out, err CompressionError.not_initialized)
    else (record c { stats = t }, out', r)
