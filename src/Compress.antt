-- ===== src/Compress.antt =====
-- kernel/src/mm/compress: page compression. This file holds the classes, the errors and the profile
-- (mod.rs, profile_generated.rs); the children hold the checksum, the header, the codec, the
-- runtime and the store.
pub mod Checksum
pub mod Header
pub mod Sxrc
pub mod Codec
pub mod Runtime
pub mod Store
pub mod Examples
use hxnu.Base.{
  ℕ, ◌+◌, ◌*◌, List, [], ◌∷◌, Result, ok, err, ◌==◌, if◌then◌else◌, All, ◌<◌, ◌≤◌, ◌≡◌, length,
}

-- `HXNU_SXRC_PAGE_SIZE`
abbrev pub page_bytes : ℕ
page_bytes = 4096

-- `header::HEADER_BYTES`
abbrev pub header_bytes : ℕ
header_bytes = 16

abbrev pub max_encoded_page_bytes : ℕ
max_encoded_page_bytes = header_bytes + page_bytes

pub data CompressionClass : Type 0 where
  zero same sxrc raw : CompressionClass

pub data CompressionError : Type 0 where
  not_initialized output_too_small truncated_input invalid_header_magic : CompressionError
  unsupported_header_version invalid_payload_length invalid_decoded_length : CompressionError
  checksum_mismatch unsupported_class : CompressionError

abbrev pub class_id : CompressionClass → ℕ
class_id CompressionClass.zero = 0
class_id CompressionClass.same = 1
class_id CompressionClass.sxrc = 2
class_id CompressionClass.raw = 3

abbrev pub class_from_id : ℕ → Result CompressionClass CompressionError
class_from_id id =
    if id == 0
    then ok CompressionClass.zero
    else if id == 1
    then ok CompressionClass.same
    else if id == 2
    then ok CompressionClass.sxrc
    else if id == 3
    then ok CompressionClass.raw
    else err CompressionError.unsupported_class

-- The generated profile "minimal-v1": identifiers with words, and with byte strings.
abbrev pub static_dictionary : List (ℕ × ℕ)
static_dictionary =
    (1, 0) ∷ (2, 0x0000_ffff) ∷ (3, 0x0000_07fe) ∷ (4, 0x0000_04ee) ∷ (5, 0x0000_9090) ∷ []

abbrev pub static_patterns : List (ℕ × List ℕ)
static_patterns = (1, 0x48 ∷ 0x89 ∷ 0xd8 ∷ []) ∷ (2, 0x55 ∷ []) ∷ []

abbrev pub IsByte : ℕ → Type 0
IsByte b = b < 256

-- `[u8; PAGE_BYTES]`
pub record IsPage (page : List ℕ) : Type 0 where
  pub sized : length page ≡ page_bytes
  pub bytes : All IsByte page
