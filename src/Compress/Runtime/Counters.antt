-- ===== src/Compress/Runtime/Counters.antt =====
-- The runtime of kernel/src/mm/compress/mod.rs: what it adds to the codec.
use hxnu.Base.{ℕ, ◌+◌, ◌≤◌, ◌≡◌, List, true, arith, length, ok}
use hxnu.Compress.{IsPage, page_bytes, max_encoded_page_bytes}
use hxnu.Compress.Codec.{EncodedPage}
use hxnu.Compress.Codec.Encode.{Encodes}
use hxnu.Compress.Codec.Success.{encode_page-Encodes}
use hxnu.Compress.Codec.Decode.{decode_page-Encodes}
use hxnu.Compress.Runtime.{
  CompressionRuntime, CompressionStats, backend_encode, backend_decode, encode_page, decode_page,
}

-- Every request to encode is counted once by its outcome: a class or a failure.
abbrev pub Balanced : CompressionStats → Type 0
Balanced t =
    t.encoded_pages ≡ t.zero_pages + t.same_pages + t.sxrc_pages + t.raw_pages + t.encode_failures

-- An initialised runtime encodes every page.
pub encode_page_ready :
    (c : CompressionRuntime) (page scratch : List ℕ)
    → c.initialized ≡ true
    → IsPage page
    → max_encoded_page_bytes ≤ length scratch
    → (e : EncodedPage) × ((encode_page c page scratch).2 ≡ ok e)
      × Encodes e page
      × ((encode_page c page scratch).0.initialized ≡ true)
unfolding encode_page backend_encode
encode_page_ready c page scratch on paged room =
    let (e, done, codes) = encode_page-Encodes page scratch paged room in
    (e, ground arith, codes, ground arith)

pub decode_page_ready :
    (c : CompressionRuntime) (e : EncodedPage) (page out : List ℕ)
    → c.initialized ≡ true
    → Encodes e page
    → length page ≡ page_bytes
    → length out ≡ page_bytes
    → ((decode_page c e out).1 ≡ page)
      × ((decode_page c e out).2 ≡ ok tt)
      × ((decode_page c e out).0.initialized ≡ true)
unfolding decode_page backend_decode
decode_page_ready c e page out on codes paged size =
    let done = decode_page-Encodes e page out codes paged size in ground arith
