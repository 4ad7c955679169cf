-- ===== src/Compress/Checksum.antt =====
-- kernel/src/mm/compress/checksum.rs: the 32-bit FNV-1a hash.
use hxnu.Base.{ℕ, ◌*◌, ◌%◌, ◌^◌, ◌<◌, ◌≡◌, refl, List, [], ◌∷◌, bit_xor, arith}

unfoldable pub fnv1a32_from : ℕ → List ℕ → ℕ
fnv1a32_from hash [] = hash
fnv1a32_from hash (byte ∷ bytes) = fnv1a32_from (bit_xor hash byte * 0x0100_0193 % 2 ^ 32) bytes

unfoldable pub fnv1a32 : List ℕ → ℕ
fnv1a32 bytes = fnv1a32_from 0x811c_9dc5 bytes

fnv1a32_from-lt : (hash : ℕ) (bytes : List ℕ) → hash < 2 ^ 32 → fnv1a32_from hash bytes < 2 ^ 32
unfolding fnv1a32_from
fnv1a32_from-lt hash [] h = h
fnv1a32_from-lt hash (byte ∷ bytes) h =
    fnv1a32_from-lt (bit_xor hash byte * 0x0100_0193 % 2 ^ 32) bytes (omega arith)

pub fnv1a32-lt : (bytes : List ℕ) → fnv1a32 bytes < 2 ^ 32
unfolding fnv1a32
fnv1a32-lt bytes = fnv1a32_from-lt 0x811c_9dc5 bytes (omega arith)

-- The published test vector of the hash for the text "a".
fnv1a32_a : fnv1a32 (0x61 ∷ []) ≡ 0xe40c_292c
unfolding fnv1a32 fnv1a32_from
fnv1a32_a = refl
