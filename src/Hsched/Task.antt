-- ===== src/Hsched/Task.antt =====
-- The words of kernel/src/hsched.rs.
use hxnu.Base.{
  ℕ, ◌+◌, ◌*◌, ◌/◌, ◌%◌, ◌^◌, ◌<◌, ◌≡◌, refl, ap, ◌∙◌, some, arith, bit_and, ◌==◌, false,
}
use Prim.Native.Nat.{bit_or}
use hxnu.Base.Bits.{bit_and_high_mask}
use hxnu.Base.Fields.{bit_or_fields, bit_and_low_mask}
use hxnu.Hsched.{HardwareTask, encode, decode}

encode-sum :
    (t : HardwareTask)
    → t.id < 2 ^ 32
    → t.target < 2 ^ 8
    → encode t ≡ 2 ^ 63 + t.target * 2 ^ 32 + t.id
unfolding encode
encode-sum t small byte =
    let field : t.target * 2 ^ 32 % 2 ^ 64 ≡ t.target * 2 ^ 32 = omega arith in
    let high : bit_or (2 ^ 63) (t.target * 2 ^ 32) ≡ 2 ^ 63 + t.target * 2 ^ 32 =
      bit_or_fields 63 1 (t.target * 2 ^ 32) (omega arith) in
    let parts : 2 ^ 63 + t.target * 2 ^ 32 ≡ (2 ^ 31 + t.target) * 2 ^ 32 = omega arith in
    ap (λ b. bit_or (bit_or (2 ^ 63) b) t.id) field
    ∙ ap (λ a. bit_or a t.id) (high ∙ parts)
    ∙ bit_or_fields 32 (2 ^ 31 + t.target) t.id small
    ∙ omega arith

-- A task of 32 bits of identifier and 8 bits of target is read back from its word.
pub decode-encode :
    (t : HardwareTask) → t.id < 2 ^ 32 → t.target < 2 ^ 8 → decode (encode t) ≡ some t
unfolding decode
decode-encode t small byte =
    let v : ℕ = 2 ^ 63 + t.target * 2 ^ 32 + t.id in
    let flag : bit_and v (2 ^ 63) ≡ v / 2 ^ 63 * 2 ^ 63 =
      bit_and_high_mask 63 64 v (omega arith) (omega arith) in
    let low : bit_and v 0xffff_ffff ≡ v % 2 ^ 32 = bit_and_low_mask 32 v in
    let lane : bit_and (v / 2 ^ 32) 0xff ≡ v / 2 ^ 32 % 2 ^ 8 = bit_and_low_mask 8 (v / 2 ^ 32) in
    let id : bit_and v 0xffff_ffff % 2 ^ 32 ≡ t.id = omega arith in
    let target : bit_and (v / 2 ^ 32) 0xff % 2 ^ 8 ≡ t.target = omega arith in
    let valid : (bit_and v (2 ^ 63) == 0) ≡ false = ground arith in
    ap decode (encode-sum t small byte) ∙ rw (valid, id, target, decode) refl
