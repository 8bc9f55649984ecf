-- ===== src/Reliable/Keys.antt =====
-- `reliable_key` of src/core.cpp.
use sedsnet_cpp.Common.{ℕ, ◌+◌, ◌*◌, ◌%◌, ◌^◌, ◌<◌, ◌≡◌, ◌∙◌, bit_or, arith}
use sedsnet_cpp.Common.Bits.{bit_or-shifted, bit_or_comm}
use sedsnet_cpp.Common.Int.{pos}
use sedsnet_cpp.Reliable.{reliable_key, to_u32}

key_sum :
    (side ty : ℕ)
    → side < 2 ^ 32
    → ty < 2 ^ 32
    → bit_or (to_u32 (pos side) * 2 ^ 32) ty ≡ ty + side * 2 ^ 32
key_sum side ty hs ht =
    let small : side % 2 ^ 32 ≡ side = omega (arith, hs) in
    rw small (
      bit_or_comm 64 (side * 2 ^ 32) ty (omega (arith, hs)) (omega (arith, ht))
      ∙ bit_or-shifted 32 ty side ht)

-- The sides of an owner and the types of the schema have channels of their own: with side ids and
-- types of at most 32 bits, the same key means the same side and the same type.
reliable_key-injective :
    (side side' ty ty' : ℕ)
    → side < 2 ^ 32
    → side' < 2 ^ 32
    → ty < 2 ^ 32
    → ty' < 2 ^ 32
    → reliable_key (pos side) ty ≡ reliable_key (pos side') ty'
    → (side ≡ side') × (ty ≡ ty')
unfolding reliable_key
reliable_key-injective side side' ty ty' hs hs' ht ht' h =
    let left = key_sum side ty hs ht in
    let right = key_sum side' ty' hs' ht' in
    (omega (arith, left, right, h), omega (arith, left, right, h))
