-- ===== src/Util/Swap.antt =====
-- include/Util.hpp: byte_swap32_uint reverses the four bytes of a word.
use nsemu.Common.{ℕ, ◌+◌, ◌*◌, ◌/◌, ◌%◌, ◌^◌, ◌<◌, ◌≡◌, bit_and, bit_or, u32, ◌<<<◌, arith}
use nsemu.Common.Bits.{bit_and_field, bit_and_mask, bit_or_parts, bit_or_middle}
use nsemu.Util.{byte_swap32_uint}

-- Four parts of a word, in the order in which the expression joins them.
join_bytes :
    (p q r s : ℕ)
    → p < 2 ^ 8
    → q < 2 ^ 8
    → r < 2 ^ 8
    → bit_or (bit_or (bit_or p (q * 2 ^ 16)) (r * 2 ^ 8)) (s * 2 ^ 24)
      ≡ p + r * 2 ^ 8 + q * 2 ^ 16 + s * 2 ^ 24
join_bytes p q r s hp hq hr =
    let low : bit_or p (q * 2 ^ 16) ≡ q * 2 ^ 8 * 2 ^ 8 + p =
      omega (arith, bit_or_parts 16 q p (omega arith)) in
    let three : bit_or (q * 2 ^ 8 * 2 ^ 8 + p) (r * 2 ^ 8) ≡ p + r * 2 ^ 8 + q * 2 ^ 16 =
      omega (arith, bit_or_middle 8 8 q p r hp hr) in
    rw (low, three) (omega (arith, bit_or_parts 24 s (p + r * 2 ^ 8 + q * 2 ^ 16) (omega arith)))

byte_swap32_uint-bytes :
    (b : ℕ)
    → b < 2 ^ 32
    → byte_swap32_uint b
      ≡ b / 2 ^ 24 + b / 2 ^ 16 % 2 ^ 8 * 2 ^ 8 + b / 2 ^ 8 % 2 ^ 8 * 2 ^ 16 + b % 2 ^ 8 * 2 ^ 24
unfolding byte_swap32_uint
byte_swap32_uint-bytes b h =
    let p : bit_and (b / 2 ^ 24) 0xff ≡ b / 2 ^ 24 = omega (arith, bit_and_mask 8 (b / 2 ^ 24)) in
    let q : bit_and (u32 (b <<< 8)) 0xff0000 ≡ b / 2 ^ 8 % 2 ^ 8 * 2 ^ 16 =
      omega (arith, bit_and_field 16 8 (u32 (b <<< 8))) in
    let r : bit_and (b / 2 ^ 8) 0xff00 ≡ b / 2 ^ 16 % 2 ^ 8 * 2 ^ 8 =
      omega (arith, bit_and_field 8 8 (b / 2 ^ 8)) in
    let s : bit_and (u32 (b <<< 24)) 0xff000000 ≡ b % 2 ^ 8 * 2 ^ 24 =
      omega (arith, bit_and_field 24 8 (u32 (b <<< 24))) in
    rw (p, q, r, s)
      (join_bytes (b / 2 ^ 24) (b / 2 ^ 8 % 2 ^ 8) (b / 2 ^ 16 % 2 ^ 8) (b % 2 ^ 8) (omega arith)
        (omega arith) (omega arith))

-- byte_swap32_uint puts the four bytes of a 32-bit word in the opposite order, and swapped twice the
-- word is what it was.
pub byte_swap32_uint_lem :
    (b : ℕ)
    → b < 2 ^ 32
    → (byte_swap32_uint b
        ≡ b / 2 ^ 24 + b / 2 ^ 16 % 2 ^ 8 * 2 ^ 8 + b / 2 ^ 8 % 2 ^ 8 * 2 ^ 16 + b % 2 ^ 8 * 2 ^ 24)
      × (byte_swap32_uint (byte_swap32_uint b) ≡ b)
byte_swap32_uint_lem b h =
    let once = byte_swap32_uint-bytes b h in
    let twice = byte_swap32_uint-bytes (byte_swap32_uint b) (omega (arith, once)) in
    (once, omega (arith, once, twice))
