-- ===== src/Util/Fields.antt =====
-- include/Util.hpp: what the bit-field helpers compute, as arithmetic.
use nsemu.Common.{ℕ, ◌+◌, ◌-◌, ◌/◌, ◌%◌, ◌^◌, ◌≤◌, ◌<◌, ◌≡◌, ok, arith}
use nsemu.Common.Bits.{bit_and_mask, ones_shift}
use nsemu.Util.{extract32, bitmask64}

-- For a field inside the word, extract32 is the field as a number.
pub extract32_lem :
    (b from len : ℕ)
    → 0 < len
    → from + len ≤ 32
    → extract32 b from len ≡ ok (b / 2 ^ from % 2 ^ len)
unfolding extract32
extract32_lem b from len h g = ground (arith, ones_shift 32 len, bit_and_mask len (b / 2 ^ from))

-- bitmask64 sets the low bits, for a length from 1 to 64.
pub bitmask64_lem : (len : ℕ) → 0 < len → len ≤ 64 → bitmask64 len ≡ ok (2 ^ len - 1)
unfolding bitmask64
bitmask64_lem len h g = ground (arith, ones_shift 64 len)
