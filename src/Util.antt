-- ===== src/Util.antt =====
-- include/Util.hpp: byte swaps, bit fields and masks. A failed assert is `abort`.
pub mod Fields
pub mod Count
pub mod Swap
pub mod Rounds
use nsemu.Common.{
  ℕ, zero, suc, ◌+◌, ◌-◌, ◌*◌, ◌/◌, ◌%◌, ◌^◌, Bool, ◌&&◌, u16, u32, u64, sext32, asr64, ◌<<<◌,
  ◌>>>◌, bit_and, bit_or, ltb, leb, ◌==◌, if◌then◌else◌, Outcome, ok, abort, List, [], ◌∷◌,
}

unfoldable pub byte_swap16_uint : ℕ → ℕ
byte_swap16_uint b = u16 (bit_or (bit_and b 0x00ff <<< 8) (bit_and b 0xff00 >>> 8))

unfoldable pub byte_swap32_uint : ℕ → ℕ
byte_swap32_uint b =
    bit_or
      (bit_or (bit_or (bit_and (b >>> 24) 0xff) (bit_and (u32 (b <<< 8)) 0xff0000))
        (bit_and (b >>> 8) 0xff00))
      (bit_and (u32 (b <<< 24)) 0xff000000)

unfoldable pub byte_swap64_uint : ℕ → ℕ
byte_swap64_uint b =
    bit_or
      (bit_or
        (bit_or
          (bit_or
            (bit_or
              (bit_or
                (bit_or (u64 (bit_and b 0x00000000000000ff <<< 56))
                  (u64 (bit_and b 0x000000000000ff00 <<< 40)))
                (u64 (bit_and b 0x0000000000ff0000 <<< 24)))
              (u64 (bit_and b 0x00000000ff000000 <<< 8)))
            (bit_and b 0x000000ff00000000 >>> 8))
          (bit_and b 0x0000ff0000000000 >>> 24))
        (bit_and b 0x00ff000000000000 >>> 40))
      (bit_and b 0xff00000000000000 >>> 56)

unfoldable pub extract32 : ℕ → ℕ → ℕ → Outcome ℕ
extract32 bitfield from len =
    if ltb 0 len && leb (from + len) 32
    then ok (bit_and (bitfield >>> from) ((2 ^ 32 - 1) >>> (32 - len)))
    else abort

-- The int32_t result as a 32-bit word.
unfoldable pub sextract32 : ℕ → ℕ → ℕ → Outcome ℕ
sextract32 bitfield from len =
    if ltb 0 len && leb (from + len) 32
    then ok (u32 (asr64 (sext32 (u64 (bitfield <<< (32 - from - len)))) (32 - len)))
    else abort

unfoldable pub sextract64 : ℕ → ℕ → ℕ → Outcome ℕ
sextract64 bitfield from len =
    if ltb 0 len && leb (from + len) 64
    then ok (asr64 (u64 (bitfield <<< (64 - from - len))) (64 - len))
    else abort

unfoldable pub bitmask64 : ℕ → Outcome ℕ
bitmask64 length =
    if ltb 0 length && leb length 64 then ok ((2 ^ 64 - 1) >>> (64 - length)) else abort

-- The loop of replicate64 with `left` rounds to go: e doubles, so seven rounds reach 64.
unfoldable pub replicate_loop : ℕ → ℕ → ℕ → ℕ
replicate_loop zero mask e = mask
replicate_loop (suc left) mask e =
    let rest = replicate_loop left (bit_or mask (u64 (mask <<< e))) (e * 2) in
    if ltb e 64 then rest else mask

unfoldable pub replicate64 : ℕ → ℕ → Outcome ℕ
unfolding replicate_loop
replicate64 mask e = if e == 0 then abort else ok (replicate_loop 7 mask e)
