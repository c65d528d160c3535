-- ===== src/Util/Count.antt =====
-- include/Util.hpp: clz32 and ctz32. __builtin_clz and __builtin_ctz count the zeros above the
-- highest and below the lowest one of a number that is not 0.
use nsemu.Common.{ℕ, zero, suc, ◌+◌, ◌-◌, ◌/◌, ◌%◌, ◌==◌, if◌then◌else◌}

-- The digits up to the highest one; a number below 2 ^ n needs n rounds.
unfoldable pub digits_below : ℕ → ℕ → ℕ
digits_below zero v = 0
digits_below (suc n) v = let rest = digits_below n (v / 2) in if v == 0 then 0 else rest + 1

unfoldable pub clz32 : ℕ → ℕ
unfolding digits_below
clz32 bitfield = if bitfield == 0 then 32 else 32 - digits_below 32 bitfield

-- The zeros below the lowest one, in `n` rounds.
unfoldable pub zeros_below : ℕ → ℕ → ℕ
zeros_below zero v = 0
zeros_below (suc n) v = let rest = zeros_below n (v / 2) in if v % 2 == 0 then rest + 1 else 0

unfoldable pub ctz32 : ℕ → ℕ
unfolding zeros_below
ctz32 bitfield = if bitfield == 0 then 32 else zeros_below 32 bitfield
