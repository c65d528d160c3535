-- ===== src/Util/Rounds.antt =====
-- include/Util.hpp: what the loop of replicate64 leaves.
use nsemu.Common.{
  ℕ, zero, suc, ◌+◌, ◌-◌, ◌*◌, ◌/◌, ◌^◌, ◌≤◌, ◌<◌, ◌≡◌, refl, ap, ◌∙◌, true, bit_or, u64, ltb,
  ◌<<<◌, ok, arith,
}
use nsemu.Common.Bits.{bit_or_parts}
use nsemu.Util.{replicate_loop, replicate64}

replicate_loop-past : (j mask e : ℕ) → 64 ≤ e → replicate_loop j mask e ≡ mask
unfolding replicate_loop
replicate_loop-past zero mask e h = refl
replicate_loop-past (suc j) mask e h = ground arith

-- A round for a mask of `e` bits puts a copy of it above itself.
replicate_round :
    (j v e : ℕ)
    → v < 2 ^ e
    → v * 2 ^ e < 2 ^ 64
    → e < 64
    → replicate_loop (suc j) v e ≡ replicate_loop j (v + v * 2 ^ e) (e * 2)
unfolding replicate_loop
replicate_round j v e h fits small =
    let more : ltb e 64 ≡ true = ground arith in
    let moved : u64 (v <<< e) ≡ v * 2 ^ e = omega (arith, fits) in
    let joined : bit_or v (u64 (v <<< e)) ≡ v + v * 2 ^ e =
      ap (bit_or v) moved ∙ bit_or_parts e v v h in
    rw (more, joined) refl

-- The number whose product with a value of `e` bits repeats it in every `e` bits of a word.
abbrev pub ones : ℕ → ℕ
ones e = (2 ^ 64 - 1) / (2 ^ e - 1)

from_32 : (j v : ℕ) → v < 2 ^ 32 → replicate_loop (suc j) v 32 ≡ v * ones 32
from_32 j v h =
    replicate_round j v 32 h (omega arith) (omega arith)
    ∙ replicate_loop-past j (v + v * 2 ^ 32) 64 (omega arith)
    ∙ omega arith

from_16 : (j v : ℕ) → v < 2 ^ 16 → replicate_loop (suc (suc j)) v 16 ≡ v * ones 16
from_16 j v h =
    replicate_round (suc j) v 16 h (omega arith) (omega arith)
    ∙ from_32 j (v + v * 2 ^ 16) (omega arith)
    ∙ omega arith

from_8 : (j v : ℕ) → v < 2 ^ 8 → replicate_loop (suc (suc (suc j))) v 8 ≡ v * ones 8
from_8 j v h =
    replicate_round (suc (suc j)) v 8 h (omega arith) (omega arith)
    ∙ from_16 j (v + v * 2 ^ 8) (omega arith)
    ∙ omega arith

from_4 : (j v : ℕ) → v < 2 ^ 4 → replicate_loop (suc (suc (suc (suc j)))) v 4 ≡ v * ones 4
from_4 j v h =
    replicate_round (suc (suc (suc j))) v 4 h (omega arith) (omega arith)
    ∙ from_8 j (v + v * 2 ^ 4) (omega arith)
    ∙ omega arith

from_2 : (j v : ℕ) → v < 2 ^ 2 → replicate_loop (suc (suc (suc (suc (suc j))))) v 2 ≡ v * ones 2
from_2 j v h =
    replicate_round (suc (suc (suc (suc j)))) v 2 h (omega arith) (omega arith)
    ∙ from_4 j (v + v * 2 ^ 2) (omega arith)
    ∙ omega arith

from_1 : (v : ℕ) → v < 2 ^ 1 → replicate_loop 7 v 1 ≡ v * ones 1
from_1 v h =
    replicate_round 6 v 1 h (omega arith) (omega arith)
    ∙ from_2 1 (v + v * 2 ^ 1) (omega arith)
    ∙ omega arith

-- replicate64 of a mask of 1, 2, 4 and so on to 64 bits repeats it through the whole word: the result is
-- the product of the mask with the word that has a one at the bottom of each of its places.
pub replicate64_lem :
    (k mask : ℕ)
    → k ≤ 6
    → mask < 2 ^ (2 ^ k)
    → replicate64 mask (2 ^ k) ≡ ok (mask * ((2 ^ 64 - 1) / (2 ^ (2 ^ k) - 1)))
unfolding replicate64
replicate64_lem zero mask h g = ap ok (from_1 mask g)
replicate64_lem (suc zero) mask h g = ap ok (from_2 2 mask g)
replicate64_lem (suc (suc zero)) mask h g = ap ok (from_4 3 mask g)
replicate64_lem (suc (suc (suc zero))) mask h g = ap ok (from_8 4 mask g)
replicate64_lem (suc (suc (suc (suc zero)))) mask h g = ap ok (from_16 5 mask g)
replicate64_lem (suc (suc (suc (suc (suc zero))))) mask h g = ap ok (from_32 6 mask g)
replicate64_lem (suc (suc (suc (suc (suc (suc zero)))))) mask h g =
    ap ok (replicate_loop-past 7 mask 64 (omega arith) ∙ omega arith)
replicate64_lem (suc (suc (suc (suc (suc (suc (suc k))))))) mask h g = absurd (omega arith)
