-- ===== src/Cpu/Mul/Product.antt =====
-- ARMv8/Interpreter.cpp: the 128-bit product of Umul64 and what Smul64 makes of it.
use nsemu.Common.{
  ℕ, ◌+◌, ◌-◌, ◌*◌, ◌/◌, ◌%◌, ◌^◌, ◌≤◌, ◌<◌, ◌≡◌, refl, ap, ◌∙◌, true, false, u32, u64, ok, ◌≢◌,
  arith,
}
use nsemu.Machine.{Arm, IsArm}
use nsemu.Cpu.{x, set_x}
use nsemu.Cpu.Mul.{umul64, smul64, mul2_reg}

abbrev half_product_top : ℕ
half_product_top = (2 ^ 32 - 1) * (2 ^ 32 - 1)

half_product : (a b : ℕ) → a < 2 ^ 32 → b < 2 ^ 32 → a * b ≤ half_product_top
half_product a b h g = grind arith

-- The halves of a product of four half products, carries added.
column_sum :
    (rl rm rn rh : ℕ)
    → rl ≤ half_product_top
    → rm ≤ half_product_top
    → rn ≤ half_product_top
    → rh ≤ half_product_top
    → let c = u64 (rl / 2 ^ 32 + u32 rm + u32 rn) in
      let c' = u64 (c / 2 ^ 32 + rm / 2 ^ 32 + rn / 2 ^ 32 + u32 rh) in
      (u32 (rh / 2 ^ 32 + u32 (c' / 2 ^ 32)) * 2 ^ 32 + u32 c') * 2 ^ 64 + (u32 c * 2 ^ 32 + u32 rl)
      ≡ rh * 2 ^ 64 + (rm + rn) * 2 ^ 32 + rl
column_sum rl rm rn rh h₁ h₂ h₃ h₄ = omega arith

expand_halves :
    (p q r s : ℕ)
    → (p * 2 ^ 32 + q) * (r * 2 ^ 32 + s) ≡ p * r * 2 ^ 64 + (q * r + p * s) * 2 ^ 32 + q * s
expand_halves p q r s = omega arith

halves : (a : ℕ) → a ≡ a / 2 ^ 32 * 2 ^ 32 + u32 a
halves a = omega arith

expand :
    (a b : ℕ)
    → a * b
      ≡ a / 2 ^ 32 * (b / 2 ^ 32) * 2 ^ 64
        + (u32 a * (b / 2 ^ 32) + a / 2 ^ 32 * u32 b) * 2 ^ 32
        + u32 a * u32 b
expand a b =
    ap (λ (t : ℕ). t * b) (halves a)
    ∙ ap (λ (t : ℕ). (a / 2 ^ 32 * 2 ^ 32 + u32 a) * t) (halves b)
    ∙ expand_halves (a / 2 ^ 32) (u32 a) (b / 2 ^ 32) (u32 b)

-- The two words of Umul64 are the high and the low half of the 128-bit product.
pub umul64_lem :
    (a b : ℕ)
    → a < 2 ^ 64
    → b < 2 ^ 64
    → ((umul64 a b).0 ≡ a * b / 2 ^ 64) × ((umul64 a b).1 ≡ a * b % 2 ^ 64)
unfolding umul64
umul64_lem a b h g =
    let sum =
      column_sum (u32 a * u32 b) (u32 a * (b / 2 ^ 32)) (a / 2 ^ 32 * u32 b)
        (a / 2 ^ 32 * (b / 2 ^ 32)) (half_product _ _ (omega arith) (omega arith))
        (half_product _ _ (omega arith) (omega arith))
        (half_product _ _ (omega arith) (omega arith))
        (half_product _ _ (omega arith) (omega arith)) in
    (omega (arith, sum, expand a b), omega (arith, sum, expand a b))

-- UMULH and UMULL's 128-bit kin: on distinct destinations the unsigned callback leaves the high half
-- of the product in the first register and the low half in the second; the signed one leaves the
-- halves of the same unsigned product the other way round.
pub mul2_reg_lem :
    (rh rl rn rm : ℕ) (a : Arm)
    → IsArm a
    → rh ≢ rl
    → let product = x a rn * x a rm in
      ((u : Arm) × (mul2_reg rh rl rn rm false a ≡ ok u)
        × (x u rh ≡ product / 2 ^ 64)
        × (x u rl ≡ product % 2 ^ 64))
      × ((s : Arm) × (mul2_reg rh rl rn rm true a ≡ ok s)
          × (x s rh ≡ product % 2 ^ 64)
          × (x s rl ≡ product / 2 ^ 64))
unfolding mul2_reg smul64
mul2_reg_lem rh rl rn rm a is apart =
    let (high, low) = umul64_lem (x a rn) (x a rm) (is.gpr_lt rn) (is.gpr_lt rm) in
    let h = (umul64 (x a rn) (x a rm)).0 in
    let l = (umul64 (x a rn) (x a rm)).1 in
    (
      (set_x rh h (set_x rl l a), refl, ground (arith, high), ground (arith, low)),
      (set_x rh l (set_x rl h a), refl, ground (arith, low), ground (arith, high)),
    )
