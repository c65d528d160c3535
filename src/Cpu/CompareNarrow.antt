-- ===== src/Cpu/CompareNarrow.antt =====
-- ARMv8/Interpreter.cpp: the 32-bit compare.
use nsemu.Common.{
  ℕ, ◌+◌, ◌-◌, ◌*◌, ◌%◌, ◌^◌, ◌<◌, ◌≡◌, refl, ◌≢◌, true, false, not, ◌&&◌, u32, u64, bit_and, leb,
  ◌==◌, if◌then◌else◌, ok, arith,
}
use nsemu.Common.Bits.{bit_and_mask}
use nsemu.Machine.{Arm}
use nsemu.Cpu.{x, w, set_x, set_nzcv}
use nsemu.Cpu.Flags.{nzcv_of, update_flag32}
use nsemu.Cpu.Alu.{OpType, arithmetic_logic, negated, flags_after}
use nsemu.Cpu.Arith.{sub_reg}
use nsemu.Cpu.Compare.{update_flag32_lem, Compares-flags, overflow, key, Compares}

abbrev neg32 : ℕ → ℕ
neg32 q = (2 ^ 32 - q) % 2 ^ 32

flags32 :
    (p q : ℕ)
    → p < 2 ^ 32
    → q < 2 ^ 32
    → let res = u32 (p + neg32 q) in
      update_flag32 res p (neg32 q)
      ≡ nzcv_of
          (leb (2 ^ 31) res)
          (p == q)
          (leb q p && not (q == 0))
          (overflow (2 ^ 31) res p (neg32 q))
flags32 p q h g =
    let zero : (u32 (p + neg32 q) == 0) ≡ (p == q) = ground arith in
    let carries : leb (2 * 2 ^ 31) (p + neg32 q) ≡ (leb q p && not (q == 0)) = ground arith in
    rw
      (
        update_flag32_lem (u32 (p + neg32 q)) p (neg32 q) (omega arith) h (omega arith),
        zero,
        carries,
      )
      refl

-- The operands that _ArithmeticLogic and UpdateFlag32 see, cut back to 32 bits.
narrow_operand : (q : ℕ) → q < 2 ^ 32 → u32 (negated false q) ≡ neg32 q
narrow_operand q h = ground arith

narrow_result :
    (p q : ℕ) → p < 2 ^ 32 → q < 2 ^ 32 → u32 (u64 (p + negated false q)) ≡ u32 (p + neg32 q)
narrow_result p q h g = ground arith

signed32 :
    (p q : ℕ)
    → p < 2 ^ 32
    → q < 2 ^ 32
    → q ≢ 2 ^ 31
    → let res = u32 (p + neg32 q) in
      (if leb (2 ^ 31) res
        then overflow (2 ^ 31) res p (neg32 q)
        else not (overflow (2 ^ 31) res p (neg32 q)))
      ≡ leb (key (2 ^ 31) q) (key (2 ^ 31) p)
signed32 p q h g ne = ground arith

same_key32 : (p q : ℕ) → p < 2 ^ 32 → q < 2 ^ 32 → (p == q) ≡ (key (2 ^ 31) p == key (2 ^ 31) q)
same_key32 p q h g = ground arith

flags_after32 :
    (p q : ℕ)
    → p < 2 ^ 32
    → q < 2 ^ 32
    → flags_after false OpType.sub (u64 (p + negated false q)) p (negated false q)
      ≡ nzcv_of
          (leb (2 ^ 31) (u32 (p + neg32 q)))
          (p == q)
          (leb q p && not (q == 0))
          (overflow (2 ^ 31) (u32 (p + neg32 q)) p (neg32 q))
flags_after32 p q h g =
    let cut : u32 p ≡ p = omega arith in
    rw (narrow_result p q h g, narrow_operand q g, cut) (flags32 p q h g)

-- SUBS and CMP at 32 bits, where the second operand is not the least signed value: the destination
-- gets the difference modulo 2 ^ 32, with zeros above, and the conditions are those of the operands'
-- equality, of their signed order, and of their unsigned order but for the carry, which is clear
-- where the second operand is 0.
pub sub_reg_narrow :
    (rd rn rm : ℕ) (a : Arm)
    → w a rm ≢ 2 ^ 31
    → (a' : Arm) × (sub_reg rd rn rm true false a ≡ ok a')
      × (x a' rd ≡ u32 (w a rn + 2 ^ 32 - w a rm))
      × Compares (2 ^ 31) (leb (w a rm) (w a rn) && not (w a rm == 0)) (w a rn) (w a rm) a'.nzcv
unfolding sub_reg arithmetic_logic
sub_reg_narrow rd rn rm a ne =
    let p = w a rn in
    let q = w a rm in
    let res = u64 (p + negated false q) in
    let sound : (u32 q == 2 ^ 31) ≡ false = ground (arith, ne) in
    (
      set_x rd (bit_and res 0xffffffff)
          (set_nzcv (flags_after false OpType.sub res p (negated false q)) a),
      rw sound refl,
      ground (arith, bit_and_mask 32 res, narrow_result p q (omega arith) (omega arith)),
      rw (flags_after32 p q (omega arith) (omega arith)) (
          Compares-flags (2 ^ 31) (leb q p && not (q == 0)) (leb (2 ^ 31) (u32 (p + neg32 q)))
            (overflow (2 ^ 31) (u32 (p + neg32 q)) p (neg32 q)) p q
            (signed32 p q (omega arith) (omega arith) ne)
            (same_key32 p q (omega arith) (omega arith))),
    )
