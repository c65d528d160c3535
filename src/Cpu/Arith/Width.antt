-- ===== src/Cpu/Arith/Width.antt =====
-- ARMv8/Interpreter.cpp: ArithmeticLogic, under all the callbacks of arithmetic, keeps every register
-- within its width.
use nsemu.Common.{
  Bool-cases, ℕ, ◌+◌, ◌-◌, ◌*◌, ◌/◌, ◌%◌, ◌^◌, ◌<◌, ◌≡◌, inl, inr, Bool, true, false, not, ◌&&◌,
  ◌||◌, u32, u64, sext32, asr64, bit_and, bit_xor, ◌==◌, if◌then◌else◌, ok, Outcome-cases,
  ok-injective, arith,
}
use nsemu.Common.Bits.{bit_and-lt, bit_or-lt, bit_xor-lt, bit_and_mask}
use nsemu.Machine.{Arm, IsArm}
use nsemu.Cpu.{x, set_x, set_nzcv}
use nsemu.Cpu.Flags.{c_mask, nzcv_of, is_negative32, is_negative64, update_flag32, update_flag64}
use nsemu.Cpu.Alu.{
  overflows, OpType, rotate_right, sdiv64, al_calc, magnitude, quotient, operand, operation,
  flags_after, arithmetic_logic,
}
use mathlib.Core.Path.{subst}
use native.Mathlib.Nat.{div-le_self}

quotient-lt : (a b : ℕ) → a < 2 ^ 64 → quotient a b < 2 ^ 64
quotient-lt a b h = ground (arith, div-le_self (magnitude a) (magnitude b))

sdiv64-lt : (a b : ℕ) → a < 2 ^ 64 → sdiv64 a b < 2 ^ 64
unfolding sdiv64
sdiv64-lt a b h = ground (arith, quotient-lt a b h)

asr64-lt : (v k : ℕ) → v < 2 ^ 64 → asr64 v k < 2 ^ 64
asr64-lt v k h = ground (arith, div-le_self v (2 ^ k))

rotate_right-lt : (v k : ℕ) {r : ℕ} → v < 2 ^ 64 → rotate_right v k ≡ ok r → r < 2 ^ 64
unfolding rotate_right
rotate_right-lt v k h e = ground (
  arith,
  div-le_self v (2 ^ k),
  bit_or-lt 64 (u64 (bit_and v (sext32 (1 * 2 ^ (k - 1))) * 2 ^ (64 - k))) (v / 2 ^ k),
)

al_calc-lt :
    (a b : ℕ) (bit64 : Bool) (op : OpType) {r : ℕ}
    → a < 2 ^ 64
    → b < 2 ^ 64
    → al_calc a b bit64 op ≡ ok r
    → r < 2 ^ 64
unfolding al_calc
al_calc-lt a b bit64 OpType.add h g e = ground arith
al_calc-lt a b bit64 OpType.and h g e = ground (arith, bit_and-lt 64 a b h)
al_calc-lt a b bit64 OpType.or h g e = ground (arith, bit_or-lt 64 a b h g)
al_calc-lt a b bit64 OpType.eor h g e = ground (arith, bit_xor-lt 64 a b h g)
al_calc-lt a b bit64 OpType.lsl h g e = ground arith
al_calc-lt a b bit64 OpType.lsr h g e = ground (arith, div-le_self a (2 ^ b))
al_calc-lt a b true OpType.asr h g e = ground (arith, asr64-lt a b h)
al_calc-lt a b false OpType.asr h g e = ground (arith, asr64-lt (sext32 a) b)
al_calc-lt a b bit64 OpType.ror h g e = rotate_right-lt a b h e
al_calc-lt a b bit64 OpType.udiv h g e = ground (arith, div-le_self a b)
al_calc-lt a b bit64 OpType.sdiv h g e = ground (arith, sdiv64-lt a b h)
al_calc-lt a b bit64 OpType.mul h g e = ground arith
al_calc-lt a b bit64 OpType.sub h g e = ground arith

nzcv_of-lt : (n z c v : Bool) → nzcv_of n z c v < 2 ^ 32
nzcv_of-lt n z c v = ground arith

update_flag64-lt : (r a b : ℕ) → update_flag64 r a b < 2 ^ 32
unfolding update_flag64
update_flag64-lt r a b =
    nzcv_of-lt (is_negative64 r) (r == 0)
      (not ((bit_and a b + bit_xor a b / 2) % 2 ^ 64 / 2 ^ 63 == 0))
      ((is_negative64 a && is_negative64 b && not (is_negative64 r))
        || (not (is_negative64 a) && not (is_negative64 b) && is_negative64 r))

update_flag32-lt : (r a b : ℕ) → update_flag32 r a b < 2 ^ 32
unfolding update_flag32
update_flag32-lt r a b =
    nzcv_of-lt (is_negative32 r) (r == 0) (not (u32 (bit_and a b + bit_xor a b / 2) / 2 ^ 31 == 0))
      ((is_negative32 a && is_negative32 b && not (is_negative32 r))
        || (not (is_negative32 a) && not (is_negative32 b) && is_negative32 r))

flags_after-lt : (bit64 : Bool) (op : OpType) (r a b : ℕ) → flags_after bit64 op r a b < 2 ^ 32
flags_after-lt false op r a b = update_flag32-lt (u32 r) (u32 a) (u32 b)
flags_after-lt true op r a b =
    ground (arith, update_flag64-lt r a b, bit_or-lt 32 (update_flag64 r a b) c_mask)

operand-lt : (op : OpType) (bit64 : Bool) (b : ℕ) → b < 2 ^ 64 → operand op bit64 b < 2 ^ 64
operand-lt OpType.sub true b h = omega arith
operand-lt OpType.sub false b h = ground arith
operand-lt _ bit64 b h = h

IsArm-set_x : (rd v : ℕ) (a : Arm) → v < 2 ^ 64 → IsArm a → IsArm (set_x rd v a)
IsArm-set_x rd v a h is = record {
  gpr_lt = λ r. ground (arith, is.gpr_lt r);
  vreg_lt = is.vreg_lt;
  nzcv_lt = is.nzcv_lt;
  sysr_lt = is.sysr_lt;
}

IsArm-flags :
    (setflags : Bool) (f : ℕ) (a : Arm)
    → f < 2 ^ 32
    → IsArm a
    → IsArm (if setflags then set_nzcv f a else a)
IsArm-flags true f a h is = record {
  gpr_lt = is.gpr_lt;
  vreg_lt = is.vreg_lt;
  nzcv_lt = h;
  sysr_lt = is.sysr_lt;
}
IsArm-flags false f a h is = is

-- Whatever the operation and whether or not it sets the flags, ArithmeticLogic on words leaves every
-- register within its width, and in its 32-bit form zeros in the upper half of the destination.
pub arithmetic_logic-IsArm :
    (rd arg1 arg2 : ℕ) (setflags bit64 : Bool) (op : OpType) (a : Arm) {a' : Arm}
    → IsArm a
    → arg1 < 2 ^ 64
    → arg2 < 2 ^ 64
    → arithmetic_logic rd arg1 arg2 setflags bit64 op a ≡ ok a'
    → IsArm a' × (bit64 ≡ false → x a' rd < 2 ^ 32)
unfolding arithmetic_logic
arithmetic_logic-IsArm rd arg1 arg2 setflags bit64 op a {a'} is h g e =
    let b = operand op bit64 arg2 in
    elim (Bool-cases (overflows op bit64 arg2)) [
      | inl lost ↦ cc (rw lost at e)
      | inr sound ↦
          let e' = rw sound at e in
          elim (Outcome-cases (al_calc arg1 b bit64 (operation op))) [
            | inl (r, runs) ↦
                let fits : r < 2 ^ 64 =
                  al_calc-lt arg1 b bit64 (operation op) h (operand-lt op bit64 arg2 g) runs in
                let c : Arm = if setflags then set_nzcv (flags_after bit64 op r arg1 b) a else a in
                subst (λ (t : Arm). IsArm t × (bit64 ≡ false → x t rd < 2 ^ 32))
                  (ok-injective (rw runs at e'))
                  (
                    IsArm-set_x rd (if bit64 then r else bit_and r 0xffffffff) c
                        (ground (arith, bit_and_mask 32 r))
                        (IsArm-flags setflags (flags_after bit64 op r arg1 b) a
                          (flags_after-lt bit64 op r arg1 b) is),
                    λ narrow. ground (arith, bit_and_mask 32 r),
                  )
            | inr (inl stops) ↦ cc (rw stops at e')
            | inr (inr stops) ↦ cc (rw stops at e')
          ]
    ]
