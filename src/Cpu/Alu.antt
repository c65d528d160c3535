-- ===== src/Cpu/Alu.antt =====
-- ARMv8/Interpreter.cpp: ALCalc, _ArithmeticLogic, ArithmeticLogic and the arithmetic they call.
-- A shift whose amount C++ leaves undefined is a fault, and so is the negation of the least signed value.
use nsemu.Common.{
  ℕ, ◌+◌, ◌-◌, ◌*◌, ◌/◌, ◌^◌, Bool, true, false, ◌&&◌, u32, u64, neg64, sext32, asr64, ◌<<<◌, ◌>>>◌,
  bit_and, bit_or, bit_xor, ltb, leb, ◌==◌, if◌then◌else◌, Outcome, ok, fault, ◌>>=◌,
}
use nsemu.Machine.{Arm}
use nsemu.Cpu.{set_x, set_nzcv}
use nsemu.Cpu.Flags.{c_mask, update_flag32, update_flag64}

-- OpType.
pub data OpType : Type 0 where
  lsl lsr asr ror add sub and or eor sdiv udiv mul : OpType

-- The mask `1 << rot - 1` is an int: rot is 1 to 32, and 1 << 31 is sign extended.
unfoldable pub rotate_right : ℕ → ℕ → Outcome ℕ
rotate_right val rot =
    if ltb 0 rot && leb rot 32
    then ok (bit_or (u64 (bit_and val (sext32 (1 <<< (rot - 1))) <<< (64 - rot))) (val >>> rot))
    else fault

unfoldable pub udiv64 : ℕ → ℕ → ℕ
udiv64 arg1 arg2 = if arg2 == 0 then 0 else arg1 / arg2

abbrev pub negative : ℕ → Bool
negative v = leb (2 ^ 63) v

abbrev pub magnitude : ℕ → ℕ
magnitude v = if negative v then 2 ^ 64 - v else v

-- C's division of int64_t, which truncates: by magnitudes, negated where the signs differ.
abbrev pub quotient : ℕ → ℕ → ℕ
quotient arg1 arg2 =
    let q = magnitude arg1 / magnitude arg2 in
    if negative arg1
    then if negative arg2 then q else neg64 q
    else if negative arg2
    then neg64 q
    else q

unfoldable pub sdiv64 : ℕ → ℕ → ℕ
sdiv64 arg1 arg2 =
    if arg2 == 0
    then 0
    else if arg1 == 2 ^ 63 && arg2 == 2 ^ 64 - 1
    then 2 ^ 63
    else quotient arg1 arg2

unfoldable pub al_calc : ℕ → ℕ → Bool → OpType → Outcome ℕ
unfolding rotate_right udiv64 sdiv64
al_calc arg1 arg2 bit64 OpType.add = ok (u64 (arg1 + arg2))
al_calc arg1 arg2 bit64 OpType.and = ok (bit_and arg1 arg2)
al_calc arg1 arg2 bit64 OpType.or = ok (bit_or arg1 arg2)
al_calc arg1 arg2 bit64 OpType.eor = ok (bit_xor arg1 arg2)
al_calc arg1 arg2 bit64 OpType.lsl = if ltb arg2 64 then ok (u64 (arg1 <<< arg2)) else fault
al_calc arg1 arg2 bit64 OpType.lsr = if ltb arg2 64 then ok (arg1 >>> arg2) else fault
al_calc arg1 arg2 true OpType.asr = if ltb arg2 64 then ok (asr64 arg1 arg2) else fault
al_calc arg1 arg2 false OpType.asr = if ltb arg2 32 then ok (asr64 (sext32 arg1) arg2) else fault
al_calc arg1 arg2 bit64 OpType.ror = rotate_right arg1 arg2
al_calc arg1 arg2 bit64 OpType.udiv = ok (udiv64 arg1 arg2)
al_calc arg1 arg2 bit64 OpType.sdiv = ok (sdiv64 arg1 arg2)
al_calc arg1 arg2 bit64 OpType.mul = ok (u64 (arg1 * arg2))
al_calc arg1 arg2 bit64 OpType.sub = ok 0

-- -(int64_t)arg2, or -(int32_t)arg2 sign extended.
abbrev pub negated : Bool → ℕ → ℕ
negated true arg2 = neg64 arg2
negated false arg2 = sext32 (2 ^ 32 - u32 arg2)

-- The negation overflows.
abbrev pub overflows : OpType → Bool → ℕ → Bool
overflows OpType.sub true arg2 = arg2 == 2 ^ 63
overflows OpType.sub false arg2 = u32 arg2 == 2 ^ 31
overflows _ bit64 arg2 = false

abbrev pub operand : OpType → Bool → ℕ → ℕ
operand OpType.sub bit64 arg2 = negated bit64 arg2
operand _ bit64 arg2 = arg2

abbrev pub operation : OpType → OpType
operation OpType.sub = OpType.add
operation op = op

abbrev is_sub : OpType → Bool
is_sub OpType.sub = true
is_sub _ = false

-- The flags that _ArithmeticLogic leaves, from the result and the operand after negation.
abbrev pub flags_after : Bool → OpType → ℕ → ℕ → ℕ → ℕ
flags_after true op result arg1 arg2 =
    let nzcv = update_flag64 result arg1 arg2 in
    if is_sub op && arg2 == 0 then bit_or nzcv c_mask else nzcv
flags_after false op result arg1 arg2 = update_flag32 (u32 result) (u32 arg1) (u32 arg2)

-- _ArithmeticLogic: the result, and the registers with the flags set.
unfoldable pub arithmetic_logic_value : ℕ → ℕ → Bool → Bool → OpType → Arm → Outcome (ℕ × Arm)
unfolding al_calc
arithmetic_logic_value arg1 arg2 setflags bit64 op a = if overflows op bit64 arg2 then fault else do
  result ← al_calc arg1 (operand op bit64 arg2) bit64 (operation op)
  ok (
    result,
    if setflags then set_nzcv (flags_after bit64 op result arg1 (operand op bit64 arg2)) a else a,
  )

-- ArithmeticLogic.
unfoldable pub arithmetic_logic : ℕ → ℕ → ℕ → Bool → Bool → OpType → Arm → Outcome Arm
unfolding arithmetic_logic_value
arithmetic_logic rd_idx arg1 arg2 setflags bit64 op a = do
  (result, a') ← arithmetic_logic_value arg1 arg2 setflags bit64 op a
  ok (set_x rd_idx (if bit64 then result else bit_and result 0xffffffff) a')
