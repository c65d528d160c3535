-- ===== src/Cpu/Arith.antt =====
-- ARMv8/Interpreter.cpp: the callbacks from MoviI64 to ExtendReg, and the ones built like them:
-- moves, arithmetic and logic on the general registers.
pub mod Deposit
pub mod Width
use nsemu.Common.{
  ℕ, ◌+◌, ◌-◌, ◌*◌, ◌/◌, ◌%◌, ◌^◌, Bool, true, false, not, u32, u64, not64, sext8, sext16, sext32,
  ◌<<<◌, bit_and, bit_or, ltb, ◌==◌, if◌then◌else◌, Outcome, ok, fault, ◌>>=◌,
}
use nsemu.Machine.{Arm}
use nsemu.Util.{extract32}
use nsemu.Cpu.{x, w, set_x, xw, handle_as_sp}
use nsemu.Cpu.Flags.{c_mask, test, cond_hold}
use nsemu.Cpu.Alu.{OpType, arithmetic_logic}

unfoldable pub movi_i64 : ℕ → ℕ → Bool → Arm → Outcome Arm
movi_i64 reg_idx imm bit64 a = ok (set_x reg_idx imm a)

-- A shift by 64 or more is undefined. `imm << pos` is not cut to the field.
unfoldable pub deposit_i64 : ℕ → ℕ → ℕ → ℕ → Bool → Arm → Outcome Arm
deposit_i64 rd_idx imm pos len bit64 a =
    if ltb len 64
    then if ltb pos 64
      then ok (
          set_x rd_idx
            (bit_or (bit_and (x a rd_idx) (not64 (u64 ((2 ^ len - 1) <<< pos))))
              (u64 (imm <<< pos)))
            a)
      else fault
    else fault

unfoldable pub deposit_reg : ℕ → ℕ → ℕ → ℕ → Bool → Arm → Outcome Arm
unfolding deposit_i64
deposit_reg rd_idx rn_idx pos len bit64 a = deposit_i64 rd_idx (xw bit64 a rn_idx) pos len bit64 a

unfoldable pub deposit_zero_i64 : ℕ → ℕ → ℕ → ℕ → Bool → Arm → Outcome Arm
deposit_zero_i64 rd_idx imm pos len bit64 a =
    if ltb len 64
    then if ltb pos 64 then ok (set_x rd_idx (u64 (bit_and imm (2 ^ len - 1) <<< pos)) a) else fault
    else fault

unfoldable pub deposit_zero_reg : ℕ → ℕ → ℕ → ℕ → Bool → Arm → Outcome Arm
unfolding deposit_zero_i64
deposit_zero_reg rd_idx rn_idx pos len bit64 a =
    deposit_zero_i64 rd_idx (xw bit64 a rn_idx) pos len bit64 a

unfoldable pub mov_reg : ℕ → ℕ → Bool → Arm → Outcome Arm
mov_reg rd_idx rn_idx bit64 a = ok (set_x rd_idx (xw bit64 a rn_idx) a)

unfoldable pub cond_mov_reg : ℕ → ℕ → ℕ → ℕ → Bool → Arm → Outcome Arm
cond_mov_reg cond rd_idx rn_idx rm_idx bit64 a = do
  hold ← cond_hold cond a.nzcv
  ok (set_x rd_idx (xw bit64 a (if hold then rn_idx else rm_idx)) a)

-- AddI64 and SubI64: without flags, register 31 is the stack pointer.
abbrev sp_unless : Bool → ℕ → ℕ
sp_unless setflags r = if setflags then r else handle_as_sp r

unfoldable pub add_i64 : ℕ → ℕ → ℕ → Bool → Bool → Arm → Outcome Arm
add_i64 rd_idx rn_idx imm setflags bit64 a =
    arithmetic_logic (sp_unless setflags rd_idx) (xw bit64 a (sp_unless setflags rn_idx)) imm
      setflags bit64 OpType.add a

unfoldable pub sub_i64 : ℕ → ℕ → ℕ → Bool → Bool → Arm → Outcome Arm
sub_i64 rd_idx rn_idx imm setflags bit64 a =
    arithmetic_logic (sp_unless setflags rd_idx) (xw bit64 a (sp_unless setflags rn_idx)) imm
      setflags bit64 OpType.sub a

unfoldable pub add_reg : ℕ → ℕ → ℕ → Bool → Bool → Arm → Outcome Arm
add_reg rd_idx rn_idx rm_idx setflags bit64 a =
    arithmetic_logic rd_idx (xw bit64 a rn_idx) (xw bit64 a rm_idx) setflags bit64 OpType.add a

unfoldable pub sub_reg : ℕ → ℕ → ℕ → Bool → Bool → Arm → Outcome Arm
sub_reg rd_idx rn_idx rm_idx setflags bit64 a =
    arithmetic_logic rd_idx (xw bit64 a rn_idx) (xw bit64 a rm_idx) setflags bit64 OpType.sub a

unfoldable pub div_reg : ℕ → ℕ → ℕ → Bool → Bool → Arm → Outcome Arm
div_reg rd_idx rn_idx rm_idx sign bit64 a =
    arithmetic_logic rd_idx (xw bit64 a rn_idx) (xw bit64 a rm_idx) false bit64
      (if sign then OpType.sdiv else OpType.udiv) a

unfoldable pub shift_reg : ℕ → ℕ → ℕ → OpType → Bool → Arm → Outcome Arm
shift_reg rd_idx rn_idx rm_idx shift_type bit64 a =
    arithmetic_logic rd_idx (xw bit64 a rn_idx) (xw bit64 a rm_idx) false bit64 shift_type a

-- The last lines of AddcReg and SubcReg: X(rd) + 1, or W(rd) + 1 as a uint32_t.
abbrev add_carry : ℕ → Bool → Arm → Arm
add_carry rd_idx bit64 a =
    if test a.nzcv c_mask
    then set_x rd_idx (if bit64 then u64 (x a rd_idx + 1) else u32 (w a rd_idx + 1)) a
    else a

unfoldable pub addc_reg : ℕ → ℕ → ℕ → Bool → Bool → Arm → Outcome Arm
unfolding add_reg
addc_reg rd_idx rn_idx rm_idx setflags bit64 a = do
  a' ← add_reg rd_idx rn_idx rm_idx setflags bit64 a
  ok (add_carry rd_idx bit64 a')

unfoldable pub subc_reg : ℕ → ℕ → ℕ → Bool → Bool → Arm → Outcome Arm
unfolding sub_reg
subc_reg rd_idx rn_idx rm_idx setflags bit64 a = do
  a' ← sub_reg rd_idx rn_idx rm_idx setflags bit64 a
  ok (add_carry rd_idx bit64 a')

unfoldable pub and_i64 : ℕ → ℕ → ℕ → Bool → Bool → Arm → Outcome Arm
and_i64 rd_idx rn_idx wmask setflags bit64 a =
    arithmetic_logic rd_idx (xw bit64 a rn_idx) wmask setflags bit64 OpType.and a

unfoldable pub orr_i64 : ℕ → ℕ → ℕ → Bool → Arm → Outcome Arm
orr_i64 rd_idx rn_idx wmask bit64 a =
    arithmetic_logic rd_idx (xw bit64 a rn_idx) wmask false bit64 OpType.or a

unfoldable pub eor_i64 : ℕ → ℕ → ℕ → Bool → Arm → Outcome Arm
eor_i64 rd_idx rn_idx wmask bit64 a =
    arithmetic_logic rd_idx (xw bit64 a rn_idx) wmask false bit64 OpType.eor a

unfoldable pub shift_i64 : ℕ → ℕ → OpType → ℕ → Bool → Arm → Outcome Arm
shift_i64 rd_idx rn_idx shift_type shift_amount bit64 a =
    arithmetic_logic rd_idx (xw bit64 a rn_idx) shift_amount false bit64 shift_type a

unfoldable pub and_reg : ℕ → ℕ → ℕ → Bool → Bool → Arm → Outcome Arm
and_reg rd_idx rn_idx rm_idx setflags bit64 a =
    arithmetic_logic rd_idx (xw bit64 a rn_idx) (xw bit64 a rm_idx) setflags bit64 OpType.and a

unfoldable pub orr_reg : ℕ → ℕ → ℕ → Bool → Arm → Outcome Arm
orr_reg rd_idx rn_idx rm_idx bit64 a =
    arithmetic_logic (handle_as_sp rd_idx) (xw bit64 a rn_idx) (xw bit64 a rm_idx) false bit64
      OpType.or a

unfoldable pub eor_reg : ℕ → ℕ → ℕ → Bool → Arm → Outcome Arm
eor_reg rd_idx rn_idx rm_idx bit64 a =
    arithmetic_logic (handle_as_sp rd_idx) (xw bit64 a rn_idx) (xw bit64 a rm_idx) false bit64
      OpType.eor a

-- ~X(rm), or ~W(rm) as a uint32_t.
abbrev not_xw : Bool → ℕ → ℕ
not_xw true v = not64 v
not_xw false v = 2 ^ 32 - 1 - v

unfoldable pub bic_reg : ℕ → ℕ → ℕ → Bool → Bool → Arm → Outcome Arm
bic_reg rd_idx rn_idx rm_idx setflags bit64 a =
    arithmetic_logic rd_idx (xw bit64 a rn_idx) (not_xw bit64 (xw bit64 a rm_idx)) setflags bit64
      OpType.and a

unfoldable pub not_reg : ℕ → ℕ → Bool → Arm → Outcome Arm
not_reg rd_idx rm_idx bit64 a = ok (set_x rd_idx (not_xw bit64 (xw bit64 a rm_idx)) a)

-- The two switches of ExtendRegI64.
extended : Bool → ℕ → ℕ → ℕ
extended is_signed extsize imm =
    if extsize == 0
    then if is_signed then sext8 imm else bit_and imm 0xff
    else if extsize == 1
    then if is_signed then sext16 imm else bit_and imm 0xffff
    else if extsize == 2
    then if is_signed then sext32 imm else bit_and imm 0xffffffff
    else imm

extend_reg_i64 : ℕ → ℕ → ℕ → Arm → Outcome Arm
unfolding extended
extend_reg_i64 rd_idx imm option a = do
  extsize ← extract32 option 0 2
  is_signed ← extract32 option 2 1
  ok (set_x rd_idx (extended (not (is_signed == 0)) extsize imm) a)

unfoldable pub extend_reg : ℕ → ℕ → ℕ → Bool → Arm → Outcome Arm
unfolding extend_reg_i64
extend_reg rd_idx rn_idx extend_type bit64 a =
    extend_reg_i64 rd_idx (xw bit64 a rn_idx) extend_type a
