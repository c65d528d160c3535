-- ===== src/Cpu/Branch.antt =====
-- ARMv8/Interpreter.cpp: conditional compares, branches, system registers and the breakpoint.
use nsemu.Common.{
  ℕ, ◌+◌, ◌-◌, ◌^◌, Bool, true, u32, u64, bit_and, ◌<<<◌, ◌==◌, if◌then◌else◌, Outcome, ok, ◌>>=◌,
}
use nsemu.Common.Lists.{update}
use nsemu.Machine.{Arm, Machine, gpr_zero, pc_idx}
use nsemu.Gdb.Send.{trap}
use nsemu.Cpu.{x, set_x, xw, set_nzcv}
use nsemu.Cpu.Flags.{cond_hold}
use nsemu.Cpu.Arith.{add_i64, sub_i64, add_reg, sub_reg}

abbrev set_pc : ℕ → Arm → Arm
set_pc addr a = set_x pc_idx addr a

unfoldable pub cond_cmp_i64 : ℕ → ℕ → ℕ → ℕ → ℕ → Bool → Arm → Outcome Arm
cond_cmp_i64 rn_idx imm nzcv cond op bit64 a = do
  hold ← cond_hold cond a.nzcv
  if hold
      then if op == 0
        then add_i64 gpr_zero rn_idx imm true bit64 a
        else sub_i64 gpr_zero rn_idx imm true bit64 a
      else ok (set_nzcv (u32 (nzcv <<< 28)) a)

unfoldable pub cond_cmp_reg : ℕ → ℕ → ℕ → ℕ → ℕ → Bool → Arm → Outcome Arm
cond_cmp_reg rn_idx rm_idx nzcv cond op bit64 a = do
  hold ← cond_hold cond a.nzcv
  if hold
      then if op == 0
        then add_reg gpr_zero rn_idx rm_idx true bit64 a
        else sub_reg gpr_zero rn_idx rm_idx true bit64 a
      else ok (set_nzcv (u32 (nzcv <<< 28)) a)

unfoldable pub branch_i64 : ℕ → Arm → Outcome Arm
branch_i64 imm a = ok (set_pc imm a)

-- Disassembler::CondType_EQ and CondType_NE, the only conditions that this callback takes.
abbrev pub cond_type_eq : ℕ
cond_type_eq = 0

abbrev pub cond_type_ne : ℕ
cond_type_ne = 1

unfoldable pub branch_condi_i64 : ℕ → ℕ → ℕ → ℕ → Bool → Arm → Outcome Arm
branch_condi_i64 cond rt_idx imm addr bit64 a =
    if cond == cond_type_eq
    then if xw bit64 a rt_idx == imm then ok (set_pc addr a) else ok a
    else if cond == cond_type_ne
    then if xw bit64 a rt_idx == imm then ok a else ok (set_pc addr a)
    else ok a

unfoldable pub branch_flag : ℕ → ℕ → Arm → Outcome Arm
branch_flag cond addr a = do hold ← cond_hold cond a.nzcv; ok (if hold then set_pc addr a else a)

unfoldable pub set_pc_reg : ℕ → Arm → Outcome Arm
set_pc_reg rt_idx a = ok (set_pc (u64 (x a rt_idx + 2 ^ 64 - 4)) a)

unfoldable pub brk : Machine → Outcome Machine
brk m = ok (record m { cpu = set_pc (u64 (x m.cpu pc_idx + 2 ^ 64 - 4)) m.cpu; gdb = trap m.gdb })

unfoldable pub read_write_sys_reg : ℕ → ℕ → Bool → Arm → Outcome Arm
read_write_sys_reg rd_idx offset read a =
    if read
    then ok (set_x rd_idx (a.sysr offset) a)
    else ok (record a { sysr = update a.sysr offset (x a rd_idx) })

unfoldable pub read_write_nzcv : ℕ → Bool → Arm → Outcome Arm
read_write_nzcv rd_idx read a =
    if read then ok (set_x rd_idx a.nzcv a) else ok (set_nzcv (bit_and (x a rd_idx) 0xffffffff) a)
