-- ===== src/Disas/Branch.antt =====
-- ARMv8/Disassembler.cpp: branches, exceptions and system instructions. `pc` is the value of PC, the
-- address of the instruction; SingleStep adds 4 after the callbacks.
use nsemu.Common.{
  ℕ, ◌+◌, ◌-◌, ◌*◌, ◌^◌, Bool, true, false, not, ◌||◌, u32, u64, ◌<<<◌, bit_or, ltb, ◌==◌,
  if◌then◌else◌, Outcome, ok, abort, List, [], ◌∷◌,
}
use nsemu.Machine.{gpr_lr, gpr_dummy, pc_idx}
use nsemu.Cpu.Branch.{cond_type_eq, cond_type_ne}
use nsemu.Disas.Callback.{
  Call, add_i64, and_i64, branch_i64, branch_condi_i64, branch_flag, set_pc_reg, svc, brk,
}
use nsemu.Disas.Field.{field, bit, signed_field}
use nsemu.Disas.System.{disas_system}

unfoldable pub disas_uncond_br_imm : ℕ → Outcome (List Call)
disas_uncond_br_imm insn =
    let target = add_i64 gpr_dummy pc_idx (u64 (signed_field insn 0 26 * 4)) false true in
    if bit insn 31
    then ok (target ∷ add_i64 gpr_lr pc_idx 4 false true ∷ set_pc_reg gpr_dummy ∷ [])
    else ok (target ∷ set_pc_reg gpr_dummy ∷ [])

-- PC + offset * 4 - 4.
abbrev pub branch_target : ℕ → ℕ → ℕ
branch_target pc offset = u64 (pc + offset * 4 + (2 ^ 64 - 4))

abbrev cond_type : Bool → ℕ
cond_type op = if op then cond_type_ne else cond_type_eq

unfoldable pub disas_comp_br_imm : ℕ → ℕ → Outcome (List Call)
disas_comp_br_imm insn pc = ok (
    branch_condi_i64 (cond_type (bit insn 24)) (field insn 0 5) 0
      (branch_target pc (signed_field insn 5 19)) (bit insn 31)
    ∷ [])

-- The address is an unsigned int.
unfoldable pub disas_test_br_imm : ℕ → ℕ → Outcome (List Call)
disas_test_br_imm insn pc =
    let bit_pos = bit_or (field insn 31 1 <<< 5) (field insn 19 5) in
    ok (
      and_i64 gpr_dummy (field insn 0 5) (u64 (2 ^ bit_pos)) false true
      ∷ branch_condi_i64 (cond_type (bit insn 24)) gpr_dummy 0
          (u32 (branch_target pc (signed_field insn 5 14))) true
      ∷ [])

unfoldable pub disas_cond_br_imm : ℕ → ℕ → Outcome (List Call)
disas_cond_br_imm insn pc =
    let cond = field insn 0 4 in
    let addr = branch_target pc (signed_field insn 5 19) in
    if bit insn 4 || bit insn 24
    then abort
    else if ltb cond 0xe
    then ok (branch_flag cond addr ∷ [])
    else ok (branch_i64 addr ∷ [])

unfoldable pub disas_uncond_br_reg : ℕ → Outcome (List Call)
disas_uncond_br_reg insn =
    let opc = field insn 21 4 in
    let rn = field insn 5 5 in
    if not (field insn 0 5 == 0) || not (field insn 10 6 == 0) || not (field insn 16 5 == 0x1f)
    then abort
    else if opc == 1
    then ok (add_i64 gpr_lr pc_idx 4 false true ∷ set_pc_reg rn ∷ [])
    else if opc == 0 || opc == 2
    then ok (set_pc_reg rn ∷ [])
    else abort

unfoldable pub disas_exception : ℕ → Outcome (List Call)
disas_exception insn =
    let opc = field insn 21 3 in
    let imm16 = field insn 5 16 in
    if opc == 0
    then if field insn 0 5 == 1 then ok (svc imm16 ∷ []) else abort
    else if opc == 1
    then ok (brk imm16 ∷ [])
    else abort

unfoldable pub disas_branch_exc_sys : ℕ → ℕ → Outcome (List Call)
unfolding disas_uncond_br_imm disas_comp_br_imm disas_test_br_imm disas_cond_br_imm
    disas_uncond_br_reg disas_exception disas_system
disas_branch_exc_sys insn pc =
    let group = field insn 25 7 in
    if group == 0x0a || group == 0x0b || group == 0x4a || group == 0x4b
    then disas_uncond_br_imm insn
    else if group == 0x1a || group == 0x5a
    then disas_comp_br_imm insn pc
    else if group == 0x1b || group == 0x5b
    then disas_test_br_imm insn pc
    else if group == 0x2a
    then disas_cond_br_imm insn pc
    else if group == 0x6a
    then if bit insn 24 then disas_system insn else disas_exception insn
    else if group == 0x6b
    then disas_uncond_br_reg insn
    else abort
