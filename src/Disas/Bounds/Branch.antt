-- ===== src/Disas/Bounds/Branch.antt =====
-- ARMv8/Disassembler.cpp: branches, exceptions and system instructions stay inside the register file.
use nsemu.Common.{ℕ, Bool, Option, none, some, ◌==◌, arith}
use nsemu.Disas.Field.{field}
use nsemu.Disas.System.{
  SysRegInfo, disas_hint, disas_sync, disas_system_hint, sys_reg_calls, get_sys_reg, sysreg_table,
  encode_system_reg, sysreg_cp, disas_system,
}
use nsemu.Disas.Branch.{
  disas_uncond_br_imm, disas_comp_br_imm, disas_test_br_imm, disas_cond_br_imm, disas_uncond_br_reg,
  disas_exception, disas_branch_exc_sys,
}
use nsemu.Disas.Bounds.{Decodes, reg-lt}

module _ (insn pc : ℕ) where
  disas_uncond_br_imm-Decodes : Decodes (disas_uncond_br_imm insn)
  unfolding disas_uncond_br_imm
  disas_uncond_br_imm-Decodes = ground (arith)

  disas_comp_br_imm-Decodes : Decodes (disas_comp_br_imm insn pc)
  unfolding disas_comp_br_imm
  disas_comp_br_imm-Decodes = ground (arith, reg-lt insn 0)

  disas_test_br_imm-Decodes : Decodes (disas_test_br_imm insn pc)
  unfolding disas_test_br_imm
  disas_test_br_imm-Decodes = ground (arith, reg-lt insn 0)

  disas_cond_br_imm-Decodes : Decodes (disas_cond_br_imm insn pc)
  unfolding disas_cond_br_imm
  disas_cond_br_imm-Decodes = ground (arith)

  disas_uncond_br_reg-Decodes : Decodes (disas_uncond_br_reg insn)
  unfolding disas_uncond_br_reg
  disas_uncond_br_reg-Decodes = ground (arith, reg-lt insn 5)

  disas_exception-Decodes : Decodes (disas_exception insn)
  unfolding disas_exception
  disas_exception-Decodes = ground (arith)

  disas_system_hint-Decodes : Decodes (disas_system_hint insn)
  unfolding disas_system_hint disas_hint disas_sync
  disas_system_hint-Decodes = ground arith

  sys_reg_calls-Decodes :
      (found : Option SysRegInfo) (isread : Bool)
      → Decodes (sys_reg_calls found (field insn 0 5) isread)
  unfolding sys_reg_calls
  sys_reg_calls-Decodes none isread = tt
  sys_reg_calls-Decodes (some ri) isread = ground (arith, reg-lt insn 0)

  disas_system-Decodes : Decodes (disas_system insn)
  unfolding disas_system
  disas_system-Decodes =
      let encoded : ℕ =
        encode_system_reg sysreg_cp (field insn 12 4) (field insn 8 4) (field insn 19 2)
          (field insn 16 3) (field insn 5 3) in
      ground (
        arith,
        disas_system_hint-Decodes,
        sys_reg_calls-Decodes (get_sys_reg sysreg_table encoded) (field insn 21 1 == 1),
      )

  pub disas_branch_exc_sys-Decodes : Decodes (disas_branch_exc_sys insn pc)
  unfolding disas_branch_exc_sys
  disas_branch_exc_sys-Decodes = ground (
    arith, disas_uncond_br_imm-Decodes, disas_comp_br_imm-Decodes, disas_test_br_imm-Decodes,
    disas_cond_br_imm-Decodes, disas_uncond_br_reg-Decodes, disas_exception-Decodes,
    disas_system-Decodes,
  )
