-- ===== src/Disas/Bounds/Word.antt =====
-- ARMv8/Disassembler.cpp: DisasA64 stays inside the register files.
use nsemu.Common.{ℕ, ◌||◌, ◌==◌, leb, if◌then◌else◌, Outcome, abort, List, arith}
use nsemu.Disas.{disas_a64}
use nsemu.Disas.Callback.{Call}
use nsemu.Disas.Field.{field}
use nsemu.Disas.Imm.{disas_data_proc_imm}
use nsemu.Disas.Branch.{disas_branch_exc_sys}
use nsemu.Disas.Reg.{disas_data_proc_reg}
use nsemu.Disas.LdStVec.{disas_ld_st}
use nsemu.Disas.Simd.{disas_data_proc_simd_fp}
use nsemu.Disas.Bounds.{Decodes}
use nsemu.Disas.Bounds.Imm.{disas_data_proc_imm-Decodes}
use nsemu.Disas.Bounds.Branch.{disas_branch_exc_sys-Decodes}
use nsemu.Disas.Bounds.Reg.{disas_data_proc_reg-Decodes}
use nsemu.Disas.Bounds.LdStVec.{disas_ld_st-Decodes}
use nsemu.Disas.Bounds.Simd.{disas_data_proc_simd_fp-Decodes}

-- The switch of DisasA64, for decoders that are all in range.
switch-Decodes :
    (g : ℕ) (imm branch load reg simd : Outcome (List Call))
    → Decodes imm
    → Decodes branch
    → Decodes load
    → Decodes reg
    → Decodes simd
    → Decodes (
        if leb g 0x3
        then abort
        else if g == 0x8 || g == 0x9
        then imm
        else if g == 0xa || g == 0xb
        then branch
        else if g == 0x4 || g == 0x6 || g == 0xc || g == 0xe
        then load
        else if g == 0x5 || g == 0xd
        then reg
        else if g == 0x7 || g == 0xf
        then simd
        else abort)
switch-Decodes g imm branch load reg simd a b c d e = ground arith

-- For every instruction word, allocated or not, DisasA64 ends in an abort or makes calls whose general
-- registers lie inside gpr[37], whose vector registers inside vreg[33], and whose vector elements
-- inside the 16 bytes of their register.
pub disas_a64-Decodes : (insn pc : ℕ) → Decodes (disas_a64 insn pc)
unfolding disas_a64
disas_a64-Decodes insn pc =
    switch-Decodes (field insn 25 4) (disas_data_proc_imm insn) (disas_branch_exc_sys insn pc)
      (disas_ld_st insn) (disas_data_proc_reg insn) (disas_data_proc_simd_fp insn)
      (disas_data_proc_imm-Decodes insn) (disas_branch_exc_sys-Decodes insn pc)
      (disas_ld_st-Decodes insn) (disas_data_proc_reg-Decodes insn)
      (disas_data_proc_simd_fp-Decodes insn)
