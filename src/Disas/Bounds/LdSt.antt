-- ===== src/Disas/Bounds/LdSt.antt =====
-- ARMv8/Disassembler.cpp: loads and stores of registers stay inside the register file.
use nsemu.Common.{ℕ, Bool, true, false, ◌<◌, arith}
use nsemu.Disas.Field.{field, bit}
use nsemu.Disas.LdSt.{
  disas_ldst_excl, disas_ld_lit, disas_ldst_reg_roffset, disas_ldst_reg_imm9,
  disas_ldst_reg_unsigned_imm, disas_ldst_reg, disas_ldst_pair,
}
use nsemu.Disas.Bounds.{Decodes, reg-lt}

module _ (insn : ℕ) where
  pub disas_ldst_excl-Decodes : Decodes (disas_ldst_excl insn)
  unfolding disas_ldst_excl
  disas_ldst_excl-Decodes =
      ground (arith, reg-lt insn 0, reg-lt insn 5, reg-lt insn 10, reg-lt insn 16)

  pub disas_ld_lit-Decodes : Decodes (disas_ld_lit insn)
  unfolding disas_ld_lit
  disas_ld_lit-Decodes = ground (arith, reg-lt insn 0)

  pub disas_ldst_pair-Decodes : Decodes (disas_ldst_pair insn)
  unfolding disas_ldst_pair
  disas_ldst_pair-Decodes = ground (arith, reg-lt insn 0, reg-lt insn 5, reg-lt insn 10)

  disas_ldst_reg_roffset-Decodes :
      (opc size rt : ℕ) (is_vector : Bool)
      → rt < 32
      → Decodes (disas_ldst_reg_roffset insn opc size rt is_vector)
  unfolding disas_ldst_reg_roffset
  disas_ldst_reg_roffset-Decodes opc size rt true h = ground (arith, reg-lt insn 5, reg-lt insn 16)
  disas_ldst_reg_roffset-Decodes opc size rt false h = ground (arith, reg-lt insn 5, reg-lt insn 16)

  disas_ldst_reg_imm9-Decodes :
      (opc size rt : ℕ) (is_vector : Bool)
      → rt < 32
      → Decodes (disas_ldst_reg_imm9 insn opc size rt is_vector)
  unfolding disas_ldst_reg_imm9
  disas_ldst_reg_imm9-Decodes opc size rt true h = ground (arith, reg-lt insn 5)
  disas_ldst_reg_imm9-Decodes opc size rt false h = ground (arith, reg-lt insn 5)

  disas_ldst_reg_unsigned_imm-Decodes :
      (opc size rt : ℕ) (is_vector : Bool)
      → rt < 32
      → Decodes (disas_ldst_reg_unsigned_imm insn opc size rt is_vector)
  unfolding disas_ldst_reg_unsigned_imm
  disas_ldst_reg_unsigned_imm-Decodes opc size rt true h = ground (arith, reg-lt insn 5)
  disas_ldst_reg_unsigned_imm-Decodes opc size rt false h = ground (arith, reg-lt insn 5)

  pub disas_ldst_reg-Decodes : Decodes (disas_ldst_reg insn)
  unfolding disas_ldst_reg
  disas_ldst_reg-Decodes =
      let opc : ℕ = field insn 22 2 in
      let size : ℕ = field insn 30 2 in
      let rt : ℕ = field insn 0 5 in
      ground (
        arith,
        disas_ldst_reg_roffset-Decodes opc size rt (bit insn 26) (reg-lt insn 0),
        disas_ldst_reg_imm9-Decodes opc size rt (bit insn 26) (reg-lt insn 0),
        disas_ldst_reg_unsigned_imm-Decodes opc size rt (bit insn 26) (reg-lt insn 0),
      )
