-- ===== src/Disas/Bounds/Reg.antt =====
-- ARMv8/Disassembler.cpp: data processing on registers stays inside the register file.
use nsemu.Common.{ℕ, Bool, true, false, bit_or, ◌<<<◌, arith}
use nsemu.Disas.Field.{field, bit}
use nsemu.Disas.Reg.{
  logic_reg, disas_logic_reg, disas_add_sub_ext_reg, disas_add_sub_reg, data_proc_3src,
  disas_data_proc_3src, disas_add_subc_reg, disas_cond_cmp, disas_cond_sel, disas_data_proc_1src,
  disas_data_proc_2src, data_proc_other, disas_data_proc_reg,
}
use nsemu.Disas.Bounds.{Decodes, AllInRange, reg-lt}

module _ (insn : ℕ) where
  logic_reg-Decodes :
      (op : ℕ) (sf : Bool) → Decodes (logic_reg op (field insn 0 5) (field insn 5 5) sf)
  unfolding logic_reg
  logic_reg-Decodes op sf = ground (arith, reg-lt insn 0, reg-lt insn 5)

  disas_add_sub_ext_reg-Decodes : Decodes (disas_add_sub_ext_reg insn)
  unfolding disas_add_sub_ext_reg
  disas_add_sub_ext_reg-Decodes = ground (arith, reg-lt insn 0, reg-lt insn 5, reg-lt insn 16)

  disas_add_sub_reg-Decodes : Decodes (disas_add_sub_reg insn)
  unfolding disas_add_sub_reg
  disas_add_sub_reg-Decodes = ground (arith, reg-lt insn 0, reg-lt insn 5, reg-lt insn 16)

  data_proc_3src-AllInRange :
      (op_id : ℕ) (is_signed : Bool) → AllInRange (data_proc_3src insn op_id is_signed)
  unfolding data_proc_3src
  data_proc_3src-AllInRange op_id is_signed =
      ground (arith, reg-lt insn 0, reg-lt insn 5, reg-lt insn 10, reg-lt insn 16)

  disas_data_proc_3src-Decodes : Decodes (disas_data_proc_3src insn)
  unfolding disas_data_proc_3src
  disas_data_proc_3src-Decodes =
      let op_id : ℕ =
        bit_or (bit_or (field insn 29 3 <<< 4) (field insn 21 3 <<< 1)) (field insn 15 1) in
      ground (arith, data_proc_3src-AllInRange op_id true, data_proc_3src-AllInRange op_id false)

  disas_add_subc_reg-Decodes : Decodes (disas_add_subc_reg insn)
  unfolding disas_add_subc_reg
  disas_add_subc_reg-Decodes = ground (arith, reg-lt insn 0, reg-lt insn 5, reg-lt insn 16)

  disas_cond_cmp-Decodes : Decodes (disas_cond_cmp insn)
  unfolding disas_cond_cmp
  disas_cond_cmp-Decodes = ground (arith, reg-lt insn 5, reg-lt insn 16)

  disas_cond_sel-Decodes : Decodes (disas_cond_sel insn)
  unfolding disas_cond_sel
  disas_cond_sel-Decodes = ground (arith, reg-lt insn 0, reg-lt insn 5, reg-lt insn 16)

  disas_data_proc_1src-Decodes : Decodes (disas_data_proc_1src insn)
  unfolding disas_data_proc_1src
  disas_data_proc_1src-Decodes = ground (arith, reg-lt insn 0, reg-lt insn 5)

  disas_data_proc_2src-Decodes : Decodes (disas_data_proc_2src insn)
  unfolding disas_data_proc_2src
  disas_data_proc_2src-Decodes = ground (arith, reg-lt insn 0, reg-lt insn 5, reg-lt insn 16)

  data_proc_other-Decodes : Decodes (data_proc_other insn)
  unfolding data_proc_other
  data_proc_other-Decodes = ground (
    arith, disas_add_subc_reg-Decodes, disas_cond_cmp-Decodes, disas_cond_sel-Decodes,
    disas_data_proc_1src-Decodes, disas_data_proc_2src-Decodes,
  )

  disas_logic_reg-Decodes : Decodes (disas_logic_reg insn)
  unfolding disas_logic_reg
  disas_logic_reg-Decodes =
      let op : ℕ = bit_or (field insn 29 2) (field insn 21 1 <<< 2) in
      ground
        (arith, reg-lt insn 0, reg-lt insn 5, reg-lt insn 16, logic_reg-Decodes op (bit insn 31))

  pub disas_data_proc_reg-Decodes : Decodes (disas_data_proc_reg insn)
  unfolding disas_data_proc_reg
  disas_data_proc_reg-Decodes = ground (
    arith, disas_logic_reg-Decodes, disas_add_sub_ext_reg-Decodes, disas_add_sub_reg-Decodes,
    disas_data_proc_3src-Decodes, data_proc_other-Decodes,
  )
