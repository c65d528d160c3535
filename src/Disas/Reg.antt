-- ===== src/Disas/Reg.antt =====
-- ARMv8/Disassembler.cpp: data processing on registers.
use nsemu.Common.{
  ℕ, Bool, true, false, not, ◌&&◌, ◌||◌, ◌<<<◌, bit_or, ltb, leb, ◌==◌, if◌then◌else◌, Outcome, ok,
  abort, ◌>>=◌, List, [], ◌∷◌, ◌++◌,
}
use nsemu.Machine.{gpr_dummy}
use nsemu.Disas.Callback.{
  Call, mov_reg, not_reg, shift_i64, and_reg, orr_reg, eor_reg, bic_reg, extend_reg, add_reg,
  sub_reg, mul_reg, mul2_reg, addc_reg, subc_reg, cond_cmp_i64, cond_cmp_reg, cond_mov_reg, add_i64,
  rev_bit, rev_byte16, rev_byte32, rev_byte64, cnt_lead_zero, cnt_lead_sign, div_reg, shift_reg,
}
use nsemu.Disas.Field.{field, bit}
use nsemu.Disas.Imm.{shift_type_lsl, shift_type_lsr, shift_type_asr, shift_type_ror}

-- The switch of DisasLogicReg on opc | (invert << 2).
unfoldable pub logic_reg : ℕ → ℕ → ℕ → Bool → Outcome (List Call)
logic_reg op rd rn sf =
    if op == 0
    then ok (and_reg rd rn gpr_dummy false sf ∷ [])
    else if op == 3
    then ok (and_reg rd rn gpr_dummy true sf ∷ [])
    else if op == 1
    then ok (orr_reg rd rn gpr_dummy sf ∷ [])
    else if op == 2
    then ok (eor_reg rd rn gpr_dummy sf ∷ [])
    else if op == 4
    then ok (bic_reg rd rn gpr_dummy false sf ∷ [])
    else if op == 7
    then ok (bic_reg rd rn gpr_dummy true sf ∷ [])
    else if op == 5
    then ok (not_reg gpr_dummy gpr_dummy sf ∷ orr_reg rd rn gpr_dummy sf ∷ [])
    else if op == 6
    then ok (not_reg gpr_dummy gpr_dummy sf ∷ eor_reg rd rn gpr_dummy sf ∷ [])
    else abort

unfoldable pub disas_logic_reg : ℕ → Outcome (List Call)
unfolding logic_reg
disas_logic_reg insn =
    let sf = bit insn 31 in
    let opc = field insn 29 2 in
    let shift_type = field insn 22 2 in
    let invert = field insn 21 1 in
    let rm = field insn 16 5 in
    let shift_amount = field insn 10 6 in
    let rn = field insn 5 5 in
    let rd = field insn 0 5 in
    let shift =
      if shift_amount == 0 then [] else shift_i64 gpr_dummy rm shift_type shift_amount sf ∷ [] in
    if not sf && leb 32 shift_amount
    then abort
    else if opc == 1 && shift_amount == 0 && shift_type == 0 && rn == 31
    then if invert == 1 then ok (not_reg rd rm sf ∷ []) else ok (mov_reg rd rm sf ∷ [])
    else do
      calls ← logic_reg (bit_or opc (invert <<< 2)) rd rn sf
      ok (mov_reg gpr_dummy rm true ∷ shift ++ calls)

-- The addition or subtraction of the dummy register, which ends three of the decoders.
abbrev add_sub_dummy : ℕ → Call
add_sub_dummy insn =
    let rd = field insn 0 5 in
    let rn = field insn 5 5 in
    if bit insn 30
    then sub_reg rd rn gpr_dummy (bit insn 29) (bit insn 31)
    else add_reg rd rn gpr_dummy (bit insn 29) (bit insn 31)

unfoldable pub disas_add_sub_ext_reg : ℕ → Outcome (List Call)
disas_add_sub_ext_reg insn =
    let imm3 = field insn 10 3 in
    let sf = bit insn 31 in
    if ltb 4 imm3
    then abort
    else ok (
        extend_reg gpr_dummy (field insn 16 5) (field insn 13 3) sf
        ∷ shift_i64 gpr_dummy gpr_dummy shift_type_lsl imm3 sf
        ∷ add_sub_dummy insn
        ∷ [])

unfoldable pub disas_add_sub_reg : ℕ → Outcome (List Call)
disas_add_sub_reg insn =
    let imm6 = field insn 10 6 in
    let shift_type = field insn 22 2 in
    let sf = bit insn 31 in
    if shift_type == 3 || (not sf && ltb 31 imm6)
    then abort
    else ok (
        mov_reg gpr_dummy (field insn 16 5) true
        ∷ shift_i64 gpr_dummy gpr_dummy shift_type imm6 sf
        ∷ add_sub_dummy insn
        ∷ [])

-- The end of DisasDataProc3src; `is_signed` is found by the switch on op_id.
unfoldable pub data_proc_3src : ℕ → ℕ → Bool → List Call
data_proc_3src insn op_id is_signed =
    let rd = field insn 0 5 in
    let rn = field insn 5 5 in
    let ra = field insn 10 5 in
    let rm = field insn 16 5 in
    if bit op_id 2
    then mul2_reg rd gpr_dummy rn rm is_signed ∷ []
    else mul_reg gpr_dummy rn rm is_signed (bit insn 31) (ltb op_id 0x42)
      ∷ (if bit op_id 0
          then sub_reg rd ra gpr_dummy false true
          else add_reg rd ra gpr_dummy false true)
      ∷ []

unfoldable pub disas_data_proc_3src : ℕ → Outcome (List Call)
unfolding data_proc_3src
disas_data_proc_3src insn =
    let op_id = bit_or (bit_or (field insn 29 3 <<< 4) (field insn 21 3 <<< 1)) (field insn 15 1) in
    if op_id == 0x42 || op_id == 0x43 || op_id == 0x44
    then ok (data_proc_3src insn op_id true)
    else if op_id == 0x0
        || op_id == 0x1
        || op_id == 0x40
        || op_id == 0x41
        || op_id == 0x4a
        || op_id == 0x4b
        || op_id == 0x4c
    then ok (data_proc_3src insn op_id false)
    else abort

unfoldable pub disas_add_subc_reg : ℕ → Outcome (List Call)
disas_add_subc_reg insn =
    let rd = field insn 0 5 in
    let rn = field insn 5 5 in
    let rm = field insn 16 5 in
    if bit insn 30
    then ok (subc_reg rd rn rm (bit insn 29) (bit insn 31) ∷ [])
    else ok (addc_reg rd rn rm (bit insn 29) (bit insn 31) ∷ [])

unfoldable pub disas_cond_cmp : ℕ → Outcome (List Call)
disas_cond_cmp insn =
    let sf = bit insn 31 in
    let op = field insn 30 1 in
    let y = field insn 16 5 in
    let cond = field insn 12 4 in
    let rn = field insn 5 5 in
    let nzcv = field insn 0 4 in
    if not (bit insn 29)
    then abort
    else if bit insn 10 || bit insn 4
    then abort
    else if bit insn 11
    then ok (cond_cmp_i64 rn y nzcv cond op sf ∷ [])
    else ok (cond_cmp_reg rn y nzcv cond op sf ∷ [])

unfoldable pub disas_cond_sel : ℕ → Outcome (List Call)
disas_cond_sel insn =
    let sf = bit insn 31 in
    let inv = if bit insn 30 then not_reg gpr_dummy gpr_dummy sf ∷ [] else [] in
    let inc = if bit insn 10 then add_i64 gpr_dummy gpr_dummy 1 false sf ∷ [] else [] in
    if bit insn 29 || bit insn 11
    then abort
    else ok (
        mov_reg gpr_dummy (field insn 16 5) true ∷ inv
        ++ inc
        ++ cond_mov_reg (field insn 12 4) (field insn 0 5) (field insn 5 5) gpr_dummy sf ∷ [])

-- An opcode above 5 calls nothing.
unfoldable pub disas_data_proc_1src : ℕ → Outcome (List Call)
disas_data_proc_1src insn =
    let sf = bit insn 31 in
    let opcode = field insn 10 6 in
    let rn = field insn 5 5 in
    let rd = field insn 0 5 in
    if bit insn 29 || not (field insn 16 5 == 0)
    then abort
    else if opcode == 0
    then ok (rev_bit rd rn sf ∷ [])
    else if opcode == 1
    then ok (rev_byte16 rd rn sf ∷ [])
    else if opcode == 2
    then ok (rev_byte32 rd rn sf ∷ [])
    else if opcode == 3
    then ok (rev_byte64 rd rn sf ∷ [])
    else if opcode == 4
    then ok (cnt_lead_zero rd rn sf ∷ [])
    else if opcode == 5
    then ok (cnt_lead_sign rd rn sf ∷ [])
    else ok []

unfoldable pub disas_data_proc_2src : ℕ → Outcome (List Call)
disas_data_proc_2src insn =
    let sf = bit insn 31 in
    let rm = field insn 16 5 in
    let opcode = field insn 10 6 in
    let rn = field insn 5 5 in
    let rd = field insn 0 5 in
    if bit insn 29
    then abort
    else if opcode == 2
    then ok (div_reg rd rn rm false sf ∷ [])
    else if opcode == 3
    then ok (div_reg rd rn rm true sf ∷ [])
    else if opcode == 8
    then ok (shift_reg rd rn rm shift_type_lsl sf ∷ [])
    else if opcode == 9
    then ok (shift_reg rd rn rm shift_type_lsr sf ∷ [])
    else if opcode == 10
    then ok (shift_reg rd rn rm shift_type_asr sf ∷ [])
    else if opcode == 11
    then ok (shift_reg rd rn rm shift_type_ror sf ∷ [])
    else abort

-- The group 0x1a of DisasDataProcReg.
unfoldable pub data_proc_other : ℕ → Outcome (List Call)
unfolding disas_add_subc_reg disas_cond_cmp disas_cond_sel disas_data_proc_1src disas_data_proc_2src
data_proc_other insn =
    let op = field insn 21 3 in
    if op == 0
    then disas_add_subc_reg insn
    else if op == 2
    then disas_cond_cmp insn
    else if op == 4
    then disas_cond_sel insn
    else if op == 6
    then if bit insn 30 then disas_data_proc_1src insn else disas_data_proc_2src insn
    else abort

unfoldable pub disas_data_proc_reg : ℕ → Outcome (List Call)
unfolding disas_logic_reg disas_add_sub_ext_reg disas_add_sub_reg disas_data_proc_3src
    data_proc_other
disas_data_proc_reg insn =
    let group = field insn 24 5 in
    if group == 0x0a
    then disas_logic_reg insn
    else if group == 0x0b
    then if bit insn 21 then disas_add_sub_ext_reg insn else disas_add_sub_reg insn
    else if group == 0x1b
    then disas_data_proc_3src insn
    else if group == 0x1a
    then data_proc_other insn
    else abort
