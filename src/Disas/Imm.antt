-- ===== src/Disas/Imm.antt =====
-- ARMv8/Disassembler.cpp: data processing with an immediate operand.
use nsemu.Common.{
  ℕ, ◌+◌, ◌-◌, ◌^◌, Bool, true, false, not, ◌&&◌, ◌||◌, u64, not64, ◌<<<◌, ◌>>>◌, bit_and, bit_or,
  ltb, leb, ◌==◌, if◌then◌else◌, Outcome, ok, abort, ◌>>=◌, Option, none, some, List, [], ◌∷◌,
}
use nsemu.Machine.{gpr_dummy, pc_idx}
use nsemu.Util.{bitmask64, replicate64}
use nsemu.Util.Count.{clz32}
use nsemu.Disas.Callback.{
  Call, movi_i64, deposit_i64, deposit_reg, deposit_zero_reg, mov_reg, add_i64, sub_i64, and_i64,
  orr_i64, eor_i64, shift_i64, orr_reg, sextract_i64, uextract_i64,
}
use nsemu.Disas.Field.{field, bit, signed_field}

-- ShiftType.
abbrev pub shift_type_lsl : ℕ
shift_type_lsl = 0

abbrev pub shift_type_lsr : ℕ
shift_type_lsr = 1

abbrev pub shift_type_asr : ℕ
shift_type_asr = 2

abbrev pub shift_type_ror : ℕ
shift_type_ror = 3

-- The mask of one element, `s + 1` ones rotated right by `r` in `e` bits.
unfoldable pub element_mask : ℕ → ℕ → ℕ → Outcome ℕ
element_mask e s r = do
  mask ← bitmask64 (s + 1)
  if r == 0
      then ok mask
      else do whole ← bitmask64 e; ok (bit_and (bit_or (mask >>> r) (u64 (mask <<< (e - r)))) whole)

-- LogicImmDecode, from the length of the pattern on; `none` is the result false.
unfoldable pub decode_mask : ℕ → ℕ → ℕ → Outcome (Option ℕ)
unfolding element_mask
decode_mask len imms immr =
    let e = 2 ^ len in
    let levels = e - 1 in
    let s = bit_and imms levels in
    let r = bit_and immr levels in
    if s == levels
    then ok none
    else do mask ← element_mask e s r; wmask ← replicate64 mask e; ok (some wmask)

-- LogicImmDecode. `len` is 31 - clz32 (...), which is below 1 where clz32 is above 30.
unfoldable pub logic_imm_decode : ℕ → ℕ → ℕ → Outcome (Option ℕ)
unfolding clz32 decode_mask
logic_imm_decode immn imms immr =
    let zeros = clz32 (bit_or (immn <<< 6) (bit_and (2 ^ 32 - 1 - imms) 0x3f)) in
    if not (ltb immn 2 && ltb imms 64 && ltb immr 64)
    then abort
    else if ltb 30 zeros
    then ok none
    else decode_mask (31 - zeros) imms immr

unfoldable pub disas_pc_rel_addr : ℕ → Outcome (List Call)
disas_pc_rel_addr insn =
    let page = bit insn 31 in
    let offset = bit_or (u64 (signed_field insn 5 19 <<< 2)) (field insn 29 2) in
    let rd = field insn 0 5 in
    if page
    then ok (
        mov_reg gpr_dummy pc_idx true
        ∷ and_i64 gpr_dummy gpr_dummy (not64 0xfff) false true
        ∷ add_i64 gpr_dummy gpr_dummy (u64 (offset <<< 12)) false true
        ∷ mov_reg rd gpr_dummy true
        ∷ [])
    else ok (
        mov_reg gpr_dummy pc_idx true
        ∷ add_i64 gpr_dummy gpr_dummy offset false true
        ∷ mov_reg rd gpr_dummy true
        ∷ [])

add_sub_imm : ℕ → ℕ → Call
add_sub_imm insn imm =
    let rd = field insn 0 5 in
    let rn = field insn 5 5 in
    if bit insn 30
    then sub_i64 rd rn imm (bit insn 29) (bit insn 31)
    else add_i64 rd rn imm (bit insn 29) (bit insn 31)

unfoldable pub disas_add_sub_imm : ℕ → Outcome (List Call)
unfolding add_sub_imm
disas_add_sub_imm insn =
    let imm = field insn 10 12 in
    let shift = field insn 22 2 in
    if shift == 0
    then ok (add_sub_imm insn imm ∷ [])
    else if shift == 1
    then ok (add_sub_imm insn (u64 (imm <<< 12)) ∷ [])
    else abort

-- The switch of DisasLogImm on the operation.
unfoldable pub log_imm : ℕ → ℕ → Outcome (List Call)
log_imm insn wmask =
    let is_64bit = bit insn 31 in
    let opc = field insn 29 2 in
    let rn = field insn 5 5 in
    let rd = field insn 0 5 in
    if opc == 3
    then ok (and_i64 rd rn wmask true is_64bit ∷ [])
    else if opc == 0
    then ok (and_i64 rd rn wmask false is_64bit ∷ [])
    else if opc == 1
    then ok (orr_i64 rd rn wmask is_64bit ∷ [])
    else if opc == 2
    then ok (eor_i64 rd rn wmask is_64bit ∷ [])
    else abort

unfoldable pub log_imm_decoded : ℕ → Option ℕ → Outcome (List Call)
unfolding log_imm
log_imm_decoded insn none = abort
log_imm_decoded insn (some wmask) =
    log_imm insn (if bit insn 31 then wmask else bit_and wmask 0xffffffff)

unfoldable pub disas_log_imm : ℕ → Outcome (List Call)
unfolding logic_imm_decode log_imm_decoded
disas_log_imm insn = do
  decoded ← logic_imm_decode (field insn 22 1) (field insn 10 6) (field insn 16 6)
  log_imm_decoded insn decoded

unfoldable pub disas_movw_imm : ℕ → Outcome (List Call)
disas_movw_imm insn =
    let is_64bit = bit insn 31 in
    let opc = field insn 29 2 in
    let imm = field insn 5 16 in
    let pos = field insn 21 2 <<< 4 in
    let rd = field insn 0 5 in
    let shifted = u64 (imm <<< pos) in
    let wide = if opc == 0 then not64 shifted else shifted in
    if not is_64bit && leb 32 pos
    then abort
    else if opc == 0 || opc == 2
    then ok (movi_i64 rd (if is_64bit then wide else bit_and wide 0xffffffff) is_64bit ∷ [])
    else if opc == 3
    then ok (deposit_i64 rd imm pos 16 is_64bit ∷ [])
    else abort

-- The end of DisasBitfield, for the field that is deposited.
bitfield_deposit : ℕ → ℕ → ℕ → ℕ → Bool → Call
bitfield_deposit opc rd pos len is_64bit =
    if opc == 1
    then deposit_reg rd gpr_dummy pos len is_64bit
    else deposit_zero_reg rd gpr_dummy pos len is_64bit

-- The case si >= ri.
bitfield_extract : ℕ → ℕ → ℕ → ℕ → Bool → List Call
unfolding bitfield_deposit
bitfield_extract opc rd ri si is_64bit =
    let len = si - ri + 1 in
    if opc == 0
    then sextract_i64 rd gpr_dummy ri len is_64bit ∷ []
    else if opc == 2
    then uextract_i64 rd gpr_dummy ri len is_64bit ∷ []
    else uextract_i64 gpr_dummy gpr_dummy ri len is_64bit
      ∷ bitfield_deposit opc rd 0 len is_64bit
      ∷ []

-- The case si < ri.
bitfield_insert : ℕ → ℕ → ℕ → ℕ → ℕ → Bool → List Call
unfolding bitfield_deposit
bitfield_insert bitsize opc rd ri si is_64bit =
    let len = si + 1 in
    let pos = bit_and (bitsize - ri) (bitsize - 1) in
    if opc == 0 && ltb len ri
    then sextract_i64 gpr_dummy gpr_dummy 0 len is_64bit
      ∷ bitfield_deposit opc rd pos ri is_64bit
      ∷ []
    else bitfield_deposit opc rd pos len is_64bit ∷ []

unfoldable pub disas_bitfield : ℕ → Outcome (List Call)
unfolding bitfield_extract bitfield_insert
disas_bitfield insn =
    let is_64bit = bit insn 31 in
    let opc = field insn 29 2 in
    let ri = field insn 16 6 in
    let si = field insn 10 6 in
    let rd = field insn 0 5 in
    let bitsize = if is_64bit then 64 else 32 in
    if not (field insn 31 1 == field insn 22 1) || leb bitsize ri || leb bitsize si || ltb 2 opc
    then abort
    else ok (
        mov_reg gpr_dummy (field insn 5 5) true
        ∷ (if leb ri si
            then bitfield_extract opc rd ri si is_64bit
            else bitfield_insert bitsize opc rd ri si is_64bit))

unfoldable pub disas_extract : ℕ → Outcome (List Call)
disas_extract insn =
    let sf = bit insn 31 in
    let rm = field insn 16 5 in
    let imm = field insn 10 6 in
    let rn = field insn 5 5 in
    let rd = field insn 0 5 in
    let bitsize = if sf then 64 else 32 in
    if not (field insn 31 1 == field insn 22 1)
      || not (field insn 29 2 == 0)
      || bit insn 21
      || leb bitsize imm
    then abort
    else if imm == 0
    then ok (mov_reg rd rm sf ∷ [])
    else if rm == rn
    then ok (shift_i64 rd rm shift_type_ror imm sf ∷ [])
    else ok (
        shift_i64 rm rm shift_type_lsr imm sf
        ∷ shift_i64 rn rn shift_type_lsr imm sf
        ∷ orr_reg rd rm rn sf
        ∷ [])

unfoldable pub disas_data_proc_imm : ℕ → Outcome (List Call)
unfolding disas_pc_rel_addr disas_add_sub_imm disas_log_imm disas_movw_imm disas_bitfield
    disas_extract
disas_data_proc_imm insn =
    let group = field insn 23 6 in
    if group == 0x20 || group == 0x21
    then disas_pc_rel_addr insn
    else if group == 0x22 || group == 0x23
    then disas_add_sub_imm insn
    else if group == 0x24
    then disas_log_imm insn
    else if group == 0x25
    then disas_movw_imm insn
    else if group == 0x26
    then disas_bitfield insn
    else if group == 0x27
    then disas_extract insn
    else abort
