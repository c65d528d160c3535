-- ===== src/Disas/System.antt =====
-- ARMv8/Disassembler.cpp: the table of system registers, hints, barriers, MRS and MSR.
use nsemu.Common.{
  ℕ, zero, suc, ◌+◌, ◌-◌, ◌^◌, Bool, not, ◌||◌, ◌<<<◌, bit_and, bit_or, ◌==◌, if◌then◌else◌,
  Outcome, ok, abort, Option, none, some, List, [], ◌∷◌,
}
use nsemu.Disas.Callback.{Call, read_write_sys_reg, read_write_nzcv}
use nsemu.Disas.Field.{field, bit}

-- A64SysRegInfo, without its name. The table is static, so a member that a constructor leaves out,
-- as all three entries leave out `cp` and `type`, is 0. An offset of -1 is its 32-bit word.
pub record SysRegInfo : Type 0 where
  pub cp : ℕ
  pub crn : ℕ
  pub crm : ℕ
  pub opc0 : ℕ
  pub opc1 : ℕ
  pub opc2 : ℕ
  pub state : ℕ
  pub type : ℕ
  pub offset : ℕ

abbrev pub cp_any : ℕ
cp_any = 0xff

abbrev pub cp_state_aa64 : ℕ
cp_state_aa64 = 1

abbrev pub cp_state_both : ℕ
cp_state_both = 2

abbrev pub sysreg_cp : ℕ
sysreg_cp = 0x13

-- ENCODE_SYSTEM_REG.
unfoldable pub encode_system_reg : ℕ → ℕ → ℕ → ℕ → ℕ → ℕ → ℕ
encode_system_reg cp crn crm op0 op1 op2 =
    bit_or
      (bit_or
        (bit_or (bit_or (bit_or (bit_or (2 ^ 28) (cp <<< 16)) (op0 <<< 14)) (op1 <<< 11))
          (crn <<< 7))
        (crm <<< 3))
      op2

abbrev register : ℕ → ℕ → ℕ → ℕ → ℕ → ℕ → SysRegInfo
register opc0 opc1 opc2 crn crm offset = record {
  cp = 0;
  crn = crn;
  crm = crm;
  opc0 = opc0;
  opc1 = opc1;
  opc2 = opc2;
  state = cp_state_aa64;
  type = 0;
  offset = offset;
}

-- TPIDRRO_EL0, DCZID_EL0 and DC_ZVA; SysReg holds tpidr_el at 0, tpidrro_el at 32, tczid_el at 40.
abbrev pub cp_reginfo : List SysRegInfo
cp_reginfo = register 3 3 3 13 0 32 ∷ register 3 3 7 0 0 40 ∷ register 1 3 1 7 4 (2 ^ 32 - 1) ∷ []

abbrev pub SysRegTable : Type 0
SysRegTable = List (ℕ × SysRegInfo)

-- AddSysReg at ARM_CP_STATE_AA64: an entry put before the others hides those with its key.
unfoldable pub add_sys_reg : SysRegInfo → ℕ → ℕ → ℕ → SysRegTable → SysRegTable
unfolding encode_system_reg
add_sys_reg r crm opc1 opc2 table =
    let cp = if r.cp == 0 || r.state == cp_state_both then sysreg_cp else r.cp in
    (encode_system_reg cp r.crn crm r.opc0 opc1 opc2, r) ∷ table

-- A `for` loop with `left` rounds to go from `i`.
for_range : ℕ → ℕ → (ℕ → SysRegTable → SysRegTable) → SysRegTable → SysRegTable
for_range zero i body table = table
for_range (suc left) i body table = for_range left (i + 1) body (body i table)

-- The loop over one coordinate of DefineSysReg: all its values for CP_ANY, else the one given.
abbrev over : ℕ → ℕ → (ℕ → SysRegTable → SysRegTable) → SysRegTable → SysRegTable
over value count body table =
    if value == cp_any then for_range count 0 body table else for_range 1 value body table

unfoldable pub define_sys_reg : SysRegInfo → SysRegTable → SysRegTable
unfolding for_range add_sys_reg
define_sys_reg r = over r.crm 16 (λ crm. over r.opc1 8 (λ opc1. over r.opc2 8 (λ opc2 table.
    if r.state == cp_state_aa64 || r.state == cp_state_both
    then add_sys_reg r crm opc1 opc2 table
    else table)))

-- DefineSysRegs; the sentinel is the end of the list.
unfoldable pub define_sys_regs : List SysRegInfo → SysRegTable → SysRegTable
unfolding define_sys_reg
define_sys_regs [] table = table
define_sys_regs (r ∷ regs) table = define_sys_regs regs (define_sys_reg r table)

-- The table that Init leaves.
unfoldable pub sysreg_table : SysRegTable
unfolding define_sys_regs
sysreg_table = define_sys_regs cp_reginfo []

unfoldable pub get_sys_reg : SysRegTable → ℕ → Option SysRegInfo
get_sys_reg [] encoded_op = none
get_sys_reg ((key, r) ∷ table) encoded_op =
    let rest = get_sys_reg table encoded_op in if key == encoded_op then some r else rest

-- Of the hints only NOP is taken, and nothing is called for it.
unfoldable pub disas_hint : ℕ → ℕ → ℕ → Outcome (List Call)
disas_hint op1 op2 crm =
    if not (op1 == 3) then abort else if bit_or (crm <<< 3) op2 == 0 then ok [] else abort

-- CLREX, DSB, DMB and ISB call nothing.
unfoldable pub disas_sync : ℕ → ℕ → Outcome (List Call)
disas_sync op1 op2 =
    if not (op1 == 3)
    then abort
    else if op2 == 2 || (op2 == 4 || (op2 == 5 || op2 == 6))
    then ok []
    else abort

-- DisasSystem, op0 == 0.
unfoldable pub disas_system_hint : ℕ → Outcome (List Call)
unfolding disas_hint disas_sync
disas_system_hint insn =
    let op1 = field insn 16 3 in
    let crn = field insn 12 4 in
    let crm = field insn 8 4 in
    let op2 = field insn 5 3 in
    if bit insn 21 || not (field insn 0 5 == 31)
    then abort
    else if crn == 2
    then disas_hint op1 op2 crm
    else if crn == 3
    then disas_sync op1 op2
    else abort

-- The switch on the special types, ARM_CP_FLAG_MASK & ~ARM_CP_SPECIAL taken off.
unfoldable pub sys_reg_calls : Option SysRegInfo → ℕ → Bool → Outcome (List Call)
sys_reg_calls none rt isread = abort
sys_reg_calls (some ri) rt isread =
    let special = bit_and ri.type (2 ^ 32 - 1 - bit_and 0x30ff (2 ^ 32 - 1 - 1)) in
    if special == 0x101
    then ok []
    else if special == 0x301
    then ok (read_write_nzcv rt isread ∷ [])
    else if special == 0x401
    then abort
    else if special == 0x501
    then ok []
    else ok (read_write_sys_reg rt ri.offset isread ∷ [])

unfoldable pub disas_system : ℕ → Outcome (List Call)
unfolding disas_system_hint get_sys_reg sysreg_table encode_system_reg sys_reg_calls
disas_system insn =
    let op0 = field insn 19 2 in
    let encoded =
      encode_system_reg sysreg_cp (field insn 12 4) (field insn 8 4) op0 (field insn 16 3)
        (field insn 5 3) in
    if op0 == 0
    then disas_system_hint insn
    else sys_reg_calls (get_sys_reg sysreg_table encoded) (field insn 0 5) (bit insn 21)
