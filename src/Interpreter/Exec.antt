-- ===== src/Interpreter/Exec.antt =====
-- ARMv8/Interpreter.cpp: the callback behind each call of a decoder.
use nsemu.Common.{
  ℕ, ◌-◌, Bool, leb, ◌==◌, if◌then◌else◌, Outcome, ok, fault, ◌>>=◌, Option, none, some, List, [],
  ◌∷◌,
}
use nsemu.Machine.{Arm, Machine}
use nsemu.Cpu.Alu.{OpType}
use nsemu.Cpu.Arith.{
  movi_i64, deposit_i64, deposit_reg, deposit_zero_reg, mov_reg, cond_mov_reg, add_i64, sub_i64,
  add_reg, sub_reg, div_reg, shift_reg, addc_reg, subc_reg, and_i64, orr_i64, eor_i64, shift_i64,
  and_reg, orr_reg, eor_reg, bic_reg, not_reg, extend_reg,
}
use nsemu.Cpu.Mul.{mul_reg, mul2_reg}
use nsemu.Cpu.Bitfield.{
  sextract_i64, uextract_i64, sext_32, rev_bit, rev_byte16, rev_byte32, rev_byte64, cnt_lead_zero,
  cnt_lead_sign,
}
use nsemu.Cpu.LoadStore.{
  load_reg, store_reg, load_reg_i64, store_reg_i64, load_vec_reg, store_vec_reg, load_fp_reg,
  store_fp_reg, load_fp_reg_i64, store_fp_reg_i64,
}
use nsemu.Cpu.Vector.{
  read_vec_reg, dup_vec_imm_i64, dup_vec_reg, dup_vec_reg_from_gen, fmov_reg, fmov_conv,
  and_vec_reg, orr_vec_reg, eor_vec_reg, bic_vec_reg, not_vec_reg, read_vec_elem, write_vec_elem,
  compare_equal_vec, compare_test_bits_vec,
}
use nsemu.Cpu.Branch.{
  cond_cmp_i64, cond_cmp_reg, branch_i64, branch_condi_i64, branch_flag, set_pc_reg, brk,
  read_write_sys_reg, read_write_nzcv,
}
use nsemu.Disas.Callback.{Call}

abbrev pub Handlers : Type 0
Handlers = ℕ → Option (Machine → Outcome Machine)

-- OpType, from its number: LSL, LSR, ASR, ROR; the decoders pass no other.
abbrev pub shift_op : ℕ → OpType
shift_op n =
    if n == 0
    then OpType.lsl
    else if n == 1
    then OpType.lsr
    else if n == 2
    then OpType.asr
    else OpType.ror

-- SVC; svc_handlers has 0x80 entries.
unfoldable pub svc : Handlers → ℕ → Machine → Outcome Machine
svc handlers svc_num m =
    if leb 0x80 svc_num
    then fault
    else elim (handlers svc_num) [ none ↦ ok m | some handler ↦ handler m ]

-- A callback on the registers alone.
abbrev pub lift : (Arm → Outcome Arm) → Machine → Outcome Machine
lift f m = do a ← f m.cpu; ok (record m { cpu = a })

-- The bytes of SysReg: an access that does not lie inside is a fault.
abbrev pub sysr_size : ℕ
sysr_size = 48

abbrev pub checked_sys_reg : ℕ → ℕ → Bool → Arm → Outcome Arm
checked_sys_reg rd offset read a =
    if leb offset (sysr_size - 8) then read_write_sys_reg rd offset read a else fault

unfoldable pub exec : Handlers → Call → Machine → Outcome Machine
exec h (Call.movi_i64 rd imm b) m = lift (movi_i64 rd imm b) m
exec h (Call.deposit_i64 rd imm pos len b) m = lift (deposit_i64 rd imm pos len b) m
exec h (Call.deposit_reg rd rn pos len b) m = lift (deposit_reg rd rn pos len b) m
exec h (Call.deposit_zero_reg rd rn pos len b) m = lift (deposit_zero_reg rd rn pos len b) m
exec h (Call.mov_reg rd rn b) m = lift (mov_reg rd rn b) m
exec h (Call.cond_mov_reg cond rd rn rm b) m = lift (cond_mov_reg cond rd rn rm b) m
exec h (Call.add_i64 rd rn imm setflags b) m = lift (add_i64 rd rn imm setflags b) m
exec h (Call.sub_i64 rd rn imm setflags b) m = lift (sub_i64 rd rn imm setflags b) m
exec h (Call.add_reg rd rn rm setflags b) m = lift (add_reg rd rn rm setflags b) m
exec h (Call.sub_reg rd rn rm setflags b) m = lift (sub_reg rd rn rm setflags b) m
exec h (Call.mul_reg rd rn rm sign dst64 src64) m = lift (mul_reg rd rn rm sign dst64 src64) m
exec h (Call.mul2_reg rh rl rn rm sign) m = lift (mul2_reg rh rl rn rm sign) m
exec h (Call.div_reg rd rn rm sign b) m = lift (div_reg rd rn rm sign b) m
exec h (Call.shift_reg rd rn rm type b) m = lift (shift_reg rd rn rm (shift_op type) b) m
exec h (Call.addc_reg rd rn rm setflags b) m = lift (addc_reg rd rn rm setflags b) m
exec h (Call.subc_reg rd rn rm setflags b) m = lift (subc_reg rd rn rm setflags b) m
exec h (Call.and_i64 rd rn wmask setflags b) m = lift (and_i64 rd rn wmask setflags b) m
exec h (Call.orr_i64 rd rn wmask b) m = lift (orr_i64 rd rn wmask b) m
exec h (Call.eor_i64 rd rn wmask b) m = lift (eor_i64 rd rn wmask b) m
exec h (Call.shift_i64 rd rn type amount b) m = lift (shift_i64 rd rn (shift_op type) amount b) m
exec h (Call.and_reg rd rn rm setflags b) m = lift (and_reg rd rn rm setflags b) m
exec h (Call.bic_reg rd rn rm setflags b) m = lift (bic_reg rd rn rm setflags b) m
exec h (Call.orr_reg rd rn rm b) m = lift (orr_reg rd rn rm b) m
exec h (Call.eor_reg rd rn rm b) m = lift (eor_reg rd rn rm b) m
exec h (Call.not_reg rd rm b) m = lift (not_reg rd rm b) m
exec h (Call.extend_reg rd rn type b) m = lift (extend_reg rd rn type b) m
exec h (Call.load_reg rd base rm size sign extend post b) m =
    load_reg rd base rm size sign extend post b m
exec h (Call.store_reg rd base rm size sign extend post b) m =
    store_reg rd base rm size sign extend post b m
exec h (Call.load_reg_i64 rd ad size sign extend) m = load_reg_i64 rd ad size sign extend m
exec h (Call.store_reg_i64 rd ad size sign extend) m = store_reg_i64 rd ad size sign extend m
exec h (Call.sextract_i64 rd rn pos len b) m = lift (sextract_i64 rd rn pos len b) m
exec h (Call.uextract_i64 rd rn pos len b) m = lift (uextract_i64 rd rn pos len b) m
exec h (Call.sext_32 rd rn) m = lift (sext_32 rd rn) m
exec h (Call.rev_bit rd rn b) m = lift (rev_bit rd rn b) m
exec h (Call.rev_byte16 rd rn b) m = lift (rev_byte16 rd rn b) m
exec h (Call.rev_byte32 rd rn b) m = lift (rev_byte32 rd rn b) m
exec h (Call.rev_byte64 rd rn b) m = lift (rev_byte64 rd rn b) m
exec h (Call.cnt_lead_zero rd rn b) m = lift (cnt_lead_zero rd rn b) m
exec h (Call.cnt_lead_sign rd rn b) m = lift (cnt_lead_sign rd rn b) m
exec h (Call.cond_cmp_i64 rn imm nzcv cond op b) m = lift (cond_cmp_i64 rn imm nzcv cond op b) m
exec h (Call.cond_cmp_reg rn rm nzcv cond op b) m = lift (cond_cmp_reg rn rm nzcv cond op b) m
exec h (Call.branch_i64 imm) m = lift (branch_i64 imm) m
exec h (Call.branch_condi_i64 cond rt imm addr b) m = lift (branch_condi_i64 cond rt imm addr b) m
exec h (Call.branch_flag cond addr) m = lift (branch_flag cond addr) m
exec h (Call.set_pc_reg rt) m = lift (set_pc_reg rt) m
exec h (Call.svc num) m = svc h num m
exec h (Call.brk memo) m = brk m
exec h (Call.read_write_sys_reg rd offset read) m = lift (checked_sys_reg rd offset read) m
exec h (Call.read_write_nzcv rd read) m = lift (read_write_nzcv rd read) m
exec h (Call.fmov_reg fd fn type) m = lift (fmov_reg fd fn type) m
exec h (Call.fmov_conv rd rn type itof) m = lift (fmov_conv rd rn type itof) m
exec h (Call.and_vec_reg rd rn rm) m = lift (and_vec_reg rd rn rm) m
exec h (Call.orr_vec_reg rd rn rm) m = lift (orr_vec_reg rd rn rm) m
exec h (Call.eor_vec_reg rd rn rm) m = lift (eor_vec_reg rd rn rm) m
exec h (Call.bic_vec_reg rd rn rm) m = lift (bic_vec_reg rd rn rm) m
exec h (Call.not_vec_reg rd rm) m = lift (not_vec_reg rd rm) m
exec h (Call.load_vec_reg vd element rn size) m = load_vec_reg vd element rn size m
exec h (Call.store_vec_reg rd element vn size) m = store_vec_reg rd element vn size m
exec h (Call.load_fp_reg rd base rm size post b) m = load_fp_reg rd base rm size post b m
exec h (Call.store_fp_reg rd base rm size post b) m = store_fp_reg rd base rm size post b m
exec h (Call.load_fp_reg_i64 fd ad size) m = load_fp_reg_i64 fd ad size m
exec h (Call.store_fp_reg_i64 fd ad size) m = store_fp_reg_i64 fd ad size m
exec h (Call.read_vec_reg rd vn index size) m = lift (read_vec_reg rd vn index size) m
exec h (Call.read_vec_elem rd vn index size) m = lift (read_vec_elem rd vn index size) m
exec h (Call.write_vec_elem vd rn index size) m = lift (write_vec_elem vd rn index size) m
exec h (Call.dup_vec_imm_i64 vd imm size dstsize) m = lift (dup_vec_imm_i64 vd imm size dstsize) m
exec h (Call.dup_vec_reg vd vn index size dstsize) m = lift (dup_vec_reg vd vn index size dstsize) m
exec h (Call.dup_vec_reg_from_gen vd rn size dstsize) m =
    lift (dup_vec_reg_from_gen vd rn size dstsize) m
exec h (Call.compare_equal_vec vd vn vm index size) m =
    lift (compare_equal_vec vd vn vm index size) m
exec h (Call.compare_test_bits_vec vd vn vm index size) m =
    lift (compare_test_bits_vec vd vn vm index size) m

-- The calls one after the other.
unfoldable pub exec_all : Handlers → List Call → Machine → Outcome Machine
exec_all h [] m = ok m
exec_all h (c ∷ cs) m = do m' ← exec h c m; exec_all h cs m'
