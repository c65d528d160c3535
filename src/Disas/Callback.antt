-- ===== src/Disas/Callback.antt =====
-- include/ARMv8/Disassembler.hpp: class DisasCallback, as the calls that a decoder makes.
use Prim.Native.Nat.{ℕ}
use mathlib.Core.Bool.{Bool}

-- A constructor for each method that a decoder calls, with the method's arguments. An `int` or a
-- `uint64_t` argument is its word of 32 or 64 bits.
pub data Call : Type 0 where
  movi_i64 : ℕ → ℕ → Bool → Call
  deposit_i64 : ℕ → ℕ → ℕ → ℕ → Bool → Call
  deposit_reg deposit_zero_reg : ℕ → ℕ → ℕ → ℕ → Bool → Call
  mov_reg : ℕ → ℕ → Bool → Call
  cond_mov_reg : ℕ → ℕ → ℕ → ℕ → Bool → Call
  add_i64 sub_i64 : ℕ → ℕ → ℕ → Bool → Bool → Call
  add_reg sub_reg : ℕ → ℕ → ℕ → Bool → Bool → Call
  mul_reg : ℕ → ℕ → ℕ → Bool → Bool → Bool → Call
  mul2_reg : ℕ → ℕ → ℕ → ℕ → Bool → Call
  div_reg : ℕ → ℕ → ℕ → Bool → Bool → Call
  shift_reg : ℕ → ℕ → ℕ → ℕ → Bool → Call
  addc_reg subc_reg : ℕ → ℕ → ℕ → Bool → Bool → Call
  and_i64 : ℕ → ℕ → ℕ → Bool → Bool → Call
  orr_i64 eor_i64 : ℕ → ℕ → ℕ → Bool → Call
  shift_i64 : ℕ → ℕ → ℕ → ℕ → Bool → Call
  and_reg bic_reg : ℕ → ℕ → ℕ → Bool → Bool → Call
  orr_reg eor_reg : ℕ → ℕ → ℕ → Bool → Call
  not_reg : ℕ → ℕ → Bool → Call
  extend_reg : ℕ → ℕ → ℕ → Bool → Call
  load_reg store_reg : ℕ → ℕ → ℕ → ℕ → Bool → Bool → Bool → Bool → Call
  load_reg_i64 store_reg_i64 : ℕ → ℕ → ℕ → Bool → Bool → Call
  sextract_i64 uextract_i64 : ℕ → ℕ → ℕ → ℕ → Bool → Call
  sext_32 : ℕ → ℕ → Call
  rev_bit rev_byte16 rev_byte32 rev_byte64 cnt_lead_zero cnt_lead_sign : ℕ → ℕ → Bool → Call
  cond_cmp_i64 cond_cmp_reg : ℕ → ℕ → ℕ → ℕ → ℕ → Bool → Call
  branch_i64 : ℕ → Call
  branch_condi_i64 : ℕ → ℕ → ℕ → ℕ → Bool → Call
  branch_flag : ℕ → ℕ → Call
  set_pc_reg svc brk : ℕ → Call
  read_write_sys_reg : ℕ → ℕ → Bool → Call
  read_write_nzcv : ℕ → Bool → Call
  fmov_reg : ℕ → ℕ → ℕ → Call
  fmov_conv : ℕ → ℕ → ℕ → Bool → Call
  and_vec_reg orr_vec_reg eor_vec_reg bic_vec_reg : ℕ → ℕ → ℕ → Call
  not_vec_reg : ℕ → ℕ → Call
  load_vec_reg store_vec_reg : ℕ → ℕ → ℕ → ℕ → Call
  load_fp_reg store_fp_reg : ℕ → ℕ → ℕ → ℕ → Bool → Bool → Call
  load_fp_reg_i64 store_fp_reg_i64 : ℕ → ℕ → ℕ → Call
  read_vec_reg read_vec_elem write_vec_elem : ℕ → ℕ → ℕ → ℕ → Call
  dup_vec_imm_i64 : ℕ → ℕ → ℕ → ℕ → Call
  dup_vec_reg : ℕ → ℕ → ℕ → ℕ → ℕ → Call
  dup_vec_reg_from_gen : ℕ → ℕ → ℕ → ℕ → Call
  compare_equal_vec compare_test_bits_vec : ℕ → ℕ → ℕ → ℕ → ℕ → Call
