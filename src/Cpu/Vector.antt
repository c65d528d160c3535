-- ===== src/Cpu/Vector.antt =====
-- ARMv8/Interpreter.cpp: callbacks on vector and floating-point registers that touch no memory.
-- A size of 0 to 3 is an element of 1, 2, 4 or 8 bytes.
use nsemu.Common.{
  ℕ, zero, suc, ◌+◌, ◌-◌, ◌*◌, ◌/◌, ◌%◌, ◌^◌, Bool, true, false, not64, bit_and, ◌==◌,
  if◌then◌else◌, Outcome, ok, ◌>>=◌,
}
use nsemu.Machine.{Arm}
use nsemu.Cpu.{x, w, set_x, lane, set_lane}
use nsemu.Cpu.Alu.{OpType, arithmetic_logic_value}
use nsemu.Cpu.LoadStore.{clear_vreg}

-- The ladders on `size`: what is done for elements of n bytes; any other size does nothing.
abbrev pub by_size : ℕ → (ℕ → Arm → Arm) → Arm → Arm
by_size size act a =
    if size == 0
    then act 1 a
    else if size == 1
    then act 2 a
    else if size == 2
    then act 4 a
    else if size == 3
    then act 8 a
    else a

unfoldable pub read_vec_reg : ℕ → ℕ → ℕ → ℕ → Arm → Outcome Arm
read_vec_reg rd_idx vn_idx index size a =
    ok (by_size size (λ n c. set_lane 8 rd_idx 0 (lane n c vn_idx index) c) (clear_vreg rd_idx a))

-- DupVecImm, whose loop makes dstsize / sec_size rounds: `left` of them are to go, and the next
-- writes element `e`. sec_size comes from the type of the immediate, the element from `size`.
unfoldable pub dup_loop : ℕ → ℕ → ℕ → ℕ → ℕ → Arm → Arm
dup_loop n vd_idx imm zero e a = a
dup_loop n vd_idx imm (suc left) e a =
    dup_loop n vd_idx imm left (e + 1) (set_lane n vd_idx e imm a)

abbrev element_bytes : ℕ → ℕ
element_bytes size = if size == 0 then 1 else if size == 1 then 2 else if size == 2 then 4 else 8

unfoldable pub dup_vec_imm : ℕ → ℕ → ℕ → ℕ → ℕ → Arm → Arm
unfolding dup_loop
dup_vec_imm type_bytes vd_idx imm size dstsize a =
    dup_loop (element_bytes size) vd_idx imm (dstsize / (type_bytes * 8)) 0 a

unfoldable pub dup_vec_imm_i32 : ℕ → ℕ → ℕ → ℕ → Arm → Outcome Arm
unfolding dup_vec_imm
dup_vec_imm_i32 vd_idx imm size dstsize a = ok (dup_vec_imm 4 vd_idx imm size dstsize a)

unfoldable pub dup_vec_imm_i64 : ℕ → ℕ → ℕ → ℕ → Arm → Outcome Arm
unfolding dup_vec_imm
dup_vec_imm_i64 vd_idx imm size dstsize a = ok (dup_vec_imm 8 vd_idx imm size dstsize a)

unfoldable pub dup_vec_reg : ℕ → ℕ → ℕ → ℕ → ℕ → Arm → Outcome Arm
unfolding dup_vec_imm
dup_vec_reg vd_idx vn_idx index size dstsize a =
    ok (by_size size (λ n c. dup_vec_imm n vd_idx (lane n c vn_idx index) size dstsize c) a)

unfoldable pub dup_vec_reg_from_gen : ℕ → ℕ → ℕ → ℕ → Arm → Outcome Arm
unfolding dup_vec_imm
dup_vec_reg_from_gen vd_idx rn_idx size dstsize a =
    ok (by_size size (λ n c. dup_vec_imm n vd_idx (x c rn_idx % 256 ^ n) size dstsize c) a)

unfoldable pub fmov_reg : ℕ → ℕ → ℕ → Arm → Outcome Arm
fmov_reg fd_idx fn_idx type a =
    if type == 0
    then ok (set_lane 4 fd_idx 0 (lane 4 a fn_idx 0) a)
    else if type == 1
    then ok (set_lane 8 fd_idx 0 (lane 8 a fn_idx 0) a)
    else if type == 3
    then ok (set_lane 2 fd_idx 0 (lane 2 a fn_idx 0) a)
    else ok a

-- The `Float <= Int` switch, on the cleared register, and the `Int <= Float` switch.
int_to_fp : ℕ → ℕ → ℕ → Arm → Arm
int_to_fp rd_idx rn_idx type a =
    if type == 0
    then set_lane 2 rd_idx 0 (w a rn_idx) a
    else if type == 1
    then set_lane 8 rd_idx 0 (x a rn_idx) a
    else if type == 2
    then set_lane 8 rd_idx 1 (x a rn_idx) a
    else if type == 3
    then set_lane 2 rd_idx 0 (x a rn_idx) a
    else a

fp_to_int : ℕ → ℕ → ℕ → Arm → Arm
fp_to_int rd_idx rn_idx type a =
    if type == 0
    then set_x rd_idx (lane 4 a rn_idx 0) a
    else if type == 1
    then set_x rd_idx (lane 8 a rn_idx 0) a
    else if type == 2
    then set_x rd_idx (lane 8 a rn_idx 1) a
    else if type == 3
    then set_x rd_idx (lane 2 a rn_idx 0) a
    else a

unfoldable pub fmov_conv : ℕ → ℕ → ℕ → Bool → Arm → Outcome Arm
unfolding int_to_fp fp_to_int
fmov_conv rd_idx rn_idx type itof a = ok (
    if itof
    then int_to_fp rd_idx rn_idx type (clear_vreg rd_idx a)
    else fp_to_int rd_idx rn_idx type a)

-- AndVecReg and its kin: d[0], then d[1], each by _ArithmeticLogic.
unfoldable pub vec_logic : OpType → (ℕ → ℕ) → ℕ → ℕ → ℕ → Arm → Outcome Arm
vec_logic op f rd_idx rn_idx rm_idx a = do
  (low, a₁) ← arithmetic_logic_value (lane 8 a rn_idx 0) (f (lane 8 a rm_idx 0)) false true op a
  let a₂ : Arm = set_lane 8 rd_idx 0 low a₁
  (high, a₃) ← arithmetic_logic_value (lane 8 a₂ rn_idx 1) (f (lane 8 a₂ rm_idx 1)) false true op a₂
  ok (set_lane 8 rd_idx 1 high a₃)

unfoldable pub and_vec_reg : ℕ → ℕ → ℕ → Arm → Outcome Arm
unfolding vec_logic
and_vec_reg rd_idx rn_idx rm_idx a = vec_logic OpType.and (λ v. v) rd_idx rn_idx rm_idx a

unfoldable pub orr_vec_reg : ℕ → ℕ → ℕ → Arm → Outcome Arm
unfolding vec_logic
orr_vec_reg rd_idx rn_idx rm_idx a = vec_logic OpType.or (λ v. v) rd_idx rn_idx rm_idx a

unfoldable pub eor_vec_reg : ℕ → ℕ → ℕ → Arm → Outcome Arm
unfolding vec_logic
eor_vec_reg rd_idx rn_idx rm_idx a = vec_logic OpType.eor (λ v. v) rd_idx rn_idx rm_idx a

unfoldable pub bic_vec_reg : ℕ → ℕ → ℕ → Arm → Outcome Arm
unfolding vec_logic
bic_vec_reg rd_idx rn_idx rm_idx a = vec_logic OpType.and (λ v. not64 v) rd_idx rn_idx rm_idx a

unfoldable pub not_vec_reg : ℕ → ℕ → Arm → Outcome Arm
not_vec_reg rd_idx rm_idx a =
    let a₁ : Arm = set_lane 8 rd_idx 0 (not64 (lane 8 a rm_idx 0)) a in
    ok (set_lane 8 rd_idx 1 (not64 (lane 8 a₁ rm_idx 1)) a₁)

unfoldable pub read_vec_elem : ℕ → ℕ → ℕ → ℕ → Arm → Outcome Arm
read_vec_elem rd_idx vn_idx index size a =
    ok (by_size size (λ n c. set_x rd_idx (lane n c vn_idx index) c) a)

unfoldable pub write_vec_elem : ℕ → ℕ → ℕ → ℕ → Arm → Outcome Arm
write_vec_elem vd_idx rn_idx index size a =
    ok (by_size size (λ n c. set_lane n vd_idx index (x c rn_idx % 256 ^ n) c) a)

-- _CompareTest at n bytes: `arg1 & arg2 != 0` is `arg1 & (arg2 != 0)`.
unfoldable pub compare_test : ℕ → ℕ → ℕ → Bool → ℕ
compare_test n arg1 arg2 and_test =
    let onflag = 256 ^ n - 1 in
    if and_test
    then if bit_and arg1 (if arg2 == 0 then 0 else 1) == 0 then 0 else onflag
    else if arg1 == arg2
    then onflag
    else 0

unfoldable pub compare_equal_vec : ℕ → ℕ → ℕ → ℕ → ℕ → Arm → Outcome Arm
unfolding compare_test
compare_equal_vec vd_idx vn_idx vm_idx index size a = ok (
    by_size size
      (λ n c.
        set_lane n vd_idx index
          (compare_test n (lane n c vn_idx index) (lane n c vm_idx index) false) c)
      a)

unfoldable pub compare_test_bits_vec : ℕ → ℕ → ℕ → ℕ → ℕ → Arm → Outcome Arm
unfolding compare_test
compare_test_bits_vec vd_idx vn_idx vm_idx index size a = ok (
    by_size size
      (λ n c.
        set_lane n vd_idx index
          (compare_test n (lane n c vn_idx index) (lane n c vm_idx index) true) c)
      a)
