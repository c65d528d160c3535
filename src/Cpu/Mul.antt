-- ===== src/Cpu/Mul.antt =====
-- ARMv8/Interpreter.cpp: the wide multiplications.
pub mod Product
use nsemu.Common.{
  ℕ, suc, ◌+◌, ◌-◌, ◌*◌, ◌/◌, ◌%◌, ◌^◌, ◌≤◌, ◌<◌, ◌≡◌, refl, ap, Bool, true, false, u32, u64,
  if◌then◌else◌, Outcome, ok, arith,
}
use nsemu.Machine.{Arm}
use nsemu.Cpu.{x, w, set_x}

-- Umul64 by halves, with the carries of the source; the pair is (*res_h, *res_l).
unfoldable pub umul64 : ℕ → ℕ → ℕ × ℕ
umul64 arg1 arg2 =
    let a0_low = u32 arg1 in
    let a0_high = arg1 / 2 ^ 32 in
    let b0_low = u32 arg2 in
    let b0_high = arg2 / 2 ^ 32 in
    let rl = a0_low * b0_low in
    let rm = a0_low * b0_high in
    let rn = a0_high * b0_low in
    let rh = a0_high * b0_high in
    let c = u64 (rl / 2 ^ 32 + u32 rm + u32 rn) in
    let rl_high = u32 c in
    let c' = u64 (c / 2 ^ 32 + rm / 2 ^ 32 + rn / 2 ^ 32 + u32 rh) in
    let rh_low = u32 c' in
    let rh_high = u32 (rh / 2 ^ 32 + u32 (c' / 2 ^ 32)) in
    (rh_high * 2 ^ 32 + rh_low, rl_high * 2 ^ 32 + u32 rl)

-- Smul64: the call Umul64 (res_l, &rh, ...) names the high half first, and the tests `arg < 0` are
-- of unsigned numbers and never pass.
unfoldable pub smul64 : ℕ → ℕ → ℕ × ℕ
unfolding umul64
smul64 arg1 arg2 = let (high, low) = umul64 arg1 arg2 in (low, high)

unfoldable pub mul_reg : ℕ → ℕ → ℕ → Bool → Bool → Bool → Arm → Outcome Arm
mul_reg rd_idx rn_idx rm_idx sign true true a = ok (set_x rd_idx (u64 (x a rn_idx * x a rm_idx)) a)
mul_reg rd_idx rn_idx rm_idx sign true false a =
    ok (
      set_x rd_idx (if sign then u64 (w a rn_idx * w a rm_idx) else u64 (w a rn_idx * w a rm_idx))
        a)
mul_reg rd_idx rn_idx rm_idx sign false src64 a =
    ok (set_x rd_idx (u32 (w a rn_idx * w a rm_idx)) a)

-- Umul64 stores the low half first, Smul64 too: the last store is X(rh).
unfoldable pub mul2_reg : ℕ → ℕ → ℕ → ℕ → Bool → Arm → Outcome Arm
mul2_reg rh_idx rl_idx rn_idx rm_idx sign a =
    let (high, low) =
      if sign then smul64 (x a rn_idx) (x a rm_idx) else umul64 (x a rn_idx) (x a rm_idx) in
    ok (set_x rh_idx high (set_x rl_idx low a))
