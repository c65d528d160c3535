-- ===== src/Cpu/Flags.antt =====
-- ARMv8/Interpreter.cpp: the condition flags, how they are set and how conditions read them.
pub mod Conditions
use nsemu.Common.{
  ℕ, zero, suc, ◌+◌, ◌-◌, ◌*◌, ◌/◌, ◌%◌, ◌^◌, ◌≤◌, ◌<◌, ◌≡◌, Bool, true, false, not, ◌&&◌, ◌||◌,
  u32, bit_and, bit_or, bit_xor, ◌==◌, if◌then◌else◌, Outcome, ok, abort,
}

abbrev pub n_mask : ℕ
n_mask = 0x80000000

abbrev pub z_mask : ℕ
z_mask = 0x40000000

abbrev pub c_mask : ℕ
c_mask = 0x20000000

abbrev pub v_mask : ℕ
v_mask = 0x10000000

-- (nzcv & mask) != 0.
abbrev pub test : ℕ → ℕ → Bool
test nzcv mask = not (bit_and nzcv mask == 0)

abbrev same : Bool → Bool → Bool
same true b = b
same false b = not b

-- The `else if` ladder of CondHold, by cond >> 1.
unfoldable pub cond_base : ℕ → ℕ → Outcome Bool
cond_base c nzcv =
    if c == 0
    then ok (test nzcv z_mask)
    else if c == 1
    then ok (test nzcv c_mask)
    else if c == 2
    then ok (test nzcv n_mask)
    else if c == 3
    then ok (test nzcv v_mask)
    else if c == 4
    then ok (test nzcv c_mask && not (test nzcv z_mask))
    else if c == 5
    then ok (same (test nzcv n_mask) (test nzcv v_mask))
    else if c == 6
    then ok (same (test nzcv n_mask) (test nzcv v_mask) && not (test nzcv z_mask))
    else abort

abbrev negate_if : Bool → Outcome Bool → Outcome Bool
negate_if odd (ok b) = ok (if odd then not b else b)
negate_if odd abort = abort
negate_if odd Outcome.fault = Outcome.fault

unfoldable pub cond_hold : ℕ → ℕ → Outcome Bool
unfolding cond_base
cond_hold cond nzcv =
    if cond / 2 == 7
    then ok true
    else negate_if (not (bit_and cond 1 == 0)) (cond_base (cond / 2) nzcv)

unfoldable pub is_negative32 : ℕ → Bool
is_negative32 num = not (bit_and num (2 ^ 31) == 0)

unfoldable pub is_negative64 : ℕ → Bool
is_negative64 num = not (bit_and num (2 ^ 63) == 0)

abbrev or_if : Bool → ℕ → ℕ → ℕ
or_if b mask nzcv = if b then bit_or nzcv mask else nzcv

-- The flag word, mask by mask in the order of the source.
abbrev pub nzcv_of : Bool → Bool → Bool → Bool → ℕ
nzcv_of n z c v = or_if v v_mask (or_if c c_mask (or_if z z_mask (or_if n n_mask 0)))

unfoldable pub update_flag32 : ℕ → ℕ → ℕ → ℕ
unfolding is_negative32
update_flag32 res arg1 arg2 =
    nzcv_of (is_negative32 res) (res == 0)
      (not (u32 (bit_and arg1 arg2 + bit_xor arg1 arg2 / 2) / 2 ^ 31 == 0))
      ((is_negative32 arg1 && is_negative32 arg2 && not (is_negative32 res))
        || (not (is_negative32 arg1) && not (is_negative32 arg2) && is_negative32 res))

unfoldable pub update_flag64 : ℕ → ℕ → ℕ → ℕ
unfolding is_negative64
update_flag64 res arg1 arg2 =
    nzcv_of (is_negative64 res) (res == 0)
      (not ((bit_and arg1 arg2 + bit_xor arg1 arg2 / 2) % 2 ^ 64 / 2 ^ 63 == 0))
      ((is_negative64 arg1 && is_negative64 arg2 && not (is_negative64 res))
        || (not (is_negative64 arg1) && not (is_negative64 arg2) && is_negative64 res))
