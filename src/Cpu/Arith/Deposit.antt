-- ===== src/Cpu/Arith/Deposit.antt =====
-- ARMv8/Interpreter.cpp: DepositI64 (MOVK, BFI) as arithmetic on the fields of the destination.
use nsemu.Common.{
  ℕ, ◌+◌, ◌-◌, ◌*◌, ◌/◌, ◌%◌, ◌^◌, ◌≤◌, ◌<◌, ◌≡◌, ap, Bool, u64, not64, bit_and, bit_or, ok, arith,
}
use nsemu.Common.Bits.{bit_and_field, bit_or_middle, and_complement, pow-add}
use nsemu.Machine.{Arm, IsArm}
use nsemu.Cpu.{x, set_x}
use nsemu.Cpu.Arith.{deposit_i64}
use native.Mathlib.Nat.{one-le-pow, pow-le-pow_right, mod-lt, div-add-mod, mod-eq_of_lt}

-- A field below the top of the word, in place, is a word.
field_fits : (f pos len : ℕ) → f < 2 ^ len → pos + len ≤ 64 → f * 2 ^ pos < 2 ^ 64
field_fits f pos len h g =
    let step : f * 2 ^ pos < 2 ^ (len + pos) =
      rw (pow-add len pos) (scaled f (2 ^ len) (2 ^ pos) (one-le-pow pos 2 (omega arith)) h) in
    let top : 2 ^ (len + pos) ≤ 2 ^ 64 =
      pow-le-pow_right {n = 2} (omega arith) {j = 64} (omega arith) in
    omega arith
  where
    scaled : (p q s : ℕ) → 1 ≤ s → p < q → p * s < q * s
    scaled p q s i j = grind arith

-- With a value that fits the field, and a field inside the word, the deposit replaces the field and
-- keeps the bits above and below it.
pub deposit_i64_lem :
    (rd imm pos len : ℕ) (bit64 : Bool) (a : Arm)
    → IsArm a
    → imm < 2 ^ len
    → pos + len ≤ 64
    → len < 64
    → pos < 64
    → (a' : Arm) × (deposit_i64 rd imm pos len bit64 a ≡ ok a')
      × (x a' rd ≡ (x a rd / 2 ^ pos / 2 ^ len * 2 ^ len + imm) * 2 ^ pos + x a rd % 2 ^ pos)
unfolding deposit_i64
deposit_i64_lem rd imm pos len bit64 a is fits inside h g =
    let v = x a rd in
    let field = v / 2 ^ pos % 2 ^ len in
    let pos_k = one-le-pow pos 2 (omega arith) in
    let pos_w = one-le-pow len 2 (omega arith) in
    let mask_fits = field_fits (2 ^ len - 1) pos len (omega arith) inside in
    let mask : u64 ((2 ^ len - 1) * 2 ^ pos) ≡ (2 ^ len - 1) * 2 ^ pos =
      mod-eq_of_lt {n = (2 ^ len - 1) * 2 ^ pos} {m = 2 ^ 64} mask_fits in
    let placed : u64 (imm * 2 ^ pos) ≡ imm * 2 ^ pos =
      mod-eq_of_lt {n = imm * 2 ^ pos} {m = 2 ^ 64} (field_fits imm pos len fits inside) in
    let split : v ≡ v / 2 ^ pos / 2 ^ len * 2 ^ len * 2 ^ pos + field * 2 ^ pos + v % 2 ^ pos =
      omega (
        arith,
        div-add-mod v (2 ^ pos),
        ap (λ (t : ℕ). t * 2 ^ pos) (div-add-mod (v / 2 ^ pos) (2 ^ len)),
      ) in
    let kept : bit_and v (not64 ((2 ^ len - 1) * 2 ^ pos))
        ≡ v / 2 ^ pos / 2 ^ len * 2 ^ len * 2 ^ pos + v % 2 ^ pos =
      omega (
        arith,
        split,
        and_complement 64 v ((2 ^ len - 1) * 2 ^ pos) (is.gpr_lt rd) mask_fits,
        bit_and_field pos len v,
      ) in
    (
      set_x rd (bit_or (bit_and v (not64 (u64 ((2 ^ len - 1) * 2 ^ pos)))) (u64 (imm * 2 ^ pos))) a,
      ground arith,
      ground (
        arith,
        ap (λ (t : ℕ). bit_and v (not64 t)) mask,
        bit_or_middle pos len (v / 2 ^ pos / 2 ^ len) (v % 2 ^ pos) imm
            (mod-lt v {m = 2 ^ pos} pos_k) fits,
      ),
    )
