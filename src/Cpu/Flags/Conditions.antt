-- ===== src/Cpu/Flags/Conditions.antt =====
-- ARMv8/Interpreter.cpp: CondHold over all conditions of the instruction set.
use nsemu.Common.{
  ap, ◌∙◌, ◌⊎◌, inl, inr, ℕ, ◌+◌, ◌*◌, ◌/◌, ◌<◌, ◌≡◌, refl, Bool, false, not, bit_and, ◌==◌,
  Outcome, ok, abort, fault, arith,
}
use nsemu.Common.Bits.{bit_and_mask}
use nsemu.Cpu.Flags.{cond_base, cond_hold}

abbrev Decides : Outcome Bool → Type 0
Decides (ok b) = Unit {0}
Decides abort = ⊥
Decides fault = ⊥

Decides-ok : (o : Outcome Bool) → Decides o → (b : Bool) × (o ≡ ok b)
Decides-ok (ok b) h = (b, refl)
Decides-ok abort h = absurd h
Decides-ok fault h = absurd h

cond_base-Decides : (k nzcv : ℕ) → k < 7 → Decides (cond_base k nzcv)
unfolding cond_base
cond_base-Decides k nzcv h = ground arith

-- The first fourteen conditions come in seven pairs: for every value of the flags CondHold decides
-- both of a pair without an abort, and the odd one is the opposite of the even one.
pub cond_hold-pairs :
    (k nzcv : ℕ)
    → k < 7
    → (b : Bool) × (cond_hold (2 * k) nzcv ≡ ok b) × (cond_hold (2 * k + 1) nzcv ≡ ok (not b))
unfolding cond_hold
cond_hold-pairs k nzcv h =
    let (b, e) = Decides-ok (cond_base k nzcv) (cond_base-Decides k nzcv h) in
    let half : 2 * k / 2 ≡ k = omega arith in
    let half' : (2 * k + 1) / 2 ≡ k = omega arith in
    let even : bit_and (2 * k) 1 ≡ 0 = omega (arith, bit_and_mask 1 (2 * k)) in
    let odd : bit_and (2 * k + 1) 1 ≡ 1 = omega (arith, bit_and_mask 1 (2 * k + 1)) in
    let seven : (k == 7) ≡ false = ground arith in
    (b, rw (half, seven, even, e) refl, rw (half', seven, odd, e) refl)

pub cond_hold-total : (cond nzcv : ℕ) → cond < 14 → (b : Bool) × (cond_hold cond nzcv ≡ ok b)
cond_hold-total cond nzcv h =
    let (b, even, odd) = cond_hold-pairs (cond / 2) nzcv (omega arith) in
    elim (let e : (cond ≡ 2 * (cond / 2)) ⊎ (cond ≡ 2 * (cond / 2) + 1) = ground arith in e) [
      | inl e ↦ (b, ap (λ c. cond_hold c nzcv) e ∙ even)
      | inr e ↦ (not b, ap (λ c. cond_hold c nzcv) e ∙ odd)
    ]
