-- ===== src/Common/Division.antt =====
-- Remainders and quotients by products, and the shifts of a word that they stand for.
use Prim.Native.Nat.{ℕ, ◌+◌, ◌-◌, ◌*◌, ◌/◌, ◌%◌, ◌^◌, ◌≤◌, ◌<◌}
use mathlib.Core.Path.{◌≡◌, refl, sym, ap, ◌∙◌}
use mathlib.Core.Logic.{inl, inr}
use nsemu.Common.Tests.{ltb, if◌then◌else◌, Bool-cases}
use nsemu.Common.Words.{asr64}
use nsemu.Common.Bits.{pow-add}
use native.Mathlib.Nat.{
  mul_comm, div-add-mod, div-div-eq-div-mul, mul-div_cancel, one-le-pow, mod-lt, div-eq_of_lt-le,
  mul-mod_left, mul-div_right, div-lt_iff_lt-mul, pow-le-pow_right,
}
use native.Mathlib.Omega.{arith}

-- The remainder by a product, digit by digit.
pub mod_split : (v n m : ℕ) → v % (m * n) ≡ v % n + n * (v / n % m)
mod_split v n m = omega (
  arith,
  div-add-mod v (m * n),
  div-add-mod v n,
  ap (λ (t : ℕ). n * t) (div-add-mod (v / n) m),
  ap (λ (t : ℕ). n * (m * t)) (div-div-eq-div-mul v n m),
  ap (λ (t : ℕ). v / t) (mul_comm m n),
  ap (λ (t : ℕ). n * (m * (v / t))) (mul_comm m n),
)

mod-mul_scaled : (v s t : ℕ) → 1 ≤ s → v * s % (t * s) ≡ s * (v % t)
mod-mul_scaled v s t h =
    rw (mod_split (v * s) s t, mul-mod_left v s, mul-div_cancel v {n = s} h) (omega arith)

mod-div : (v a b : ℕ) → 1 ≤ a → v % (b * a) / a ≡ v / a % b
mod-div v a b h =
    rw (mod_split v a b)
      (div-eq_of_lt-le {k = v / a % b} a (omega arith) (omega (arith, mod-lt v {m = a} h)))

-- A field moved to the top of a word and back down.
pub field_shift :
    (v pos len : ℕ)
    → pos + len ≤ 64
    → v * 2 ^ (64 - len - pos) % 2 ^ 64 / 2 ^ (64 - len) ≡ v / 2 ^ pos % 2 ^ len
field_shift v pos len h =
    let s = 2 ^ (64 - len - pos) in
    let top : 2 ^ 64 ≡ 2 ^ len * 2 ^ pos * s =
      ap (λ (t : ℕ). 2 ^ t) (let e : 64 ≡ len + pos + (64 - len - pos) = omega arith in e)
      ∙ pow-add (len + pos) (64 - len - pos)
      ∙ ap (λ (t : ℕ). t * s) (pow-add len pos) in
    let down : 2 ^ (64 - len) ≡ s * 2 ^ pos =
      ap (λ (t : ℕ). 2 ^ t) (let e : 64 - len ≡ 64 - len - pos + pos = omega arith in e)
      ∙ pow-add (64 - len - pos) pos in
    let pos_s : 1 ≤ s = one-le-pow (64 - len - pos) 2 (omega arith) in
    ap (λ (t : ℕ). v * s % t / 2 ^ (64 - len)) top
    ∙ ap (λ (t : ℕ). v * s % (2 ^ len * 2 ^ pos * s) / t) down
    ∙ ap (λ (t : ℕ). t / (s * 2 ^ pos)) (mod-mul_scaled v s (2 ^ len * 2 ^ pos) pos_s)
    ∙ sym (div-div-eq-div-mul (s * (v % (2 ^ len * 2 ^ pos))) s (2 ^ pos))
    ∙ ap (λ (t : ℕ). t / 2 ^ pos) (mul-div_right (v % (2 ^ len * 2 ^ pos)) {m = s} pos_s)
    ∙ mod-div v (2 ^ pos) (2 ^ len) (one-le-pow pos 2 (omega arith))

-- The quotient of a complement is the complement of the quotient.
complement-div : (v k m : ℕ) → 1 ≤ k → v < m * k → (m * k - 1 - v) / k ≡ m - 1 - v / k
complement-div v k m h g =
    let q = v / k in
    let small : q < m = (div-lt_iff_lt-mul {k = k} {x = v} {y = m} h).1 g in
    let parts : m * k ≡ (m - 1 - q) * k + q * k + k =
      ap (λ (t : ℕ). t * k) (let e : m ≡ m - 1 - q + q + 1 = omega arith in e) ∙ omega arith in
    div-eq_of_lt-le {k = m - 1 - q} k (omega (arith, div-add-mod v k, mod-lt v {m = k} h))
      (omega (arith, div-add-mod v k, mod-lt v {m = k} h))

-- An arithmetic shift: the quotient, with ones above where the word is negative.
pub asr64_lem :
    (v k : ℕ)
    → v < 2 ^ 64
    → k < 64
    → asr64 v k ≡ (if ltb v (2 ^ 63) then v / 2 ^ k else v / 2 ^ k + (2 ^ 64 - 2 ^ (64 - k)))
asr64_lem v k h g = elim (Bool-cases (ltb v (2 ^ 63))) [
  | inl e ↦ rw e refl
  | inr e ↦
      let top : 2 ^ 64 ≡ 2 ^ (64 - k) * 2 ^ k =
        ap (λ (t : ℕ). 2 ^ t) (let s : 64 ≡ 64 - k + k = omega arith in s) ∙ pow-add (64 - k) k in
      let below : v < 2 ^ (64 - k) * 2 ^ k = rw top at h in
      let pos_k : 1 ≤ 2 ^ k = one-le-pow k 2 (omega arith) in
      let small : v / 2 ^ k < 2 ^ (64 - k) =
        (div-lt_iff_lt-mul {k = 2 ^ k} {x = v} {y = 2 ^ (64 - k)} pos_k).1 below in
      let fits : 2 ^ (64 - k) ≤ 2 ^ 64 =
        pow-le-pow_right {n = 2} (omega arith) {j = 64} (omega arith) in
      let flipped : (2 ^ 64 - 1 - v) / 2 ^ k ≡ 2 ^ (64 - k) - 1 - v / 2 ^ k =
        ap (λ (t : ℕ). (t - 1 - v) / 2 ^ k) top
        ∙ complement-div v (2 ^ k) (2 ^ (64 - k)) pos_k below in
      rw (e, flipped) (omega arith)
]
