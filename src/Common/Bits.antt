-- ===== src/Common/Bits.antt =====
-- Laws of the native `bit_and`, `bit_or` and `bit_xor` at every width. Each starts from the equation
-- of the lowest digit and goes on by induction on a bound of the numbers or on the width.
use Prim.Native.Nat.{
  ℕ, zero, suc, ◌+◌, ◌-◌, ◌*◌, ◌/◌, ◌%◌, ◌^◌, ◌≤◌, ◌<◌, min, max, bit_and, bit_or, bit_xor, digits,
  bitwise, differ, bit_and-bitwise, bit_or-bitwise, bit_xor-bitwise,
}
use mathlib.Core.Path.{◌≡◌, refl, ap, ◌∙◌}
use native.Mathlib.Nat.{
  le_refl, pow-suc, one-le-pow, add-zero, add-suc, div-div-eq-div-mul, div-eq_of_lt-le,
}
use native.Mathlib.Omega.{arith}

module _ (z : ℕ → ℕ) (f : ℕ → ℕ → ℕ) where
  -- The count of digits does not matter, as long as it covers the first number.
  digits_enough : (a b k l : ℕ) → a ≤ l → a ≤ k → digits z f l a b ≡ digits z f k a b
  digits_enough zero b (suc k) (suc l) h g = refl
  digits_enough zero b (suc k) zero h g = refl
  digits_enough zero b zero (suc l) h g = refl
  digits_enough zero b zero zero h g = refl
  digits_enough (suc a) b zero l h g = absurd (omega arith)
  digits_enough (suc a) b (suc k) zero h g = absurd (omega arith)
  digits_enough (suc a) b (suc k) (suc l) h g =
      let rest : digits z f l (suc a / 2) (b / 2) ≡ digits z f k (suc a / 2) (b / 2) =
        digits_enough (suc a / 2) (b / 2) k l (omega arith) (omega arith) in
      rw rest refl

  lowest_digit :
      (b a : ℕ)
      → bitwise z f (suc a) b ≡ f (suc a % 2) (b % 2) + 2 * bitwise z f (suc a / 2) (b / 2)
  lowest_digit b a =
      let rest = digits_enough (suc a / 2) (b / 2) (suc a / 2) a (omega arith) (le_refl _) in
      omega (arith, rest)

pub bit_xor_step : (a b : ℕ) → bit_xor a b ≡ differ (a % 2) (b % 2) + 2 * bit_xor (a / 2) (b / 2)
bit_xor_step (suc a) b = simp bit_xor-bitwise (lowest_digit (λ y. y) differ b a)
bit_xor_step zero b = simp bit_xor-bitwise (omega arith)

pub bit_or_step : (a b : ℕ) → bit_or a b ≡ max (a % 2) (b % 2) + 2 * bit_or (a / 2) (b / 2)
bit_or_step (suc a) b = simp bit_or-bitwise (lowest_digit (λ y. y) max b a)
bit_or_step zero b = simp bit_or-bitwise (omega arith)

pub bit_and_step : (a b : ℕ) → bit_and a b ≡ min (a % 2) (b % 2) + 2 * bit_and (a / 2) (b / 2)
bit_and_step (suc a) b = simp bit_and-bitwise (lowest_digit (λ y. 0) min b a)
bit_and_step zero b = simp bit_and-bitwise (omega arith)

-- The sum of two digits is twice the carry plus the digit that stays.
digit_sum : (a b : ℕ) → a < 2 → b < 2 → min a b * 2 + differ a b ≡ a + b
digit_sum zero zero p q = refl
digit_sum zero (suc zero) p q = refl
digit_sum (suc zero) zero p q = refl
digit_sum (suc zero) (suc zero) p q = refl
digit_sum zero (suc (suc b)) p q = absurd (omega arith)
digit_sum (suc zero) (suc (suc b)) p q = absurd (omega arith)
digit_sum (suc (suc a)) b p q = absurd (omega arith)

and_xor_sum_below : (n a b : ℕ) → a ≤ n → bit_and a b * 2 + bit_xor a b ≡ a + b
and_xor_sum_below n zero b h = simp (bit_and-bitwise, bit_xor-bitwise) (omega arith)
and_xor_sum_below zero (suc a) b h = absurd (omega arith)
and_xor_sum_below (suc n) (suc a) b h = omega (
  arith,
  bit_and_step (suc a) b,
  bit_xor_step (suc a) b,
  digit_sum (suc a % 2) (b % 2) (omega arith) (omega arith),
  and_xor_sum_below n (suc a / 2) (b / 2) (omega arith),
)

-- `(a & b) + ((a ^ b) >> 1)` is half the sum, with no overflow on the way.
pub half_adder : (a b : ℕ) → bit_and a b + bit_xor a b / 2 ≡ (a + b) / 2
half_adder a b = omega (arith, and_xor_sum_below a a b (le_refl _))

bit_or-zero_below : (n a : ℕ) → a ≤ n → bit_or a 0 ≡ a
bit_or-zero_below n zero h = refl
bit_or-zero_below zero (suc a) h = absurd (omega arith)
bit_or-zero_below (suc n) (suc a) h =
    omega (arith, bit_or_step (suc a) 0, bit_or-zero_below n (suc a / 2) (omega arith))

pub bit_or-zero : (a : ℕ) → bit_or a 0 ≡ a
bit_or-zero a = bit_or-zero_below a a (le_refl _)

bit_and-zero_below : (n a : ℕ) → a ≤ n → bit_and a 0 ≡ 0
bit_and-zero_below n zero h = refl
bit_and-zero_below zero (suc a) h = absurd (omega arith)
bit_and-zero_below (suc n) (suc a) h =
    omega (arith, bit_and_step (suc a) 0, bit_and-zero_below n (suc a / 2) (omega arith))

pub bit_and-zero : (a : ℕ) → bit_and a 0 ≡ 0
bit_and-zero a = bit_and-zero_below a a (le_refl _)

shift_suc : (q k : ℕ) → q * 2 ^ suc k ≡ 2 * (q * 2 ^ k)
shift_suc q k = omega (arith, ap (λ (t : ℕ). q * t) (pow-suc 2 k))

-- A low part and a high part that do not meet: `|` is the sum, in either order.
pub bit_or_parts : (k q r : ℕ) → r < 2 ^ k → bit_or r (q * 2 ^ k) ≡ r + q * 2 ^ k
bit_or_parts zero q zero h = simp bit_or-bitwise (omega arith)
bit_or_parts zero q (suc r) h = absurd (omega arith)
bit_or_parts (suc k) q r h = ground (
  arith,
  bit_or_step r (q * 2 ^ suc k),
  shift_suc q k,
  pow-suc 2 k,
  bit_or_parts k q (r / 2) (omega (arith, pow-suc 2 k)),
)

and_low : (k q r : ℕ) → r < 2 ^ k → bit_and (q * 2 ^ k + r) (2 ^ k - 1) ≡ r
and_low zero q r h = rw bit_and-zero (omega arith)
and_low (suc k) q r h = ground (
  arith,
  bit_and_step (q * 2 ^ suc k + r) (2 ^ suc k - 1),
  shift_suc q k,
  pow-suc 2 k,
  one-le-pow k 2,
  and_low k q (r / 2) (omega (arith, pow-suc 2 k)),
)

-- A mask of the k low bits is the remainder by `2 ^ k`.
pub bit_and_mask : (k a : ℕ) → bit_and a (2 ^ k - 1) ≡ a % 2 ^ k
bit_and_mask k a = ground (arith, one-le-pow k 2, and_low k (a / 2 ^ k) (a % 2 ^ k))

pub bit_and-lt : (k a b : ℕ) → a < 2 ^ k → bit_and a b < 2 ^ k
bit_and-lt zero zero b h = simp bit_and-bitwise (omega arith)
bit_and-lt zero (suc a) b h = absurd (omega arith)
bit_and-lt (suc k) a b h = ground (
  arith,
  bit_and_step a b,
  pow-suc 2 k,
  bit_and-lt k (a / 2) (b / 2) (omega (arith, pow-suc 2 k)),
)

pub bit_or-lt : (k a b : ℕ) → a < 2 ^ k → b < 2 ^ k → bit_or a b < 2 ^ k
bit_or-lt zero zero zero h g = omega arith
bit_or-lt zero (suc a) b h g = absurd (omega arith)
bit_or-lt zero zero (suc b) h g = absurd (omega arith)
bit_or-lt (suc k) a b h g = ground (
  arith,
  bit_or_step a b,
  pow-suc 2 k,
  bit_or-lt k (a / 2) (b / 2) (omega (arith, pow-suc 2 k)) (omega (arith, pow-suc 2 k)),
)

digit_differ : (a b : ℕ) → a < 2 → b < 2 → differ a b < 2
digit_differ zero b p q = q
digit_differ (suc a) zero p q = p
digit_differ (suc zero) (suc b) p q = omega arith
digit_differ (suc (suc a)) (suc b) p q = absurd (omega arith)

pub bit_xor-lt : (k a b : ℕ) → a < 2 ^ k → b < 2 ^ k → bit_xor a b < 2 ^ k
bit_xor-lt zero zero zero h g = omega arith
bit_xor-lt zero (suc a) b h g = absurd (omega arith)
bit_xor-lt zero zero (suc b) h g = absurd (omega arith)
bit_xor-lt (suc k) a b h g = ground (
  arith,
  bit_xor_step a b,
  pow-suc 2 k,
  digit_differ (a % 2) (b % 2),
  bit_xor-lt k (a / 2) (b / 2) (omega (arith, pow-suc 2 k)) (omega (arith, pow-suc 2 k)),
)

pub pow-add : (a b : ℕ) → 2 ^ (a + b) ≡ 2 ^ a * 2 ^ b
pow-add a zero = rw add-zero (omega arith)
pow-add a (suc b) =
    rw add-suc
      (omega (arith, pow-suc 2 (a + b), ap (λ (t : ℕ). 2 ^ a * t) (pow-suc 2 b), pow-add a b))

pred_mul : (p m : ℕ) → 1 ≤ p → (p - 1) * m + m ≡ p * m
pred_mul zero m h = absurd (omega arith)
pred_mul (suc p) m h = rw (let e : suc p - 1 ≡ p = omega arith in e) (omega arith)

-- A word of ones, shifted right, is a mask of the bits left.
pub ones_shift : (w k : ℕ) → k ≤ w → (2 ^ w - 1) / 2 ^ (w - k) ≡ 2 ^ k - 1
ones_shift w k h =
    let split : 2 ^ w ≡ 2 ^ k * 2 ^ (w - k) =
      ap (λ (t : ℕ). 2 ^ t) (let e : w ≡ k + (w - k) = omega arith in e) ∙ pow-add k (w - k) in
    let parts = pred_mul (2 ^ k) (2 ^ (w - k)) (one-le-pow k 2 (omega arith)) in
    let pos = one-le-pow (w - k) 2 (omega arith) in
    let whole = one-le-pow k 2 (omega arith) in
    div-eq_of_lt-le {k = 2 ^ k - 1} (2 ^ (w - k)) (omega arith)
      (rw (let e : 2 ^ k - 1 + 1 ≡ 2 ^ k = omega arith in e) (omega arith))

-- A mask of `w` bits above `k` others cuts the field out, in place.
pub bit_and_field : (k w a : ℕ) → bit_and a ((2 ^ w - 1) * 2 ^ k) ≡ a / 2 ^ k % 2 ^ w * 2 ^ k
bit_and_field zero w a = ground (arith, bit_and_mask w a)
bit_and_field (suc k) w a = ground (
  arith,
  bit_and_step a ((2 ^ w - 1) * 2 ^ suc k),
  shift_suc (2 ^ w - 1) k,
  shift_suc (a / 2 ^ suc k % 2 ^ w) k,
  pow-suc 2 k,
  div-div-eq-div-mul a 2 (2 ^ k),
  bit_and_field k w (a / 2),
)

bit_or_comm_below : (n a b : ℕ) → a ≤ n → b ≤ n → bit_or a b ≡ bit_or b a
bit_or_comm_below zero zero zero p q = refl
bit_or_comm_below zero (suc a) b p q = absurd (omega arith)
bit_or_comm_below zero zero (suc b) p q = absurd (omega arith)
bit_or_comm_below (suc n) a b p q = omega (
  arith,
  bit_or_step a b,
  bit_or_step b a,
  bit_or_comm_below n (a / 2) (b / 2) (omega arith) (omega arith),
)

pub bit_or_comm : (a b : ℕ) → bit_or a b ≡ bit_or b a
bit_or_comm a b = bit_or_comm_below (a + b) a b (omega arith) (omega arith)

-- A high part and a low part that do not meet.
pub bit_or_fields : (k q r : ℕ) → r < 2 ^ k → bit_or (q * 2 ^ k) r ≡ q * 2 ^ k + r
bit_or_fields k q r h = omega (arith, bit_or_comm (q * 2 ^ k) r, bit_or_parts k q r h)

-- `a & m` and `a & ~m` are the parts of `a`.
pub and_complement :
    (w a m : ℕ) → a < 2 ^ w → m < 2 ^ w → bit_and a m + bit_and a (2 ^ w - 1 - m) ≡ a
and_complement zero a m h g =
    let none : a ≡ 0 = omega arith in
    rw none (omega (arith, bit_and-bitwise 0 m, bit_and-bitwise 0 (2 ^ 0 - 1 - m)))
and_complement (suc w) a m h g =
    let above : (2 ^ suc w - 1 - m) / 2 ≡ 2 ^ w - 1 - m / 2 = omega (arith, pow-suc 2 w) in
    omega (
      arith,
      pow-suc 2 w,
      bit_and_step a m,
      bit_and_step a (2 ^ suc w - 1 - m),
      ap (λ (t : ℕ). bit_and (a / 2) t) above,
      and_complement w (a / 2) (m / 2) (omega (arith, pow-suc 2 w)) (omega (arith, pow-suc 2 w)),
    )

-- A middle part put between a high and a low part that leave room for it.
pub bit_or_middle :
    (k w hi lo mid : ℕ)
    → lo < 2 ^ k
    → mid < 2 ^ w
    → bit_or (hi * 2 ^ w * 2 ^ k + lo) (mid * 2 ^ k) ≡ (hi * 2 ^ w + mid) * 2 ^ k + lo
bit_or_middle zero w hi lo mid h g = ground (arith, bit_or_fields w hi mid g)
bit_or_middle (suc k) w hi lo mid h g = ground (
  arith,
  bit_or_step (hi * 2 ^ w * 2 ^ suc k + lo) (mid * 2 ^ suc k),
  shift_suc (hi * 2 ^ w) k,
  shift_suc mid k,
  shift_suc (hi * 2 ^ w + mid) k,
  pow-suc 2 k,
  bit_or_middle k w hi (lo / 2) mid (omega (arith, pow-suc 2 k)) g,
)
