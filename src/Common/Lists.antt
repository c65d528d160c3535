-- ===== src/Common/Lists.antt =====
-- Lists measured and indexed by native numbers, and point updates of a function.
use Prim.Native.Nat.{ℕ, zero, suc, ◌+◌, ◌<◌}
use mathlib.Core.Path.{◌≡◌, refl, ap, ◌∙◌}
use mathlib.Core.List.{List, [], ◌∷◌, ◌++◌}
use mathlib.Core.Option.{Option, none, some}
use nsemu.Common.Tests.{◌==◌, if◌then◌else◌}
use native.Mathlib.Omega.{arith}

module _ {ℓ} {A : Type ℓ} where
  abbrev pub length : List A → ℕ
  length [] = 0
  length (x ∷ xs) = suc (length xs)

  abbrev pub get_elem? : List A → ℕ → Option A
  get_elem? [] i = none
  get_elem? (x ∷ xs) zero = some x
  get_elem? (x ∷ xs) (suc i) = get_elem? xs i

  abbrev pub set : List A → ℕ → A → List A
  set [] i v = []
  set (x ∷ xs) zero v = v ∷ xs
  set (x ∷ xs) (suc i) v = x ∷ set xs i v

  pub length-append : (xs ys : List A) → length (xs ++ ys) ≡ length xs + length ys
  length-append [] ys = omega arith
  length-append (x ∷ xs) ys = omega (arith, length-append xs ys)

  -- A file of registers or bytes, written at one index.
  abbrev pub update : (ℕ → A) → ℕ → A → ℕ → A
  update f i v j = if j == i then v else f j

-- A list of bytes as the function from the index to the byte, and the list of `n` values of a function
-- from `i` on.
abbrev pub byte_at : List ℕ → ℕ → ℕ
byte_at [] i = 0
byte_at (b ∷ bs) zero = b
byte_at (b ∷ bs) (suc i) = byte_at bs i

unfoldable pub bytes_from : ℕ → ℕ → (ℕ → ℕ) → List ℕ
bytes_from zero i f = []
bytes_from (suc n) i f = f i ∷ bytes_from n (i + 1) f

pub byte_at-bytes_from : (n i k : ℕ) (f : ℕ → ℕ) → k < n → byte_at (bytes_from n i f) k ≡ f (i + k)
unfolding bytes_from
byte_at-bytes_from zero i k f h = absurd (omega arith)
byte_at-bytes_from (suc n) i zero f h = ap f (let e : i ≡ i + 0 = omega arith in e)
byte_at-bytes_from (suc n) i (suc k) f h =
    byte_at-bytes_from n (i + 1) k f (omega arith)
    ∙ ap f (let e : i + 1 + k ≡ i + suc k = omega arith in e)

pub length-bytes_from : (n i : ℕ) (f : ℕ → ℕ) → length (bytes_from n i f) ≡ n
unfolding bytes_from
length-bytes_from zero i f = refl
length-bytes_from (suc n) i f = ap suc (length-bytes_from n (i + 1) f)
