-- ===== src/Common/Bytes.antt =====
-- Little-endian numbers in a file of bytes: the reference that the byte loops of the program
-- are compared with. A file is a function from the index to the byte.
use nsemu.Common.Lists.{update}
use Prim.Native.Nat.{ℕ, zero, suc, ◌+◌, ◌*◌, ◌/◌, ◌%◌, ◌^◌, ◌≤◌, ◌<◌}
use mathlib.Core.Path.{◌≡◌, refl, sym, ap}
use mathlib.Core.Logic.{◌⊎◌, inl}
use native.Mathlib.Nat.{pow-suc, mul_comm, div-add-mod, div-div-eq-div-mul}
use native.Mathlib.Omega.{arith}

-- The number that the `n` bytes from `o` on stand for.
unfoldable pub read_le : ℕ → (ℕ → ℕ) → ℕ → ℕ
read_le zero b o = 0
read_le (suc n) b o = b o + 256 * read_le n b (o + 1)

-- The file with the `n` low bytes of `v` at `o`.
unfoldable pub write_le : ℕ → (ℕ → ℕ) → ℕ → ℕ → ℕ → ℕ
write_le zero b o v = b
write_le (suc n) b o v = write_le n (update b o (v % 256)) (o + 1) (v / 256)

-- Every entry of the file is a byte.
abbrev pub AreBytes : (ℕ → ℕ) → Type 0
AreBytes b = (i : ℕ) → b i < 256

pub write_le_outside :
    (n : ℕ) (b : ℕ → ℕ) (o v j : ℕ) → (j < o) ⊎ (o + n ≤ j) → write_le n b o v j ≡ b j
unfolding write_le
write_le_outside zero b o v j h = refl
write_le_outside (suc n) b o v j h =
    ground (arith, write_le_outside n (update b o (v % 256)) (o + 1) (v / 256) j)

-- What lies inside the range written is a byte.
pub write_le_inside : (n : ℕ) (b : ℕ → ℕ) (o v j : ℕ) → o ≤ j → j < o + n → write_le n b o v j < 256
unfolding write_le
write_le_inside zero b o v j p q = absurd (omega arith)
write_le_inside (suc n) b o v j p q = ground (
  arith,
  write_le_inside n (update b o (v % 256)) (o + 1) (v / 256) j,
  write_le_outside n (update b o (v % 256)) (o + 1) (v / 256) j,
)

pub read_le_ext :
    (n : ℕ) (b c : ℕ → ℕ) (o : ℕ)
    → ((j : ℕ) → o ≤ j → j < o + n → b j ≡ c j)
    → read_le n b o ≡ read_le n c o
unfolding read_le
read_le_ext zero b c o h = refl
read_le_ext (suc n) b c o h = omega (
  arith,
  h o (omega arith) (omega arith),
  read_le_ext n b c (o + 1) (λ j p q. h j (omega arith) (omega arith)),
)

update_self : (b : ℕ → ℕ) (o v : ℕ) → update b o v o ≡ v
update_self b o v = ground arith

mod_split : (v m : ℕ) → v % (m * 256) ≡ v % 256 + 256 * (v / 256 % m)
mod_split v m = omega (
  arith,
  div-add-mod v (m * 256),
  div-add-mod (v / 256) m,
  ap (λ (t : ℕ). m * t) (div-div-eq-div-mul v 256 m),
  ap (λ (t : ℕ). v / t) (mul_comm m 256),
  ap (λ (t : ℕ). m * (v / t)) (mul_comm m 256),
)

-- What is written is read back, cut to its width.
pub read_le-write_le : (n : ℕ) (b : ℕ → ℕ) (o v : ℕ) → read_le n (write_le n b o v) o ≡ v % 256 ^ n
unfolding read_le write_le
read_le-write_le zero b o v = omega arith
read_le-write_le (suc n) b o v =
    rw
      (
        write_le_outside n (update b o (v % 256)) (o + 1) (v / 256) o (inl (omega arith)),
        read_le-write_le n (update b o (v % 256)) (o + 1) (v / 256),
        update_self b o (v % 256),
        pow-suc 256 n,
      )
      (sym (mod_split v (256 ^ n)))

pub read_le-lt : (n : ℕ) (b : ℕ → ℕ) (o : ℕ) → AreBytes b → read_le n b o < 256 ^ n
unfolding read_le
read_le-lt zero b o h = omega arith
read_le-lt (suc n) b o h = omega (arith, pow-suc 256 n, h o, read_le-lt n b (o + 1) h)

-- Bytes elsewhere are not read.
pub read_le-write_le_apart :
    (n k : ℕ) (b : ℕ → ℕ) (o p v : ℕ)
    → (p + k ≤ o) ⊎ (o + n ≤ p)
    → read_le n (write_le k b p v) o ≡ read_le n b o
read_le-write_le_apart n k b o p v h =
    read_le_ext n (write_le k b p v) b o λ j l r. write_le_outside k b p v j (ground arith)

pub write_le-AreBytes : (n : ℕ) (b : ℕ → ℕ) (o v : ℕ) → AreBytes b → AreBytes (write_le n b o v)
unfolding write_le
write_le-AreBytes zero b o v h = h
write_le-AreBytes (suc n) b o v h =
    write_le-AreBytes n (update b o (v % 256)) (o + 1) (v / 256) (λ i. ground (arith, h i))
