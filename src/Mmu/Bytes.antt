-- ===== src/Mmu/Bytes.antt =====
-- ARMv8/MMU.cpp: the byte loops of ReadFromRAM and WriteToRAM against the little-endian reference.
use nsemu.Common.{
  ℕ, zero, suc, ◌+◌, ◌*◌, ◌/◌, ◌%◌, ◌^◌, ◌≤◌, ◌<◌, ◌≡◌, refl, ap, bit_and, bit_or, u64, ok, arith,
}
use nsemu.Common.Bits.{bit_or_parts, bit_and_mask}
use nsemu.Common.Bytes.{read_le, write_le}
use nsemu.Common.Lists.{update}
use nsemu.Machine.{Memory}
use nsemu.Memory.{HostPtr, get_raw_ptr, load_host}
use nsemu.Memory.Host.{store_host_lem}
use nsemu.Mmu.{read_loop, write_loop}
use native.Mathlib.Numerals.{towards_suc}
use native.Mathlib.Nat.{mod-eq_of_lt, pow-le-pow_right}

-- The first `n` bytes behind the pointer can be loaded, and are those of the file `f`.
abbrev pub Shows : Memory → HostPtr → ℕ → (ℕ → ℕ) → Type 0
Shows m p n f = (k : ℕ) → k < n → load_host m p k ≡ ok (f k)

pow_step : (k : ℕ) → 2 ^ (8 * (k + 1)) ≡ 256 * 2 ^ (8 * k)
pow_step k =
    rw (let shift : 8 * (k + 1) ≡ 8 * k + 8 = omega arith in shift) (simp towards_suc (omega arith))

-- A byte above `x` values stays below 256 times as many.
digit_fits : (value byte x : ℕ) → value < x → byte < 256 → value + byte * x < 256 * x
digit_fits value byte x p q = grind arith

-- One round of the read loop: the byte is placed above the bytes read before.
read_round :
    (n k value byte : ℕ)
    → k < n
    → n ≤ 8
    → value < 2 ^ (8 * k)
    → byte < 256
    → bit_or value (u64 (byte * 2 ^ (8 * k))) % 2 ^ (8 * n) ≡ value + byte * 2 ^ (8 * k)
read_round n k value byte p q r s =
    let in_place : value + byte * 2 ^ (8 * k) < 2 ^ (8 * (k + 1)) =
      rw pow_step (digit_fits value byte (2 ^ (8 * k)) r s) in
    let below_n : 2 ^ (8 * (k + 1)) ≤ 2 ^ (8 * n) =
      pow-le-pow_right {n = 2} (omega arith) (omega arith) in
    let below_64 : 2 ^ (8 * (k + 1)) ≤ 2 ^ 64 =
      pow-le-pow_right {n = 2} (omega arith) {j = 64} (omega arith) in
    rw
      (
        mod-eq_of_lt {n = byte * 2 ^ (8 * k)} {m = 2 ^ 64} (omega arith),
        bit_or_parts (8 * k) byte value r,
        mod-eq_of_lt {n = value + byte * 2 ^ (8 * k)} {m = 2 ^ (8 * n)} (omega arith),
      )
      refl

-- The read loop assembles the bytes behind the pointer into their little-endian number.
pub read_loop_lem :
    (n : ℕ) (m : Memory) (p : HostPtr) (f : ℕ → ℕ) (left k value : ℕ)
    → n ≤ 8
    → k + left ≤ n
    → Shows m p n f
    → ((j : ℕ) → j < n → f j < 256)
    → value < 2 ^ (8 * k)
    → read_loop n m p left k value ≡ ok (value + 2 ^ (8 * k) * read_le left f k)
unfolding read_loop read_le
read_loop_lem n m p f zero k value n8 fits shows bytes small = ap ok (omega arith)
read_loop_lem n m p f (suc left) k value n8 fits shows bytes small =
    let small' : value + f k * 2 ^ (8 * k) < 2 ^ (8 * (k + 1)) =
      rw pow_step (digit_fits value (f k) (2 ^ (8 * k)) small (bytes k (omega arith))) in
    rw
      (
        shows k (omega arith),
        read_round n k value (f k) (omega arith) n8 small (bytes k (omega arith)),
        read_loop_lem n m p f left (k + 1) (value + f k * 2 ^ (8 * k)) n8 (omega arith) shows bytes
            small',
        pow_step k,
      )
      (ap ok (omega arith))

-- The write loop succeeds where all its bytes can be loaded; afterwards the pointer shows the
-- number's bytes, and every pointer is where it was.
pub write_loop_lem :
    (n : ℕ) (p : HostPtr) (left k value : ℕ) (m : Memory) (f : ℕ → ℕ)
    → k + left ≤ n
    → Shows m p n f
    → (m' : Memory) × (write_loop p left k value m ≡ ok m')
      × Shows m' p n (write_le left f k value)
      × ((gpa len : ℕ) → get_raw_ptr m' gpa len ≡ get_raw_ptr m gpa len)
unfolding write_loop write_le
write_loop_lem n p zero k value m f fits shows = (m, refl, shows, λ gpa len. refl)
write_loop_lem n p (suc left) k value m f fits shows =
    let (m₁, stored, is) = store_host_lem m p k (bit_and value 255) (shows k (omega arith)) in
    let shows₁ : Shows m₁ p n (update f k (value % 256)) =
      λ j h. ground (arith, is.loads j, shows j h, bit_and_mask 8 value) in
    let (m₂, looped, shows₂, same) =
      write_loop_lem n p left (k + 1) (value / 256) m₁ (update f k (value % 256)) (omega arith)
        shows₁ in
    (m₂, rw stored looped, shows₂, λ gpa len. rw (same gpa len) (is.pointers gpa len))
