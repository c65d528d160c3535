-- ===== src/Mmu/Debugger.antt =====
-- ARMv8/MMU.cpp: GdbReadBytes, the reads of the debugger itself.
use nsemu.Common.{
  ◌^◌, ◌∙◌, ℕ, zero, suc, ◌+◌, ◌*◌, ◌<◌, ◌≡◌, refl, false, List, [], ◌∷◌, u64, bit_or, ◌%◌, ok,
  arith,
}
use mathlib.Core.Path.{subst}
use nsemu.Common.Lists.{length}
use nsemu.Machine.{Machine}
use nsemu.Mmu.{
  int_rounds, rounds, read_loop, read_from_ram, read_u8, read_bytes_from, read_bytes,
  gdb_read_bytes, with_enabled,
}
use nsemu.Mmu.RoundTrip.{Accessible, Accessible-Shows}

-- With the stub's tests off, the read of a mapped byte changes nothing.
read_u8-quiet :
    (gva : ℕ) (m : Machine)
    → m.gdb.enabled ≡ false
    → Accessible m.mem gva 1
    → (byte : ℕ) × (read_u8 gva m ≡ ok (byte, m))
unfolding read_u8 read_from_ram read_loop
read_u8-quiet gva m off mapped =
    let (p, f, ptr, shows, top) = Accessible-Shows m.mem gva 1 mapped in
    let one : rounds 1 gva ≡ 1 = omega arith in
    (bit_or 0 (u64 (f 0 * 1)) % 256, rw (ptr, one, shows 0 (omega arith), off) refl)

read_bytes_from-quiet :
    (gva i size : ℕ) (m : Machine)
    → m.gdb.enabled ≡ false
    → ((k : ℕ) → k < size → Accessible m.mem (u64 (gva + (i + k))) 1)
    → (bytes : List ℕ) × (read_bytes_from gva i size m ≡ ok (bytes, m)) × (length bytes ≡ size)
unfolding read_bytes_from
read_bytes_from-quiet gva i zero m off mapped = ([], refl, refl)
read_bytes_from-quiet gva i (suc size) m off mapped =
    let (byte, e) = read_u8-quiet (u64 (gva + i)) m off (
      subst (λ (t : ℕ). Accessible m.mem (u64 (gva + t)) 1) (let z : i + 0 ≡ i = omega arith in z)
        (mapped 0 (omega arith))) in
    let (bytes, rest, len) = read_bytes_from-quiet gva (i + 1) size m off (λ k h.
      subst (λ (t : ℕ). Accessible m.mem (u64 (gva + t)) 1)
        (let z : i + suc k ≡ i + 1 + k = omega arith in z) (mapped (suc k) (omega arith))) in
    (byte ∷ bytes, rw (e, rest) refl, ground (arith, len))

-- Where every byte of the range is mapped, GdbReadBytes returns as many bytes as it was asked for
-- and changes nothing of the machine: no watchpoint fires, and the stub's `enabled` is restored.
pub gdb_read_bytes-quiet :
    (gva size : ℕ) (m : Machine)
    → size < 2 ^ 31
    → ((k : ℕ) → k < size → Accessible m.mem (u64 (gva + k)) 1)
    → (bytes : List ℕ) × (gdb_read_bytes gva size m ≡ ok (bytes, m)) × (length bytes ≡ size)
unfolding gdb_read_bytes read_bytes
gdb_read_bytes-quiet gva size m small mapped =
    let whole : int_rounds size ≡ size = ground arith in
    let (bytes, e, len) =
      read_bytes_from-quiet gva 0 (int_rounds size) (with_enabled false m) refl (λ k h.
        subst (λ (t : ℕ). Accessible m.mem (u64 (gva + t)) 1) (let z : k ≡ 0 + k = omega arith in z)
          (mapped k (omega (arith, whole, h)))) in
    (bytes, rw e refl, len ∙ whole)
