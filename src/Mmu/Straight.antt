-- ===== src/Mmu/Straight.antt =====
-- ARMv8/MMU.cpp: ReadBytes and WriteBytes inside the straight mapping, where an address is an index
-- into pRAM.
use nsemu.Common.{
  ℕ, zero, suc, ◌+◌, ◌*◌, ◌%◌, ◌^◌, ◌≤◌, ◌<◌, ◌≡◌, refl, ap, ◌∙◌, ◌⊎◌, true, false, u64, ltb, leb,
  bit_and, bit_or, List, [], ◌∷◌, ok, arith,
}
use nsemu.Common.Bits.{bit_and_mask, bit_or_fields}
use nsemu.Common.Bytes.{AreBytes}
use nsemu.Common.Lists.{length, update, byte_at, bytes_from}
use nsemu.Machine.{Gdb, Machine}
use nsemu.Memory.{ram_size, straight_max, is_straight, get_raw_ptr, load_host, store_host}
use nsemu.Mmu.{
  int_rounds, rounds, read_loop, write_loop, notify, read_from_ram, write_to_ram, read_u8, write_u8,
  read_bytes_from, read_bytes, write_bytes_from, write_bytes,
}

-- pRAM with a list of bytes from an address on.
unfoldable pub put_bytes : (ℕ → ℕ) → ℕ → List ℕ → ℕ → ℕ
put_bytes ram a [] = ram
put_bytes ram a (b ∷ bs) = put_bytes (update ram a b) (a + 1) bs

put_below : (bs : List ℕ) (ram : ℕ → ℕ) (a j : ℕ) → j < a → put_bytes ram a bs j ≡ ram j
unfolding put_bytes
put_below [] ram a j h = refl
put_below (b ∷ bs) ram a j h = put_below bs (update ram a b) (a + 1) j (omega arith) ∙ ground arith

-- What stands in pRAM afterwards: inside the range the list, outside what was there.
pub put_bytes_inside :
    (bs : List ℕ) (ram : ℕ → ℕ) (a k : ℕ)
    → k < length bs
    → put_bytes ram a bs (a + k) ≡ byte_at bs k
unfolding put_bytes
put_bytes_inside [] ram a k h = absurd (omega arith)
put_bytes_inside (b ∷ bs) ram a zero h =
    put_below bs (update ram a b) (a + 1) (a + 0) (omega arith) ∙ ground arith
put_bytes_inside (b ∷ bs) ram a (suc k) h =
    ap (λ (t : ℕ). put_bytes (update ram a b) (a + 1) bs t)
      (let e : a + suc k ≡ a + 1 + k = omega arith in e)
    ∙ put_bytes_inside bs (update ram a b) (a + 1) k (omega arith)

pub put_bytes_outside :
    (bs : List ℕ) (ram : ℕ → ℕ) (a j : ℕ)
    → (j < a) ⊎ (a + length bs ≤ j)
    → put_bytes ram a bs j ≡ ram j
unfolding put_bytes
put_bytes_outside [] ram a j h = refl
put_bytes_outside (b ∷ bs) ram a j h =
    put_bytes_outside bs (update ram a b) (a + 1) j (ground arith) ∙ ground arith

abbrev pub with_ram : (ℕ → ℕ) → Machine → Machine
with_ram ram m = record m { mem = record (m.mem) { ram = ram } }

one_byte : (b : ℕ) → b < 256 → bit_or 0 (u64 (b * 2 ^ (8 * 0))) % 2 ^ 8 ≡ b
one_byte b h =
    let e : u64 (b * 2 ^ (8 * 0)) ≡ b = omega arith in
    ap (λ (t : ℕ). bit_or 0 t % 2 ^ 8) e
    ∙ ap (λ (t : ℕ). t % 2 ^ 8) (bit_or_fields 8 0 b h)
    ∙ omega arith

read_u8-straight :
    (a : ℕ) (m : Machine)
    → AreBytes m.mem.ram
    → a < straight_max
    → read_u8 a m ≡ ok (m.mem.ram a, record m { gdb = notify a 1 true m.gdb })
unfolding read_u8 read_from_ram read_loop get_raw_ptr is_straight load_host
read_u8-straight a m bytes h =
    let near : leb (u64 (a + 1)) straight_max ≡ true = ground arith in
    let one : rounds 1 a ≡ 1 = omega arith in
    let inside : ltb (a + 0) ram_size ≡ true = ground arith in
    let same : a + 0 ≡ a = omega arith in
    rw (near, one, inside, same, one_byte (m.mem.ram a) (bytes a)) refl

write_u8-straight :
    (a b : ℕ) (m : Machine)
    → b < 256
    → a < straight_max
    → write_u8 a b m
      ≡ ok (record (with_ram (update m.mem.ram a b) m) { gdb = notify a 1 false m.gdb })
unfolding write_u8 write_to_ram write_loop get_raw_ptr is_straight store_host
write_u8-straight a b m small h =
    let near : leb (u64 (a + 1)) straight_max ≡ true = ground arith in
    let one : rounds 1 a ≡ 1 = omega arith in
    let inside : ltb (a + 0) ram_size ≡ true = ground arith in
    let same : a + 0 ≡ a = omega arith in
    let low : bit_and b 0xff ≡ b = bit_and_mask 8 b ∙ omega arith in
    rw (near, one, inside, same, low) refl

read_step :
    (gva i size byte : ℕ) (bytes : List ℕ) (m m₁ m₂ : Machine)
    → read_u8 (u64 (gva + i)) m ≡ ok (byte, m₁)
    → read_bytes_from gva (i + 1) size m₁ ≡ ok (bytes, m₂)
    → read_bytes_from gva i (suc size) m ≡ ok (byte ∷ bytes, m₂)
unfolding read_bytes_from
read_step gva i size byte bytes m m₁ m₂ e f = rw (e, f) refl

write_step :
    (gva i byte : ℕ) (bytes : List ℕ) (m m₁ m₂ : Machine)
    → write_u8 (u64 (gva + i)) byte m ≡ ok m₁
    → write_bytes_from gva (i + 1) bytes m₁ ≡ ok m₂
    → write_bytes_from gva i (byte ∷ bytes) m ≡ ok m₂
unfolding write_bytes_from
write_step gva i byte bytes m m₁ m₂ e f = rw (e, f) refl

read_bytes_from-straight :
    (gva i size : ℕ) (m : Machine)
    → AreBytes m.mem.ram
    → gva + i + size ≤ straight_max
    → (g : Gdb) × (read_bytes_from gva i size m
        ≡ ok (bytes_from size (gva + i) m.mem.ram, record m { gdb = g }))
unfolding read_bytes_from bytes_from
read_bytes_from-straight gva i zero m bytes h = (m.gdb, refl)
read_bytes_from-straight gva i (suc size) m bytes h =
    let at : u64 (gva + i) ≡ gva + i = omega arith in
    let m₁ : Machine = record m { gdb = notify (gva + i) 1 true m.gdb } in
    let (g, rest) = read_bytes_from-straight gva (i + 1) size m₁ bytes (omega arith) in
    let next : gva + (i + 1) ≡ gva + i + 1 = omega arith in
    (
      g,
      read_step gva i size (m.mem.ram (gva + i)) (bytes_from size (gva + i + 1) m.mem.ram) m m₁
          (record m { gdb = g })
          (ap (λ (t : ℕ). read_u8 t m) at ∙ read_u8-straight (gva + i) m bytes (omega arith))
          (rest ∙ ap (λ (t : ℕ). ok (bytes_from size t m.mem.ram, record m { gdb = g })) next),
    )

abbrev pub Small : List ℕ → Type 0
Small bs = (k : ℕ) → byte_at bs k < 256

write_bytes_from-straight :
    (bs : List ℕ) (gva i : ℕ) (m : Machine)
    → Small bs
    → gva + i + length bs ≤ straight_max
    → (g : Gdb) × (write_bytes_from gva i bs m
        ≡ ok (record (with_ram (put_bytes m.mem.ram (gva + i) bs) m) { gdb = g }))
unfolding write_bytes_from put_bytes
write_bytes_from-straight [] gva i m small h = (m.gdb, refl)
write_bytes_from-straight (b ∷ bs) gva i m small h =
    let at : u64 (gva + i) ≡ gva + i = omega arith in
    let m₁ : Machine = record (with_ram (update m.mem.ram (gva + i) b) m) {
      gdb = notify (gva + i) 1 false m.gdb;
    } in
    let (g, rest) =
      write_bytes_from-straight bs gva (i + 1) m₁ (λ k. small (suc k)) (omega arith) in
    let next : gva + (i + 1) ≡ gva + i + 1 = omega arith in
    let ram = update m.mem.ram (gva + i) b in
    (
      g,
      write_step gva i b bs m m₁ (record (with_ram (put_bytes ram (gva + i + 1) bs) m) { gdb = g })
          (ap (λ (t : ℕ). write_u8 t b m) at
            ∙ write_u8-straight (gva + i) b m (small 0) (omega arith))
          (rest ∙ ap (λ (t : ℕ). ok (record (with_ram (put_bytes ram t bs) m) { gdb = g })) next),
    )

-- ReadBytes of a range of the straight mapping gives what stands in pRAM; only the debugger's state
-- can change.
pub read_bytes-straight :
    (gva size : ℕ) (m : Machine)
    → AreBytes m.mem.ram
    → gva + size ≤ straight_max
    → (g : Gdb) × (read_bytes gva size m ≡ ok (bytes_from size gva m.mem.ram, record m { gdb = g }))
unfolding read_bytes
read_bytes-straight gva size m bytes h =
    let (g, e) = read_bytes_from-straight gva 0 size m bytes (omega arith) in
    let at : gva + 0 ≡ gva = omega arith in
    let whole : int_rounds size ≡ size = ground arith in (g, rw whole (rw at at e))

-- WriteBytes puts its bytes into pRAM, and changes nothing else but the debugger's state.
pub write_bytes-straight :
    (gva : ℕ) (bs : List ℕ) (m : Machine)
    → Small bs
    → gva + length bs ≤ straight_max
    → (g : Gdb) × (write_bytes gva bs m
        ≡ ok (record (with_ram (put_bytes m.mem.ram gva bs) m) { gdb = g }))
unfolding write_bytes
write_bytes-straight gva bs m small h =
    let (g, e) = write_bytes_from-straight bs gva 0 m small (omega arith) in
    let at : gva + 0 ≡ gva = omega arith in (g, rw at at e)
