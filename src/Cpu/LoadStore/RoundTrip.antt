-- ===== src/Cpu/LoadStore/RoundTrip.antt =====
-- ARMv8/Interpreter.cpp: what _StoreReg has stored, _LoadReg loads.
use nsemu.Common.{
  ℕ, ◌%◌, ◌^◌, ◌≤◌, ◌≡◌, refl, ◌∙◌, Bool, false, bit_and, ok, ◌>>=◌, inl, inr, ◌⊎◌, arith,
}
use native.Mathlib.Nat.{pow-le-pow_right}
use nsemu.Common.Bits.{bit_and_mask}
use nsemu.Machine.{Machine}
use nsemu.Mmu.{
  read_u8, read_u16, read_u32, read_u64, write_u8, write_u16, write_u32, write_u64, write_to_ram,
  read_from_ram,
}
use nsemu.Mmu.RoundTrip.{Accessible, read-write}
use nsemu.Cpu.{x, w, set_x}
use nsemu.Cpu.LoadStore.{on_cpu, load_x, load_reg_at, store_reg_at}

-- The bytes of a general register's access, for the sizes 0 to 3.
abbrev pub width : ℕ → ℕ
width size = 2 ^ size

sizes : (size : ℕ) → size ≤ 3 → (size ≡ 0) ⊎ ((size ≡ 1) ⊎ ((size ≡ 2) ⊎ (size ≡ 3)))
sizes size h = grind arith

-- The store of a register is the write of a number that agrees with it on the bytes written.
pub store_reg_at-as :
    (rs addr size : ℕ) (m : Machine)
    → size ≤ 3
    → (value : ℕ) × (store_reg_at rs addr size m ≡ write_to_ram (width size) addr value m)
      × (value % 256 ^ width size ≡ x m.cpu rs % 256 ^ width size)
unfolding store_reg_at write_u8 write_u16 write_u32 write_u64
store_reg_at-as rs addr size m h = elim (sizes size h) [
  | inl e ↦
      (bit_and (w m.cpu rs) 0xff, rw e refl, rw e (omega (arith, bit_and_mask 8 (w m.cpu rs))))
  | inr (inl e) ↦
      (bit_and (w m.cpu rs) 0xffff, rw e refl, rw e (omega (arith, bit_and_mask 16 (w m.cpu rs))))
  | inr (inr (inl e)) ↦ (w m.cpu rs, rw e refl, rw e (omega arith))
  | inr (inr (inr e)) ↦ (x m.cpu rs, rw e refl, rw e refl)
]

pub load_reg_at-as :
    (rd addr size : ℕ) (is_sign : Bool) (m : Machine)
    → size ≤ 3
    → load_reg_at rd addr size is_sign false m
      ≡ (read_from_ram (width size) addr m >>= λ (value, m'). ok (on_cpu (set_x rd value) m'))
unfolding load_reg_at load_x read_u8 read_u16 read_u32 read_u64
load_reg_at-as rd addr size is_sign m h = elim (sizes size h) [
  | inl e ↦ rw e refl
  | inr (inl e) ↦ rw e refl
  | inr (inr (inl e)) ↦ rw e refl
  | inr (inr (inr e)) ↦ rw e refl
]

-- After a store of 1, 2, 4 or 8 bytes of a register to a mapped address, a load without sign
-- extension from that address into any register succeeds, and leaves there the value stored, cut to
-- the bytes of the access.
pub store_reg_at-load_reg_at :
    (rs rd addr size : ℕ) (is_sign : Bool) (m : Machine)
    → size ≤ 3
    → Accessible m.mem addr (width size)
    → (m' : Machine) × (m'' : Machine) × (store_reg_at rs addr size m ≡ ok m')
      × (load_reg_at rd addr size is_sign false m' ≡ ok m'')
      × (x m''.cpu rd ≡ x m.cpu rs % 256 ^ width size)
store_reg_at-load_reg_at rs rd addr size is_sign m h mapped =
    let (value, stored, same) = store_reg_at-as rs addr size m h in
    let width_le : width size ≤ 8 = pow-le-pow_right {n = 2} (omega arith) {j = 3} h in
    let (m', m'', wrote, got, mems, cpu', cpu'') =
      read-write (width size) addr value m width_le mapped in
    (
      m',
      on_cpu (set_x rd (value % 256 ^ width size)) m'',
      stored ∙ wrote,
      rw (load_reg_at-as rd addr size is_sign m' h, got) refl,
      ground (arith, same),
    )
