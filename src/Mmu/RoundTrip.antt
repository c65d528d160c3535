-- ===== src/Mmu/RoundTrip.antt =====
-- ARMv8/MMU.cpp: a guest write is read back, where the address is mapped.
use nsemu.Common.{
  ℕ, suc, ◌+◌, ◌-◌, ◌*◌, ◌%◌, ◌^◌, ◌≤◌, ◌<◌, ◌≡◌, refl, ◌∙◌, inl, inr, true, false, some, List, [],
  ◌∷◌, ok, Bool-cases, arith,
}
use nsemu.Common.Bytes.{read_le, write_le, read_le-write_le, write_le_inside}
use nsemu.Common.Lists.{get_elem?}
use nsemu.Machine.{RamBlock, Memory, Machine}
use nsemu.Memory.{
  HostPtr, in_ram, in_block, holds, straight_max, is_straight, find_ram_block, get_raw_ptr,
  load_host,
}
use nsemu.Mmu.{rounds, notify, read_from_ram, write_to_ram}
use nsemu.Mmu.Bytes.{Shows, read_loop_lem, write_loop_lem}

-- The `n` bytes at `gpa` are mapped: they lie in the straight mapping, or in the buffer of the first
-- region that FindRamBlock finds for `gpa`.
pub data Accessible (m : Memory) (gpa n : ℕ) : Type 0 where
  straight : gpa + n ≤ straight_max → Accessible m gpa n
  block :
      (i : ℕ) (r : RamBlock) (buf : ℕ → ℕ)
      → is_straight gpa n ≡ false
      → find_ram_block 0 m.regions gpa ≡ some (i, r)
      → r.block ≡ some buf
      → gpa + n ≤ r.addr + r.length
      → gpa + n < 2 ^ 64
      → Accessible m gpa n

-- What the search returns is a region of the list that holds the address.
find_sound :
    (i₀ : ℕ) (rs : List RamBlock) (gpa i : ℕ) (r : RamBlock)
    → find_ram_block i₀ rs gpa ≡ some (i, r)
    → (k : ℕ) × (i ≡ i₀ + k) × (get_elem? rs k ≡ some r) × (r.addr ≤ gpa)
unfolding find_ram_block
find_sound i₀ [] gpa i r h = absurd (ground arith)
find_sound i₀ (x ∷ rs) gpa i r h = elim (Bool-cases (holds x gpa)) [
  | inl e ↦ (0, ground arith, ground arith, ground arith)
  | inr e ↦
      let (k, pos, at, le) = find_sound (i₀ + 1) rs gpa i r (rw e at h) in
      (suc k, omega arith, at, le)
]

-- A mapped range has a pointer behind which its bytes show.
pub Accessible-Shows :
    (m : Memory) (gpa n : ℕ)
    → Accessible m gpa n
    → (p : HostPtr) × (f : ℕ → ℕ) × (get_raw_ptr m gpa n ≡ ok p)
      × Shows m p n f
      × (gpa + n < 2 ^ 64)
unfolding get_raw_ptr load_host
Accessible-Shows m gpa n (straight h) =
    (in_ram gpa, λ k. m.ram (gpa + k), ground arith, λ k b. ground arith, omega arith)
Accessible-Shows m gpa n (block i r buf out found has fits top) =
    let (j, pos, at, le) = find_sound 0 m.regions gpa i r found in
    (in_block i (gpa - r.addr), λ k. buf (gpa - r.addr + k), ground arith, λ k b. ground arith, top)

one_times : (x : ℕ) → 0 + 2 ^ (8 * 0) * x ≡ x
one_times x = omega arith

-- Where the range is mapped, WriteToRAM succeeds, and ReadFromRAM of the same range then returns the
-- value written, cut to its width; the read changes no memory and neither changes a register.
pub read-write :
    (n gpa value : ℕ) (m : Machine)
    → n ≤ 8
    → Accessible m.mem gpa n
    → (m' : Machine) × (m'' : Machine) × (write_to_ram n gpa value m ≡ ok m')
      × (read_from_ram n gpa m' ≡ ok (value % 256 ^ n, m''))
      × (m''.mem ≡ m'.mem)
      × (m'.cpu ≡ m.cpu)
      × (m''.cpu ≡ m.cpu)
unfolding write_to_ram read_from_ram
read-write n gpa value m n8 mapped =
    let (p, f, ptr, shows, top) = Accessible-Shows m.mem gpa n mapped in
    let (mem', looped, shows', same) = write_loop_lem n p n 0 value m.mem f (omega arith) shows in
    let all : rounds n gpa ≡ n = omega arith in
    let m' : Machine = record m { mem = mem'; gdb = notify gpa n false m.gdb } in
    (
      m',
      record m' { gdb = notify gpa n true m'.gdb },
      rw (ptr, all, looped) refl,
      rw
          (
            same gpa n,
            ptr,
            all,
            read_loop_lem n mem' p (write_le n f 0 value) n 0 0 n8 (omega arith) shows'
                (λ j h. write_le_inside n f 0 value j (omega arith) (omega arith)) (omega arith),
            read_le-write_le n f 0 value,
            one_times (value % 256 ^ n),
          )
          refl,
      refl,
      refl,
      refl,
    )

-- The range starts at a pointer behind which the bytes of `f` show.
abbrev pub Maps : Memory → ℕ → ℕ → (ℕ → ℕ) → Type 0
Maps m gpa n f = (p : HostPtr) × (get_raw_ptr m gpa n ≡ ok p) × Shows m p n f × (gpa + n < 2 ^ 64)

pub read_from_ram-Maps :
    (n gpa : ℕ) (f : ℕ → ℕ) (m : Machine)
    → n ≤ 8
    → Maps m.mem gpa n f
    → ((j : ℕ) → j < n → f j < 256)
    → read_from_ram n gpa m ≡ ok (read_le n f 0, record m { gdb = notify gpa n true m.gdb })
unfolding read_from_ram
read_from_ram-Maps n gpa f m n8 (p, ptr, shows, top) bytes =
    let all : rounds n gpa ≡ n = omega arith in
    rw
      (
        ptr,
        all,
        read_loop_lem n m.mem p f n 0 0 n8 (omega arith) shows bytes (omega arith),
        one_times (read_le n f 0),
      )
      refl

pub write_to_ram-Maps :
    (n gpa value : ℕ) (f : ℕ → ℕ) (m : Machine)
    → Maps m.mem gpa n f
    → (mem : Memory) × (write_to_ram n gpa value m
        ≡ ok (record m { mem = mem; gdb = notify gpa n false m.gdb }))
      × Maps mem gpa n (write_le n f 0 value)
unfolding write_to_ram
write_to_ram-Maps n gpa value f m (p, ptr, shows, top) =
    let (mem', looped, shows', same) = write_loop_lem n p n 0 value m.mem f (omega arith) shows in
    let all : rounds n gpa ≡ n = omega arith in
    (mem', rw (ptr, all, looped) refl, (p, same gpa n ∙ ptr, shows', top))
