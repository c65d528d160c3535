-- ===== src/Svc/Copy.antt =====
-- Svc.cpp: MirrorStack, inside the straight mapping.
use nsemu.Common.{
  ℕ, zero, suc, ◌+◌, ◌≤◌, ◌<◌, ◌≡◌, refl, ◌∙◌, ◌⊎◌, true, u32, u64, leb, List, [], ◌∷◌, ◌++◌, none,
  ok, arith,
}
use nsemu.Common.Bytes.{AreBytes}
use nsemu.Common.Lists.{bytes_from, byte_at-bytes_from, length-bytes_from}
use nsemu.Machine.{Machine}
use nsemu.Memory.{prot_rw, straight_max, is_straight, ram_block, add_memmap}
use nsemu.Mmu.{read_bytes, write_bytes}
use nsemu.Mmu.Straight.{
  Small, put_bytes, put_bytes_inside, put_bytes_outside, with_ram, read_bytes-straight,
  write_bytes-straight,
}
use nsemu.Svc.{on_mem, mirror_stack}

pub bytes_from-Small : (n i : ℕ) (f : ℕ → ℕ) → AreBytes f → Small (bytes_from n i f)
unfolding bytes_from
bytes_from-Small zero i f h k = omega arith
bytes_from-Small (suc n) i f h zero = h i
bytes_from-Small (suc n) i f h (suc k) = bytes_from-Small n (i + 1) f h k

mirror_steps :
    (raw : ℕ → ℕ) (dest src size : ℕ) (temp : List ℕ) (m m₁ m₂ : Machine)
    → read_bytes src size (on_mem (add_memmap raw dest size) m) ≡ ok (temp, m₁)
    → write_bytes dest temp m₁ ≡ ok m₂
    → mirror_stack raw dest src size m ≡ ok m₂
unfolding mirror_stack
mirror_steps raw dest src size temp m m₁ m₂ e f = rw (e, f) refl

-- MirrorStack inside the straight mapping copies the range as it was before the call, also where the
-- two ranges overlap. It adds a region for the copy behind those that there are, and changes no other
-- byte of pRAM, no other region, no register and none of the kernel's objects.
pub mirror_stack-copies :
    (raw : ℕ → ℕ) (dest src size : ℕ) (m : Machine)
    → AreBytes m.mem.ram
    → dest + size ≤ straight_max
    → src + size ≤ straight_max
    → (m' : Machine) × (mirror_stack raw dest src size m ≡ ok m')
      × ((k : ℕ) → k < size → m'.mem.ram (dest + k) ≡ m.mem.ram (src + k))
      × ((j : ℕ) → (j < dest) ⊎ (dest + size ≤ j) → m'.mem.ram j ≡ m.mem.ram j)
      × (m'.mem.regions ≡ m.mem.regions ++ ram_block dest size none prot_rw ∷ [])
      × (m'.mem.heap_size ≡ m.mem.heap_size)
      × (m'.cpu ≡ m.cpu)
      × (m'.kernel ≡ m.kernel)
unfolding add_memmap is_straight ram_block
mirror_stack-copies raw dest src size m bytes to from =
    let whole : u32 size ≡ size = omega arith in
    let near : leb (u64 (dest + size)) straight_max ≡ true = ground arith in
    let m₀ : Machine = record m {
      mem = record (m.mem) { regions = m.mem.regions ++ ram_block dest size none prot_rw ∷ [] };
    } in
    let temp = bytes_from size src m.mem.ram in
    let count = length-bytes_from size src m.mem.ram in
    let (g₁, read) = read_bytes-straight src size m₀ bytes from in
    let (g₂, wrote) =
      write_bytes-straight dest temp (record m₀ { gdb = g₁ })
        (bytes_from-Small size src m.mem.ram bytes) (omega (arith, count)) in
    (
      record (with_ram (put_bytes m.mem.ram dest temp) m₀) { gdb = g₂ },
      mirror_steps raw dest src size temp m (record m₀ { gdb = g₁ })
          (record (with_ram (put_bytes m.mem.ram dest temp) m₀) { gdb = g₂ })
          (rw (whole, near) read) wrote,
      λ k h.
          put_bytes_inside temp m.mem.ram dest k (omega (arith, count))
          ∙ byte_at-bytes_from size src k m.mem.ram h,
      λ j h. put_bytes_outside temp m.mem.ram dest j (ground (arith, count)),
      refl,
      refl,
      refl,
      refl,
    )
