-- ===== src/Svc/Heap.antt =====
-- Svc.cpp: what SetHeapSize maps.
use nsemu.Common.{
  ℕ, suc, ◌+◌, ◌-◌, ◌^◌, ◌≤◌, ◌<◌, ◌≡◌, refl, ap, ◌∙◌, true, false, u32, u64, ltb, leb, List, [],
  ◌∷◌, ◌++◌, none, some, fault, Bool-cases, inl, inr, arith,
}
use nsemu.Common.Lists.{length, get_elem?}
use nsemu.Machine.{RamBlock, Memory, Machine}
use nsemu.Memory.{
  heap_base, holds, find_ram_block, is_straight, ram_block, add_memmap, get_raw_ptr, load_host,
  in_block,
}
use nsemu.Mmu.{rounds, read_from_ram, read_loop}
use nsemu.Mmu.RoundTrip.{Accessible, block}
use nsemu.Gdb.Watch
use nsemu.Svc.{set_heap_size, on_mem}

-- A search that fails goes on to the block behind the list.
find-append :
    (i : ℕ) (rs : List RamBlock) (r : RamBlock) (a : ℕ)
    → find_ram_block i rs a ≡ none
    → holds r a ≡ true
    → find_ram_block i (rs ++ r ∷ []) a ≡ some (i + length rs, r)
unfolding find_ram_block
find-append i [] r a h g = ground arith
find-append i (s ∷ rs) r a h g = elim (Bool-cases (holds s a)) [
  | inl e ↦ let found = rw e at h in absurd (ground arith)
  | inr e ↦ rw e (
      find-append (i + 1) rs r a (rw e at h) g
      ∙ ap (λ k. some (k, r)) (let q : i + 1 + length rs ≡ i + suc (length rs) = omega arith in q))
]

get-append : (rs : List RamBlock) (r : RamBlock) → get_elem? (rs ++ r ∷ []) (length rs) ≡ some r
get-append [] r = refl
get-append (s ∷ rs) r = get-append rs r

-- The block that the first SetHeapSize adds.
abbrev pub heap_block : (ℕ → ℕ) → ℕ → RamBlock
heap_block raw size = ram_block heap_base (size - 1) (some raw) 3

heap_regions :
    (raw : ℕ → ℕ) (size : ℕ) (m : Memory)
    → m.heap_size ≡ 0
    → 1 < size
    → size ≤ 2 ^ 32
    → set_heap_size raw size m
      ≡ record m { regions = m.regions ++ heap_block raw size ∷ []; heap_size = size }
unfolding set_heap_size add_memmap is_straight ram_block
heap_regions raw size m h g k =
    let grows : ltb 0 size ≡ true = ground arith in
    let less : u32 (size - 0 - 1) ≡ size - 1 = omega arith in
    let high : leb (u64 (u64 (heap_base + 0) + (size - 1))) 0x9000000 ≡ false = ground arith in
    rw (h, grows, less, high) refl

heap_found :
    (raw : ℕ → ℕ) (size a : ℕ) (rs : List RamBlock)
    → 1 < size
    → size ≤ 2 ^ 32
    → heap_base ≤ a
    → a < heap_base + size
    → find_ram_block 0 rs a ≡ none
    → find_ram_block 0 (rs ++ heap_block raw size ∷ []) a ≡ some (length rs, heap_block raw size)
unfolding ram_block
heap_found raw size a rs g k low high out =
    find-append 0 rs (heap_block raw size) a out (ground arith)
    ∙ ap (λ i. some (i, heap_block raw size)) (let q : 0 + length rs ≡ length rs = omega arith in q)

-- After the first SetHeapSize, of two bytes to four gigabytes, every access inside the heap that ends
-- before its last byte is mapped, if no region held its first address before.
pub set_heap_size-Accessible :
    (raw : ℕ → ℕ) (size a n : ℕ) (m : Memory)
    → m.heap_size ≡ 0
    → 1 < size
    → size ≤ 2 ^ 32
    → 0 < n
    → heap_base ≤ a
    → a + n < heap_base + size
    → find_ram_block 0 m.regions a ≡ none
    → Accessible (set_heap_size raw size m) a n
unfolding is_straight ram_block
set_heap_size-Accessible raw size a n m h g k n0 low high out = rw (heap_regions raw size m h g k) (
    block (length m.regions) (heap_block raw size) raw (ground arith)
      (heap_found raw size a m.regions g k low (omega arith) out) refl (omega arith) (omega arith))

last_byte :
    (raw : ℕ → ℕ) (size : ℕ) (m : Memory)
    → 1 < size
    → load_host
        (record m { regions = m.regions ++ heap_block raw size ∷ []; heap_size = size })
        (in_block (length m.regions) (heap_base + size - 1 - heap_base))
        0
      ≡ fault
unfolding load_host ram_block
last_byte raw size m g = ground (arith, get-append m.regions (heap_block raw size))

-- The block that SetHeapSize adds is a byte short: after the first call, of two bytes to four
-- gigabytes, a read of the heap's last byte finds the block and leaves its buffer, if no region held
-- that address before.
pub set_heap_size-last_byte :
    (raw : ℕ → ℕ) (size : ℕ) (m : Machine)
    → m.mem.heap_size ≡ 0
    → 1 < size
    → size ≤ 2 ^ 32
    → find_ram_block 0 m.mem.regions (heap_base + size - 1) ≡ none
    → read_from_ram 1 (heap_base + size - 1) (on_mem (set_heap_size raw size) m) ≡ fault
unfolding read_from_ram get_raw_ptr is_straight read_loop load_host ram_block
    nsemu.Gdb.Watch.notify_mem_access
set_heap_size-last_byte raw size m h g k out =
    let a : ℕ = heap_base + size - 1 in
    let high : is_straight a 1 ≡ false = ground arith in
    let one : rounds 1 a ≡ 1 = omega arith in
    rw
      (
        heap_regions raw size m.mem h g k,
        high,
        heap_found raw size a m.mem.regions g k (omega arith) (omega arith) out,
        one,
        last_byte raw size m.mem g,
      )
      refl
