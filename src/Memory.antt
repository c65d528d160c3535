-- ===== src/Memory.antt =====
-- Memory.cpp: where a guest address lies in host memory, and the list of mapped regions.
-- A host pointer is an index into pRAM or an offset into the buffer of a region.
pub mod Regions
pub mod Host
pub mod Copy
use nsemu.Common.{
  ℕ, zero, suc, ◌+◌, ◌-◌, ◌^◌, Bool, true, false, not, ◌&&◌, ◌||◌, Option, none, some, List, [],
  ◌∷◌, ◌++◌, u64, u32, ltb, leb, if◌then◌else◌, Outcome, ok, abort, fault, ◌>>=◌,
}
use nsemu.Common.Lists.{get_elem?, set, update}
use nsemu.Machine.{RamBlock, Memory}
use nsemu.Kernel.{codes, name_eq}

abbrev pub heap_base : ℕ
heap_base = 0x9000000

abbrev pub ram_size : ℕ
ram_size = 0x10000000

-- straight_max = heap_base + heap_size, computed once, while heap_size is 0.
abbrev pub straight_max : ℕ
straight_max = 0x9000000

-- PROT_READ | PROT_WRITE, and the same with PROT_EXEC.
abbrev pub prot_rw : ℕ
prot_rw = 3

abbrev pub prot_rwx : ℕ
prot_rwx = 7

-- The constructor of RAMBlock: what it masks is the member's old value, which `_addr` replaces.
unfoldable pub ram_block : ℕ → ℕ → Option (ℕ → ℕ) → ℕ → RamBlock
ram_block addr len raw perm = record {
  name = "[anon]";
  addr = addr;
  length = len;
  perm = perm;
  block = raw;
}

abbrev mem_map_straight : List RamBlock
mem_map_straight =
    record { name = ".text"; addr = 0; length = 0xffffff; perm = prot_rwx; block = none }
    ∷ record { name = "[stack]"; addr = 0x3000000; length = 0xffffff; perm = prot_rw; block = none }
    ∷ []

-- InitMemmap: mmap gives zeroed pages.
unfoldable pub init_memmap : Memory → Memory
init_memmap m = record m { ram = λ i. 0; regions = m.regions ++ mem_map_straight }

unfoldable pub is_straight : ℕ → ℕ → Bool
is_straight addr len = leb (u64 (addr + len)) straight_max

abbrev pub holds : RamBlock → ℕ → Bool
holds r addr = leb r.addr addr && leb addr (u64 (r.addr + r.length))

-- FindRamBlock, with the index of the block found; `i` counts the blocks passed.
unfoldable pub find_ram_block : ℕ → List RamBlock → ℕ → Option (ℕ × RamBlock)
find_ram_block i [] addr = none
find_ram_block i (r ∷ rs) addr =
    if holds r addr then some (i, r) else find_ram_block (i + 1) rs addr

-- AddMemmap, whose length is an unsigned int: a longer one is cut. A new block is `new uint8_t[len]`; its
-- bytes are whatever they are, `raw`.
unfoldable pub add_memmap : (ℕ → ℕ) → ℕ → ℕ → Memory → Memory
unfolding is_straight ram_block
add_memmap raw addr size m =
    let len = u32 size in
    if is_straight addr len
    then record m { regions = m.regions ++ ram_block addr len none prot_rw ∷ [] }
    else record m { regions = m.regions ++ ram_block addr len (some raw) prot_rw ∷ [] }

-- The test of DelMemmap on one block.
abbrev pub covered : ℕ → ℕ → RamBlock → Bool
covered addr len r = leb addr r.addr && leb (u64 (r.addr + r.length)) (u64 (addr + len))

del_regions : ℕ → ℕ → List RamBlock → List RamBlock
del_regions addr len [] = []
del_regions addr len (r ∷ rs) =
    let rest = del_regions addr len rs in if covered addr len r then rest else r ∷ rest

-- Whether a block that `new` did not make, one of mem_map_straight, would be deleted.
deletes_static : ℕ → ℕ → List RamBlock → Bool
deletes_static addr len [] = false
deletes_static addr len (r ∷ rs) =
    covered addr len r && not (name_eq (codes r.name) (codes "[anon]"))
    || deletes_static addr len rs

-- DelMemmap, whose length is an unsigned int. To delete a block that `new` did not make is a fault.
unfoldable pub del_memmap : ℕ → ℕ → Memory → Outcome Memory
unfolding del_regions deletes_static
del_memmap addr size m =
    let len = u32 size in
    if deletes_static addr len m.regions
    then fault
    else ok (record m { regions = del_regions addr len m.regions })

pub data HostPtr : Type 0 where
  in_ram : ℕ → HostPtr
  in_block : ℕ → ℕ → HostPtr

-- The part of GetRawPtr after the search.
ptr_of_found : Option (ℕ × RamBlock) → ℕ → Outcome HostPtr
ptr_of_found none gpa = abort
ptr_of_found (some (i, r)) gpa = ok (in_block i (gpa - r.addr))

unfoldable pub get_raw_ptr : Memory → ℕ → ℕ → Outcome HostPtr
unfolding is_straight find_ram_block ptr_of_found
get_raw_ptr m gpa len =
    if is_straight gpa len
    then ok (in_ram gpa)
    else ptr_of_found (find_ram_block 0 m.regions gpa) gpa

load_buffer : RamBlock → ℕ → Outcome ℕ
load_buffer r i = elim r.block [
  | none ↦ fault
  | some buf ↦ if ltb i r.length then ok (buf i) else fault
]

store_buffer : RamBlock → ℕ → ℕ → Outcome RamBlock
store_buffer r i byte = elim r.block [
  | none ↦ fault
  | some buf ↦ if ltb i r.length then ok (record r { block = some (update buf i byte) }) else fault
]

-- emu_mem[k], and its assignment. An index past the buffer is a fault.
unfoldable pub load_host : Memory → HostPtr → ℕ → Outcome ℕ
unfolding load_buffer
load_host m (in_ram p) k = if ltb (p + k) ram_size then ok (m.ram (p + k)) else fault
load_host m (in_block i o) k = elim (get_elem? m.regions i) [
  | none ↦ fault
  | some r ↦ load_buffer r (o + k)
]

unfoldable pub store_host : Memory → HostPtr → ℕ → ℕ → Outcome Memory
unfolding store_buffer
store_host m (in_ram p) k byte =
    if ltb (p + k) ram_size then ok (record m { ram = update m.ram (p + k) byte }) else fault
store_host m (in_block i o) k byte = elim (get_elem? m.regions i) [
  | none ↦ fault
  | some r ↦ do r' ← store_buffer r (o + k) byte; ok (record m { regions = set m.regions i r' })
]
