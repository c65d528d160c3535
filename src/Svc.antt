-- ===== src/Svc.antt =====
-- Svc.cpp: the supervisor calls, and the table svc_handlers that Init fills. exit ends the program, as
-- ns_abort does.
pub mod Heap
pub mod Copy
pub mod Sync
use nsemu.Common.{
  ℕ, zero, suc, ◌+◌, ◌-◌, ◌*◌, ◌^◌, Bool, true, false, ◌&&◌, ◌||◌, u32, u64, ltb, leb, ◌==◌,
  if◌then◌else◌, Outcome, ok, abort, ◌>>=◌, Option, none, some, List, [], ◌∷◌,
}
use nsemu.Common.Lists.{byte_at, bytes_from}
use nsemu.Machine.{Memory, Machine}
use nsemu.Kernel.{get_handle, connect_to_port}
use nsemu.Ipc.{message_size}
use nsemu.Ipc.Command.{Host}
use nsemu.Ipc.Session.{proc_message}
use nsemu.Memory.{heap_base, add_memmap, del_memmap, HostPtr, in_ram}
use nsemu.Memory.Regions.{Use, free, mapped, range_of, get_regions}
use nsemu.Mmu.{read_loop, write_loop, read_bytes, write_bytes, read_string}
use nsemu.Cpu.{x, set_x}
use nsemu.Cpu.LoadStore.{on_cpu}
use nsemu.Interpreter.Exec.{Handlers}

abbrev pub on_mem : (Memory → Memory) → Machine → Machine
on_mem f m = record m { mem = f m.mem }

-- `raw` is what the host's new buffer holds. A smaller heap keeps its blocks.
unfoldable pub set_heap_size : (ℕ → ℕ) → ℕ → Memory → Memory
set_heap_size raw size m =
    let grown =
      if ltb m.heap_size size
      then add_memmap raw (u64 (heap_base + m.heap_size)) (size - m.heap_size - 1) m
      else m in
    record grown { heap_size = size }

unfoldable pub mirror_stack : (ℕ → ℕ) → ℕ → ℕ → ℕ → Machine → Outcome Machine
mirror_stack raw dest src size m = do
  (temp, m') ← read_bytes src size (on_mem (add_memmap raw dest size) m)
  write_bytes dest temp m'

unfoldable pub unmap_memory : ℕ → ℕ → Machine → Outcome Machine
unmap_memory dest size m = do mem ← del_memmap dest size m.mem; ok (record m { mem = mem })

-- *GuestPtr<uint32_t> (addr): GuestPtr is a pointer into pRAM for any address.
abbrev pub guest_u32 : Memory → ℕ → Outcome ℕ
guest_u32 m addr = read_loop 4 m (in_ram addr) 4 0 0

-- byte_swap32_str ("MOD0").
abbrev pub mod0 : ℕ
mod0 = 0x30444f4d

-- The permission of a mapped range: 5 where a module's header is found, else 3.
unfoldable pub query_permission : Memory → ℕ → ℕ → Outcome ℕ
query_permission m begin end = do
  offset ← guest_u32 m (u64 (begin + 4))
  if ltb (u64 (u64 (begin + offset) + 4)) end
      then (do magic ← guest_u32 m (u64 (begin + offset)); ok (if magic == mod0 then 5 else 3))
      else ok 3

-- The type of a range: FREE, CODE or HEAP.
unfoldable pub query_type : Memory → ℕ → Use → ℕ
query_type m addr use' =
    if leb heap_base addr && ltb addr (u64 (heap_base + m.heap_size))
    then 5
    else elim use' [ free ↦ 0 | mapped ↦ 3 ]

-- *ptr = minfo. The two counts and the padding are never set; `junk` is what they hold.
unfoldable pub write_mem_info : ℕ → ℕ → ℕ → ℕ → ℕ → ℕ → Memory → Outcome Memory
write_mem_info junk ptr begin size type permission m = do
  m₁ ← write_loop (in_ram ptr) 8 0 begin m
  m₂ ← write_loop (in_ram ptr) 8 8 size m₁
  m₃ ← write_loop (in_ram ptr) 4 16 type m₂
  m₄ ← write_loop (in_ram ptr) 4 20 0 m₃
  m₅ ← write_loop (in_ram ptr) 4 24 permission m₄
  write_loop (in_ram ptr) 12 28 junk m₅

-- QueryMemory for the range that its loop finds.
unfoldable pub query_found : ℕ → ℕ → ℕ → Option (ℕ × ℕ × Use) → Memory → Outcome Memory
query_found junk meminfo addr none m = ok m
query_found junk meminfo addr (some (begin, end, free)) m =
    write_mem_info junk meminfo begin (u64 (end - begin + 1)) (query_type m addr free) 0 m
query_found junk meminfo addr (some (begin, end, mapped)) m = do
  permission ← query_permission m begin end
  write_mem_info junk meminfo begin (u64 (end - begin + 1)) (query_type m addr mapped) permission m

unfoldable pub query_memory : ℕ → ℕ → ℕ → Memory → Outcome Memory
query_memory junk meminfo addr m = query_found junk meminfo addr (range_of (get_regions m) addr) m

-- GetInfo, from the numbers of GetInfoType.
unfoldable pub get_info : ℕ → Memory → Outcome ℕ
get_info id1 m =
    if id1 == 0
    then ok 0xf
    else if id1 == 1
    then ok 0xffff_ffff_0000_0000
    else if id1 == 2 || id1 == 14
    then ok 0xbb0000000
    else if id1 == 3 || id1 == 15
    then ok 0x1000000000
    else if id1 == 4
    then ok heap_base
    else if id1 == 5
    then ok m.heap_size
    else if id1 == 6
    then ok 0x400000
    else if id1 == 7
    then ok 0x10000
    else if id1 == 8 || id1 == 11
    then ok 0
    else if id1 == 12
    then ok 0x8000000
    else if id1 == 13
    then ok 0x7ff8000000
    else if id1 == 16
    then ok 1
    else if id1 == 18
    then ok 0x0100000000000036
    else if id1 == 19 || id1 == 20
    then ok 0
    else abort

-- ARMv8::GetTls: the register behind the four of tpidr_el.
abbrev pub get_tls : Machine → ℕ
get_tls m = m.cpu.sysr 32

-- The test for a null handler, and ProcMessage.
unfoldable pub call_handler : Host → Option ℕ → List ℕ → Machine → Outcome Machine
call_handler host none msgbuf m = abort
call_handler host (some handler) msgbuf m = do
  (ret, reply, m₁) ← proc_message host handler (byte_at msgbuf) m
  write_bytes (get_tls m₁) (bytes_from message_size 0 reply) m₁

unfoldable pub send_sync_request : Host → ℕ → Machine → Outcome Machine
unfolding call_handler bytes_from
send_sync_request host handle m = do
  (msgbuf, m₁) ← read_bytes (get_tls m) message_size m
  call_handler host (get_handle handle m₁.kernel) msgbuf m₁

-- RegisterSvcRetX0, RegisterSvcRetX01 and RegisterSvcRetX012 put the results into X0 to X2.
abbrev pub ret_x0 : ℕ → Machine → Machine
ret_x0 x0 = on_cpu (set_x 0 x0)

abbrev pub ret_x01 : ℕ → ℕ → Machine → Machine
ret_x01 x0 x1 = on_cpu (λ a. set_x 1 x1 (set_x 0 x0 a))

abbrev pub ret_x012 : ℕ → ℕ → ℕ → Machine → Machine
ret_x012 x0 x1 x2 = on_cpu (λ a. set_x 2 x2 (set_x 1 x1 (set_x 0 x0 a)))

-- The numbers whose call only returns zeros in X0, in X0 and X1, and in X0 to X2, and the ones that
-- return nothing.
abbrev zero_x0 : List ℕ
zero_x0 =
    0x03 ∷ 0x09 ∷ 0x0b ∷ 0x0d ∷ 0x0f ∷ 0x10 ∷ 0x11 ∷ 0x12 ∷ 0x13 ∷ 0x16 ∷ 0x17 ∷ 0x19 ∷ 0x1a ∷ 0x1d
    ∷ 0x51 ∷ 0x52 ∷ 0x5c ∷ 0x74 ∷ 0x75 ∷ 0x77 ∷ 0x78 ∷ []

abbrev zero_x01 : List ℕ
zero_x01 =
    0x08 ∷ 0x0c ∷ 0x15 ∷ 0x18 ∷ 0x24 ∷ 0x25 ∷ 0x41 ∷ 0x43 ∷ 0x4e ∷ 0x50 ∷ 0x53 ∷ 0x55 ∷ 0x56 ∷ 0x57
    ∷ 0x59 ∷ []

abbrev zero_x012 : List ℕ
zero_x012 = 0x40 ∷ 0x45 ∷ []

abbrev silent : List ℕ
silent = 0x0a ∷ 0x1b ∷ 0x1c ∷ []

abbrev pub member : ℕ → List ℕ → Bool
member n [] = false
member n (k ∷ ks) = n == k || member n ks

-- The calls that read or change memory; for the others, `none`.
unfoldable pub memory_handler : (ℕ → ℕ) → ℕ → Handlers
unfolding set_heap_size mirror_stack unmap_memory query_memory
memory_handler raw junk num =
    if num == 0x01
    then some (λ m. ok (ret_x01 0 heap_base (on_mem (set_heap_size raw (x m.cpu 1)) m)))
    else if num == 0x04
    then some
        (λ m. mirror_stack raw (x m.cpu 0) (x m.cpu 1) (x m.cpu 2) m >>= λ m'. ok (ret_x0 0 m'))
    else if num == 0x05
    then some (λ m. unmap_memory (x m.cpu 0) (x m.cpu 2) m >>= λ m'. ok (ret_x0 0 m'))
    else if num == 0x06
    then some (λ m. query_memory junk (x m.cpu 0) (x m.cpu 2) m.mem >>= λ mem.
        ok (ret_x01 0 0 (record m { mem = mem })))
    else if num == 0x27
    then some (λ m. read_bytes (x m.cpu 0) (x m.cpu 1) m >>= λ (str, m'). ok (ret_x0 0 m'))
    else if num == 0x29
    then some (λ m. get_info (x m.cpu 1) m.mem >>= λ x1. ok (ret_x01 0 x1 m))
    else none

-- The table after Init.
unfoldable pub svc_handlers : Host → (ℕ → ℕ) → ℕ → Handlers
unfolding memory_handler send_sync_request
svc_handlers host raw junk num =
    if member num zero_x0
    then some (λ m. ok (ret_x0 0 m))
    else if member num zero_x01
    then some (λ m. ok (ret_x01 0 0 m))
    else if member num zero_x012
    then some (λ m. ok (ret_x012 0 0 0 m))
    else if member num silent
    then some (λ m. ok m)
    else if num == 0x07 || num == 0x26
    then some (λ m. abort)
    else if num == 0x0e
    then some (λ m. ok (ret_x012 0 0xff 0xff m))
    else if num == 0x1f
    then some (λ m. read_string (x m.cpu 1) m >>= λ (name, m₁).
        connect_to_port name m₁.kernel >>= λ (handle, k).
        ok (ret_x01 0 (u32 handle) (record m₁ { kernel = k })))
    else if num == 0x21
    then some (λ m. send_sync_request host (u32 (x m.cpu 0)) m >>= λ m'. ok (ret_x0 0 m'))
    else if num == 0x22
    then some (λ m. ok (ret_x0 0xf601 m))
    else memory_handler raw junk num
