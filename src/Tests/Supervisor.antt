-- ===== src/Tests/Supervisor.antt =====
-- The results on the supervisor calls.
use nsemu.Common.{◌≡◌, refl, fault, none, arith}
use nsemu.Memory.{find_ram_block}
use nsemu.Mmu.{read_from_ram}
use nsemu.Mmu.RoundTrip.{Accessible}
use nsemu.Svc.{set_heap_size, on_mem}
use nsemu.Svc.Heap.{set_heap_size-Accessible, set_heap_size-last_byte}
use nsemu.Tests.Machines.{test_memory, test_machine}

free_start : find_ram_block 0 test_memory.regions 0x9000ffc ≡ none
unfolding find_ram_block
free_start = refl

free_end : find_ram_block 0 test_memory.regions 0x9000fff ≡ none
unfolding find_ram_block
free_end = refl

set_heap_size-Accessible_example :
    Accessible (set_heap_size (λ i. 0) 0x1000 test_memory) 0x9000ffc 3
set_heap_size-Accessible_example =
    set_heap_size-Accessible (λ i. 0) 0x1000 0x9000ffc 3 test_memory refl (ground arith)
      (ground arith) (ground arith) (ground arith) (ground arith) free_start

set_heap_size-last_byte_example :
    read_from_ram 1 0x9000fff (on_mem (set_heap_size (λ i. 0) 0x1000) test_machine) ≡ fault
set_heap_size-last_byte_example =
    set_heap_size-last_byte (λ i. 0) 0x1000 test_machine refl (ground arith) (ground arith) free_end
