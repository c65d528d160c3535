-- ===== src/Tests/Machines.antt =====
-- Test data, and the results on memory: Memory.cpp and ARMv8/MMU.cpp.
use nsemu.Common.{
  ℕ, ◌%◌, ◌^◌, ◌≡◌, refl, true, false, List, [], ◌∷◌, some, none, ◌==◌, if◌then◌else◌, ok, arith,
}
use nsemu.Common.Lists.{length}
use nsemu.Machine.{
  Arm, IsArm, RamBlock, Memory, idle, Gdb, Machine, Kernel, sm_service, ipc_service,
}
use nsemu.Memory.{is_straight, find_ram_block}
use nsemu.Memory.Copy.{copy_to_emu, copy_from_emu, copy_to_emu-copy_from_emu}
use nsemu.Memory.Regions.{
  free, mapped, Tiles, any_holds, range_of, get_regions, get_regions-Tiles, get_regions-range_of,
}
use nsemu.Mmu.{write_to_ram, read_from_ram}
use nsemu.Mmu.RoundTrip.{block, read-write}

abbrev pub test_arm : Arm
test_arm = record {
  gpr = λ r.
      if r == 1 then 7 else if r == 2 then 0xffff_ffff_ffff_fffe else if r == 3 then 2 ^ 63 else 0;
  vreg = λ v i. 0;
  nzcv = 0;
  sysr = λ o. 0;
}

pub test_arm-IsArm : IsArm test_arm
test_arm-IsArm = record {
  gpr_lt = λ r. ground arith;
  vreg_lt = λ v i. ground arith;
  nzcv_lt = ground arith;
  sysr_lt = λ o. ground arith;
}

-- A region outside the straight mapping, with its buffer.
abbrev pub test_block : RamBlock
test_block = record {
  name = "[anon]";
  addr = 0xb000000;
  length = 0x1000;
  perm = 3;
  block = some (λ i. 0);
}

abbrev pub test_text : RamBlock
test_text = record { name = ".text"; addr = 0; length = 0xffffff; perm = 7; block = none }

abbrev pub test_memory : Memory
test_memory = record { ram = λ i. 0; regions = test_block ∷ test_text ∷ []; heap_size = 0 }

-- A watchpoint on writes of the four bytes at 0x1000.
abbrev pub test_gdb : Gdb
test_gdb = record {
  enabled = true;
  step = false;
  cont = true;
  bp_list = [];
  wp_list = record { addr = 0x1000; len = 4; type = 2 } ∷ [];
  state = idle;
  cmd_buf = λ i. 0;
  buf_index = 0;
  line_sum = 0;
  checksum = 0;
  sent = [];
}

-- The SmService alone, at address 0, and one more service at address 1.
abbrev pub test_kernel : Kernel
test_kernel = record {
  handle_id = 0xde00;
  handles = λ h. none;
  services = λ name. none;
  is_domainobj = false;
  threads = λ h. none;
  thread_id = 0;
  objects = λ p. if p == 0 then some sm_service else if p == 1 then some ipc_service else none;
  next_object = 2;
  displays = [];
}

abbrev pub test_machine : Machine
test_machine = record { cpu = test_arm; mem = test_memory; gdb = test_gdb; kernel = test_kernel }

outside : is_straight 0xb000010 4 ≡ false
unfolding is_straight
outside = refl

found : find_ram_block 0 test_memory.regions 0xb000010 ≡ some (0, test_block)
unfolding find_ram_block
found = refl

read-write_example :
    (m' : Machine) × (m'' : Machine) × (write_to_ram 4 0xb000010 0x12345678 test_machine ≡ ok m')
    × (read_from_ram 4 0xb000010 m' ≡ ok (0x12345678 % 256 ^ 4, m''))
    × (m''.mem ≡ m'.mem)
    × (m'.cpu ≡ test_arm)
    × (m''.cpu ≡ test_arm)
read-write_example =
    read-write 4 0xb000010 0x12345678 test_machine (ground arith)
      (block 0 test_block (λ i. 0) outside found refl (ground arith) (ground arith))

get_regions-Tiles_example : Tiles 0 (get_regions test_memory)
get_regions-Tiles_example = get_regions-Tiles test_memory (ground arith)

get_regions-range_of_example :
    (b : ℕ) × (e : ℕ) × (range_of (get_regions test_memory) 0xb000fff
      ≡ some (b, e, if any_holds test_memory.regions 0xb000fff then mapped else free))
get_regions-range_of_example =
    get_regions-range_of test_memory 0xb000fff (ground arith) (ground arith)

abbrev some_bytes : List ℕ
some_bytes = 0xde ∷ 0xad ∷ 0xbe ∷ 0xef ∷ []

outside_four : is_straight 0xb000ff0 4 ≡ false
unfolding is_straight
outside_four = refl

found_four : find_ram_block 0 test_memory.regions 0xb000ff0 ≡ some (0, test_block)
unfolding find_ram_block
found_four = refl

copy_to_emu-copy_from_emu_example :
    (m' : Memory) × (copy_to_emu some_bytes 0xb000ff0 test_memory ≡ ok m')
    × (copy_from_emu 0xb000ff0 (length some_bytes) m' ≡ ok some_bytes)
copy_to_emu-copy_from_emu_example =
    copy_to_emu-copy_from_emu some_bytes 0xb000ff0 test_memory
      (block 0 test_block (λ i. 0) outside_four found_four refl (ground arith) (ground arith))
