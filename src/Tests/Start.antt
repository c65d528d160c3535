-- ===== src/Tests/Start.antt =====
-- The results on loading and starting a guest.
use nsemu.Common.{ℕ, ◌+◌, ◌<◌, ◌≡◌, refl, some, List, [], ◌∷◌, ok, ◌==◌, if◌then◌else◌, arith}
use nsemu.Common.Bytes.{read_le}
use nsemu.Common.Lists.{byte_at, bytes_from}
use nsemu.Machine.{Machine, Memory}
use nsemu.Memory.{init_memmap, add_memmap}
use nsemu.Kernel.{no_kernel}
use nsemu.Loader.{File, Lz4, NsoHeader, read_header, nso0, image_size, load_nso}
use nsemu.Loader.Segments.{Outside, Unpacks, Ordered, load_nso-segments}
use nsemu.Boot.{tls_base, tls_size, boot_up}
use nsemu.Boot.Ready.{IsReady, boot_up-IsReady}
use nsemu.Tests.Machines.{test_memory, test_machine}

-- A decompressor that copies, and a file with a segment of 112 bytes and two of one, behind the header.
abbrev stored : Lz4
stored packed size = some packed

abbrev test_file_byte : ℕ → ℕ
test_file_byte i =
    if i == 0
    then 0x4e
    else if i == 1
    then 0x53
    else if i == 2
    then 0x4f
    else if i == 3
    then 0x30
    else if i == 16
    then 0x40
    else if i == 24
    then 112
    else if i == 32
    then 0xb0
    else if i == 37
    then 0x10
    else if i == 40
    then 1
    else if i == 48
    then 0xb1
    else if i == 53
    then 0x20
    else if i == 56
    then 1
    else if i == 64
    then 0xaa
    else if i == 0xb0
    then 0xbb
    else if i == 0xb1
    then 0xcc
    else 0

abbrev test_file : File
test_file = record { size = 0xb2; byte = test_file_byte }

abbrev test_text : List ℕ
test_text = bytes_from 112 0x40 test_file_byte

abbrev test_header : NsoHeader
test_header = record {
  magic = nso0;
  text_off = 0x40;
  text_loc = 0;
  text_size = 112;
  rdata_off = 0xb0;
  rdata_loc = 0x1000;
  rdata_size = 1;
  data_off = 0xb1;
  data_loc = 0x2000;
  data_size = 1;
  bss_size = 0;
}

header_read : read_header test_file ≡ ok test_header
unfolding read_header read_le
header_read = refl

text-Unpacks : Unpacks stored test_file 0x40 0xb0 112 test_text
unfolding bytes_from
text-Unpacks = record {
  ordered = omega arith;
  inside = omega arith;
  short = omega arith;
  unpacked = refl;
  complete = refl;
}

rdata-Unpacks : Unpacks stored test_file 0xb0 0xb1 1 (0xbb ∷ [])
unfolding bytes_from
rdata-Unpacks = record {
  ordered = omega arith;
  inside = omega arith;
  short = omega arith;
  unpacked = refl;
  complete = refl;
}

data-Unpacks : Unpacks stored test_file 0xb1 0xb2 1 (0xcc ∷ [])
unfolding bytes_from
data-Unpacks = record {
  ordered = omega arith;
  inside = omega arith;
  short = omega arith;
  unpacked = refl;
  complete = refl;
}

test-Ordered : Ordered test_header
test-Ordered = record { text = omega arith; rdata = omega arith; all = omega arith }

load_nso-segments_example :
    (m' : Memory) × (load_nso stored test_file test_memory ≡ ok (image_size test_header, m'))
    × ((k : ℕ) → k < 112 → m'.ram (0 + k) ≡ byte_at test_text k)
    × ((k : ℕ) → k < 1 → m'.ram (0x1000 + k) ≡ byte_at (0xbb ∷ []) k)
    × ((k : ℕ) → k < 1 → m'.ram (0x2000 + k) ≡ byte_at (0xcc ∷ []) k)
    × ((j : ℕ)
        → Outside 0 112 j
        → Outside 0x1000 1 j
        → Outside 0x2000 1 j
        → m'.ram j ≡ test_memory.ram j)
    × (m'.regions ≡ test_memory.regions)
    × (m'.heap_size ≡ test_memory.heap_size)
load_nso-segments_example =
    load_nso-segments stored test_file test_header test_text (0xbb ∷ []) (0xcc ∷ []) test_memory
      header_read refl text-Unpacks rdata-Unpacks data-Unpacks test-Ordered (omega arith)

-- A file that is no NSO is left alone, and the start goes on.
abbrev empty_file : File
empty_file = record { size = 64; byte = λ i. 0 }

abbrev fresh_machine : Machine
fresh_machine = record test_machine { kernel = no_kernel }

not_loaded :
    load_nso stored empty_file (init_memmap fresh_machine.mem)
    ≡ ok (0, init_memmap fresh_machine.mem)
unfolding load_nso read_header read_le
not_loaded = refl

boot_up-IsReady_example :
    (m' : Machine) × (boot_up stored empty_file (λ i. 0) fresh_machine ≡ ok m')
    × IsReady m'
    × (m'.mem ≡ add_memmap (λ i. 0) tls_base tls_size (init_memmap fresh_machine.mem))
boot_up-IsReady_example =
    boot_up-IsReady stored empty_file (λ i. 0) fresh_machine 0 (init_memmap fresh_machine.mem) refl
      not_loaded
