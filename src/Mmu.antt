-- ===== src/Mmu.antt =====
-- ARMv8/MMU.cpp: guest reads and writes of 1, 2, 4 and 8 bytes, which take the byte loop of
-- ReadFromRAM and WriteToRAM and then tell the debugger's watchpoints.
pub mod Bytes
pub mod RoundTrip
pub mod Debugger
pub mod Straight
use nsemu.Common.{
  ℕ, zero, suc, ◌+◌, ◌-◌, ◌*◌, ◌/◌, ◌%◌, ◌^◌, Bool, true, false, List, [], ◌∷◌, ltb, u64, u8, u16,
  u32, bit_and, bit_or, ◌==◌, if◌then◌else◌, Outcome, ok, abort, ◌>>=◌,
}
use nsemu.Machine.{Memory, Gdb, Machine}
use nsemu.Memory.{HostPtr, get_raw_ptr, load_host, store_host}
use nsemu.Gdb.Watch.{notify_mem_access}

-- The rounds of `for (addr = gpa; addr < gpa + sizeof(T); addr++)`; the bound wraps at 2 ^ 64.
abbrev pub rounds : ℕ → ℕ → ℕ
rounds n gpa = u64 (gpa + n) - gpa

-- The loop of ReadFromRAM with `left` rounds to go, at index `k`, for a T of `n` bytes.
unfoldable pub read_loop : ℕ → Memory → HostPtr → ℕ → ℕ → ℕ → Outcome ℕ
read_loop n m p zero k value = ok value
read_loop n m p (suc left) k value = do
  byte ← load_host m p k
  read_loop n m p left (k + 1) (bit_or value (u64 (byte * 2 ^ (8 * k))) % 2 ^ (8 * n))

-- The loop of WriteToRAM.
unfoldable pub write_loop : HostPtr → ℕ → ℕ → ℕ → Memory → Outcome Memory
write_loop p zero k value m = ok m
write_loop p (suc left) k value m = do
  m' ← store_host m p k (bit_and value 0xff)
  write_loop p left (k + 1) (value / 2 ^ 8) m'

abbrev pub notify : ℕ → ℕ → Bool → Gdb → Gdb
notify gpa n read g = if g.enabled then notify_mem_access gpa n read g else g

unfoldable pub read_from_ram : ℕ → ℕ → Machine → Outcome (ℕ × Machine)
read_from_ram n gpa m = do
  p ← get_raw_ptr m.mem gpa n
  value ← read_loop n m.mem p (rounds n gpa) 0 0
  ok (value, record m { gdb = notify gpa n true m.gdb })

unfoldable pub write_to_ram : ℕ → ℕ → ℕ → Machine → Outcome Machine
write_to_ram n gpa value m = do
  p ← get_raw_ptr m.mem gpa n
  mem' ← write_loop p (rounds n gpa) 0 value m.mem
  ok (record m { mem = mem'; gdb = notify gpa n false m.gdb })

unfoldable pub read_u8 : ℕ → Machine → Outcome (ℕ × Machine)
read_u8 gva m = read_from_ram 1 gva m

unfoldable pub read_u16 : ℕ → Machine → Outcome (ℕ × Machine)
read_u16 gva m = read_from_ram 2 gva m

unfoldable pub read_u32 : ℕ → Machine → Outcome (ℕ × Machine)
read_u32 gva m = read_from_ram 4 gva m

unfoldable pub read_u64 : ℕ → Machine → Outcome (ℕ × Machine)
read_u64 gva m = read_from_ram 8 gva m

unfoldable pub write_u8 : ℕ → ℕ → Machine → Outcome Machine
write_u8 gva value m = write_to_ram 1 gva value m

unfoldable pub write_u16 : ℕ → ℕ → Machine → Outcome Machine
write_u16 gva value m = write_to_ram 2 gva value m

unfoldable pub write_u32 : ℕ → ℕ → Machine → Outcome Machine
write_u32 gva value m = write_to_ram 4 gva value m

unfoldable pub write_u64 : ℕ → ℕ → Machine → Outcome Machine
write_u64 gva value m = write_to_ram 8 gva value m

unfoldable pub read_inst : ℕ → Machine → Outcome (ℕ × Machine)
unfolding read_u32
read_inst gva m = read_u32 gva m

-- The loop of ReadBytes, with `left` bytes to go from index `i`; the buffer is the list returned.
unfoldable pub read_bytes_from : ℕ → ℕ → ℕ → Machine → Outcome (List ℕ × Machine)
read_bytes_from gva i zero m = ok ([], m)
read_bytes_from gva i (suc left) m = do
  (byte, m') ← read_u8 (u64 (gva + i)) m
  (bytes, m'') ← read_bytes_from gva (i + 1) left m'
  ok (byte ∷ bytes, m'')

-- The rounds of a loop up to a size that is an int: one that is 2 ^ 31 or more there is negative.
abbrev pub int_rounds : ℕ → ℕ
int_rounds size = if ltb (u32 size) (2 ^ 31) then u32 size else 0

unfoldable pub read_bytes : ℕ → ℕ → Machine → Outcome (List ℕ × Machine)
unfolding read_bytes_from
read_bytes gva size m = read_bytes_from gva 0 (int_rounds size) m

-- The loop of WriteBytes over the bytes of the buffer that are left.
unfoldable pub write_bytes_from : ℕ → ℕ → List ℕ → Machine → Outcome Machine
write_bytes_from gva i [] m = ok m
write_bytes_from gva i (byte ∷ bytes) m = do
  m' ← write_u8 (u64 (gva + i)) byte m
  write_bytes_from gva (i + 1) bytes m'

unfoldable pub write_bytes : ℕ → List ℕ → Machine → Outcome Machine
unfolding write_bytes_from
write_bytes gva bytes m = write_bytes_from gva 0 bytes m

abbrev pub with_enabled : Bool → Machine → Machine
with_enabled b m = record m { gdb = record (m.gdb) { enabled = b } }

unfoldable pub gdb_read_bytes : ℕ → ℕ → Machine → Outcome (List ℕ × Machine)
unfolding read_bytes
gdb_read_bytes gva size m = do
  (bytes, m') ← read_bytes gva size (with_enabled false m)
  ok (bytes, with_enabled m.gdb.enabled m')

unfoldable pub gdb_write_bytes : ℕ → List ℕ → Machine → Outcome Machine
unfolding write_bytes
gdb_write_bytes gva bytes m = do
  m' ← write_bytes gva bytes (with_enabled false m)
  ok (with_enabled m.gdb.enabled m')

-- The `do` loop of ReadString: how many bytes up to and with the NUL. `left` is the rounds left of
-- mx_size; a string that needs all of them is refused, as one that needs more.
unfoldable pub string_length : ℕ → ℕ → ℕ → Machine → Outcome (ℕ × Machine)
string_length gva zero sz m = abort
string_length gva (suc left) sz m = do
  (byte, m') ← read_u8 (u64 (gva + sz)) m
  elim (byte == 0) [
    | true ↦ if left == 0 then abort else ok (sz + 1, m')
    | false ↦ string_length gva left (sz + 1) m'
  ]

-- std::string (bytes): the bytes before the first NUL.
until_nul : List ℕ → List ℕ
until_nul [] = []
until_nul (b ∷ bs) = if b == 0 then [] else b ∷ until_nul bs

-- ReadString, for a bound mx_size on the rounds; the source's is 2 ^ 30.
unfoldable pub read_string_max : ℕ → ℕ → Machine → Outcome (List ℕ × Machine)
unfolding until_nul
read_string_max mx_size gva m = do
  (sz, m') ← string_length gva mx_size 0 m
  (bytes, m'') ← read_bytes_from gva 0 sz m'
  ok (until_nul bytes, m'')

unfoldable pub read_string : ℕ → Machine → Outcome (List ℕ × Machine)
unfolding read_string_max
read_string gva m = read_string_max (2 ^ 30) gva m
