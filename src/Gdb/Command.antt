-- ===== src/Gdb/Command.antt =====
-- GdbStub.cpp: HandleCommand, one function for each letter of its switch.
use nsemu.Common.{
  ℕ, zero, suc, ◌+◌, ◌-◌, ◌*◌, ◌/◌, ◌%◌, ◌^◌, true, ◌&&◌, ◌||◌, List, [], ◌∷◌, ◌++◌, u32, ltb, leb,
  ◌==◌, if◌then◌else◌, Outcome, ok, fault, ◌>>=◌,
}
use nsemu.Machine.{Arm, Machine, gpr_zero, gpr_sp, pc_idx}
use nsemu.Mmu.{gdb_read_bytes}
use nsemu.Gdb.Hex.{mem_to_hex}
use nsemu.Gdb.Send.{write_packet, send_signal_trap}
use nsemu.Gdb.Break.{on_gdb, breakpoint_insert, breakpoint_remove}
use nsemu.Gdb.Parse.{cmd_size, strtol, strtoul, skip_comma, starts_at}

abbrev pub ok_text : List ℕ
ok_text = b'O' ∷ b'K' ∷ []

abbrev e22_text : List ℕ
e22_text = b'E' ∷ b'2' ∷ b'2' ∷ []

abbrev e14_text : List ℕ
e14_text = b'E' ∷ b'1' ∷ b'4' ∷ []

-- "PacketSize=1000": GDB_BUFFER_SIZE in hexadecimal.
abbrev packet_size_text : List ℕ
packet_size_text =
    b'P' ∷ b'a' ∷ b'c' ∷ b'k' ∷ b'e' ∷ b't' ∷ b'S' ∷ b'i' ∷ b'z' ∷ b'e' ∷ b'=' ∷ b'1' ∷ b'0' ∷ b'0'
    ∷ b'0' ∷ []

abbrev supported_text : List ℕ
supported_text = b'S' ∷ b'u' ∷ b'p' ∷ b'p' ∷ b'o' ∷ b'r' ∷ b't' ∷ b'e' ∷ b'd' ∷ []

abbrev pub reply : List ℕ → Machine → Machine
reply text m = on_gdb (write_packet text) m

-- The `n` bytes of a number in memory, lowest first.
unfoldable pub le_bytes : ℕ → ℕ → List ℕ
le_bytes zero v = []
le_bytes (suc n) v = v % 256 ∷ le_bytes n (v / 256)

-- ReadRegister; a negative number is an index before the register file.
unfoldable pub read_register : ℕ → Arm → Outcome (List ℕ)
unfolding le_bytes
read_register reg a =
    if leb (2 ^ 31) reg
    then fault
    else if ltb reg gpr_zero
    then ok (le_bytes 8 (a.gpr reg))
    else if reg == 31
    then ok (le_bytes 8 (a.gpr gpr_sp))
    else if reg == 32
    then ok (le_bytes 8 (a.gpr pc_idx))
    else ok (le_bytes 8 0xdeadbeef)

-- The loop of `g`, with `left` registers to go from `reg`.
read_registers : ℕ → ℕ → Arm → Outcome (List ℕ)
read_registers zero reg a = ok []
read_registers (suc left) reg a = do
  bytes ← read_register reg a
  rest ← read_registers left (reg + 1) a
  ok (bytes ++ rest)

unfoldable pub command_g : Machine → Outcome Machine
unfolding read_registers
command_g m = do bytes ← read_registers 33 0 m.cpu; ok (reply (mem_to_hex bytes) m)

-- `m`. MemToHex writes two digits a byte and a NUL into a buffer of GDB_BUFFER_SIZE bytes.
unfoldable pub command_m : ℕ → ℕ → Machine → Outcome Machine
command_m addr len m =
    if ltb (cmd_size / 2) len
    then ok (reply e22_text m)
    else if leb (2 ^ 63) addr
    then ok (reply e14_text m)
    else do
      (bytes, m') ← gdb_read_bytes addr len m
      if ltb cmd_size (2 * len + 1) then fault else ok (reply (mem_to_hex bytes) m')

unfoldable pub command_p : ℕ → Machine → Outcome Machine
command_p addr m = do bytes ← read_register (u32 addr) m.cpu; ok (reply (mem_to_hex bytes) m)

unfoldable pub command_q : (ℕ → ℕ) → Machine → Machine
command_q s m =
    if starts_at s 1 supported_text && (s 10 == 0 || s 10 == b':')
    then reply packet_size_text m
    else if s 1 == b'C' && s 2 == 0
    then reply (b'Q' ∷ b'C' ∷ b'1' ∷ []) m
    else reply [] m

-- `z` and `Z`: type, address and length, with optional commas between.
unfoldable pub command_z : (ℕ → ℕ) → Machine → Outcome Machine
command_z s m =
    let (type, i) = strtol s 1 in
    let (addr, j) = strtol s (skip_comma s i) in
    let (len, k) = strtol s (skip_comma s j) in
    do
      (res, m') ←
          if s 0 == b'Z'
          then breakpoint_insert addr len (u32 type) m
          else breakpoint_remove addr len (u32 type) m
      ok (reply (if res then ok_text else e22_text) m')

unfoldable pub command_h : (ℕ → ℕ) → Machine → Machine
command_h s m =
    let thread = u32 ((strtol s 2).0) in
    if thread == 2 ^ 32 - 1 || thread == 0
    then reply ok_text m
    else if s 1 == b'c' || s 1 == b'g'
    then reply ok_text m
    else reply e22_text m

-- The switch; the new state is RS_IDLE in every case.
unfoldable pub handle_command : (ℕ → ℕ) → Machine → Outcome Machine
unfolding command_g command_m command_p command_q command_z command_h
handle_command s m =
    if s 0 == b'?'
    then ok (on_gdb send_signal_trap m)
    else if s 0 == b'c'
    then ok (on_gdb (λ g. record g { cont = true }) m)
    else if s 0 == b'g'
    then command_g m
    else if s 0 == b'm'
    then (let (addr, i) = strtoul s 1 in command_m addr ((strtol s (skip_comma s i)).0) m)
    else if s 0 == b'p'
    then command_p ((strtol s 1).0) m
    else if s 0 == b'q' || s 0 == b'Q'
    then ok (command_q s m)
    else if s 0 == b'z' || s 0 == b'Z'
    then command_z s m
    else if s 0 == b's'
    then ok (on_gdb (λ g. record g { step = true }) m)
    else if s 0 == b'H'
    then ok (command_h s m)
    else if s 0 == b'T'
    then ok (reply ok_text m)
    else ok (reply [] m)
