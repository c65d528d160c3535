-- ===== src/Tests/Debugger.antt =====
-- The results on GdbStub.cpp.
use nsemu.Common.{ℕ, ◌≤◌, ◌≡◌, refl, true, List, [], ◌∷◌, ◌++◌, none, ok, ◌>>=◌, arith}
use nsemu.Common.Bytes.{read_le}
use nsemu.Machine.{Gdb, Machine, idle, getline_rle}
use nsemu.Memory.{get_raw_ptr, load_host, in_ram}
use nsemu.Mmu.RoundTrip.{Maps}
use nsemu.Gdb.Send.{packet}
use nsemu.Gdb.Break.{brk_0x0_inst, find_bp, on_gdb, sw_breakpoint_insert, sw_breakpoint_remove}
use nsemu.Gdb.Break.Restore.{bp_at, Fetches, sw_breakpoint_insert-remove}
use nsemu.Gdb.Command.{handle_command}
use nsemu.Gdb.Stub.{with_state, handle_packet, handle_packets}
use nsemu.Gdb.Stub.Frame.{LineAt, handle_packets-packet}
use nsemu.Gdb.Stub.Bounds.{handle_packet-in_bounds}
use nsemu.Tests.Machines.{test_gdb, test_machine}

-- The command "m1000,4".
abbrev read_command : List ℕ
read_command = b'm' ∷ b'1' ∷ b'0' ∷ b'0' ∷ b'0' ∷ b',' ∷ b'4' ∷ []

handle_packets-packet_example :
    (taken : Machine) × LineAt taken.gdb.cmd_buf 0 read_command
    × (taken.cpu ≡ test_machine.cpu)
    × (taken.mem ≡ test_machine.mem)
    × (taken.gdb.sent ≡ [] ++ (b'+' ∷ []) ∷ [])
    × (handle_packets (packet read_command) test_machine
        ≡ (handle_command taken.gdb.cmd_buf taken >>= λ m'. ok (on_gdb (with_state idle) m')))
handle_packets-packet_example =
    handle_packets-packet read_command test_machine refl (ground arith) (ground arith)

-- A run length that the buffer has no room for.
abbrev full_machine : Machine
full_machine = record test_machine {
  gdb = record test_gdb { state = getline_rle; buf_index = 4090 };
}

handle_packet-in_bounds_example :
    (g : Gdb) × (handle_packet 126 full_machine ≡ ok (record full_machine { gdb = g }))
    × (g.buf_index ≤ 4095)
handle_packet-in_bounds_example =
    handle_packet-in_bounds 126 full_machine (ground arith) (omega arith) (omega arith)

mapped_zeros : Maps test_machine.mem 0x2000 4 (λ i. 0)
unfolding get_raw_ptr load_host
mapped_zeros = (in_ram 0x2000, refl, λ k h. ground arith, omega arith)

no_breakpoint : find_bp (bp_at 0x2000 4 0 0) test_machine.gdb.bp_list ≡ none
unfolding find_bp
no_breakpoint = refl

sw_breakpoint_insert-remove_example :
    (m₁ : Machine) × (m₂ : Machine) × Fetches test_machine 0x2000 (read_le 4 (λ i. 0) 0)
    × (sw_breakpoint_insert 0x2000 4 0 test_machine ≡ ok (true, m₁))
    × Fetches m₁ 0x2000 brk_0x0_inst
    × (sw_breakpoint_remove 0x2000 4 0 m₁ ≡ ok (true, m₂))
    × Fetches m₂ 0x2000 (read_le 4 (λ i. 0) 0)
    × (m₂.gdb.bp_list ≡ [])
sw_breakpoint_insert-remove_example =
    sw_breakpoint_insert-remove 0x2000 4 0 (λ i. 0) test_machine (λ i. omega arith) mapped_zeros
      no_breakpoint
