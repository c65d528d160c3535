-- ===== src/Interpreter/Run/OneStep.antt =====
-- ARMv8/Interpreter.cpp and GdbStub.cpp: the client's packet `s` makes Run carry out one instruction.
use nsemu.Common.{ℕ, ◌≡◌, refl, true, false, List, [], ◌∷◌, ◌++◌, ok}
use nsemu.Common.Lists.{update}
use nsemu.Machine.{Gdb, Machine, idle, getline, chksum1, chksum2}
use nsemu.Gdb.Hex
use nsemu.Gdb.Hex.{from_hex}
use nsemu.Gdb.Send.{packet, write_bytes, trap}
use nsemu.Gdb.Break.{on_gdb}
use nsemu.Gdb.Stub.{handle_packet}
use nsemu.Gdb.Command
use nsemu.Interpreter.{single_step, stepped, stopped, Rounds, here, next}
use nsemu.Interpreter.Exec.{Handlers}

-- The stub at rest between two packets, with the guest stopped, and after each byte of `$s#73`.
abbrev pub at_rest : Gdb → Gdb
at_rest g = record g { enabled = true; step = false; cont = false; state = idle }

abbrev after_dollar : Gdb → Gdb
after_dollar g = record (at_rest g) { buf_index = 0; line_sum = 0; state = getline }

abbrev after_letter : Gdb → Gdb
after_letter g = record (after_dollar g) {
  cmd_buf = update g.cmd_buf 0 b's';
  buf_index = 1;
  line_sum = b's';
}

abbrev after_hash : Gdb → Gdb
after_hash g = record (after_letter g) { state = chksum1 }

abbrev after_digit : Gdb → Gdb
after_digit g = record (after_hash g) {
  cmd_buf = update (update g.cmd_buf 0 b's') 1 0;
  checksum = 0x70;
  state = chksum2;
}

abbrev pub after_packet : Gdb → Gdb
after_packet g = record (write_bytes (b'+' ∷ []) (record (after_digit g) { checksum = 0x73 })) {
  step = true;
  state = idle;
}

module _ (m : Machine) where
  takes_dollar : handle_packet b'$' (on_gdb at_rest m) ≡ ok (on_gdb after_dollar m)
  unfolding handle_packet
  takes_dollar = refl

  takes_letter : handle_packet b's' (on_gdb after_dollar m) ≡ ok (on_gdb after_letter m)
  unfolding handle_packet
  takes_letter = refl

  takes_hash : handle_packet b'#' (on_gdb after_letter m) ≡ ok (on_gdb after_hash m)
  unfolding handle_packet
  takes_hash = refl

  takes_digit : handle_packet b'7' (on_gdb after_hash m) ≡ ok (on_gdb after_digit m)
  unfolding handle_packet nsemu.Gdb.Hex.is_xdigit from_hex
  takes_digit = refl

  takes_last : handle_packet b'3' (on_gdb after_digit m) ≡ ok (on_gdb after_packet m)
  unfolding handle_packet nsemu.Gdb.Hex.is_xdigit from_hex nsemu.Gdb.Command.handle_command
  takes_last = refl

-- A guest stopped under the debugger: where the instruction at PC can be carried out, the bytes of the
-- packet `s` make Run go through five rounds, the last of which carries out that one instruction.
-- The processor and the memory are as the instruction left them, the request is cleared, and the
-- guest is stopped again with the bytes behind the packet still to be read.
pub Rounds-step :
    (handlers : Handlers) (m n : Machine) (input : List ℕ)
    → single_step handlers (on_gdb after_packet m) ≡ ok n
    → (m' : Machine) × Rounds handlers (packet (b's' ∷ []) ++ input, on_gdb at_rest m) (input, m')
      × (m'.cpu ≡ n.cpu)
      × (m'.mem ≡ n.mem)
      × (m'.gdb.step ≡ false)
      × (m'.gdb.cont ≡ false)
unfolding stepped trap packet nsemu.Gdb.Hex.to_hex
Rounds-step handlers m n input ran =
    let stop : Machine = on_gdb (λ g. trap (record g { step = false })) n in
    let rounds : Rounds handlers (b'$' ∷ b's' ∷ b'#' ∷ b'7' ∷ b'3' ∷ input, on_gdb at_rest m)
        (input, stop) =
      next
        (next
          (next
            (next (next here (stopped refl refl (takes_dollar m) refl))
              (stopped refl refl (takes_letter m) refl))
            (stopped refl refl (takes_hash m) refl))
          (stopped refl refl (takes_digit m) refl))
        (stopped refl refl (takes_last m) (rw ran refl)) in
    (stop, rounds, refl, refl, refl, refl)
