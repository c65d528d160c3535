-- ===== src/Gdb/Send.antt =====
-- GdbStub.cpp: SendPacket, WritePacket and the stop replies.
use nsemu.Common.{ℕ, ◌+◌, ◌/◌, ◌%◌, List, [], ◌∷◌, ◌++◌, false}
use nsemu.Machine.{Gdb}
use nsemu.Gdb.Hex.{to_hex, print_lx}

-- csum: a C int that no packet of this program can overflow.
unfoldable pub sum_bytes : List ℕ → ℕ
sum_bytes [] = 0
sum_bytes (b ∷ bs) = b + sum_bytes bs

-- What SendPacket puts into last_packet.
unfoldable pub packet : List ℕ → List ℕ
unfolding sum_bytes
packet buf =
    b'$' ∷ buf ++ b'#' ∷ to_hex (sum_bytes buf / 16 % 16) ∷ to_hex (sum_bytes buf % 16) ∷ []

-- WriteBytes of the stub: what goes to the client.
unfoldable pub write_bytes : List ℕ → Gdb → Gdb
write_bytes bytes g = record g { sent = g.sent ++ bytes ∷ [] }

unfoldable pub write_packet : List ℕ → Gdb → Gdb
unfolding packet write_bytes
write_packet buf g = write_bytes (packet buf) g

-- The texts "T05thread:01;" and "watch:".
abbrev stop_text : List ℕ
stop_text =
    b'T' ∷ b'0' ∷ b'5' ∷ b't' ∷ b'h' ∷ b'r' ∷ b'e' ∷ b'a' ∷ b'd' ∷ b':' ∷ b'0' ∷ b'1' ∷ b';' ∷ []

abbrev watch_text : List ℕ
watch_text = b'w' ∷ b'a' ∷ b't' ∷ b'c' ∷ b'h' ∷ b':' ∷ []

-- SendSignal (GDB_SIGNAL_TRAP), the only signal that the stub sends.
unfoldable pub send_signal_trap : Gdb → Gdb
unfolding write_packet
send_signal_trap g = write_packet stop_text g

unfoldable pub trap : Gdb → Gdb
unfolding send_signal_trap
trap g = send_signal_trap (record g { cont = false })

-- The packet of HitWatchpoint, for the letter of the watchpoint's kind.
unfoldable pub watch_reply : List ℕ → ℕ → List ℕ
unfolding print_lx
watch_reply kind addr = stop_text ++ kind ++ watch_text ++ print_lx addr ++ b';' ∷ []
