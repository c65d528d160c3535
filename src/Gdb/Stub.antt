-- ===== src/Gdb/Stub.antt =====
-- GdbStub.cpp: HandlePacket, the state machine that takes the client's bytes one by one.
pub mod Frame
pub mod Bounds
pub mod Registers
use nsemu.Common.{
  ℕ, zero, suc, ◌+◌, ◌-◌, ◌*◌, ◌%◌, ◌^◌, Bool, true, false, not, List, [], ◌∷◌, bit_or, bit_xor,
  ltb, leb, ◌==◌, if◌then◌else◌, Outcome, ok, fault, ◌>>=◌,
}
use nsemu.Common.Lists.{update}
use nsemu.Machine.{
  RsState, inactive, idle, getline, getline_esc, getline_rle, chksum1, chksum2, Gdb, Machine,
}
use nsemu.Gdb.Hex.{is_xdigit, from_hex}
use nsemu.Gdb.Send.{write_bytes}
use nsemu.Gdb.Break.{on_gdb}
use nsemu.Gdb.Parse.{cmd_size}
use nsemu.Gdb.Command.{handle_command}

-- cmd_buf[i] = ch; an index past the buffer is a fault.
abbrev pub store : ℕ → ℕ → Gdb → Outcome Gdb
store i ch g = if ltb i cmd_size then ok (record g { cmd_buf = update g.cmd_buf i ch }) else fault

-- cmd_buf[buf_index++] = ch.
abbrev pub push : ℕ → Gdb → Outcome Gdb
push ch g = do g' ← store g.buf_index ch g; ok (record g' { buf_index = g.buf_index + 1 })

-- memset (cmd_buf + buf_index, ch, n), and buf_index += n.
unfoldable pub push_repeat : ℕ → ℕ → Gdb → Outcome Gdb
push_repeat zero ch g = ok g
push_repeat (suc n) ch g = do g' ← push ch g; push_repeat n ch g'

abbrev pub with_state : RsState → Gdb → Gdb
with_state s g = record g { state = s }

-- line_sum += ch. The sum is an int, whose overflow is a fault.
abbrev pub add_sum : ℕ → Gdb → Outcome Gdb
add_sum ch g =
    if ltb (g.line_sum + ch) (2 ^ 31) then ok (record g { line_sum = g.line_sum + ch }) else fault

on_idle : ℕ → Gdb → Gdb
on_idle ch g = if ch == b'$' then record g { buf_index = 0; line_sum = 0; state = getline } else g

on_getline : ℕ → Gdb → Outcome Gdb
on_getline ch g =
    if ch == b'}'
    then add_sum ch (with_state getline_esc g)
    else if ch == b'*'
    then add_sum ch (with_state getline_rle g)
    else if ch == b'#'
    then ok (with_state chksum1 g)
    else if leb (cmd_size - 1) g.buf_index
    then ok (with_state idle g)
    else do g' ← push ch g; add_sum ch g'

on_getline_esc : ℕ → Gdb → Outcome Gdb
on_getline_esc ch g =
    if ch == b'#'
    then ok (with_state chksum1 g)
    else if leb (cmd_size - 1) g.buf_index
    then ok (with_state idle g)
    else do g' ← push (bit_xor ch 0x20) g; add_sum ch (with_state getline g')

on_getline_rle : ℕ → Gdb → Outcome Gdb
unfolding push_repeat
on_getline_rle ch g =
    if ltb ch 32
    then ok (with_state getline g)
    else if leb (cmd_size - 1) (g.buf_index + (ch - 32 + 3))
    then ok (with_state idle g)
    else if ltb g.buf_index 1
    then ok (with_state getline g)
    else do
      g' ← push_repeat (ch - 32 + 3) (g.cmd_buf (g.buf_index - 1)) g
      add_sum ch (with_state getline g')

on_chksum1 : ℕ → Gdb → Outcome Gdb
on_chksum1 ch g =
    if is_xdigit ch
    then (do
      g' ← store g.buf_index 0 g
      ok (record g' { checksum = from_hex ch * 16; state = chksum2 }))
    else ok (with_state getline g)

-- A packet with the right sum: it is acknowledged, and HandleCommand leaves the state RS_IDLE.
accepted : Machine → Outcome Machine
accepted m = do
  m' ← handle_command m.gdb.cmd_buf (on_gdb (write_bytes (b'+' ∷ [])) m)
  ok (on_gdb (with_state idle) m')

on_chksum2 : ℕ → Machine → Outcome Machine
unfolding accepted
on_chksum2 ch m =
    if is_xdigit ch
    then (let sum = bit_or m.gdb.checksum (from_hex ch) in
        let m' : Machine = on_gdb (λ g. record g { checksum = sum }) m in
        if sum == m.gdb.line_sum % 256
        then accepted m'
        else ok (on_gdb (λ g. with_state idle (write_bytes (b'-' ∷ []) g)) m'))
    else ok (on_gdb (with_state getline) m)

abbrev in_gdb : Outcome Gdb → Machine → Outcome Machine
in_gdb o m = do g ← o; ok (record m { gdb = g })

-- The switch on the state.
dispatch : RsState → ℕ → Machine → Outcome Machine
unfolding on_idle on_getline on_getline_esc on_getline_rle on_chksum1 on_chksum2
dispatch inactive ch m = ok m
dispatch idle ch m = ok (on_gdb (on_idle ch) m)
dispatch getline ch m = in_gdb (on_getline ch m.gdb) m
dispatch getline_esc ch m = in_gdb (on_getline_esc ch m.gdb) m
dispatch getline_rle ch m = in_gdb (on_getline_rle ch m.gdb) m
dispatch chksum1 ch m = in_gdb (on_chksum1 ch m.gdb) m
dispatch chksum2 ch m = on_chksum2 ch m

-- HandlePacket on the byte that ReadByte returned.
unfoldable pub handle_packet : ℕ → Machine → Outcome Machine
unfolding dispatch
handle_packet ch m = dispatch m.gdb.state ch m

unfoldable pub handle_packets : List ℕ → Machine → Outcome Machine
handle_packets [] m = ok m
handle_packets (ch ∷ chs) m = do m' ← handle_packet ch m; handle_packets chs m'
