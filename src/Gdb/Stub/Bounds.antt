-- ===== src/Gdb/Stub/Bounds.antt =====
-- GdbStub.cpp: HandlePacket keeps its index inside cmd_buf.
use nsemu.Common.{
  ℕ, zero, suc, ◌+◌, ◌-◌, ◌^◌, ◌≤◌, ◌<◌, ◌≡◌, ◌≢◌, refl, Bool-cases, inl, inr, leb, Outcome, ok,
  abort, fault, ◌>>=◌, arith,
}
use nsemu.Common.Lists.{update}
use nsemu.Machine.{
  RsState, inactive, idle, getline, getline_esc, getline_rle, chksum1, chksum2, Gdb, Machine,
}
use nsemu.Gdb.Stub.{
  add_sum, with_state, push_repeat, on_idle, on_getline, on_getline_esc, on_getline_rle, on_chksum1,
  dispatch, handle_packet,
}

-- A run of pushes that ends inside the buffer succeeds and moves the index by its length.
push_repeat_lem :
    (n ch : ℕ) (g : Gdb)
    → g.buf_index + n ≤ 4095
    → (g' : Gdb) × (push_repeat n ch g ≡ ok g')
      × (g'.buf_index ≡ g.buf_index + n)
      × (g'.line_sum ≡ g.line_sum)
unfolding push_repeat
push_repeat_lem zero ch g h = (g, refl, omega arith, refl)
push_repeat_lem (suc n) ch g h =
    let g₁ : Gdb = record g {
      cmd_buf = update g.cmd_buf g.buf_index ch;
      buf_index = g.buf_index + 1;
    } in
    let (g', pushed, index, sum) = push_repeat_lem n ch g₁ (omega arith) in
    (g', ground (arith, pushed), omega (arith, index), sum)

-- The byte was taken without a fault, and the index is inside the buffer.
abbrev pub Stays : Outcome Gdb → Type 0
Stays (ok g) = g.buf_index ≤ 4095
Stays abort = ⊥
Stays fault = ⊥

on_getline-Stays :
    (ch : ℕ) (g : Gdb) → g.buf_index ≤ 4095 → g.line_sum + ch < 2 ^ 31 → Stays (on_getline ch g)
unfolding on_getline
on_getline-Stays ch g h s = ground arith

on_getline_esc-Stays :
    (ch : ℕ) (g : Gdb) → g.buf_index ≤ 4095 → g.line_sum + ch < 2 ^ 31 → Stays (on_getline_esc ch g)
unfolding on_getline_esc
on_getline_esc-Stays ch g h s = ground arith

on_chksum1-Stays : (ch : ℕ) (g : Gdb) → g.buf_index ≤ 4095 → Stays (on_chksum1 ch g)
unfolding on_chksum1
on_chksum1-Stays ch g h = ground arith

on_idle-le : (ch : ℕ) (g : Gdb) → g.buf_index ≤ 4095 → (on_idle ch g).buf_index ≤ 4095
unfolding on_idle
on_idle-le ch g h = ground arith

push_repeat-Stays :
    (n ch sum : ℕ) (g : Gdb)
    → g.buf_index + n ≤ 4095
    → g.line_sum + sum < 2 ^ 31
    → Stays (push_repeat n ch g >>= λ g'. add_sum sum (with_state getline g'))
push_repeat-Stays n ch sum g h s =
    let (g', pushed, index, same) = push_repeat_lem n ch g h in
    rw pushed (ground (arith, index, same))

on_getline_rle-Stays :
    (ch : ℕ) (g : Gdb) → g.buf_index ≤ 4095 → g.line_sum + ch < 2 ^ 31 → Stays (on_getline_rle ch g)
unfolding on_getline_rle
on_getline_rle-Stays ch g h s = elim (Bool-cases (leb 4095 (g.buf_index + (ch - 32 + 3)))) [
  | inl e ↦ ground arith
  | inr e ↦
      let step : Stays (
          push_repeat (ch - 32 + 3) (g.cmd_buf (g.buf_index - 1)) g >>= λ g'.
          add_sum ch (with_state getline g')) =
        push_repeat-Stays (ch - 32 + 3) (g.cmd_buf (g.buf_index - 1)) ch g (ground arith) s in
      ground arith
]

Stays-ok : (o : Outcome Gdb) → Stays o → (g : Gdb) × (o ≡ ok g) × (g.buf_index ≤ 4095)
Stays-ok (ok g) h = (g, refl, h)
Stays-ok abort h = absurd h
Stays-ok fault h = absurd h

-- What the stub's part of a step is, in the machine.
Stays-in_machine :
    (o : Outcome Gdb) (m : Machine)
    → Stays o
    → (g : Gdb) × ((o >>= λ g'. ok (record m { gdb = g' })) ≡ ok (record m { gdb = g }))
      × (g.buf_index ≤ 4095)
Stays-in_machine o m h = let (g, e, le) = Stays-ok o h in (g, rw e refl, le)

dispatch-in_bounds :
    (s : RsState) (ch : ℕ) (m : Machine)
    → s ≢ chksum2
    → m.gdb.buf_index ≤ 4095
    → m.gdb.line_sum + ch < 2 ^ 31
    → (g : Gdb) × (dispatch s ch m ≡ ok (record m { gdb = g })) × (g.buf_index ≤ 4095)
unfolding dispatch
dispatch-in_bounds inactive ch m e h s = (m.gdb, refl, h)
dispatch-in_bounds idle ch m e h s = (on_idle ch m.gdb, refl, on_idle-le ch m.gdb h)
dispatch-in_bounds getline ch m e h s =
    Stays-in_machine (on_getline ch m.gdb) m (on_getline-Stays ch m.gdb h s)
dispatch-in_bounds getline_esc ch m e h s =
    Stays-in_machine (on_getline_esc ch m.gdb) m (on_getline_esc-Stays ch m.gdb h s)
dispatch-in_bounds getline_rle ch m e h s =
    Stays-in_machine (on_getline_rle ch m.gdb) m (on_getline_rle-Stays ch m.gdb h s)
dispatch-in_bounds chksum1 ch m e h s =
    Stays-in_machine (on_chksum1 ch m.gdb) m (on_chksum1-Stays ch m.gdb h)
dispatch-in_bounds chksum2 ch m e h s = absurd (e refl)

-- In every state but RS_CHKSUM2, where a command may run, HandlePacket takes any byte without a
-- fault while the index is at most 4095 and the sum of the line with the byte is still an int, and
-- leaves the index at most 4095, with the processor, the memory and the kernel as they were.
pub handle_packet-in_bounds :
    (ch : ℕ) (m : Machine)
    → m.gdb.state ≢ chksum2
    → m.gdb.buf_index ≤ 4095
    → m.gdb.line_sum + ch < 2 ^ 31
    → (g : Gdb) × (handle_packet ch m ≡ ok (record m { gdb = g })) × (g.buf_index ≤ 4095)
unfolding handle_packet
handle_packet-in_bounds ch m e h s = dispatch-in_bounds m.gdb.state ch m e h s
