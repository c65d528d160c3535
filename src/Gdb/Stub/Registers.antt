-- ===== src/Gdb/Stub/Registers.antt =====
-- GdbStub.cpp: HandlePacket reads the guest's registers and never writes one.
use nsemu.Common.{
  ℕ, u32, ◌/◌, ◌^◌, ◌≡◌, Bool, true, false, Outcome, ok, >>=-split, [], ◌∷◌, ◌==◌, ltb, leb,
  if◌then◌else◌, Bool-cases, bit_or, ◌⊎◌, ◌||◌, inl, inr, arith,
}
use nsemu.Machine.{
  Machine, Gdb, RsState, inactive, idle, getline, getline_esc, getline_rle, chksum1, chksum2,
}
use nsemu.Mmu.{gdb_read_bytes}
use nsemu.Gdb.Send.{send_signal_trap, write_bytes}
use nsemu.Gdb.Break.{breakpoint_insert, breakpoint_remove, on_gdb}
use nsemu.Gdb.Command.{
  reply, ok_text, command_q, command_h, command_g, command_m, command_p, command_z, handle_command,
}
use nsemu.Gdb.Parse.{cmd_size, strtol, strtoul, skip_comma}
use nsemu.Gdb.Hex.{from_hex}
use nsemu.Gdb.Stub.{
  accepted, on_chksum2, in_gdb, dispatch, on_getline, on_getline_esc, on_getline_rle, on_chksum1,
  handle_packet,
}
use nsemu.Gdb.Break.Registers.{gdb_read_bytes-cpu, breakpoint_insert-cpu, breakpoint_remove-cpu}

command_g-cpu : (m : Machine) {m' : Machine} → command_g m ≡ ok m' → m'.cpu ≡ m.cpu
unfolding command_g
command_g-cpu m h = ground arith

command_p-cpu : (addr : ℕ) (m : Machine) {m' : Machine} → command_p addr m ≡ ok m' → m'.cpu ≡ m.cpu
unfolding command_p
command_p-cpu addr m h = ground arith

command_m-cpu :
    (addr len : ℕ) (m : Machine) {m' : Machine} → command_m addr len m ≡ ok m' → m'.cpu ≡ m.cpu
unfolding command_m
command_m-cpu addr len m h = elim (Bool-cases (ltb (cmd_size / 2) len)) [
  | inl e ↦ ground arith
  | inr e ↦ elim (Bool-cases (leb (2 ^ 63) addr)) [
    | inl e' ↦ ground arith
    | inr e' ↦
        let ((bytes, m₁), reads, done) =
          >>=-split (gdb_read_bytes addr len m) _ (rw (e, e') at h) in
        let same = gdb_read_bytes-cpu addr len m reads in ground arith
  ]
]

command_z-cpu : (s : ℕ → ℕ) (m : Machine) {m' : Machine} → command_z s m ≡ ok m' → m'.cpu ≡ m.cpu
unfolding command_z
command_z-cpu s m h =
    let (type, i) = strtol s 1 in
    let (addr, j) = strtol s (skip_comma s i) in
    let (len, k) = strtol s (skip_comma s j) in
    elim (Bool-cases (s 0 == b'Z')) [
      | inl e ↦
          let ((res, m₁), ran, done) =
            >>=-split (breakpoint_insert addr len (u32 type) m) _ (rw e at h) in
          let same = breakpoint_insert-cpu addr len (u32 type) m ran in ground arith
      | inr e ↦
          let ((res, m₁), ran, done) =
            >>=-split (breakpoint_remove addr len (u32 type) m) _ (rw e at h) in
          let same = breakpoint_remove-cpu addr len (u32 type) m ran in ground arith
    ]

command_q-cpu :
    (s : ℕ → ℕ) (m : Machine) {m' : Machine} → ok (command_q s m) ≡ ok m' → m'.cpu ≡ m.cpu
unfolding command_q
command_q-cpu s m h = ground arith

-- The last four letters.
last-cpu :
    (s : ℕ → ℕ) (m : Machine) {m' : Machine}
    → (if s 0 == b's'
        then ok (on_gdb (λ g. record g { step = true }) m)
        else if s 0 == b'H'
        then ok (command_h s m)
        else if s 0 == b'T'
        then ok (reply ok_text m)
        else ok (reply [] m))
      ≡ ok m'
    → m'.cpu ≡ m.cpu
unfolding command_h
last-cpu s m h = ground arith

either :
    {B : Type 0} (b : Bool) (s t : Outcome B) {r : B}
    → (if b then s else t) ≡ ok r
    → (s ≡ ok r) ⊎ (t ≡ ok r)
either true s t h = inl h
either false s t h = inr h

-- HandleCommand writes no register.
handle_command-cpu :
    (s : ℕ → ℕ) (m : Machine) {m' : Machine} → handle_command s m ≡ ok m' → m'.cpu ≡ m.cpu
unfolding handle_command
handle_command-cpu s m h₀ =
    let (addr, i) = strtoul s 1 in
    elim (either (s 0 == b'?') (ok (on_gdb send_signal_trap m)) _ h₀) [
      | inl e ↦ ground arith
      | inr h₁ ↦ elim (either (s 0 == b'c') (ok (on_gdb (λ g. record g { cont = true }) m)) _ h₁) [
        | inl e ↦ ground arith
        | inr h₂ ↦ elim (either (s 0 == b'g') (command_g m) _ h₂) [
          | inl e ↦ command_g-cpu m e
          | inr h₃ ↦
              elim (either (s 0 == b'm') (command_m addr ((strtol s (skip_comma s i)).0) m) _ h₃) [
                | inl e ↦ command_m-cpu addr ((strtol s (skip_comma s i)).0) m e
                | inr h₄ ↦ elim (either (s 0 == b'p') (command_p ((strtol s 1).0) m) _ h₄) [
                  | inl e ↦ command_p-cpu ((strtol s 1).0) m e
                  | inr h₅ ↦ elim (either (s 0 == b'q' || s 0 == b'Q') (ok (command_q s m)) _ h₅) [
                    | inl e ↦ command_q-cpu s m e
                    | inr h₆ ↦ elim (either (s 0 == b'z' || s 0 == b'Z') (command_z s m) _ h₆) [
                      | inl e ↦ command_z-cpu s m e
                      | inr h₇ ↦ last-cpu s m h₇
                    ]
                  ]
                ]
              ]
        ]
      ]
    ]

accepted-cpu : (m : Machine) {m' : Machine} → accepted m ≡ ok m' → m'.cpu ≡ m.cpu
unfolding accepted
accepted-cpu m h =
    let m₁ : Machine = on_gdb (write_bytes (b'+' ∷ [])) m in
    let (m₂, ran, done) = >>=-split (handle_command m.gdb.cmd_buf m₁) _ h in
    let same = handle_command-cpu m.gdb.cmd_buf m₁ ran in ground arith

on_chksum2-cpu : (ch : ℕ) (m : Machine) {m' : Machine} → on_chksum2 ch m ≡ ok m' → m'.cpu ≡ m.cpu
unfolding on_chksum2
on_chksum2-cpu ch m {m' = m'} h =
    let sum : ℕ = bit_or m.gdb.checksum (from_hex ch) in
    ground (arith, accepted-cpu (on_gdb (λ g. record g { checksum = sum }) m) {m' = m'})

-- What the stub's own steps leave alone.
in_gdb-cpu : (o : Outcome Gdb) (m : Machine) {m' : Machine} → in_gdb o m ≡ ok m' → m'.cpu ≡ m.cpu
in_gdb-cpu o m h = ground arith

dispatch-cpu :
    (s : RsState) (ch : ℕ) (m : Machine) {m' : Machine} → dispatch s ch m ≡ ok m' → m'.cpu ≡ m.cpu
unfolding dispatch
dispatch-cpu inactive ch m h = ground arith
dispatch-cpu idle ch m h = ground arith
dispatch-cpu getline ch m h = in_gdb-cpu (on_getline ch m.gdb) m h
dispatch-cpu getline_esc ch m h = in_gdb-cpu (on_getline_esc ch m.gdb) m h
dispatch-cpu getline_rle ch m h = in_gdb-cpu (on_getline_rle ch m.gdb) m h
dispatch-cpu chksum1 ch m h = in_gdb-cpu (on_chksum1 ch m.gdb) m h
dispatch-cpu chksum2 ch m h = on_chksum2-cpu ch m h

-- Whatever byte the client sends, and whatever command it completes, a HandlePacket that returns has
-- written no register of the processor.
pub handle_packet-cpu :
    (ch : ℕ) (m : Machine) {m' : Machine} → handle_packet ch m ≡ ok m' → m'.cpu ≡ m.cpu
unfolding handle_packet
handle_packet-cpu ch m h = dispatch-cpu m.gdb.state ch m h
