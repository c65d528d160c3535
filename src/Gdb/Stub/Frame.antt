-- ===== src/Gdb/Stub/Frame.antt =====
-- GdbStub.cpp: a packet framed as SendPacket frames one is taken by HandlePacket as the command that
-- it carries.
use nsemu.Common.{
  ℕ, ◌+◌, ◌*◌, ◌/◌, ◌%◌, ◌^◌, ◌≤◌, ◌<◌, ◌≡◌, refl, sym, ap, ◌∙◌, ◌≢◌, true, List, [], ◌∷◌, ◌++◌,
  bit_or, ok, Outcome-cases, >>=-ok, inl, inr, ◌>>=◌, arith,
}
use mathlib.Core.Path.{subst}
use nsemu.Common.Bits.{bit_or_fields}
use nsemu.Common.Lists.{length, update}
use nsemu.Machine.{idle, getline, chksum1, chksum2, Gdb, Machine}
use nsemu.Gdb.Hex.{is_xdigit, to_hex, from_hex, from_hex-to_hex, is_xdigit-to_hex}
use nsemu.Gdb.Send.{sum_bytes, packet, write_bytes}
use nsemu.Gdb.Break.{on_gdb}
use nsemu.Gdb.Command.{handle_command}
use nsemu.Gdb.Stub.{with_state, handle_packet, handle_packets}

-- The characters of the command are bytes, and none is special to the reader.
abbrev pub IsPlain : List ℕ → Type 0
IsPlain [] = Unit {0}
IsPlain (c ∷ cs) = (c < 256) × (c ≢ b'}') × (c ≢ b'*') × (c ≢ b'#') × IsPlain cs

-- From index `i` on the buffer holds the command and a NUL.
abbrev pub LineAt : (ℕ → ℕ) → ℕ → List ℕ → Type 0
LineAt s i [] = s i ≡ 0
LineAt s i (c ∷ cs) = (s i ≡ c) × LineAt s (i + 1) cs

-- The stub's state after the plain characters.
typed : List ℕ → Gdb → Gdb
typed [] g = g
typed (c ∷ cs) g = typed cs (record g {
  cmd_buf = update g.cmd_buf g.buf_index c;
  buf_index = g.buf_index + 1;
  line_sum = g.line_sum + c;
})

handle_packets-append :
    (xs ys : List ℕ) (m : Machine)
    → handle_packets (xs ++ ys) m ≡ (handle_packets xs m >>= λ m'. handle_packets ys m')
unfolding handle_packets
handle_packets-append [] ys m = refl
handle_packets-append (x ∷ xs) ys m = elim (Outcome-cases (handle_packet x m)) [
  | inl (m', e) ↦ rw e (handle_packets-append xs ys m')
  | inr (inl e) ↦ rw e refl
  | inr (inr e) ↦ rw e refl
]

handle_packet-plain :
    (c : ℕ) (m : Machine)
    → m.gdb.state ≡ getline
    → c ≢ b'}'
    → c ≢ b'*'
    → c ≢ b'#'
    → m.gdb.buf_index < 4095
    → m.gdb.line_sum + c < 2 ^ 31
    → handle_packet c m ≡ ok (on_gdb (typed (c ∷ [])) m)
unfolding handle_packet typed
handle_packet-plain c m e p q r h s = ground arith

typed_lem :
    (cs : List ℕ) (g : Gdb)
    → ((typed cs g).buf_index ≡ g.buf_index + length cs)
      × ((typed cs g).line_sum ≡ g.line_sum + sum_bytes cs)
      × ((typed cs g).state ≡ g.state)
      × ((typed cs g).sent ≡ g.sent)
unfolding typed sum_bytes
typed_lem [] g = (omega arith, omega arith, refl, refl)
typed_lem (c ∷ cs) g =
    let (index, sum, state, sent) = typed_lem cs (record g {
      cmd_buf = update g.cmd_buf g.buf_index c;
      buf_index = g.buf_index + 1;
      line_sum = g.line_sum + c;
    }) in
    (omega (arith, index), omega (arith, sum), state, sent)

typed_below :
    (cs : List ℕ) (g : Gdb) (j : ℕ) → j < g.buf_index → (typed cs g).cmd_buf j ≡ g.cmd_buf j
unfolding typed
typed_below [] g j h = refl
typed_below (c ∷ cs) g j h =
    typed_below cs
      (record g {
        cmd_buf = update g.cmd_buf g.buf_index c;
        buf_index = g.buf_index + 1;
        line_sum = g.line_sum + c;
      })
      j (omega arith)
    ∙ ground arith

typed_line :
    (cs : List ℕ) (g : Gdb)
    → LineAt (update (typed cs g).cmd_buf (g.buf_index + length cs) 0) g.buf_index cs
unfolding typed
typed_line [] g = ground arith
typed_line (c ∷ cs) g =
    let g' : Gdb = record g {
      cmd_buf = update g.cmd_buf g.buf_index c;
      buf_index = g.buf_index + 1;
      line_sum = g.line_sum + c;
    } in
    (
      ground (arith, typed_below cs g' g.buf_index),
      subst (λ (t : ℕ). LineAt (update (typed cs g').cmd_buf t 0) (g.buf_index + 1) cs)
          (let e : g.buf_index + 1 + length cs ≡ g.buf_index + length (c ∷ cs) = omega arith in e)
          (typed_line cs g'),
    )

sum_bytes-IsPlain : (cs : List ℕ) → IsPlain cs → sum_bytes cs ≤ 255 * length cs
unfolding sum_bytes
sum_bytes-IsPlain [] plain = omega arith
sum_bytes-IsPlain (c ∷ cs) (small, p, q, r, plain) =
    omega (arith, small, sum_bytes-IsPlain cs plain)

handle_packets-typed :
    (cs : List ℕ) (m : Machine)
    → m.gdb.state ≡ getline
    → IsPlain cs
    → m.gdb.buf_index + length cs ≤ 4095
    → m.gdb.line_sum + sum_bytes cs < 2 ^ 31
    → handle_packets cs m ≡ ok (on_gdb (typed cs) m)
unfolding handle_packets typed sum_bytes
handle_packets-typed [] m e plain h s = refl
handle_packets-typed (c ∷ cs) m e (small, p, q, r, plain) h s =
    rw (handle_packet-plain c m e p q r (omega arith) (omega arith))
      (handle_packets-typed cs (on_gdb (typed (c ∷ [])) m) e plain (omega arith) (omega arith))

-- The two digits that SendPacket writes stand for the sum modulo 256.
checksum_lem :
    (s : ℕ) → bit_or (from_hex (to_hex (s / 16 % 16)) * 16) (from_hex (to_hex (s % 16))) ≡ s % 256
checksum_lem s =
    rw (from_hex-to_hex (s / 16 % 16) (omega arith), from_hex-to_hex (s % 16) (omega arith))
      (omega (arith, bit_or_fields 4 (s / 16 % 16) (s % 16) (omega arith)))

handle_packet-hash :
    (m : Machine)
    → m.gdb.state ≡ getline
    → handle_packet b'#' m ≡ ok (on_gdb (with_state chksum1) m)
unfolding handle_packet
handle_packet-hash m e = rw e refl

handle_packet-digit1 :
    (ch : ℕ) (m : Machine)
    → m.gdb.state ≡ chksum1
    → is_xdigit ch ≡ true
    → m.gdb.buf_index ≤ 4095
    → handle_packet ch m
      ≡ ok (
          on_gdb
            (λ g. record g {
              cmd_buf = update g.cmd_buf g.buf_index 0;
              checksum = from_hex ch * 16;
              state = chksum2;
            })
            m)
unfolding handle_packet
handle_packet-digit1 ch m e f h = rw (e, f) (ground arith)

-- The last digit, when the two digits stand for the sum of the line.
handle_packet-digit2 :
    (ch : ℕ) (m : Machine)
    → m.gdb.state ≡ chksum2
    → is_xdigit ch ≡ true
    → bit_or m.gdb.checksum (from_hex ch) ≡ m.gdb.line_sum % 256
    → handle_packet ch m ≡ (
        handle_command m.gdb.cmd_buf (
          on_gdb
            (λ g. record g { checksum = m.gdb.line_sum % 256; sent = g.sent ++ (b'+' ∷ []) ∷ [] })
            m)
        >>= λ m'. ok (on_gdb (with_state idle) m'))
unfolding handle_packet write_bytes
handle_packet-digit2 ch m e f h = rw (e, f, h) (ground arith)

handle_packet-dollar :
    (m : Machine)
    → m.gdb.state ≡ idle
    → handle_packet b'$' m
      ≡ ok (on_gdb (λ g. record g { buf_index = 0; line_sum = 0; state = getline }) m)
unfolding handle_packet
handle_packet-dollar m e = rw e refl

-- From the hash sign on the line is closed, its sum is compared and the command is handled.
handle_packets-tail :
    (m : Machine)
    → m.gdb.state ≡ getline
    → m.gdb.buf_index ≤ 4095
    → handle_packets
        (b'#' ∷ to_hex (m.gdb.line_sum / 16 % 16) ∷ to_hex (m.gdb.line_sum % 16) ∷ [])
        m
      ≡ (handle_command (update m.gdb.cmd_buf m.gdb.buf_index 0) (
            on_gdb
              (λ g. record g {
                cmd_buf = update g.cmd_buf g.buf_index 0;
                checksum = g.line_sum % 256;
                state = chksum2;
                sent = g.sent ++ (b'+' ∷ []) ∷ [];
              })
              m)
          >>= λ m'. ok (on_gdb (with_state idle) m'))
unfolding handle_packets
handle_packets-tail m e h =
    rw
      (
        handle_packet-hash m e,
        handle_packet-digit1 (to_hex (m.gdb.line_sum / 16 % 16)) (on_gdb (with_state chksum1) m)
            refl (is_xdigit-to_hex (m.gdb.line_sum / 16 % 16) (omega arith)) h,
        handle_packet-digit2 (to_hex (m.gdb.line_sum % 16))
            (on_gdb
              (λ g. record g {
                cmd_buf = update g.cmd_buf g.buf_index 0;
                checksum = from_hex (to_hex (m.gdb.line_sum / 16 % 16)) * 16;
                state = chksum2;
              })
              m)
            refl (is_xdigit-to_hex (m.gdb.line_sum % 16) (omega arith))
            (checksum_lem m.gdb.line_sum),
      )
      (>>=-ok (
        handle_command (update m.gdb.cmd_buf m.gdb.buf_index 0) (
          on_gdb
            (λ g. record g {
              cmd_buf = update g.cmd_buf g.buf_index 0;
              checksum = g.line_sum % 256;
              state = chksum2;
              sent = g.sent ++ (b'+' ∷ []) ∷ [];
            })
            m)
        >>= λ m'. ok (on_gdb (with_state idle) m')))

-- A command of at most 4095 bytes, none of them '}', '*' or '#', framed by `packet` as
-- SendPacket frames it and read from the idle state: the stub acknowledges it with '+', hands
-- HandleCommand a buffer that holds the command with a NUL behind it, the processor and the memory
-- as they were, and is idle again when the command returns.
pub handle_packets-packet :
    (cs : List ℕ) (m : Machine)
    → m.gdb.state ≡ idle
    → IsPlain cs
    → length cs ≤ 4095
    → (taken : Machine) × LineAt taken.gdb.cmd_buf 0 cs
      × (taken.cpu ≡ m.cpu)
      × (taken.mem ≡ m.mem)
      × (taken.gdb.sent ≡ m.gdb.sent ++ (b'+' ∷ []) ∷ [])
      × (handle_packets (packet cs) m
          ≡ (handle_command taken.gdb.cmd_buf taken >>= λ m'. ok (on_gdb (with_state idle) m')))
unfolding handle_packets packet
handle_packets-packet cs m e plain h =
    let g : Gdb = record (m.gdb) { buf_index = 0; line_sum = 0; state = getline } in
    let (index, sum, state, sent) = typed_lem cs g in
    let s : ℕ → ℕ = update (typed cs g).cmd_buf (typed cs g).buf_index 0 in
    let sum_eq : sum_bytes cs ≡ (typed cs g).line_sum = omega (arith, sum) in
    (
      record m {
        gdb = record (typed cs g) {
          cmd_buf = s;
          checksum = (typed cs g).line_sum % 256;
          state = chksum2;
          sent = (typed cs g).sent ++ (b'+' ∷ []) ∷ [];
        };
      },
      subst (λ (t : ℕ). LineAt (update (typed cs g).cmd_buf t 0) 0 cs) (sym index)
          (typed_line cs g),
      refl,
      refl,
      ap (λ (t : List (List ℕ)). t ++ (b'+' ∷ []) ∷ []) sent,
      rw
          (
            handle_packet-dollar m e,
            handle_packets-append cs
                (b'#' ∷ to_hex (sum_bytes cs / 16 % 16) ∷ to_hex (sum_bytes cs % 16) ∷ [])
                (record m { gdb = g }),
            handle_packets-typed cs (record m { gdb = g }) refl plain (omega arith)
                (omega (arith, sum_bytes-IsPlain cs plain)),
            sum_eq,
          )
          (handle_packets-tail (record m { gdb = typed cs g }) state (omega (arith, index, h))),
    )
