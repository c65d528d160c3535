-- ===== src/Services/Replies.antt =====
-- include/IpcStubs.hpp: what holds of every command in the tables.
use nsemu.Common.{
  ℕ, ◌+◌, ◌*◌, ◌/◌, ◌^◌, ◌≤◌, ◌<◌, ◌≡◌, refl, Bool, true, false, ◌&&◌, ltb, leb, Bool-cases, inl,
  inr, some, List, [], ◌∷◌, ok, arith,
}
use nsemu.Kernel.{codes, name_eq}
use nsemu.Ipc.{message_size, Message, message, get_data_pointer, gen_buf}
use nsemu.Ipc.Layout.{Holds, payload_word}
use nsemu.Ipc.Reply.{reply_header, IsReply-Holds, gen_buf-IsMade}
use nsemu.Ipc.Command.{Table, Command, find_command}
use nsemu.Services.{tables, find_table, commands_of}
use Prim.Native.String.{String}

-- A reply of the command lies in the buffer, with the two words in front of the error code, the code's
-- eight bytes and the data behind them.
fits : Command → Bool
fits c =
    leb ((3 + c.move_cnt + c.copy_cnt + 3) / 4 * 4 * 4 + 28) message_size
    && leb ((3 + c.move_cnt + c.copy_cnt + 3) / 4 * 4 * 4 + 16 + c.bytes) message_size
    && ltb c.copy_cnt (2 ^ 4)

all_fit : Table → Bool
all_fit [] = true
all_fit ((id, c) ∷ rest) = fits c && all_fit rest

all_tables : List (String × Table) → Bool
all_tables [] = true
all_tables ((class, table) ∷ rest) = all_fit table && all_tables rest

tables_fit : all_tables tables ≡ true
unfolding all_tables all_fit fits
tables_fit = refl

found_fits :
    (id : ℕ) (table : Table) (c : Command)
    → all_fit table ≡ true
    → find_command id table ≡ some c
    → fits c ≡ true
unfolding all_fit find_command
found_fits id [] c h e = absurd (ground arith)
found_fits id ((other, d) ∷ rest) c h e = ground (arith, found_fits id rest c)

found_table :
    (class : String) (l : List (String × Table)) (table : Table)
    → all_tables l ≡ true
    → find_table class l ≡ some table
    → all_fit table ≡ true
unfolding all_tables find_table
found_table class [] table h e = absurd (ground arith)
found_table class ((other, t) ∷ rest) table h e =
    elim (Bool-cases (name_eq (codes class) (codes other))) [
      | inl same ↦ let there = rw same at e in ground arith
      | inr apart ↦ found_table class rest table (ground arith) (rw apart at e)
    ]

-- The reply of every command in the tables lies in its buffer: outside a domain GenBuf succeeds, and lays
-- out a header that states the command's numbers of handles, in front of its payload; and as many bytes
-- as the command returns, from where a method puts its values, end inside the buffer.
pub commands_of-fit :
    (class : String) (table : Table) (id : ℕ) (c : Command) (fresh : Message)
    → commands_of class ≡ some table
    → find_command id table ≡ some c
    → (resp : Message) × (gen_buf c.move_cnt c.copy_cnt c.bytes (message fresh (λ i. 0) false)
        ≡ ok resp)
      × Holds (reply_header c.move_cnt c.copy_cnt c.bytes) resp.raw
      × (resp.payload_off ≡ payload_word false (reply_header c.move_cnt c.copy_cnt c.bytes) * 4)
      × (get_data_pointer resp 8 + c.bytes ≤ message_size)
unfolding commands_of
commands_of-fit class table id c fresh e f =
    let good = found_fits id table c (found_table class tables table tables_fit e) f in
    let room : (3 + c.move_cnt + c.copy_cnt + 3) / 4 * 4 * 4 + 28 ≤ message_size =
      unfold fits in ground (arith, good) in
    let small : c.bytes < 2 ^ 11 = unfold fits in ground (arith, good) in
    let few : c.copy_cnt < 2 ^ 4 = unfold fits in ground (arith, good) in
    let (resp, gen, made) = gen_buf-IsMade c.move_cnt c.copy_cnt c.bytes fresh few room small in
    let ends : (3 + c.move_cnt + c.copy_cnt + 3) / 4 * 4 * 4 + 16 + c.bytes ≤ message_size =
      unfold fits in ground (arith, good) in
    let at = made.payload in
    (
      resp,
      gen,
      IsReply-Holds c.move_cnt c.copy_cnt c.bytes resp.raw made.header,
      at,
      ground (arith, at, ends),
    )
