-- ===== src/Ipc/Reply/RoundTrip.antt =====
-- Ipc.cpp: a reply that the emulator fills in, as ParseMessage reads it back.
use nsemu.Common.{
  ℕ, ◌+◌, ◌*◌, ◌/◌, ◌^◌, ◌≤◌, ◌<◌, ◌≡◌, refl, sym, ap, ◌∙◌, true, false, ◌&&◌, leb, ◌==◌, ◌>>>◌, ok,
  arith,
}
use nsemu.Common.Bytes.{read_le, write_le, AreBytes}
use nsemu.Ipc.{
  message_size, Message, message, load, store, gen_buf, set_error_code, set_move, get_moved,
  parse_message,
}
use nsemu.Ipc.Layout.{parsed, parse_message-Holds}
use nsemu.Ipc.Reply.{
  word_set, reply_header, IsReply, IsReply-write, IsReply-Holds, IsMade, gen_buf-IsMade,
}

abbrev Fits : ℕ → ℕ → Type 0
Fits moved copied = (3 + moved + copied + 3) / 4 * 4 * 4 + 28 ≤ message_size

-- What SetMove and SetErrorCode leave, in a reply that GenBuf has made.
module _ (moved copied size i handle err : ℕ) (resp : Message)
    (made : IsMade moved copied size resp) (some : i < moved) (fits : Fits moved copied) where
  payload_at : resp.payload_off ≡ (3 + moved + copied + 3) / 4 * 4 * 4
  payload_at =
      made.payload
      ∙ (let e : (moved == 0 && copied == 0) ≡ false = ground arith in rw e (ground arith))

  filled : ℕ → ℕ
  filled =
      write_le 4 (write_le 4 resp.raw ((3 + copied + i) * 4) handle)
        ((resp.payload_off >>> 2 + 2) * 4) err

  pub set_move_made :
      set_move i handle resp
      ≡ ok (record resp { raw = write_le 4 resp.raw ((3 + copied + i) * 4) handle })
  unfolding set_move store
  set_move_made =
      let room : leb ((3 + copied + i) * 4 + 4) message_size ≡ true = ground arith in
      rw (made.plain, made.copies, room) refl

  filled-IsReply : IsReply moved copied size filled
  unfolding filled
  filled-IsReply =
      IsReply-write moved copied size (resp.payload_off >>> 2 + 2) err
        (write_le 4 resp.raw ((3 + copied + i) * 4) handle) (omega (arith, payload_at))
        (IsReply-write moved copied size (3 + copied + i) handle resp.raw (omega arith) made.header)

  filled_handle : handle < 2 ^ 32 → read_le 4 filled ((3 + copied + i) * 4) ≡ handle
  unfolding filled
  filled_handle h =
      word_set (write_le 4 resp.raw ((3 + copied + i) * 4) handle) (resp.payload_off >>> 2 + 2)
        (3 + copied + i) err
      ∙ ground (arith, payload_at, word_set resp.raw (3 + copied + i) (3 + copied + i) handle)

  filled_error : err < 2 ^ 32 → read_le 4 filled (resp.payload_off + 8) ≡ err
  unfolding filled
  filled_error h =
      let at : resp.payload_off + 8 ≡ (resp.payload_off >>> 2 + 2) * 4 =
        omega (arith, payload_at) in
      ap (λ (t : ℕ). read_le 4 filled t) at
      ∙ word_set (write_le 4 resp.raw ((3 + copied + i) * 4) handle) (resp.payload_off >>> 2 + 2)
          (resp.payload_off >>> 2 + 2) err
      ∙ ground arith

-- Outside a domain, what GenBuf lays out for some handles and bytes, with a handle put at its place by
-- SetMove and the code of an error by SetErrorCode, is a message in which ParseMessage finds the
-- numbers of handles, the payload where GenBuf put it, the handle at the same place, and the code
-- in place of a command; every byte of it is a byte. The handles and the payload's first words have to fit into the buffer.
pub gen_buf-parse_message :
    (moved copied size i handle err : ℕ) (fresh fresh' : Message)
    → i < moved
    → copied < 2 ^ 4
    → (3 + moved + copied + 3) / 4 * 4 * 4 + 28 ≤ message_size
    → size < 2 ^ 11
    → handle < 2 ^ 32
    → err < 2 ^ 32
    → (resp resp₁ resp₂ req : Message) × (gen_buf moved copied size (message fresh (λ i. 0) false)
        ≡ ok resp)
      × (set_move i handle resp ≡ ok resp₁)
      × (set_error_code (record resp₁ { error_code = err }) ≡ ok resp₂)
      × AreBytes resp₂.raw
      × (parse_message (message fresh' resp₂.raw false) ≡ ok req)
      × (req.move_cnt ≡ moved)
      × (req.copy_cnt ≡ copied)
      × (req.payload_off ≡ resp.payload_off)
      × (get_moved req i ≡ ok handle)
      × (req.cmd_id ≡ err)
unfolding set_error_code store get_moved load filled
gen_buf-parse_message moved copied size i handle err fresh fresh' some few fits small h g =
    let (resp, gen, made) = gen_buf-IsMade moved copied size fresh few fits small in
    let raw = filled moved copied size i handle err resp made some fits in
    let header = reply_header moved copied size in
    let at = payload_at moved copied size i handle err resp made some fits in
    let e : (moved == 0 && copied == 0) ≡ false = ground arith in
    let room : leb ((resp.payload_off >>> 2 + 2) * 4 + 4) message_size ≡ true =
      ground (arith, at) in
    let word_at : (3 + copied) * 4 + i * 4 ≡ (3 + copied + i) * 4 = omega arith in
    let place : leb ((3 + copied + i) * 4 + 4) message_size ≡ true = ground arith in
    let read =
      parse_message-Holds header fresh' raw false
        (IsReply-Holds moved copied size raw
          (filled-IsReply moved copied size i handle err resp made some fits))
        (rw e (omega arith)) in
    (
      resp,
      record resp { raw = write_le 4 resp.raw ((3 + copied + i) * 4) handle },
      record resp { raw = raw; error_code = err },
      parsed header (message fresh' raw false),
      gen,
      set_move_made moved copied size i handle err resp made some fits,
      rw room refl,
      (filled-IsReply moved copied size i handle err resp made some fits).bytes,
      read,
      rw e refl,
      rw e refl,
      sym made.payload,
      rw (e, word_at, place)
          (ap (λ (t : ℕ). ok t)
            (filled_handle moved copied size i handle err resp made some fits h)),
      ap (λ (t : ℕ). read_le 4 raw (t + 8)) (sym made.payload)
          ∙ filled_error moved copied size i handle err resp made some fits g,
    )
