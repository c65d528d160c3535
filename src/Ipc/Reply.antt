-- ===== src/Ipc/Reply.antt =====
-- Ipc.cpp: the replies that GenBuf lays out outside a domain, and the words of their header.
pub mod RoundTrip
use nsemu.Common.{
  ℕ, zero, suc, ◌+◌, ◌*◌, ◌/◌, ◌%◌, ◌^◌, ◌≤◌, ◌<◌, ◌≡◌, refl, ap, ◌∙◌, ◌⊎◌, inl, inr, Bool, true,
  false, not, ◌&&◌, ◌||◌, u32, leb, ◌==◌, ◌<<<◌, ◌>>>◌, if◌then◌else◌, bit_or, ok, ◌>>=◌,
  Bool-cases, arith,
}
use nsemu.Common.Bits.{bit_or_parts, bit_or_fields}
use nsemu.Common.Bytes.{
  read_le, write_le, read_le-write_le, read_le-write_le_apart, AreBytes, write_le-AreBytes,
}
use nsemu.Ipc.{
  message_size, Message, message, load, store, word, set_word, align4, sfco, has_descriptor,
  gen_descriptor, gen_domain, data_words, gen_buf, set_error_code, set_move, get_moved,
  parse_message,
}
use nsemu.Ipc.Words.{
  word_set, three_words, three_words_lem, three_words-AreBytes, two_words, two_words_lem,
  two_words-AreBytes,
}
use nsemu.Ipc.Layout.{
  Handles, absent, anonymous, Header, Holds, HoldsHandles, raw_word, payload_word, parsed,
  parse_message-Holds,
}

-- The header of the reply that GenBuf makes for so many handles and bytes.
abbrev pub reply_handles : ℕ → ℕ → Handles
reply_handles copied moved = if moved == 0 && copied == 0 then absent else anonymous copied moved

abbrev pub reply_header : ℕ → ℕ → ℕ → Header
reply_header moved copied size = record {
  type = 0;
  x_cnt = 0;
  a_cnt = 0;
  b_cnt = 0;
  w_cnt = 8 + data_words 0 size;
  c_flags = 0;
  handles = reply_handles copied moved;
}

reply_descriptor :
    (copied moved : ℕ) (raw : ℕ → ℕ)
    → copied < 2 ^ 4
    → moved < 2 ^ 27
    → read_le 4 raw 4 / 2 ^ 31 ≡ (if moved == 0 && copied == 0 then 0 else 1)
    → ((moved == 0 && copied == 0) ≡ true) ⊎ (read_le 4 raw 8 ≡ copied * 2 + moved * 2 ^ 5)
    → HoldsHandles (reply_handles copied moved) raw
reply_descriptor copied moved raw few fewer top hd = elim (Bool-cases (moved == 0 && copied == 0)) [
  | inl e ↦ rw e (top ∙ rw e refl)
  | inr e ↦ rw e (top ∙ rw e refl, few, fewer, ground arith)
]

-- The words of the header: what makes a buffer one with a reply's header.
pub record IsReply (moved copied size : ℕ) (raw : ℕ → ℕ) : Type 0 where
  pub few : copied < 2 ^ 4
  pub bytes : AreBytes raw
  pub fewer : moved < 2 ^ 27
  pub short : 8 + data_words 0 size < 2 ^ 10
  pub zeroth : read_le 4 raw 0 ≡ 0
  pub first :
      read_le 4 raw 4
      ≡ 8 + data_words 0 size + (if moved == 0 && copied == 0 then 0 else 1) * 2 ^ 31
  pub second : ((moved == 0 && copied == 0) ≡ true) ⊎ (read_le 4 raw 8 ≡ copied * 2 + moved * 2 ^ 5)

pub IsReply-Holds :
    (moved copied size : ℕ) (raw : ℕ → ℕ)
    → IsReply moved copied size raw
    → Holds (reply_header moved copied size) raw
IsReply-Holds moved copied size raw s =
    let first = s.first in
    record {
      type_lt = omega arith;
      x_lt = omega arith;
      a_lt = omega arith;
      b_lt = omega arith;
      w_lt = s.short;
      c_lt = omega arith;
      first = s.zeroth;
      second = ground (arith, s.first, s.short);
      descriptor =
          reply_descriptor copied moved raw s.few s.fewer (ground (arith, s.first, s.short))
            s.second;
    }

-- A word put behind the header leaves it.
pub IsReply-write :
    (moved copied size i v : ℕ) (raw : ℕ → ℕ)
    → 3 ≤ i
    → IsReply moved copied size raw
    → IsReply moved copied size (write_le 4 raw (i * 4) v)
IsReply-write moved copied size i v raw far s =
    let w₀ : read_le 4 (write_le 4 raw (i * 4) v) 0 ≡ read_le 4 raw 0 =
      word_set raw i 0 v ∙ ground arith in
    let w₁ : read_le 4 (write_le 4 raw (i * 4) v) 4 ≡ read_le 4 raw 4 =
      word_set raw i 1 v ∙ ground arith in
    let w₂ : read_le 4 (write_le 4 raw (i * 4) v) 8 ≡ read_le 4 raw 8 =
      word_set raw i 2 v ∙ ground arith in
    record {
      few = s.few;
      bytes = write_le-AreBytes 4 raw (i * 4) v s.bytes;
      fewer = s.fewer;
      short = s.short;
      zeroth = w₀ ∙ s.zeroth;
      first = w₁ ∙ s.first;
      second = rw w₂ s.second;
    }

-- The message that GenBuf leaves.
pub record IsMade (moved copied size : ℕ) (resp : Message) : Type 0 where
  pub header : IsReply moved copied size resp.raw
  pub payload : resp.payload_off ≡ payload_word false (reply_header moved copied size) * 4
  pub plain : resp.is_domainobj ≡ false
  pub copies : resp.copy_cnt ≡ copied

module _ (moved copied size : ℕ) (fresh : Message) (few : copied < 2 ^ 4)
    (fits : (3 + moved + copied + 3) / 4 * 4 * 4 + 28 ≤ message_size) (small : size < 2 ^ 11) where
  short_data : 8 + data_words 0 size < 2 ^ 10
  short_data = ground arith

  descriptor_value :
      u32 (bit_or (u32 (copied <<< 1)) (u32 (moved <<< 5))) ≡ copied * 2 + moved * 2 ^ 5
  descriptor_value =
      let a : u32 (copied <<< 1) ≡ copied * 2 = omega arith in
      let b : u32 (moved <<< 5) ≡ moved * 2 ^ 5 = omega arith in
      rw (a, b, bit_or_parts 5 moved (copied * 2) (omega arith)) (omega arith)

  IsMade-with_handles :
      0 < moved + copied
      → (resp : Message) × (gen_buf moved copied size (message fresh (λ i. 0) false) ≡ ok resp)
        × IsMade moved copied size resp
  unfolding gen_buf gen_descriptor gen_domain store load three_words
  IsMade-with_handles some =
      let any : (not (moved == 0) || not (copied == 0)) ≡ true = ground arith in
      let out : ((not (moved == 0) && true) || not (copied == 0)) ≡ true = ground arith in
      let handles : (moved == 0 && copied == 0) ≡ false = ground arith in
      let pos = align4 (2 + (1 + moved + copied)) in
      let room : leb (pos * 4 + 4) message_size ≡ true = ground arith in
      let hd = u32 (bit_or (u32 (copied <<< 1)) (u32 (moved <<< 5))) in
      let n = u32 (8 + data_words 0 size) in
      let raw₃ = three_words hd n in
      let (w₀, w₁, w₂) = three_words_lem hd n (omega (arith, short_data)) (omega arith) in
      (
        record (message fresh (write_le 4 raw₃ (pos * 4) sfco) false) {
          move_cnt = moved;
          copy_cnt = copied;
          payload_off = pos * 4;
          realdata_off = 0;
        },
        rw (any, out, room) refl,
        record {
          header = IsReply-write moved copied size pos sfco raw₃ (ground arith) record {
            few = few;
            bytes = three_words-AreBytes hd n;
            fewer = omega arith;
            short = short_data;
            zeroth = w₀;
            first = rw handles (w₁ ∙ omega (arith, short_data));
            second = inr (w₂ ∙ descriptor_value);
          };
          payload = rw handles (ground arith);
          plain = refl;
          copies = refl;
        },
      )

IsMade-without_handles :
    (size : ℕ) (fresh : Message)
    → size < 2 ^ 11
    → (resp : Message) × (gen_buf 0 0 size (message fresh (λ i. 0) false) ≡ ok resp)
      × IsMade 0 0 size resp
unfolding gen_buf gen_descriptor gen_domain store load two_words
IsMade-without_handles size fresh small =
    let short : 8 + data_words 0 size < 2 ^ 10 = ground arith in
    let n = u32 (8 + data_words 0 size) in
    let raw₁ = two_words n in
    let (w₀, w₁) = two_words_lem n (omega (arith, short)) in
    (
      record (message fresh (write_le 4 raw₁ 16 sfco) false) {
        move_cnt = 0;
        copy_cnt = 0;
        payload_off = 16;
        realdata_off = 0;
      },
      refl,
      record {
        header = IsReply-write 0 0 size 4 sfco raw₁ (ground arith) record {
          few = omega arith;
          bytes = two_words-AreBytes n;
          fewer = omega arith;
          short = short;
          zeroth = w₀;
          first = w₁ ∙ omega (arith, short);
          second = inl refl;
        };
        payload = refl;
        plain = refl;
        copies = refl;
      },
    )

-- GenBuf in an empty buffer outside a domain.
pub gen_buf-IsMade :
    (moved copied size : ℕ) (fresh : Message)
    → copied < 2 ^ 4
    → (3 + moved + copied + 3) / 4 * 4 * 4 + 28 ≤ message_size
    → size < 2 ^ 11
    → (resp : Message) × (gen_buf moved copied size (message fresh (λ i. 0) false) ≡ ok resp)
      × IsMade moved copied size resp
gen_buf-IsMade zero zero size fresh few fits small = IsMade-without_handles size fresh small
gen_buf-IsMade zero (suc copied) size fresh few fits small =
    IsMade-with_handles zero (suc copied) size fresh few fits small (omega arith)
gen_buf-IsMade (suc moved) copied size fresh few fits small =
    IsMade-with_handles (suc moved) copied size fresh few fits small (omega arith)
