-- ===== src/Ipc/Layout.antt =====
-- Ipc.cpp: the layout of a message, described by the values that stand in it, and what ParseMessage
-- makes of a buffer with that layout.
use nsemu.Common.{
  ℕ, ◌+◌, ◌*◌, ◌/◌, ◌%◌, ◌^◌, ◌≤◌, ◌<◌, ◌≡◌, refl, Bool, true, ◌&&◌, u32, leb, ◌==◌, ◌>>>◌,
  if◌then◌else◌, ok, Bool-cases, inl, inr, arith,
}
use nsemu.Common.Bytes.{read_le}
use nsemu.Ipc.{
  message_size, Message, message, load, align4, parse_handles, parse_domain, with_header, get_data,
  parse_message,
}

-- The optional descriptor of handles: the numbers copied and moved, with or without a process id.
pub data Handles : Type 0 where
  absent : Handles
  anonymous : ℕ → ℕ → Handles
  identified : ℕ → ℕ → ℕ → Handles

pub record Header : Type 0 where
  pub type : ℕ
  pub x_cnt : ℕ
  pub a_cnt : ℕ
  pub b_cnt : ℕ
  pub w_cnt : ℕ
  pub c_flags : ℕ
  pub handles : Handles

abbrev pub HoldsHandles : Handles → (ℕ → ℕ) → Type 0
HoldsHandles absent raw = read_le 4 raw 4 / 2 ^ 31 ≡ 0
HoldsHandles (anonymous copied moved) raw =
    (read_le 4 raw 4 / 2 ^ 31 ≡ 1)
    × (copied < 2 ^ 4)
    × (moved < 2 ^ 27)
    × (read_le 4 raw 8 ≡ copied * 2 + moved * 2 ^ 5)
HoldsHandles (identified pid copied moved) raw =
    (read_le 4 raw 4 / 2 ^ 31 ≡ 1)
    × (copied < 2 ^ 4)
    × (moved < 2 ^ 27)
    × (read_le 4 raw 8 ≡ 1 + copied * 2 + moved * 2 ^ 5)
    × (read_le 8 raw 12 ≡ pid)

-- The buffer starts with the header: two words of counts, and the descriptor of handles, which the
-- top bit of the second word announces.
pub record Holds (h : Header) (raw : ℕ → ℕ) : Type 0 where
  pub type_lt : h.type < 2 ^ 16
  pub x_lt : h.x_cnt < 2 ^ 4
  pub a_lt : h.a_cnt < 2 ^ 4
  pub b_lt : h.b_cnt < 2 ^ 4
  pub w_lt : h.w_cnt < 2 ^ 10
  pub c_lt : h.c_flags < 2 ^ 2
  pub first : read_le 4 raw 0 ≡ h.type + h.x_cnt * 2 ^ 16 + h.a_cnt * 2 ^ 20 + h.b_cnt * 2 ^ 24
  pub second : read_le 4 raw 4 % 2 ^ 12 ≡ h.w_cnt + h.c_flags * 2 ^ 10
  pub descriptor : HoldsHandles h.handles raw

-- Words of the parts, in their order: header, copied handles, moved handles, buffer descriptors, and
-- the payload, on the next multiple of four words and behind the header of a domain request.
abbrev pub copied_word : Handles → ℕ
copied_word absent = 2
copied_word (anonymous copied moved) = 3
copied_word (identified pid copied moved) = 5

abbrev pub copied_count : Handles → ℕ
copied_count absent = 0
copied_count (anonymous copied moved) = copied
copied_count (identified pid copied moved) = copied

abbrev pub moved_count : Handles → ℕ
moved_count absent = 0
moved_count (anonymous copied moved) = moved
moved_count (identified pid copied moved) = moved

abbrev pub descriptor_word : Header → ℕ
descriptor_word h = copied_word h.handles + copied_count h.handles + moved_count h.handles

abbrev pub raw_word : Header → ℕ
raw_word h = descriptor_word h + h.x_cnt * 2 + h.a_cnt * 3 + h.b_cnt * 3

abbrev pub in_domain : Bool → Header → Bool
in_domain domain h = domain && h.type == 4

abbrev pub payload_word : Bool → Header → ℕ
payload_word domain h = (raw_word h + 3) / 4 * 4 + (if in_domain domain h then 4 else 0)

-- What the members of an IpcMessage are to be; those that the header does not give stay.
abbrev pub by_handles : Handles → ℕ → (ℕ → ℕ) → (ℕ → ℕ → ℕ) → ℕ
by_handles absent old f g = old
by_handles (anonymous copied moved) old f g = f copied
by_handles (identified pid copied moved) old f g = g pid copied

abbrev pub with_handles : Handles → Message → Message
with_handles hs m = record m {
  has_pid = by_handles hs m.has_pid (λ c. 0) (λ p c. 1);
  pid = by_handles hs m.pid (λ c. m.pid) (λ p c. u32 p);
  copy_cnt = by_handles hs m.copy_cnt (λ c. c) (λ p c. c);
  move_cnt = by_handles hs m.move_cnt (λ c. moved_count hs) (λ p c. moved_count hs);
  copy_off = by_handles hs m.copy_off (λ c. 12) (λ p c. 20);
  move_off = by_handles hs m.move_off (λ c. (3 + c) * 4) (λ p c. (5 + c) * 4);
}

abbrev pub with_counts : Header → Message → Message
with_counts h m = record m {
  type = h.type;
  x_cnt = h.x_cnt;
  a_cnt = h.a_cnt;
  b_cnt = h.b_cnt;
  w_cnt = h.w_cnt;
  has_c = if h.c_flags == 0 then 0 else 1;
}

abbrev pub with_domain : Header → Message → Message
with_domain h m =
    if in_domain m.is_domainobj h
    then record m {
      domain_cmd = read_le 4 m.raw ((raw_word h + 3) / 4 * 4 * 4) % 2 ^ 8;
      domain_handle = read_le 4 m.raw (((raw_word h + 3) / 4 * 4 + 1) * 4);
    }
    else m

abbrev pub parsed : Header → Message → Message
parsed h m =
    let m₁ = with_handles h.handles (with_counts h m) in
    let m₂ =
      with_domain h (record m₁ { desc_off = descriptor_word h * 4; raw_off = raw_word h * 4 }) in
    record m₂ {
      payload_off = payload_word m.is_domainobj h * 4;
      cmd_id = read_le 4 m.raw (payload_word m.is_domainobj h * 4 + 8);
    }

align4_lem : (pos : ℕ) → align4 pos ≡ (pos + 3) / 4 * 4
align4_lem pos = ground arith

with_header_lem :
    (h : Header) (m : Message)
    → Holds h m.raw
    → with_header (read_le 4 m.raw 0) (read_le 4 m.raw 4) m ≡ with_counts h m
unfolding with_header
with_header_lem h m s =
    let w₀ = read_le 4 m.raw 0 in
    let w₁ = read_le 4 m.raw 4 in
    let first : w₀ ≡ h.type + h.x_cnt * 2 ^ 16 + h.a_cnt * 2 ^ 20 + h.b_cnt * 2 ^ 24 = s.first in
    let second : w₁ % 2 ^ 12 ≡ h.w_cnt + h.c_flags * 2 ^ 10 = s.second in
    let e₁ : w₀ % 2 ^ 16 ≡ h.type = omega arith in
    let e₂ : w₀ >>> 16 % 2 ^ 4 ≡ h.x_cnt = omega arith in
    let e₃ : w₀ >>> 20 % 2 ^ 4 ≡ h.a_cnt = omega arith in
    let e₄ : w₀ >>> 24 % 2 ^ 4 ≡ h.b_cnt = omega arith in
    let e₅ : w₁ % 2 ^ 10 ≡ h.w_cnt = omega arith in
    let e₆ : w₁ >>> 10 % 2 ^ 2 ≡ h.c_flags = omega arith in rw (e₁, e₂, e₃, e₄, e₅, e₆) refl

parse_handles_lem :
    (hs : Handles) (m : Message)
    → HoldsHandles hs m.raw
    → parse_handles (read_le 4 m.raw 4) m
      ≡ ok (copied_word hs + copied_count hs + moved_count hs, with_handles hs m)
unfolding parse_handles load
parse_handles_lem absent m s = rw s refl
parse_handles_lem (anonymous copied moved) m (top, c, d, e) =
    let w₁ = read_le 4 m.raw 4 in
    let hd = copied * 2 + moved * 2 ^ 5 in
    let on : w₁ >>> 31 ≡ 1 = omega arith in
    let p : hd % 2 ≡ 0 = omega arith in
    let q : hd >>> 1 % 2 ^ 4 ≡ copied = omega arith in
    let r : hd >>> 5 ≡ moved = omega arith in rw (on, e, p, q, r) refl
parse_handles_lem (identified pid copied moved) m (top, c, d, e, f) =
    let w₁ = read_le 4 m.raw 4 in
    let hd = 1 + copied * 2 + moved * 2 ^ 5 in
    let on : w₁ >>> 31 ≡ 1 = omega arith in
    let p : hd % 2 ≡ 1 = omega arith in
    let q : hd >>> 1 % 2 ^ 4 ≡ copied = omega arith in
    let r : hd >>> 5 ≡ moved = omega arith in rw (on, e, p, q, r, f) refl

parse_domain_lem :
    (h : Header) (m : Message)
    → m.type ≡ h.type
    → (raw_word h + 3) / 4 * 4 * 4 + 28 ≤ message_size
    → parse_domain (align4 (raw_word h)) m ≡ ok (payload_word m.is_domainobj h, with_domain h m)
unfolding parse_domain load
parse_domain_lem h m same fits =
    let near : leb ((raw_word h + 3) / 4 * 4 * 4 + 4) message_size ≡ true = ground arith in
    let far : leb (((raw_word h + 3) / 4 * 4 + 1) * 4 + 4) message_size ≡ true = ground arith in
    elim (Bool-cases (in_domain m.is_domainobj h)) [
      | inl e ↦ rw (align4_lem (raw_word h), same, e, near, far) refl
      | inr e ↦
          let whole : (raw_word h + 3) / 4 * 4 + 0 ≡ (raw_word h + 3) / 4 * 4 = omega arith in
          rw (align4_lem (raw_word h), same, e, whole) refl
    ]

with_domain-raw : (h : Header) (m : Message) → (with_domain h m).raw ≡ m.raw
with_domain-raw h m = ground arith

payload_fits :
    (h : Header) (domain : Bool)
    → (raw_word h + 3) / 4 * 4 * 4 + 28 ≤ message_size
    → payload_word domain h * 4 + 12 ≤ message_size
payload_fits h domain fits = ground arith

get_command :
    (h : Header) (m : Message)
    → payload_word m.is_domainobj h * 4 + 12 ≤ message_size
    → get_data 4 (record (with_domain h m) { payload_off = payload_word m.is_domainobj h * 4 }) 0
      ≡ ok (read_le 4 m.raw (payload_word m.is_domainobj h * 4 + 8))
unfolding get_data load
get_command h m fits =
    let o = payload_word m.is_domainobj h * 4 in
    let same : o + 8 + 0 ≡ o + 8 = omega arith in
    let room : leb (o + 8 + 4) message_size ≡ true = ground arith in
    rw (with_domain-raw h m, same, room) refl

-- ParseMessage of a buffer that starts with a header finds every member, in and outside a domain, if
-- the payload's first three words, behind four more of a domain request, lie in the buffer: the counts,
-- the process id cut to 32 bits, the offsets of handles, descriptors and payload, and the command.
pub parse_message-Holds :
    (h : Header) (fresh : Message) (raw : ℕ → ℕ) (domain : Bool)
    → Holds h raw
    → (raw_word h + 3) / 4 * 4 * 4 + 28 ≤ message_size
    → parse_message (message fresh raw domain) ≡ ok (parsed h (message fresh raw domain))
unfolding parse_message load
parse_message-Holds h fresh raw domain s fits =
    let m = message fresh raw domain in
    let m₁ = with_handles h.handles (with_counts h m) in
    let m₂ = record m₁ { desc_off = descriptor_word h * 4; raw_off = raw_word h * 4 } in
    rw
      (
        with_header_lem h m s,
        parse_handles_lem h.handles (with_counts h m) s.descriptor,
        parse_domain_lem h m₂ refl fits,
        get_command h m₂ (payload_fits h domain fits),
      )
      refl
