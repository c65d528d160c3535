-- ===== src/Ipc.antt =====
-- Ipc.cpp and include/Ipc.hpp: a message of the inter-process communication, in its buffer of 0x100
-- bytes; ParseMessage, GenBuf and the accessors of IpcMessage. Both places that make an IpcMessage
-- give it a buffer, so the tests for a null `raw_ptr` are left out. A load or store that leaves the
-- buffer is a fault.
pub mod Buffer
pub mod Layout
pub mod Command
pub mod Session
pub mod Words
pub mod Reply
use nsemu.Common.{
  ℕ, ◌+◌, ◌-◌, ◌*◌, ◌%◌, ◌^◌, Bool, not, ◌&&◌, ◌||◌, u32, leb, ◌==◌, ◌<<<◌, ◌>>>◌, if◌then◌else◌,
  bit_or, Outcome, ok, fault, ◌>>=◌,
}
use nsemu.Common.Bytes.{read_le, write_le}

-- The arrays `msgbuf` and `obuf`.
abbrev pub message_size : ℕ
message_size = 0x100

pub record Message : Type 0 where
  pub type : ℕ
  pub x_cnt : ℕ
  pub a_cnt : ℕ
  pub b_cnt : ℕ
  pub w_cnt : ℕ
  pub has_c : ℕ
  pub has_pid : ℕ
  pub pid : ℕ
  pub move_cnt : ℕ
  pub copy_cnt : ℕ
  pub domain_handle : ℕ
  pub domain_cmd : ℕ
  pub cmd_id : ℕ
  pub error_code : ℕ
  pub copy_off : ℕ
  pub move_off : ℕ
  pub desc_off : ℕ
  pub raw_off : ℕ
  pub payload_off : ℕ
  pub realdata_off : ℕ
  pub raw : ℕ → ℕ
  pub is_domainobj : Bool

-- The constructor with a buffer. It sets two members; the others are what they were, `fresh`.
abbrev pub message : Message → (ℕ → ℕ) → Bool → Message
message fresh raw is_domainobj = record fresh { raw = raw; is_domainobj = is_domainobj }

-- *(T *) (raw_ptr + off), for a T of `n` bytes, and its assignment.
unfoldable pub load : ℕ → (ℕ → ℕ) → ℕ → Outcome ℕ
load n raw off = if leb (off + n) message_size then ok (read_le n raw off) else fault

unfoldable pub store : ℕ → ℕ → ℕ → Message → Outcome Message
store n off value m =
    if leb (off + n) message_size then ok (record m { raw = write_le n m.raw off value }) else fault

-- buf[i], for uint32_t *buf = (uint32_t *) raw_ptr, and its assignment.
abbrev pub word : Message → ℕ → Outcome ℕ
word m i = load 4 m.raw (i * 4)

abbrev pub set_word : ℕ → ℕ → Message → Outcome Message
set_word i value m = store 4 (i * 4) value m

-- GetData, for a T of `n` bytes, and the offset of GetDataPointer.
unfoldable pub get_data : ℕ → Message → ℕ → Outcome ℕ
get_data n m offset = load n m.raw (m.payload_off + 8 + offset)

abbrev pub get_data_pointer : Message → ℕ → ℕ
get_data_pointer m offset = m.payload_off + 8 + offset

-- The process id of the handle descriptor, which `pid` keeps the low half of; with the next word.
unfoldable pub parse_pid : Message → Outcome (ℕ × Message)
parse_pid m =
    if m.has_pid == 0
    then ok (3, m)
    else (do pid ← load 8 m.raw (3 * 4); ok (5, record m { pid = u32 pid }))

-- The handle descriptor, with the word behind the handles.
unfoldable pub parse_handles : ℕ → Message → Outcome (ℕ × Message)
unfolding parse_pid
parse_handles size m =
    if size >>> 31 == 1
    then (do
      hd ← word m 2
      (pos, m₁) ←
          parse_pid
            (record m { has_pid = hd % 2; copy_cnt = hd >>> 1 % 2 ^ 4; move_cnt = hd >>> 5 })
      ok (
        pos + m₁.copy_cnt + m₁.move_cnt,
        record m₁ { copy_off = pos * 4; move_off = (pos + m₁.copy_cnt) * 4 },
      ))
    else ok (2, m)

-- if (pos & 3) pos += 4 - (pos & 3).
abbrev pub align4 : ℕ → ℕ
align4 pos = if pos % 4 == 0 then pos else pos + (4 - pos % 4)

-- The domain header in front of the payload, with the word behind it.
unfoldable pub parse_domain : ℕ → Message → Outcome (ℕ × Message)
parse_domain pos m =
    if m.is_domainobj && m.type == 4
    then (do
      cmd ← word m pos
      handle ← word m (pos + 1)
      ok (pos + 4, record m { domain_cmd = cmd % 2 ^ 8; domain_handle = handle }))
    else ok (pos, m)

-- The counts of the two header words.
unfoldable pub with_header : ℕ → ℕ → Message → Message
with_header w₀ w₁ m = record m {
  type = w₀ % 2 ^ 16;
  x_cnt = w₀ >>> 16 % 2 ^ 4;
  a_cnt = w₀ >>> 20 % 2 ^ 4;
  b_cnt = w₀ >>> 24 % 2 ^ 4;
  w_cnt = w₁ % 2 ^ 10;
  has_c = if w₁ >>> 10 % 2 ^ 2 == 0 then 0 else 1;
}

unfoldable pub parse_message : Message → Outcome Message
parse_message m = do
  w₀ ← word m 0
  w₁ ← word m 1
  (pos, m₁) ← parse_handles w₁ (with_header w₀ w₁ m)
  let raw_pos = pos + m₁.x_cnt * 2 + m₁.a_cnt * 3 + m₁.b_cnt * 3
  (payload, m₂) ←
      parse_domain (align4 raw_pos) (record m₁ { desc_off = pos * 4; raw_off = raw_pos * 4 })
  let m₃ = record m₂ { payload_off = payload * 4 }
  cmd ← get_data 4 m₃ 0
  ok (record m₃ { cmd_id = cmd })

-- byte_swap32_str ("SFCO").
abbrev pub sfco : ℕ
sfco = 0x4f434653

-- The handle descriptor of a reply is there where it carries a handle outside a domain.
abbrev pub has_descriptor : Message → Bool
has_descriptor m = (not (m.move_cnt == 0) && not m.is_domainobj) || not (m.copy_cnt == 0)

gen_descriptor : Message → Outcome Message
gen_descriptor m =
    if not (m.move_cnt == 0) || not (m.copy_cnt == 0)
    then (do
      m₁ ← set_word 1 (if has_descriptor m then 2 ^ 31 else 0) m
      set_word 2
          (u32 (
            bit_or (u32 (m.copy_cnt <<< 1))
              (u32 ((if m.is_domainobj then 0 else m.move_cnt) <<< 5))))
          m₁)
    else ok m

-- The number of handles moved, in front of a domain's payload, and the word behind it.
gen_domain : ℕ → Message → Outcome (ℕ × Message)
gen_domain pos m =
    if m.is_domainobj then (do m' ← set_word pos m.move_cnt m; ok (pos + 4, m')) else ok (pos, m)

-- The conditional operator binds weaker than the sum in front of it, which is all its test.
abbrev pub data_words : ℕ → ℕ → ℕ
data_words realdata_off data_bytes =
    if realdata_off >>> 2 + data_bytes % 4 == 0 then data_bytes >>> 2 else data_bytes >>> 2 + 1

unfoldable pub gen_buf : ℕ → ℕ → ℕ → Message → Outcome Message
unfolding gen_descriptor gen_domain
gen_buf move_cnt copy_cnt data_bytes m = do
  m₁ ← set_word 0 0 (record m { move_cnt = move_cnt; copy_cnt = copy_cnt })
  m₂ ← gen_descriptor m₁
  let start = 2 + (if has_descriptor m₂ then 1 + move_cnt + copy_cnt else 0)
  (pos, m₃) ← gen_domain (align4 start) m₂
  let realdata_off = if m.is_domainobj then u32 (move_cnt <<< 2) else 0
  let words = data_words realdata_off data_bytes
  w₁ ← word m₃ 1
  m₄ ←
      set_word 1 (bit_or w₁ (u32 (4 + (if m.is_domainobj then 4 else 0) + 4 + words)))
        (record m₃ { realdata_off = realdata_off })
  set_word pos sfco (record m₄ { payload_off = pos * 4 })

unfoldable pub set_error_code : Message → Outcome Message
set_error_code m = set_word (m.payload_off >>> 2 + 2) m.error_code m

unfoldable pub set_move : ℕ → ℕ → Message → Outcome Message
set_move offset handler m =
    if m.is_domainobj
    then set_word (m.payload_off >>> 2 + 4 + offset) handler m
    else set_word (3 + m.copy_cnt + offset) handler m

unfoldable pub set_copy : ℕ → ℕ → Message → Outcome Message
set_copy offset handler m = set_word (3 + offset) handler m

unfoldable pub get_moved : Message → ℕ → Outcome ℕ
get_moved m off = load 4 m.raw (m.move_off + off * 4)

unfoldable pub get_copied : Message → ℕ → Outcome ℕ
get_copied m off = load 4 m.raw (m.copy_off + off * 4)
