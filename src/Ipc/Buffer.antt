-- ===== src/Ipc/Buffer.antt =====
-- include/Ipc.hpp: GetBuffer, which finds the address and the size of a buffer in one of the four kinds
-- of descriptor, and how the kernel's format packs them.
use nsemu.Common.{
  ℕ, ◌+◌, ◌*◌, ◌/◌, ◌%◌, ◌^◌, ◌≤◌, ◌<◌, ◌≡◌, refl, ap, ◌∙◌, true, u32, u64, leb, ◌==◌, ◌<<<◌, ◌>>>◌,
  if◌then◌else◌, bit_and, bit_or, Outcome, ok, ◌>>=◌, arith,
}
use nsemu.Common.Bits.{bit_or_parts, bit_or_comm, bit_and_field}
use nsemu.Common.Bytes.{read_le}
use nsemu.Ipc.{message_size, Message, load}

-- The cases 0 and 2 of the switch, at the descriptor's offset: size and address.
unfoldable pub mapped_buffer : ℕ → Message → Outcome (ℕ × ℕ)
mapped_buffer t m = do
  a ← load 4 m.raw t
  b ← load 4 m.raw (t + 4)
  c ← load 4 m.raw (t + 8)
  ok (
    bit_or b (u64 (bit_or (bit_and (c >>> 2 <<< 4) 0x70) (c >>> 28 % 2 ^ 4) <<< 32)),
    u32 (bit_or a ((c >>> 24 % 2 ^ 4) <<< 32)),
  )

-- Case 1.
unfoldable pub receive_list_buffer : ℕ → Message → Outcome (ℕ × ℕ)
receive_list_buffer t m = do
  a ← load 4 m.raw t
  b ← load 4 m.raw (t + 4)
  ok (bit_or a ((b % 2 ^ 16) <<< 32), b >>> 16)

-- Case 3.
unfoldable pub pointer_buffer : ℕ → Message → Outcome (ℕ × ℕ)
pointer_buffer t m = do
  a ← load 4 m.raw t
  b ← load 4 m.raw (t + 4)
  ok (bit_or b (u64 (bit_or (a >>> 12 % 2 ^ 4) (bit_and (a >>> 2) 0x70) <<< 32)), a >>> 16)

-- GetBuffer without the bit 0x20. A mismatch of the flags is only printed.
unfoldable pub get_descriptor : ℕ → ℕ → Message → Outcome (ℕ × ℕ)
unfolding mapped_buffer receive_list_buffer pointer_buffer
get_descriptor btype num m =
    if btype % 4 == 1
    then (if bit_and btype 0xc == 8
        then pointer_buffer (m.desc_off + num * 8) m
        else mapped_buffer (m.desc_off + m.x_cnt * 8 + num * 12) m)
    else (if bit_and btype 0xc == 8
        then receive_list_buffer (m.raw_off + m.w_cnt * 4) m
        else mapped_buffer (m.desc_off + m.x_cnt * 8 + m.a_cnt * 12 + num * 12) m)

-- GetBuffer: the address with the size. With the bit 0x20 the second kind of descriptor is taken
-- where the first is empty.
unfoldable pub get_buffer : ℕ → ℕ → Message → Outcome (ℕ × ℕ)
unfolding get_descriptor
get_buffer btype num m = if bit_and btype 0x20 == 0 then get_descriptor btype num m else (do
  (buf, size) ← get_descriptor (bit_or (bit_and btype 0xffff_ffdf) 4) num m
  if size == 0 then get_descriptor (bit_or (bit_and btype 0xffff_ffdf) 8) num m else ok (buf, size))

-- The four kinds of descriptor.
pub data Kind : Type 0 where
  pointer send receive receive_list : Kind

-- Where the descriptor `num` of a kind stands; there is one receive list.
abbrev pub position : Kind → ℕ → Message → ℕ
position pointer num m = m.desc_off + num * 8
position send num m = m.desc_off + m.x_cnt * 8 + num * 12
position receive num m = m.desc_off + m.x_cnt * 8 + m.a_cnt * 12 + num * 12
position receive_list num m = m.raw_off + m.w_cnt * 4

-- The type that GetBuffer is asked for, to get a buffer of the kind.
abbrev pub type_of : Kind → ℕ
type_of pointer = 0x19
type_of send = 0x5
type_of receive = 0x6
type_of receive_list = 0x1a

-- The words of a descriptor for a buffer at `addr` of `size` bytes: the low 32 bits of the address are
-- a word of their own, and the rest is packed with the size. `k` stands for the bits of other use.
abbrev PacksMapped : ℕ → ℕ → ℕ → (ℕ → ℕ) → ℕ → Type 0
PacksMapped addr size k raw t =
    (k < 2 ^ 2)
    × (size < 2 ^ 32)
    × (addr < 2 ^ 39)
    × (t + 12 ≤ message_size)
    × (read_le 4 raw t ≡ size)
    × (read_le 4 raw (t + 4) ≡ addr % 2 ^ 32)
    × (read_le 4 raw (t + 8) ≡ k + addr / 2 ^ 36 * 2 ^ 2 + addr / 2 ^ 32 % 2 ^ 4 * 2 ^ 28)

abbrev pub Packs : Kind → ℕ → ℕ → ℕ → (ℕ → ℕ) → ℕ → Type 0
Packs pointer addr size k raw t =
    (k < 2 ^ 6)
    × (size < 2 ^ 16)
    × (addr < 2 ^ 39)
    × (t + 8 ≤ message_size)
    × (read_le 4 raw t ≡ k + addr / 2 ^ 36 * 2 ^ 6 + addr / 2 ^ 32 % 2 ^ 4 * 2 ^ 12 + size * 2 ^ 16)
    × (read_le 4 raw (t + 4) ≡ addr % 2 ^ 32)
Packs send addr size k raw t = PacksMapped addr size k raw t
Packs receive addr size k raw t = PacksMapped addr size k raw t
Packs receive_list addr size k raw t =
    (size < 2 ^ 16)
    × (addr < 2 ^ 48)
    × (t + 8 ≤ message_size)
    × (read_le 4 raw t ≡ addr % 2 ^ 32)
    × (read_le 4 raw (t + 4) ≡ addr / 2 ^ 32 + size * 2 ^ 16)

-- Seven bits in two places, and the word below them.
joined :
    (up low b addr : ℕ)
    → addr < 2 ^ 39
    → low ≡ addr / 2 ^ 32 % 2 ^ 4
    → up / 2 ^ 4 % 2 ^ 3 ≡ addr / 2 ^ 36
    → b ≡ addr % 2 ^ 32
    → bit_or b (u64 (bit_or (bit_and up 0x70) low <<< 32)) ≡ addr
joined up low b addr h e f g =
    let seven : bit_or (bit_and up 0x70) low ≡ addr / 2 ^ 32 =
      bit_or_comm (bit_and up 0x70) low
      ∙ ap (λ (t : ℕ). bit_or low t) (bit_and_field 4 3 up)
      ∙ bit_or_parts 4 (up / 2 ^ 4 % 2 ^ 3) low (omega arith)
      ∙ omega arith in
    let cut : u64 (bit_or (bit_and up 0x70) low <<< 32) ≡ addr / 2 ^ 32 * 2 ^ 32 =
      ap (λ (t : ℕ). u64 (t <<< 32)) seven ∙ omega arith in
    ap (λ (t : ℕ). bit_or b t) cut ∙ bit_or_parts 32 (addr / 2 ^ 32) b (omega arith) ∙ omega arith

low_word : (a k : ℕ) → a < 2 ^ 32 → u32 (bit_or a (k <<< 32)) ≡ a
low_word a k h = omega (arith, bit_or_parts 32 k a h)

mapped_buffer_lem :
    (addr size k t : ℕ) (m : Message)
    → PacksMapped addr size k m.raw t
    → mapped_buffer t m ≡ ok (addr, size)
unfolding mapped_buffer load
mapped_buffer_lem addr size k t m (k_lt, size_lt, addr_lt, fits, w₀, w₁, w₂) =
    let room₀ : leb (t + 4) message_size ≡ true = ground arith in
    let room₁ : leb (t + 4 + 4) message_size ≡ true = ground arith in
    let room₂ : leb (t + 8 + 4) message_size ≡ true = ground arith in
    let c = k + addr / 2 ^ 36 * 2 ^ 2 + addr / 2 ^ 32 % 2 ^ 4 * 2 ^ 28 in
    rw
      (
        room₀,
        room₁,
        room₂,
        w₀,
        w₁,
        w₂,
        joined (c >>> 2 <<< 4) (c >>> 28 % 2 ^ 4) (addr % 2 ^ 32) addr addr_lt (omega arith)
            (omega arith) refl,
        low_word size (c >>> 24 % 2 ^ 4) size_lt,
      )
      refl

pointer_buffer_lem :
    (addr size k t : ℕ) (m : Message)
    → Packs pointer addr size k m.raw t
    → pointer_buffer t m ≡ ok (addr, size)
unfolding pointer_buffer load
pointer_buffer_lem addr size k t m (k_lt, size_lt, addr_lt, fits, w₀, w₁) =
    let room₀ : leb (t + 4) message_size ≡ true = ground arith in
    let room₁ : leb (t + 4 + 4) message_size ≡ true = ground arith in
    let a = k + addr / 2 ^ 36 * 2 ^ 6 + addr / 2 ^ 32 % 2 ^ 4 * 2 ^ 12 + size * 2 ^ 16 in
    let top : a >>> 16 ≡ size = omega arith in
    rw
      (
        room₀,
        room₁,
        w₀,
        w₁,
        bit_or_comm (a >>> 12 % 2 ^ 4) (bit_and (a >>> 2) 0x70),
        joined (a >>> 2) (a >>> 12 % 2 ^ 4) (addr % 2 ^ 32) addr addr_lt (omega arith) (omega arith)
            refl,
        top,
      )
      refl

receive_list_buffer_lem :
    (addr size k t : ℕ) (m : Message)
    → Packs receive_list addr size k m.raw t
    → receive_list_buffer t m ≡ ok (addr, size)
unfolding receive_list_buffer load
receive_list_buffer_lem addr size k t m (size_lt, addr_lt, fits, w₀, w₁) =
    let room₀ : leb (t + 4) message_size ≡ true = ground arith in
    let room₁ : leb (t + 4 + 4) message_size ≡ true = ground arith in
    let b = addr / 2 ^ 32 + size * 2 ^ 16 in
    let low : b % 2 ^ 16 ≡ addr / 2 ^ 32 = omega arith in
    let whole : bit_or (addr % 2 ^ 32) ((addr / 2 ^ 32) <<< 32) ≡ addr =
      bit_or_parts 32 (addr / 2 ^ 32) (addr % 2 ^ 32) (omega arith) ∙ omega arith in
    let top : b >>> 16 ≡ size = omega arith in rw (room₀, room₁, w₀, w₁, low, whole, top) refl

-- GetBuffer returns the address and the size that a descriptor of any of the four kinds packs, if it
-- lies in the message and is asked for by its own type.
pub get_buffer-Packs :
    (kind : Kind) (addr size k num : ℕ) (m : Message)
    → Packs kind addr size k m.raw (position kind num m)
    → get_buffer (type_of kind) num m ≡ ok (addr, size)
unfolding get_buffer
get_buffer-Packs pointer addr size k num m h =
    pointer_buffer_lem addr size k (position pointer num m) m h
get_buffer-Packs send addr size k num m h = mapped_buffer_lem addr size k (position send num m) m h
get_buffer-Packs receive addr size k num m h =
    mapped_buffer_lem addr size k (position receive num m) m h
get_buffer-Packs receive_list addr size k num m h =
    receive_list_buffer_lem addr size k (position receive_list num m) m h

-- Asked for a send buffer or a pointer (0x21), GetBuffer takes the send descriptor unless it is empty.
pub get_buffer-choice :
    (a b s t k l num : ℕ) (m : Message)
    → Packs send a s k m.raw (position send num m)
    → Packs pointer b t l m.raw (position pointer num m)
    → get_buffer 0x21 num m ≡ (if s == 0 then ok (b, t) else ok (a, s))
unfolding get_buffer
get_buffer-choice a b s t k l num m h g =
    rw
      (
        mapped_buffer_lem a s k (position send num m) m h,
        pointer_buffer_lem b t l (position pointer num m) m g,
      )
      refl
