-- ===== src/Ipc/Words.antt =====
-- Ipc.cpp: the words of a message as GenBuf writes them in front of the payload.
use nsemu.Common.{
  ℕ, ◌+◌, ◌*◌, ◌%◌, ◌^◌, ◌<◌, ◌≡◌, refl, ap, ◌∙◌, inl, inr, ◌==◌, if◌then◌else◌, bit_or, Bool-cases,
  arith,
}
use nsemu.Common.Bits.{bit_or_fields}
use nsemu.Common.Bytes.{
  read_le, write_le, read_le-write_le, read_le-write_le_apart, AreBytes, write_le-AreBytes,
}

-- A word after a word has been written.
pub word_set :
    (raw : ℕ → ℕ) (i j v : ℕ)
    → read_le 4 (write_le 4 raw (i * 4) v) (j * 4)
      ≡ (if j == i then v % 2 ^ 32 else read_le 4 raw (j * 4))
word_set raw i j v = elim (Bool-cases (j == i)) [
  | inl e ↦
      let same : j ≡ i = ground arith in
      rw e (
        ap (λ (t : ℕ). read_le 4 (write_le 4 raw (i * 4) v) (t * 4)) same
        ∙ read_le-write_le 4 raw (i * 4) v)
  | inr e ↦ rw e (read_le-write_le_apart 4 4 raw (j * 4) (i * 4) v (ground arith))
]

-- The three words that GenBuf writes first, where there are handles.
unfoldable pub three_words : ℕ → ℕ → ℕ → ℕ
three_words hd n =
    let raw₂ = write_le 4 (write_le 4 (write_le 4 (λ i. 0) 0 0) 4 (2 ^ 31)) 8 hd in
    write_le 4 raw₂ 4 (bit_or (read_le 4 raw₂ 4) n)

pub three_words_lem :
    (hd n : ℕ)
    → n < 2 ^ 31
    → hd < 2 ^ 32
    → (read_le 4 (three_words hd n) 0 ≡ 0)
      × (read_le 4 (three_words hd n) 4 ≡ n + 2 ^ 31)
      × (read_le 4 (three_words hd n) 8 ≡ hd)
unfolding three_words
three_words_lem hd n h g =
    let raw₀ = write_le 4 (λ i. 0) (0 * 4) 0 in
    let raw₁ = write_le 4 raw₀ (1 * 4) (2 ^ 31) in
    let raw₂ = write_le 4 raw₁ (2 * 4) hd in
    let v = bit_or (read_le 4 raw₂ 4) n in
    let one : read_le 4 raw₂ 4 ≡ 2 ^ 31 = word_set raw₁ 2 1 hd ∙ word_set raw₀ 1 1 (2 ^ 31) in
    (
      word_set raw₂ 1 0 v
          ∙ word_set raw₁ 2 0 hd
          ∙ word_set raw₀ 1 0 (2 ^ 31)
          ∙ word_set (λ i. 0) 0 0 0,
      word_set raw₂ 1 1 v
          ∙ ap (λ (t : ℕ). bit_or t n % 2 ^ 32) one
          ∙ ap (λ (t : ℕ). t % 2 ^ 32) (bit_or_fields 31 1 n h)
          ∙ omega arith,
      word_set raw₂ 1 2 v ∙ word_set raw₁ 2 2 hd ∙ omega arith,
    )

pub three_words-AreBytes : (hd n : ℕ) → AreBytes (three_words hd n)
unfolding three_words
three_words-AreBytes hd n =
    let raw₀ = write_le 4 (λ i. 0) 0 0 in
    let raw₁ = write_le 4 raw₀ 4 (2 ^ 31) in
    let raw₂ = write_le 4 raw₁ 8 hd in
    write_le-AreBytes 4 raw₂ 4 (bit_or (read_le 4 raw₂ 4) n) (
      write_le-AreBytes 4 raw₁ 8 hd
        (write_le-AreBytes 4 raw₀ 4 (2 ^ 31) (write_le-AreBytes 4 (λ i. 0) 0 0 (λ i. omega arith))))

-- The same where there are none.
unfoldable pub two_words : ℕ → ℕ → ℕ
two_words n = let raw₀ = write_le 4 (λ i. 0) 0 0 in write_le 4 raw₀ 4 (bit_or (read_le 4 raw₀ 4) n)

pub two_words-AreBytes : (n : ℕ) → AreBytes (two_words n)
unfolding two_words
two_words-AreBytes n =
    let raw₀ = write_le 4 (λ i. 0) 0 0 in
    write_le-AreBytes 4 raw₀ 4 (bit_or (read_le 4 raw₀ 4) n)
      (write_le-AreBytes 4 (λ i. 0) 0 0 (λ i. omega arith))

zero_word : read_le 4 (λ i. 0) 4 ≡ 0
unfolding read_le
zero_word = refl

pub two_words_lem :
    (n : ℕ) → n < 2 ^ 31 → (read_le 4 (two_words n) 0 ≡ 0) × (read_le 4 (two_words n) 4 ≡ n)
unfolding two_words
two_words_lem n h =
    let raw₀ = write_le 4 (λ i. 0) (0 * 4) 0 in
    let v = bit_or (read_le 4 raw₀ 4) n in
    let one : read_le 4 raw₀ 4 ≡ 0 = word_set (λ i. 0) 0 1 0 ∙ zero_word in
    (
      word_set raw₀ 1 0 v ∙ word_set (λ i. 0) 0 0 0,
      word_set raw₀ 1 1 v
          ∙ ap (λ (t : ℕ). bit_or t n % 2 ^ 32) one
          ∙ ap (λ (t : ℕ). t % 2 ^ 32) (bit_or_fields 31 0 n h)
          ∙ omega arith,
    )
