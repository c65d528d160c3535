-- ===== src/Gdb/Parse/Rounds.antt =====
-- GdbStub.cpp: the scans of the command line end at its NUL, within the rounds that they are given.
use nsemu.Common.{ℕ, zero, suc, ◌+◌, ◌*◌, ◌≤◌, ◌≡◌, refl, sym, ap, ◌∙◌, false, arith}
use nsemu.Gdb.Hex.{is_xdigit, from_hex}
use nsemu.Gdb.Parse.{cmd_size, skip_space, scan_digits}

nul_is_no_digit : is_xdigit 0 ≡ false
unfolding is_xdigit
nul_is_no_digit = refl

scan_digits-at_end :
    (n : ℕ) (s : ℕ → ℕ) (i value : ℕ) → s i ≡ 0 → scan_digits n s i value ≡ (value, i)
unfolding scan_digits
scan_digits-at_end zero s i value h = refl
scan_digits-at_end (suc n) s i value h = rw (h, nul_is_no_digit) refl

scan_digits-more :
    (left n k : ℕ) (s : ℕ → ℕ) (i value : ℕ)
    → s (i + left) ≡ 0
    → left ≤ n
    → left ≤ k
    → scan_digits n s i value ≡ scan_digits k s i value
unfolding scan_digits
scan_digits-more zero n k s i value h p q =
    let here : s i ≡ 0 = ap s (let e : i ≡ i + 0 = omega arith in e) ∙ h in
    scan_digits-at_end n s i value here ∙ sym (scan_digits-at_end k s i value here)
scan_digits-more (suc left) zero k s i value h p q = absurd (omega arith)
scan_digits-more (suc left) (suc n) zero s i value h p q = absurd (omega arith)
scan_digits-more (suc left) (suc n) (suc k) s i value h p q =
    let there : s (i + 1 + left) ≡ 0 =
      ap s (let e : i + 1 + left ≡ i + suc left = omega arith in e) ∙ h in
    rw
      (scan_digits-more left n k s (i + 1) (value * 16 + from_hex (s i)) there (omega arith)
        (omega arith))
      refl

skip_space-at_end : (n : ℕ) (s : ℕ → ℕ) (i : ℕ) → s i ≡ 0 → skip_space n s i ≡ i
unfolding skip_space
skip_space-at_end zero s i h = refl
skip_space-at_end (suc n) s i h = rw h refl

skip_space-more :
    (left n k : ℕ) (s : ℕ → ℕ) (i : ℕ)
    → s (i + left) ≡ 0
    → left ≤ n
    → left ≤ k
    → skip_space n s i ≡ skip_space k s i
unfolding skip_space
skip_space-more zero n k s i h p q =
    let here : s i ≡ 0 = ap s (let e : i ≡ i + 0 = omega arith in e) ∙ h in
    skip_space-at_end n s i here ∙ sym (skip_space-at_end k s i here)
skip_space-more (suc left) zero k s i h p q = absurd (omega arith)
skip_space-more (suc left) (suc n) zero s i h p q = absurd (omega arith)
skip_space-more (suc left) (suc n) (suc k) s i h p q =
    let there : s (i + 1 + left) ≡ 0 =
      ap s (let e : i + 1 + left ≡ i + suc left = omega arith in e) ∙ h in
    rw (skip_space-more left n k s (i + 1) there (omega arith) (omega arith)) refl

-- On a line whose NUL lies in the buffer, at most as many bytes on as the buffer is long, the scans
-- of strtol over blanks and digits have ended within `cmd_size` rounds: more rounds change nothing.
pub scans-rounds :
    (left k : ℕ) (s : ℕ → ℕ) (i value : ℕ)
    → s (i + left) ≡ 0
    → left ≤ cmd_size
    → cmd_size ≤ k
    → (skip_space k s i ≡ skip_space cmd_size s i)
      × (scan_digits k s i value ≡ scan_digits cmd_size s i value)
scans-rounds left k s i value h p q = (
  skip_space-more left k cmd_size s i h (omega arith) p,
  scan_digits-more left k cmd_size s i value h (omega arith) p,
)
