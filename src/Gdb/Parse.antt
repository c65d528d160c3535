-- ===== src/Gdb/Parse.antt =====
-- GdbStub.cpp: the calls of strtol and strtoul (base 16) and of strncmp on the command line. A line
-- is the command buffer and an index into it; the buffer is `cmd_size` bytes long.
pub mod Rounds
use nsemu.Common.{
  ℕ, zero, suc, ◌+◌, ◌-◌, ◌*◌, ◌^◌, Bool, true, ◌&&◌, ◌||◌, List, [], ◌∷◌, u64, leb, ◌==◌,
  if◌then◌else◌,
}
use nsemu.Gdb.Hex.{is_xdigit, from_hex}

abbrev pub cmd_size : ℕ
cmd_size = 4096

abbrev is_space : ℕ → Bool
is_space c = c == 32 || (leb 9 c && leb c 13)

unfoldable pub skip_space : ℕ → (ℕ → ℕ) → ℕ → ℕ
skip_space zero s i = i
skip_space (suc n) s i = let rest = skip_space n s (i + 1) in if is_space (s i) then rest else i

-- "0x" counts as a prefix only before a digit.
skip_prefix : (ℕ → ℕ) → ℕ → ℕ
skip_prefix s i =
    if s i == b'0' && ((s (i + 1) == b'x' || s (i + 1) == b'X') && is_xdigit (s (i + 2)))
    then i + 2
    else i

-- The value of the digits from `i` on, and the index behind them.
unfoldable pub scan_digits : ℕ → (ℕ → ℕ) → ℕ → ℕ → ℕ × ℕ
scan_digits zero s i value = (value, i)
scan_digits (suc n) s i value =
    let rest = scan_digits n s (i + 1) (value * 16 + from_hex (s i)) in
    if is_xdigit (s i) then rest else (value, i)

abbrev clamp : ℕ → ℕ → ℕ
clamp top v = if leb v top then v else top

-- A number with an optional sign; where there is no digit the index stays. The result is a 64-bit
-- word: `top` is the largest value, `low` the largest magnitude of a negative one.
parse : ℕ → ℕ → (ℕ → ℕ) → ℕ → ℕ × ℕ
unfolding skip_space skip_prefix scan_digits
parse top low s i =
    let j = skip_space cmd_size s i in
    let k = if s j == b'-' || s j == b'+' then j + 1 else j in
    let first = skip_prefix s k in
    let (value, end) = scan_digits cmd_size s first 0 in
    if end == first
    then (0, i)
    else (if s j == b'-' then u64 (2 ^ 64 - clamp low value) else clamp top value, end)

unfoldable pub strtol : (ℕ → ℕ) → ℕ → ℕ × ℕ
unfolding parse
strtol s i = parse (2 ^ 63 - 1) (2 ^ 63) s i

-- strtoul negates what it read modulo 2 ^ 64.
unfoldable pub strtoul : (ℕ → ℕ) → ℕ → ℕ × ℕ
unfolding parse
strtoul s i = parse (2 ^ 64 - 1) (2 ^ 64 - 1) s i

-- if (*p == ',') p++.
abbrev pub skip_comma : (ℕ → ℕ) → ℕ → ℕ
skip_comma s i = if s i == b',' then i + 1 else i

-- strncmp (p, query, strlen (query)) == 0.
unfoldable pub starts_at : (ℕ → ℕ) → ℕ → List ℕ → Bool
starts_at s i [] = true
starts_at s i (c ∷ cs) = s i == c && starts_at s (i + 1) cs
