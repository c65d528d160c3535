-- ===== src/Gdb/Hex.antt =====
-- GdbStub.cpp: hexadecimal digits.
use nsemu.Common.{
  ℕ, zero, suc, ◌+◌, ◌-◌, ◌/◌, ◌%◌, ◌<◌, ◌≡◌, Bool, ◌&&◌, ◌||◌, true, List, [], ◌∷◌, ltb, leb,
  if◌then◌else◌, arith,
}

unfoldable pub is_xdigit : ℕ → Bool
is_xdigit ch =
    (leb b'a' ch && leb ch b'f') || (leb b'A' ch && leb ch b'F') || (leb b'0' ch && leb ch b'9')

unfoldable pub from_hex : ℕ → ℕ
from_hex v =
    if leb b'0' v && leb v b'9'
    then v - b'0'
    else if leb b'A' v && leb v b'F'
    then v - b'A' + 10
    else if leb b'a' v && leb v b'f'
    then v - b'a' + 10
    else 0

unfoldable pub to_hex : ℕ → ℕ
to_hex v = if ltb v 10 then v + b'0' else v - 10 + b'a'

-- The text that MemToHex writes before its NUL.
unfoldable pub mem_to_hex : List ℕ → List ℕ
mem_to_hex [] = []
mem_to_hex (c ∷ cs) = to_hex (c / 16) ∷ to_hex (c % 16) ∷ mem_to_hex cs

-- The digits of `%lx`: those of v, then `out`; sixteen rounds serve for 64 bits.
hex_digits : ℕ → ℕ → List ℕ → List ℕ
hex_digits zero v out = out
hex_digits (suc n) v out =
    let rest = hex_digits n (v / 16) (to_hex (v % 16) ∷ out) in
    if ltb v 16 then to_hex v ∷ out else rest

unfoldable pub print_lx : ℕ → List ℕ
unfolding hex_digits to_hex
print_lx v = hex_digits 16 v []

-- A digit that to_hex writes is one that the stub accepts, and stands for its value.
pub from_hex-to_hex : (v : ℕ) → v < 16 → from_hex (to_hex v) ≡ v
unfolding from_hex to_hex
from_hex-to_hex v h = ground arith

pub is_xdigit-to_hex : (v : ℕ) → v < 16 → is_xdigit (to_hex v) ≡ true
unfolding is_xdigit to_hex
is_xdigit-to_hex v h = ground arith
