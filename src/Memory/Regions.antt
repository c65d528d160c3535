-- ===== src/Memory/Regions.antt =====
-- Memory.cpp: GetRegions, which lists the guest address space as free and mapped ranges.
use nsemu.Common.{
  ℕ, ◌+◌, ◌^◌, ◌≤◌, ◌<◌, ◌≡◌, refl, ap, ◌∙◌, ◌⊎◌, inl, inr, Bool, false, ◌&&◌, ◌||◌, Option, some,
  none, List, [], ◌∷◌, u64, ltb, leb, ◌==◌, Bool-cases, if◌then◌else◌, arith,
}
use native.Mathlib.Decide.{dec_lt}
use nsemu.Machine.{RamBlock, Memory}
use nsemu.Memory.{holds}

-- The third component of an entry: -1 or 0 in the source.
pub data Use : Type 0 where
  free mapped : Use

abbrev pub u64_max : ℕ
u64_max = 0xffff_ffff_ffff_ffff

-- The first loop: a begin and an inclusive end for each region.
unfoldable pub spans : List RamBlock → List (ℕ × ℕ)
spans [] = []
spans (r ∷ rs) = (r.addr, u64 (r.addr + r.length)) ∷ spans rs

-- temp.sort: std::list's stable sort by the begin, as insertion.
insert_span : ℕ → ℕ → List (ℕ × ℕ) → List (ℕ × ℕ)
insert_span b e [] = (b, e) ∷ []
insert_span b e ((c, d) ∷ ts) =
    let rest = insert_span b e ts in if ltb c b then (c, d) ∷ rest else (b, e) ∷ (c, d) ∷ ts

unfoldable pub sort_spans : List (ℕ × ℕ) → List (ℕ × ℕ)
unfolding insert_span
sort_spans [] = []
sort_spans ((b, e) ∷ ts) = insert_span b e (sort_spans ts)

-- The second loop, from the address after the last mapped range.
unfoldable pub fill : ℕ → List (ℕ × ℕ) → List (ℕ × ℕ × Use)
fill last [] = if last == u64_max then [] else (last, u64_max, free) ∷ []
fill last ((b, e) ∷ ts) =
    let rest = (b, e, mapped) ∷ fill (u64 (e + 1)) ts in
    if last == b then rest else (last, u64 (b + u64_max), free) ∷ rest

unfoldable pub get_regions : Memory → List (ℕ × ℕ × Use)
unfolding spans sort_spans fill
get_regions m = fill 0 (sort_spans (spans m.regions))

-- The ranges follow one another without a gap from `x` to the end of the address space.
abbrev pub Tiles : ℕ → List (ℕ × ℕ × Use) → Type 0
Tiles x [] = x ≡ 2 ^ 64
Tiles x ((b, e, use') ∷ ts) = (b ≡ x) × (b ≤ e) × Tiles (e + 1) ts

-- The range that QueryMemory picks for an address: the first that contains it.
abbrev pub range_of : List (ℕ × ℕ × Use) → ℕ → Option (ℕ × ℕ × Use)
range_of [] a = none
range_of ((b, e, u) ∷ ts) a = if leb b a && leb a e then some (b, e, u) else range_of ts a

abbrev pub any_holds : List RamBlock → ℕ → Bool
any_holds [] a = false
any_holds (r ∷ rs) a = holds r a || any_holds rs a

-- Two regions share no address, their inclusive ends counted.
abbrev pub Apart : RamBlock → RamBlock → Type 0
Apart r s = (r.addr + r.length < s.addr) ⊎ (s.addr + s.length < r.addr)

abbrev pub ApartAll : RamBlock → List RamBlock → Type 0
ApartAll r [] = Unit {0}
ApartAll r (s ∷ rs) = Apart r s × ApartAll r rs

-- The regions are apart from one another and end two bytes or more below the top.
abbrev pub AreApart : List RamBlock → Type 0
AreApart [] = Unit {0}
AreApart (r ∷ rs) = (r.addr + r.length + 2 < 2 ^ 64) × ApartAll r rs × AreApart rs

-- Sorted spans, each above `lo` and above the one before.
abbrev Chain : ℕ → List (ℕ × ℕ) → Type 0
Chain lo [] = Unit {0}
Chain lo ((b, e) ∷ ts) = (lo ≤ b) × (b ≤ e) × (e + 2 < 2 ^ 64) × Chain (e + 1) ts

abbrev Clear : ℕ → ℕ → List (ℕ × ℕ) → Type 0
Clear b e [] = Unit {0}
Clear b e ((c, d) ∷ ts) = ((e < c) ⊎ (d < b)) × Clear b e ts

Chain-insert_span :
    (b e lo : ℕ) (ts : List (ℕ × ℕ))
    → lo ≤ b
    → b ≤ e
    → e + 2 < 2 ^ 64
    → Clear b e ts
    → Chain lo ts
    → Chain lo (insert_span b e ts)
unfolding insert_span
Chain-insert_span b e lo [] p q r c h = (p, q, r, tt)
Chain-insert_span b e lo ((c, d) ∷ ts) p q r (apart, clear) (h₀, h₁, h₂, rest) =
    elim (Bool-cases (ltb c b)) [
      | inl lt ↦ rw lt (h₀, h₁, h₂, Chain-insert_span b e (d + 1) ts (ground arith) q r clear rest)
      | inr ge ↦ rw ge (p, q, r, (ground arith, h₁, h₂, rest))
    ]

Clear-insert_span :
    (b e c d : ℕ) (ts : List (ℕ × ℕ))
    → (e < c) ⊎ (d < b)
    → Clear b e ts
    → Clear b e (insert_span c d ts)
unfolding insert_span
Clear-insert_span b e c d [] h clear = (h, tt)
Clear-insert_span b e c d ((c', d') ∷ ts) h (h', clear) = elim (Bool-cases (ltb c' c)) [
  | inl lt ↦ rw lt (h', Clear-insert_span b e c d ts h clear)
  | inr ge ↦ rw ge (h, (h', clear))
]

Clear-sort :
    (r : RamBlock) (rs : List RamBlock)
    → r.addr + r.length + 2 < 2 ^ 64
    → ApartAll r rs
    → AreApart rs
    → Clear r.addr (r.addr + r.length) (sort_spans (spans rs))
unfolding sort_spans spans
Clear-sort r [] fits apart all = tt
Clear-sort r (s ∷ rs) fits (h, apart) (g, gs, all) =
    Clear-insert_span r.addr (r.addr + r.length) s.addr (u64 (s.addr + s.length))
      (sort_spans (spans rs)) (ground arith) (Clear-sort r rs fits apart all)

Chain-sort : (rs : List RamBlock) → AreApart rs → Chain 0 (sort_spans (spans rs))
unfolding sort_spans spans
Chain-sort [] h = tt
Chain-sort (r ∷ rs) (fits, apart, all) = rw (no_wrap r fits) (
    Chain-insert_span r.addr (r.addr + r.length) 0 (sort_spans (spans rs)) (omega arith)
      (omega arith) (omega arith) (Clear-sort r rs fits apart all) (Chain-sort rs all))
  where
    no_wrap :
        (s : RamBlock)
        → s.addr + s.length + 2 < 2 ^ 64
        → u64 (s.addr + s.length) ≡ s.addr + s.length
    no_wrap s h = omega arith

Tiles-fill : (lo : ℕ) (ts : List (ℕ × ℕ)) → lo + 1 < 2 ^ 64 → Chain lo ts → Tiles lo (fill lo ts)
unfolding fill
Tiles-fill lo [] p h = ground arith
Tiles-fill lo ((b, e) ∷ ts) p (h₀, h₁, h₂, rest) =
    ground (arith, Tiles-fill (e + 1) ts (omega arith) rest)

-- For regions that share no address and stay clear of the very top, the ranges of GetRegions follow
-- one another from address 0 to the last of the address space, with no gap and no overlap.
pub get_regions-Tiles : (m : Memory) → AreApart m.regions → Tiles 0 (get_regions m)
unfolding get_regions
get_regions-Tiles m h =
    Tiles-fill 0 (sort_spans (spans m.regions)) (omega arith) (Chain-sort m.regions h)

abbrev any_span : List (ℕ × ℕ) → ℕ → Bool
any_span [] a = false
any_span ((b, e) ∷ ts) a = (leb b a && leb a e) || any_span ts a

any_span-insert_span :
    (b e a : ℕ) (ts : List (ℕ × ℕ))
    → any_span (insert_span b e ts) a ≡ ((leb b a && leb a e) || any_span ts a)
unfolding insert_span
any_span-insert_span b e a [] = refl
any_span-insert_span b e a ((c, d) ∷ ts) = ground (arith, any_span-insert_span b e a ts)

any_span-sort : (rs : List RamBlock) (a : ℕ) → any_span (sort_spans (spans rs)) a ≡ any_holds rs a
unfolding sort_spans spans
any_span-sort [] a = refl
any_span-sort (r ∷ rs) a =
    any_span-insert_span r.addr (u64 (r.addr + r.length)) a (sort_spans (spans rs))
    ∙ ap (λ t. (leb r.addr a && leb a (u64 (r.addr + r.length))) || t) (any_span-sort rs a)

any_span-below : (lo a : ℕ) (ts : List (ℕ × ℕ)) → Chain lo ts → a < lo → any_span ts a ≡ false
any_span-below lo a [] h p = refl
any_span-below lo a ((b, e) ∷ ts) (h₀, h₁, h₂, rest) p =
    ground (arith, any_span-below (e + 1) a ts rest (omega arith))

range_of-fill :
    (lo a : ℕ) (ts : List (ℕ × ℕ))
    → lo + 1 < 2 ^ 64
    → Chain lo ts
    → lo ≤ a
    → a < 2 ^ 64
    → (b : ℕ) × (e : ℕ) × (range_of (fill lo ts) a
        ≡ some (b, e, if any_span ts a then mapped else free))
unfolding fill
range_of-fill lo a [] p h q r = (lo, u64_max, ground arith)
range_of-fill lo a ((b, e) ∷ ts) p (h₀, h₁, h₂, rest) q r = elim (dec_lt a b) [
  | yes below ↦
      (lo, u64 (b + u64_max), ground (arith, any_span-below (e + 1) a ts rest (omega arith)))
  | no above ↦ elim (dec_lt e a) [
    | yes past ↦
        let (c, d, found) = range_of-fill (e + 1) a ts (omega arith) rest (omega arith) r in
        (c, d, ground arith)
    | no inside ↦ (b, e, ground arith)
  ]
]

-- For such regions every address of the space lies in a range of GetRegions, and the first range
-- that contains it, which QueryMemory takes, is marked as mapped exactly when a region holds it.
pub get_regions-range_of :
    (m : Memory) (a : ℕ)
    → AreApart m.regions
    → a < 2 ^ 64
    → (b : ℕ) × (e : ℕ) × (range_of (get_regions m) a
        ≡ some (b, e, if any_holds m.regions a then mapped else free))
unfolding get_regions
get_regions-range_of m a h p = rw (← any_span-sort m.regions a) (
    range_of-fill 0 a (sort_spans (spans m.regions)) (omega arith) (Chain-sort m.regions h)
      (omega arith) p)
