-- ===== src/Memory/Host.antt =====
-- Memory.cpp: what an assignment through the pointer of GetRawPtr does to later loads through the
-- same pointer, and that it moves no pointer. The bytes behind a pointer are a file, indexed from
-- the pointer on.
use nsemu.Common.{
  ℕ, zero, suc, ◌+◌, ◌<◌, ◌≡◌, refl, inl, inr, some, List, [], ◌∷◌, ok, ◌==◌, Option-cases,
  if◌then◌else◌, arith,
}
use nsemu.Common.Lists.{get_elem?, set, update}
use nsemu.Machine.{RamBlock, Memory}
use nsemu.Memory.{
  HostPtr, in_ram, in_block, find_ram_block, ptr_of_found, get_raw_ptr, load_host, store_host,
}

get_elem?-set_self {ℓ} :
    {A : Type ℓ} (xs : List A) (i : ℕ) {a : A} (v : A)
    → get_elem? xs i ≡ some a
    → get_elem? (set xs i v) i ≡ some v
get_elem?-set_self [] i v h = cc
get_elem?-set_self (x ∷ xs) zero v h = refl
get_elem?-set_self (x ∷ xs) (suc i) v h = get_elem?-set_self xs i v h

-- The search sees only where the blocks lie.
find-set :
    (i₀ i : ℕ) (rs : List RamBlock) (r r' : RamBlock) (gpa : ℕ)
    → get_elem? rs i ≡ some r
    → r'.addr ≡ r.addr
    → r'.length ≡ r.length
    → ptr_of_found (find_ram_block i₀ (set rs i r') gpa) gpa
      ≡ ptr_of_found (find_ram_block i₀ rs gpa) gpa
unfolding find_ram_block ptr_of_found
find-set i₀ i [] r r' gpa h ha hl = refl
find-set i₀ zero (x ∷ rs) r r' gpa h ha hl = ground arith
find-set i₀ (suc i) (x ∷ rs) r r' gpa h ha hl =
    ground (arith, find-set (i₀ + 1) i rs r r' gpa h ha hl)

-- One byte is stored: the outcome, what loads see afterwards, and that every pointer stays.
pub record IsStored (m : Memory) (p : HostPtr) (k byte : ℕ) (m' : Memory) : Type 0 where
  pub loads : (j : ℕ) → load_host m' p j ≡ (if j == k then ok byte else load_host m p j)
  pub pointers : (gpa len : ℕ) → get_raw_ptr m' gpa len ≡ get_raw_ptr m gpa len

in_block_inv :
    (m : Memory) (i o k : ℕ) {old : ℕ}
    → load_host m (in_block i o) k ≡ ok old
    → (r : RamBlock) × (buf : ℕ → ℕ) × (get_elem? m.regions i ≡ some r)
      × (r.block ≡ some buf)
      × (o + k < r.length)
unfolding load_host
in_block_inv m i o k h = elim (Option-cases (get_elem? m.regions i)) [
  | inl e ↦ absurd (ground arith)
  | inr (r, e) ↦ elim (Option-cases r.block) [
    | inl e' ↦ absurd (ground arith)
    | inr (buf, e') ↦ (r, buf, e, e', ground arith)
  ]
]

pub store_host_lem :
    (m : Memory) (p : HostPtr) (k byte : ℕ) {old : ℕ}
    → load_host m p k ≡ ok old
    → (m' : Memory) × (store_host m p k byte ≡ ok m') × IsStored m p k byte m'
store_host_lem m (in_ram p) k byte h = (
  record m { ram = update m.ram (p + k) byte },
  unfold store_host load_host in ground arith,
  record {
    loads = λ j. unfold store_host load_host in ground arith;
    pointers = λ gpa len. unfold get_raw_ptr in refl;
  },
)
store_host_lem m (in_block i o) k byte h =
    let (r, buf, found, has, below) = in_block_inv m i o k h in
    let r' : RamBlock = record r { block = some (update buf (o + k) byte) } in
    let again : get_elem? (set m.regions i r') i ≡ some r' =
      get_elem?-set_self m.regions i r' found in
    (
      record m { regions = set m.regions i r' },
      unfold store_host in ground arith,
      record {
        loads = λ j. unfold load_host in ground arith;
        pointers = λ gpa len.
            unfold get_raw_ptr in ground (arith, find-set 0 i m.regions r r' gpa found refl refl);
      },
    )
