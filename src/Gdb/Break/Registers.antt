-- ===== src/Gdb/Break/Registers.antt =====
-- GdbStub.cpp: breakpoints and the debugger's reads write no register.
use nsemu.Common.{
  ℕ, zero, suc, u64, ◌+◌, ◌≡◌, ◌∙◌, Bool, false, Outcome, ok, >>=-split, ◌++◌, List, [], ◌∷◌, leb,
  Option, none, some, Bool-cases, ◌⊎◌, inl, inr, arith,
}
use nsemu.Machine.{Machine, Breakpoint}
use nsemu.Mmu.{
  int_rounds, read_from_ram, write_to_ram, read_u8, read_u32, write_u32, read_inst, read_bytes_from,
  read_bytes, gdb_read_bytes, with_enabled,
}
use nsemu.Gdb.Break.{
  breakpoint, sw_breakpoint_insert, sw_breakpoint_remove, remove_found, find_bp, breakpoint_insert,
  breakpoint_remove, on_gdb, brk_0x0_inst,
}

read_from_ram-cpu :
    (n gpa : ℕ) (m : Machine) {v : ℕ} {m' : Machine}
    → read_from_ram n gpa m ≡ ok (v, m')
    → m'.cpu ≡ m.cpu
unfolding read_from_ram
read_from_ram-cpu n gpa m h = ground arith

write_to_ram-cpu :
    (n gpa value : ℕ) (m : Machine) {m' : Machine}
    → write_to_ram n gpa value m ≡ ok m'
    → m'.cpu ≡ m.cpu
unfolding write_to_ram
write_to_ram-cpu n gpa value m h = ground arith

read_bytes_from-cpu :
    (gva i left : ℕ) (m : Machine) {bytes : List ℕ} {m' : Machine}
    → read_bytes_from gva i left m ≡ ok (bytes, m')
    → m'.cpu ≡ m.cpu
unfolding read_bytes_from read_u8
read_bytes_from-cpu gva i zero m h = ground arith
read_bytes_from-cpu gva i (suc left) m h =
    let ((byte, m₁), read, rest) = >>=-split (read_from_ram 1 (u64 (gva + i)) m) _ h in
    let ((bytes, m₂), reads, done) = >>=-split (read_bytes_from gva (i + 1) left m₁) _ rest in
    let first = read_from_ram-cpu 1 (u64 (gva + i)) m read in
    let others = read_bytes_from-cpu gva (i + 1) left m₁ reads in ground arith

pub gdb_read_bytes-cpu :
    (gva size : ℕ) (m : Machine) {bytes : List ℕ} {m' : Machine}
    → gdb_read_bytes gva size m ≡ ok (bytes, m')
    → m'.cpu ≡ m.cpu
unfolding gdb_read_bytes read_bytes
gdb_read_bytes-cpu gva size m h =
    let ((bytes, m₁), reads, done) =
      >>=-split (read_bytes_from gva 0 (int_rounds size) (with_enabled false m)) _ h in
    let same = read_bytes_from-cpu gva 0 (int_rounds size) (with_enabled false m) reads in
    ground arith

breakpoint-cpu :
    (addr len type : ℕ) (m : Machine) {bp : Breakpoint} {m' : Machine}
    → breakpoint addr len type m ≡ ok (bp, m')
    → m'.cpu ≡ m.cpu
unfolding breakpoint read_inst read_u32
breakpoint-cpu addr len type m h =
    let ((oldop, m₁), read, done) = >>=-split (read_from_ram 4 addr m) _ h in
    let same = read_from_ram-cpu 4 addr m read in ground arith

sw_breakpoint_insert-cpu :
    (addr len type : ℕ) (m : Machine) {res : Bool} {m' : Machine}
    → sw_breakpoint_insert addr len type m ≡ ok (res, m')
    → m'.cpu ≡ m.cpu
unfolding sw_breakpoint_insert write_u32
sw_breakpoint_insert-cpu addr len type m h =
    let ((bp, m₁), made, rest) = >>=-split (breakpoint addr len type m) _ h in
    let m₂ : Machine = on_gdb (λ g. record g { bp_list = g.bp_list ++ bp ∷ [] }) m₁ in
    let (m₃, wrote, done) = >>=-split (write_to_ram 4 addr brk_0x0_inst m₂) _ rest in
    let first = breakpoint-cpu addr len type m made in
    let second = write_to_ram-cpu 4 addr brk_0x0_inst m₂ wrote in ground arith

remove_found-cpu :
    (bp : Breakpoint) (found : Option Breakpoint) (m : Machine) {res : Bool} {m' : Machine}
    → remove_found bp found m ≡ ok (res, m')
    → m'.cpu ≡ m.cpu
unfolding remove_found write_u32
remove_found-cpu bp none m h = ground arith
remove_found-cpu bp (some b) m h =
    let (m₁, wrote, done) = >>=-split (write_to_ram 4 b.addr b.oldop m) _ h in
    let same = write_to_ram-cpu 4 b.addr b.oldop m wrote in ground arith

empty_or_not :
    {A B : Type 0} (xs : List A) (none_left some_left : Outcome B) {r : B}
    → (elim xs as (λ _. Outcome B) [ [] ↦ none_left | y ∷ ys ↦ some_left ]) ≡ ok r
    → (none_left ≡ ok r) ⊎ (some_left ≡ ok r)
empty_or_not [] none_left some_left h = inl h
empty_or_not (y ∷ ys) none_left some_left h = inr h

sw_breakpoint_remove-cpu :
    (addr len type : ℕ) (m : Machine) {res : Bool} {m' : Machine}
    → sw_breakpoint_remove addr len type m ≡ ok (res, m')
    → m'.cpu ≡ m.cpu
unfolding sw_breakpoint_remove
sw_breakpoint_remove-cpu addr len type m h = elim (empty_or_not m.gdb.bp_list (ok (false, m)) _ h) [
  | inl e ↦ ground arith
  | inr e ↦
      let ((bp, m₁), made, rest) = >>=-split (breakpoint addr len type m) _ e in
      let second = remove_found-cpu bp (find_bp bp m₁.gdb.bp_list) m₁ rest in
      second ∙ breakpoint-cpu addr len type m made
]

pub breakpoint_insert-cpu :
    (addr len type : ℕ) (m : Machine) {res : Bool} {m' : Machine}
    → breakpoint_insert addr len type m ≡ ok (res, m')
    → m'.cpu ≡ m.cpu
unfolding breakpoint_insert
breakpoint_insert-cpu addr len type m h = elim (Bool-cases (leb type 1)) [
  | inl e ↦ sw_breakpoint_insert-cpu addr len type m (rw e at h)
  | inr e ↦ ground arith
]

pub breakpoint_remove-cpu :
    (addr len type : ℕ) (m : Machine) {res : Bool} {m' : Machine}
    → breakpoint_remove addr len type m ≡ ok (res, m')
    → m'.cpu ≡ m.cpu
unfolding breakpoint_remove
breakpoint_remove-cpu addr len type m h = elim (Bool-cases (leb type 1)) [
  | inl e ↦ sw_breakpoint_remove-cpu addr len type m (rw e at h)
  | inr e ↦ ground arith
]
