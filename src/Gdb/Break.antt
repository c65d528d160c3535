-- ===== src/Gdb/Break.antt =====
-- GdbStub.cpp: software breakpoints, which patch the guest's code, and watchpoints.
pub mod Restore
pub mod Registers
use nsemu.Common.{
  ℕ, Bool, true, false, ◌&&◌, ◌||◌, List, [], ◌∷◌, ◌++◌, Option, none, some, u32, leb, ◌==◌,
  if◌then◌else◌, Outcome, ok, ◌>>=◌,
}
use nsemu.Machine.{Breakpoint, Watchpoint, Gdb, Machine}
use nsemu.Mmu.{read_inst, write_u32}

abbrev pub brk_0x0_inst : ℕ
brk_0x0_inst = 0xd4200000

-- The constructor of Breakpoint: `len` becomes an unsigned int.
unfoldable pub breakpoint : ℕ → ℕ → ℕ → Machine → Outcome (Breakpoint × Machine)
breakpoint addr len type m = do
  (oldop, m') ← read_inst addr m
  ok (record { addr = addr; oldop = oldop; len = u32 len; type = type }, m')

abbrev pub on_gdb : (Gdb → Gdb) → Machine → Machine
on_gdb f m = record m { gdb = f m.gdb }

unfoldable pub sw_breakpoint_insert : ℕ → ℕ → ℕ → Machine → Outcome (Bool × Machine)
unfolding breakpoint
sw_breakpoint_insert addr len type m = do
  (bp, m₁) ← breakpoint addr len type m
  let m₂ : Machine = on_gdb (λ g. record g { bp_list = g.bp_list ++ bp ∷ [] }) m₁
  m₃ ← write_u32 addr brk_0x0_inst m₂
  ok (true, m₃)

-- operator == of Breakpoint, on the fields.
abbrev pub same_bp : Breakpoint → Breakpoint → Bool
same_bp a b = a.addr == b.addr && (a.len == b.len && a.type == b.type)

-- std::find.
unfoldable pub find_bp : Breakpoint → List Breakpoint → Option Breakpoint
find_bp bp [] = none
find_bp bp (b ∷ bs) = if same_bp b bp then some b else find_bp bp bs

-- erase of what std::find found.
unfoldable pub erase_bp : Breakpoint → List Breakpoint → List Breakpoint
erase_bp bp [] = []
erase_bp bp (b ∷ bs) = let rest = erase_bp bp bs in if same_bp b bp then bs else b ∷ rest

-- The end of SwBreakpointRemove, after the search; false is the result -1.
unfoldable pub remove_found : Breakpoint → Option Breakpoint → Machine → Outcome (Bool × Machine)
unfolding erase_bp
remove_found bp none m = ok (false, m)
remove_found bp (some b) m = do
  m' ← write_u32 b.addr b.oldop m
  ok (true, on_gdb (λ g. record g { bp_list = erase_bp bp g.bp_list }) m')

unfoldable pub sw_breakpoint_remove : ℕ → ℕ → ℕ → Machine → Outcome (Bool × Machine)
unfolding breakpoint find_bp remove_found
sw_breakpoint_remove addr len type m = elim m.gdb.bp_list [
  | [] ↦ ok (false, m)
  | b ∷ bs ↦ do
    (bp, m') ← breakpoint addr len type m
    remove_found bp (find_bp bp m'.gdb.bp_list) m'
]

unfoldable pub watchpoint_insert : ℕ → ℕ → ℕ → Gdb → Gdb
watchpoint_insert addr len type g = record g {
  wp_list = g.wp_list ++ record { addr = addr; len = u32 len; type = type } ∷ [];
}

abbrev pub same_wp : ℕ → ℕ → ℕ → Watchpoint → Bool
same_wp addr len type wp = wp.addr == addr && (wp.len == len && wp.type == type)

-- The search and the erasure of WatchpointRemove: `none` where no watchpoint is equal.
unfoldable pub erase_wp : ℕ → ℕ → ℕ → List Watchpoint → Option (List Watchpoint)
erase_wp addr len type [] = none
erase_wp addr len type (w ∷ ws) =
    if same_wp addr len type w
    then some ws
    else elim (erase_wp addr len type ws) [ none ↦ none | some rest ↦ some (w ∷ rest) ]

unfoldable pub watchpoint_remove : ℕ → ℕ → ℕ → Gdb → Bool × Gdb
unfolding erase_wp
watchpoint_remove addr len type g = elim (erase_wp addr (u32 len) type g.wp_list) [
  | none ↦ (false, g)
  | some rest ↦ (true, record g { wp_list = rest })
]

-- The switches on the type: 0 and 1 are breakpoints, 2 to 4 watchpoints.
unfoldable pub breakpoint_insert : ℕ → ℕ → ℕ → Machine → Outcome (Bool × Machine)
unfolding sw_breakpoint_insert watchpoint_insert
breakpoint_insert addr len type m =
    if leb type 1
    then sw_breakpoint_insert addr len type m
    else if leb type 4
    then ok (true, on_gdb (watchpoint_insert addr len type) m)
    else ok (false, m)

unfoldable pub breakpoint_remove : ℕ → ℕ → ℕ → Machine → Outcome (Bool × Machine)
unfolding sw_breakpoint_remove watchpoint_remove
breakpoint_remove addr len type m =
    if leb type 1
    then sw_breakpoint_remove addr len type m
    else if leb type 4
    then (let (res, g) = watchpoint_remove addr len type m.gdb in ok (res, record m { gdb = g }))
    else ok (false, m)
