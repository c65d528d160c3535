-- ===== src/Gdb/Break/Restore.antt =====
-- GdbStub.cpp: a software breakpoint patches the guest's code, and its removal restores it.
use nsemu.Common.{
  ℕ, ◌%◌, ◌^◌, ◌≡◌, refl, ◌∙◌, ap, Bool, true, false, Bool-cases, inl, inr, List, [], ◌∷◌, ◌++◌,
  none, some, u32, ok, ◌>>=◌, arith,
}
use native.Mathlib.Nat.{mod-eq_of_lt}
use mathlib.Core.Path.{subst}
use nsemu.Common.Bytes.{
  AreBytes, read_le, write_le, read_le-write_le, read_le-lt, write_le-AreBytes,
}
use nsemu.Machine.{Breakpoint, Gdb, Machine}
use nsemu.Mmu.{notify, read_inst, read_u32, write_u32}
use nsemu.Mmu.RoundTrip.{Maps, read_from_ram-Maps, write_to_ram-Maps}
use nsemu.Gdb.Watch.{notify_mem_access}
use nsemu.Gdb.Watch.Stops.{notify_mem_access-cases}
use nsemu.Gdb.Break.{
  brk_0x0_inst, breakpoint, on_gdb, same_bp, find_bp, erase_bp, remove_found, sw_breakpoint_insert,
  sw_breakpoint_remove,
}

watched-bp_list :
    (gpa n : ℕ) (read : Bool) (g : Gdb) → (notify_mem_access gpa n read g).bp_list ≡ g.bp_list
watched-bp_list gpa n read g = elim (notify_mem_access-cases gpa n read g) [
  | inl (none_hit, same) ↦ ap (λ (t : Gdb). t.bp_list) same
  | inr (wp, text, first, reports, stops) ↦ ap (λ (t : Gdb). t.bp_list) stops
]

notify-bp_list : (gpa n : ℕ) (read : Bool) (g : Gdb) → (notify gpa n read g).bp_list ≡ g.bp_list
notify-bp_list gpa n read g = ground (arith, watched-bp_list gpa n read g)

-- A breakpoint of this address, length and type, whatever it replaced.
abbrev pub bp_at : ℕ → ℕ → ℕ → ℕ → Breakpoint
bp_at addr len type oldop = record { addr = addr; oldop = oldop; len = u32 len; type = type }

find_bp-last :
    (addr len type old old' : ℕ) (bs : List Breakpoint)
    → find_bp (bp_at addr len type 0) bs ≡ none
    → find_bp (bp_at addr len type old') (bs ++ bp_at addr len type old ∷ [])
      ≡ some (bp_at addr len type old)
unfolding find_bp
find_bp-last addr len type old old' [] h = ground arith
find_bp-last addr len type old old' (b ∷ bs) h =
    elim (Bool-cases (same_bp b (bp_at addr len type 0))) [
      | inl e ↦ absurd (ground arith)
      | inr e ↦ rw e (find_bp-last addr len type old old' bs (rw e at h))
    ]

erase_bp-last :
    (addr len type old old' : ℕ) (bs : List Breakpoint)
    → find_bp (bp_at addr len type 0) bs ≡ none
    → erase_bp (bp_at addr len type old') (bs ++ bp_at addr len type old ∷ []) ≡ bs
unfolding find_bp erase_bp
erase_bp-last addr len type old old' [] h = ground arith
erase_bp-last addr len type old old' (b ∷ bs) h =
    elim (Bool-cases (same_bp b (bp_at addr len type 0))) [
      | inl e ↦ absurd (ground arith)
      | inr e ↦ rw e (
          ap (λ (t : List Breakpoint). b ∷ t) (erase_bp-last addr len type old old' bs (rw e at h)))
    ]

-- The breakpoint that is inserted: the word at the address is kept, BRK takes its place.
sw_breakpoint_insert-Maps :
    (addr len type : ℕ) (f : ℕ → ℕ) (m : Machine)
    → AreBytes f
    → Maps m.mem addr 4 f
    → (m' : Machine) × (sw_breakpoint_insert addr len type m ≡ ok (true, m'))
      × Maps m'.mem addr 4 (write_le 4 f 0 brk_0x0_inst)
      × (m'.gdb.bp_list ≡ m.gdb.bp_list ++ bp_at addr len type (read_le 4 f 0) ∷ [])
unfolding sw_breakpoint_insert breakpoint read_inst read_u32 write_u32
sw_breakpoint_insert-Maps addr len type f m bytes maps =
    let m₁ : Machine = record m { gdb = notify addr 4 true m.gdb } in
    let m₂ : Machine =
      on_gdb (λ g. record g { bp_list = g.bp_list ++ bp_at addr len type (read_le 4 f 0) ∷ [] })
        m₁ in
    let (mem, wrote, maps') = write_to_ram-Maps 4 addr brk_0x0_inst f m₂ maps in
    (
      record m₂ { mem = mem; gdb = notify addr 4 false m₂.gdb },
      rw (read_from_ram-Maps 4 addr f m (omega arith) maps (λ j h. bytes j), wrote) refl,
      maps',
      notify-bp_list addr 4 false m₂.gdb
          ∙ ap (λ (t : List Breakpoint). t ++ bp_at addr len type (read_le 4 f 0) ∷ [])
              (notify-bp_list addr 4 true m.gdb),
    )

last-cons :
    (bs : List Breakpoint) (b : Breakpoint)
    → (c : Breakpoint) × (cs : List Breakpoint) × (bs ++ b ∷ [] ≡ c ∷ cs)
last-cons [] b = (b, [], refl)
last-cons (c ∷ cs) b = (c, cs ++ b ∷ [], refl)

sw_breakpoint_remove-cons :
    (addr len type : ℕ) (m : Machine) (c : Breakpoint) (cs : List Breakpoint)
    → m.gdb.bp_list ≡ c ∷ cs
    → sw_breakpoint_remove addr len type m
      ≡ (breakpoint addr len type m >>= λ (bp, m'). remove_found bp (find_bp bp m'.gdb.bp_list) m')
unfolding sw_breakpoint_remove
sw_breakpoint_remove-cons addr len type m c cs e = rw e refl

-- The removal of the breakpoint that stands last, and is the only one of its kind there.
sw_breakpoint_remove-Maps :
    (addr len type old : ℕ) (f : ℕ → ℕ) (bs : List Breakpoint) (m : Machine)
    → AreBytes f
    → Maps m.mem addr 4 f
    → m.gdb.bp_list ≡ bs ++ bp_at addr len type old ∷ []
    → find_bp (bp_at addr len type 0) bs ≡ none
    → (m' : Machine) × (sw_breakpoint_remove addr len type m ≡ ok (true, m'))
      × Maps m'.mem addr 4 (write_le 4 f 0 old)
      × (m'.gdb.bp_list ≡ bs)
unfolding breakpoint read_inst read_u32 write_u32 remove_found
sw_breakpoint_remove-Maps addr len type old f bs m bytes maps list absent =
    let (c, cs, cons) = last-cons bs (bp_at addr len type old) in
    let m₁ : Machine = record m { gdb = notify addr 4 true m.gdb } in
    let list₁ : m₁.gdb.bp_list ≡ bs ++ bp_at addr len type old ∷ [] =
      notify-bp_list addr 4 true m.gdb ∙ list in
    let (mem, wrote, maps') = write_to_ram-Maps 4 addr old f m₁ maps in
    let g₂ : Gdb = notify addr 4 false m₁.gdb in
    (
      record m₁ {
        mem = mem;
        gdb = record g₂ { bp_list = erase_bp (bp_at addr len type (read_le 4 f 0)) g₂.bp_list };
      },
      sw_breakpoint_remove-cons addr len type m c cs (list ∙ cons)
          ∙ rw
              (
                read_from_ram-Maps 4 addr f m (omega arith) maps (λ j h. bytes j),
                list₁,
                find_bp-last addr len type old (read_le 4 f 0) bs absent,
                wrote,
              )
              refl,
      maps',
      rw (notify-bp_list addr 4 false m₁.gdb, list₁)
          (erase_bp-last addr len type old (read_le 4 f 0) bs absent),
    )

-- What the processor would fetch at the address.
abbrev pub Fetches : Machine → ℕ → ℕ → Type 0
Fetches m addr word = read_inst addr m ≡ ok (word, record m { gdb = notify addr 4 true m.gdb })

read_inst-Maps :
    (addr value : ℕ) (f : ℕ → ℕ) (m : Machine)
    → AreBytes f
    → Maps m.mem addr 4 (write_le 4 f 0 value)
    → Fetches m addr (value % 2 ^ 32)
unfolding read_inst read_u32
read_inst-Maps addr value f m bytes maps =
    rw
      (
        read_from_ram-Maps 4 addr (write_le 4 f 0 value) m (omega arith) maps
            (λ j h. write_le-AreBytes 4 f 0 value bytes j),
        read_le-write_le 4 f 0 value,
      )
      refl

-- Where four bytes at the address are mapped and the list holds no breakpoint of this address,
-- length and type, the insertion of a software breakpoint succeeds and the processor then fetches
-- BRK there; its removal succeeds too, after which the processor fetches the word that stood there
-- at first and the list of breakpoints is what it was.
pub sw_breakpoint_insert-remove :
    (addr len type : ℕ) (f : ℕ → ℕ) (m : Machine)
    → AreBytes f
    → Maps m.mem addr 4 f
    → find_bp (bp_at addr len type 0) m.gdb.bp_list ≡ none
    → (m₁ : Machine) × (m₂ : Machine) × Fetches m addr (read_le 4 f 0)
      × (sw_breakpoint_insert addr len type m ≡ ok (true, m₁))
      × Fetches m₁ addr brk_0x0_inst
      × (sw_breakpoint_remove addr len type m₁ ≡ ok (true, m₂))
      × Fetches m₂ addr (read_le 4 f 0)
      × (m₂.gdb.bp_list ≡ m.gdb.bp_list)
unfolding read_inst read_u32
sw_breakpoint_insert-remove addr len type f m bytes maps absent =
    let word = read_le 4 f 0 in
    let (m₁, inserted, maps₁, list₁) = sw_breakpoint_insert-Maps addr len type f m bytes maps in
    let bytes₁ : AreBytes (write_le 4 f 0 brk_0x0_inst) =
      write_le-AreBytes 4 f 0 brk_0x0_inst bytes in
    let (m₂, removed, maps₂, list₂) =
      sw_breakpoint_remove-Maps addr len type word (write_le 4 f 0 brk_0x0_inst) m.gdb.bp_list m₁
        bytes₁ maps₁ list₁ absent in
    let small : word % 2 ^ 32 ≡ word =
      mod-eq_of_lt {n = word} {m = 2 ^ 32} (read_le-lt 4 f 0 bytes) in
    (
      m₁,
      m₂,
      read_from_ram-Maps 4 addr f m (omega arith) maps (λ j h. bytes j),
      inserted,
      read_inst-Maps addr brk_0x0_inst f m₁ bytes maps₁,
      removed,
      subst (λ (t : ℕ). Fetches m₂ addr t) small
          (read_inst-Maps addr word (write_le 4 f 0 brk_0x0_inst) m₂ bytes₁ maps₂),
      list₂,
    )
