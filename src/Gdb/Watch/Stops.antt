-- ===== src/Gdb/Watch/Stops.antt =====
-- GdbStub.cpp: which access stops the guest, and what the client is told.
use nsemu.Common.{
  ℕ, ◌+◌, ◌^◌, ◌≤◌, ◌%◌, ◌≡◌, refl, Bool, true, false, Bool-cases, ◌⊎◌, inl, inr, List, [], ◌∷◌,
  ◌++◌, arith,
}
use nsemu.Machine.{Gdb, Watchpoint}
use nsemu.Kernel.{codes}
use nsemu.Gdb.Hex.{print_lx}
use nsemu.Gdb.Send.{packet, watch_reply, write_packet, write_bytes}
use nsemu.Gdb.Watch.{hit, kind_text, hit_watchpoint, notify_loop, notify_mem_access}

-- The watchpoint lies in the bytes of the access, and is one for accesses (4), for reads (3) where this is
-- a read, or for writes (2) where it is a write.
abbrev pub Watches : ℕ → ℕ → Bool → Watchpoint → Type 0
Watches addr len read wp =
    (addr ≤ wp.addr)
    × ((wp.addr + wp.len) % 2 ^ 64 ≤ (addr + len) % 2 ^ 64)
    × ((wp.type ≡ 4) ⊎ ((read ≡ true) × (wp.type ≡ 3)) ⊎ ((read ≡ false) × (wp.type ≡ 2)))

abbrev pub NoneWatches : List Watchpoint → ℕ → ℕ → Bool → Type 0
NoneWatches [] addr len read = Unit {0}
NoneWatches (wp ∷ wps) addr len read = ¬ Watches addr len read wp × NoneWatches wps addr len read

-- The first watchpoint of the list that watches the access.
abbrev pub FirstWatches : List Watchpoint → ℕ → ℕ → Bool → Watchpoint → Type 0
FirstWatches wps addr len read wp =
    (before : List Watchpoint) × (after : List Watchpoint) × (wps ≡ before ++ wp ∷ after)
    × NoneWatches before addr len read
    × Watches addr len read wp

-- The stop reply of the protocol for a watchpoint of a type and an address in hexadecimal digits.
abbrev pub Reports : ℕ → ℕ → List ℕ → Type 0
Reports type addr text =
    ((type ≡ 2) → text ≡ codes "T05thread:01;watch:" ++ print_lx addr ++ codes ";")
    × ((type ≡ 3) → text ≡ codes "T05thread:01;rwatch:" ++ print_lx addr ++ codes ";")
    × ((type ≡ 4) → text ≡ codes "T05thread:01;awatch:" ++ print_lx addr ++ codes ";")

hit-Watches :
    (addr len : ℕ) (read : Bool) (wp : Watchpoint)
    → hit addr len read wp ≡ true
    → Watches addr len read wp
hit-Watches addr len true wp h = ground arith
hit-Watches addr len false wp h = ground arith

miss-Watches :
    (addr len : ℕ) (read : Bool) (wp : Watchpoint)
    → hit addr len read wp ≡ false
    → ¬ Watches addr len read wp
miss-Watches addr len true wp h = ground arith
miss-Watches addr len false wp h = ground arith

watch_reply-Reports : (type addr : ℕ) → Reports type addr (watch_reply (kind_text type) addr)
unfolding watch_reply
watch_reply-Reports type addr = (λ e. rw e refl, λ e. rw e refl, λ e. rw e refl)

notify_loop-cases :
    (wps : List Watchpoint) (addr len : ℕ) (read : Bool) (g : Gdb)
    → (NoneWatches wps addr len read × (notify_loop wps addr len read g ≡ g))
      ⊎ ((wp : Watchpoint) × FirstWatches wps addr len read wp
          × (notify_loop wps addr len read g ≡ hit_watchpoint addr wp.type g))
unfolding notify_loop
notify_loop-cases [] addr len read g = inl (tt, refl)
notify_loop-cases (wp ∷ wps) addr len read g = elim (Bool-cases (hit addr len read wp)) [
  | inl e ↦ inr (wp, ([], wps, refl, tt, hit-Watches addr len read wp e), rw e refl)
  | inr e ↦
      let missed = miss-Watches addr len read wp e in
      elim (notify_loop-cases wps addr len read g) [
        | inl (none_hit, same) ↦ inl ((missed, none_hit), rw e same)
        | inr (wp', (before, after, split, none_hit, e'), same) ↦
            inr (wp', (wp ∷ before, after, rw split refl, (missed, none_hit), e'), rw e same)
      ]
]

pub notify_mem_access-cases :
    (addr len : ℕ) (read : Bool) (g : Gdb)
    → (NoneWatches g.wp_list addr len read × (notify_mem_access addr len read g ≡ g))
      ⊎ ((wp : Watchpoint) × (text : List ℕ) × FirstWatches g.wp_list addr len read wp
          × Reports wp.type addr text
          × (notify_mem_access addr len read g
              ≡ record g { cont = false; step = false; sent = g.sent ++ packet text ∷ [] }))
unfolding notify_mem_access hit_watchpoint write_packet write_bytes
notify_mem_access-cases addr len read g = elim (notify_loop-cases g.wp_list addr len read g) [
  | inl quiet ↦ inl quiet
  | inr (wp, first, same) ↦
      inr (wp, watch_reply (kind_text wp.type) addr, first, watch_reply-Reports wp.type addr, same)
]
