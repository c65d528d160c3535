-- ===== src/Gdb/Watch.antt =====
-- GdbStub.cpp: HitWatchpoint and NotifyMemAccess.
pub mod Stops
use nsemu.Common.{
  ℕ, ◌+◌, ◌^◌, ◌≡◌, refl, Bool, true, false, ◌&&◌, ◌||◌, List, [], ◌∷◌, u64, leb, ◌==◌,
  if◌then◌else◌,
}
use nsemu.Machine.{Gdb, Watchpoint}
use nsemu.Gdb.Send.{write_packet, watch_reply}

abbrev pub watchpoint_write : ℕ
watchpoint_write = 2

abbrev pub watchpoint_read : ℕ
watchpoint_read = 3

abbrev pub watchpoint_access : ℕ
watchpoint_access = 4

abbrev pub kind_text : ℕ → List ℕ
kind_text type =
    if type == watchpoint_read
    then b'r' ∷ []
    else if type == watchpoint_access
    then b'a' ∷ []
    else []

unfoldable pub hit_watchpoint : ℕ → ℕ → Gdb → Gdb
hit_watchpoint addr type g =
    write_packet (watch_reply (kind_text type) addr) (record g { cont = false; step = false })

-- The tests of NotifyMemAccess on one watchpoint: it lies in the bytes accessed, and is of the
-- kind of the access.
abbrev pub hit : ℕ → ℕ → Bool → Watchpoint → Bool
hit addr len read wp =
    leb addr wp.addr
    && leb (u64 (wp.addr + wp.len)) (u64 (addr + len))
    && (wp.type == watchpoint_access
        || wp.type == (if read then watchpoint_read else watchpoint_write))

unfoldable pub notify_loop : List Watchpoint → ℕ → ℕ → Bool → Gdb → Gdb
notify_loop [] addr len read g = g
notify_loop (wp ∷ wps) addr len read g =
    let rest = notify_loop wps addr len read g in
    if hit addr len read wp then hit_watchpoint addr wp.type g else rest

unfoldable pub notify_mem_access : ℕ → ℕ → Bool → Gdb → Gdb
unfolding notify_loop
notify_mem_access addr len read g = notify_loop g.wp_list addr len read g
