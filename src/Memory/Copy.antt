-- ===== src/Memory/Copy.antt =====
-- Memory.cpp: CopytoEmu and CopyfromEmu, a memcpy between the host's data and the guest's memory.
use nsemu.Common.{
  ℕ, zero, suc, ◌+◌, ◌≤◌, ◌<◌, ◌≡◌, refl, ◌∙◌, List, [], ◌∷◌, Outcome, ok, ◌>>=◌, arith,
}
use nsemu.Common.Lists.{length, update}
use nsemu.Machine.{Memory}
use nsemu.Memory.{HostPtr, get_raw_ptr, load_host, store_host}
use nsemu.Memory.Host.{store_host_lem}
use nsemu.Mmu.Bytes.{Shows}
use nsemu.Mmu.RoundTrip.{Accessible, Accessible-Shows}

-- memcpy (emu_mem, data, len), from the byte at `k` on.
unfoldable pub store_all : HostPtr → ℕ → List ℕ → Memory → Outcome Memory
store_all p k [] m = ok m
store_all p k (byte ∷ bytes) m = do m' ← store_host m p k byte; store_all p (k + 1) bytes m'

-- memcpy (data, emu_mem, len), with `left` bytes to go from `k`.
unfoldable pub load_all : HostPtr → ℕ → ℕ → Memory → Outcome (List ℕ)
load_all p k zero m = ok []
load_all p k (suc left) m = do
  byte ← load_host m p k
  bytes ← load_all p (k + 1) left m
  ok (byte ∷ bytes)

-- CopytoEmu. GetRawPtr never returns a null pointer, so what is copied is copied whole.
unfoldable pub copy_to_emu : List ℕ → ℕ → Memory → Outcome Memory
unfolding store_all
copy_to_emu bytes gpa m = do p ← get_raw_ptr m gpa (length bytes); store_all p 0 bytes m

unfoldable pub copy_from_emu : ℕ → ℕ → Memory → Outcome (List ℕ)
unfolding load_all
copy_from_emu gpa len m = do p ← get_raw_ptr m gpa len; load_all p 0 len m

-- The bytes of `f`, with the list put over them from `k` on.
overlay : (ℕ → ℕ) → ℕ → List ℕ → ℕ → ℕ
overlay f k [] = f
overlay f k (b ∷ bs) = overlay (update f k b) (k + 1) bs

overlay_below : (bs : List ℕ) (f : ℕ → ℕ) (k j : ℕ) → j < k → overlay f k bs j ≡ f j
unfolding overlay
overlay_below [] f k j h = refl
overlay_below (b ∷ bs) f k j h =
    overlay_below bs (update f k b) (k + 1) j (omega arith) ∙ ground arith

store_all_lem :
    (n : ℕ) (p : HostPtr) (bs : List ℕ) (k : ℕ) (m : Memory) (f : ℕ → ℕ)
    → k + length bs ≤ n
    → Shows m p n f
    → (m' : Memory) × (store_all p k bs m ≡ ok m')
      × Shows m' p n (overlay f k bs)
      × ((gpa len : ℕ) → get_raw_ptr m' gpa len ≡ get_raw_ptr m gpa len)
unfolding store_all overlay
store_all_lem n p [] k m f fits shows = (m, refl, shows, λ gpa len. refl)
store_all_lem n p (b ∷ bs) k m f fits shows =
    let (m₁, stored, is) = store_host_lem m p k b (shows k (omega arith)) in
    let shows₁ : Shows m₁ p n (update f k b) = λ j h. ground (arith, is.loads j, shows j h) in
    let (m₂, looped, shows₂, same) =
      store_all_lem n p bs (k + 1) m₁ (update f k b) (omega arith) shows₁ in
    (m₂, rw stored looped, shows₂, λ gpa len. rw (same gpa len) (is.pointers gpa len))

load_all_lem :
    (n : ℕ) (p : HostPtr) (bs : List ℕ) (k : ℕ) (m : Memory) (f : ℕ → ℕ)
    → k + length bs ≤ n
    → Shows m p n (overlay f k bs)
    → load_all p k (length bs) m ≡ ok bs
unfolding load_all overlay
load_all_lem n p [] k m f fits shows = refl
load_all_lem n p (b ∷ bs) k m f fits shows =
    let first : overlay (update f k b) (k + 1) bs k ≡ b =
      overlay_below bs (update f k b) (k + 1) k (omega arith) ∙ ground arith in
    rw
      (
        shows k (omega arith),
        first,
        load_all_lem n p bs (k + 1) m (update f k b) (omega arith) shows,
      )
      refl

-- Where the range is mapped, CopytoEmu of some bytes succeeds, and CopyfromEmu of as many from the
-- same address then returns them.
pub copy_to_emu-copy_from_emu :
    (bytes : List ℕ) (gpa : ℕ) (m : Memory)
    → Accessible m gpa (length bytes)
    → (m' : Memory) × (copy_to_emu bytes gpa m ≡ ok m')
      × (copy_from_emu gpa (length bytes) m' ≡ ok bytes)
unfolding copy_to_emu copy_from_emu
copy_to_emu-copy_from_emu bytes gpa m mapped =
    let (p, f, ptr, shows, top) = Accessible-Shows m gpa (length bytes) mapped in
    let (m', stored, shows', same) =
      store_all_lem (length bytes) p bytes 0 m f (omega arith) shows in
    (
      m',
      rw ptr stored,
      rw (same gpa (length bytes), ptr)
          (load_all_lem (length bytes) p bytes 0 m' f (omega arith) shows'),
    )
