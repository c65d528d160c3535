-- ===== src/Cpu/LoadStore.antt =====
-- ARMv8/Interpreter.cpp: loads and stores of general, vector and floating-point registers. The
-- source's `int size` is 0 to 4 for 1, 2, 4, 8 and 16 bytes; the address arithmetic wraps.
pub mod RoundTrip
use nsemu.Common.{
  ℕ, ◌+◌, ◌^◌, ◌%◌, Bool, true, false, ◌&&◌, u32, u64, sext32, bit_and, ◌==◌, if◌then◌else◌,
  Outcome, ok, abort, ◌>>=◌,
}
use nsemu.Machine.{Arm, Machine}
use nsemu.Mmu.{read_u8, read_u16, read_u32, read_u64, write_u8, write_u16, write_u32, write_u64}
use nsemu.Cpu.{x, w, set_x, xw, handle_as_sp, lane, set_lane}

abbrev pub on_cpu : (Arm → Arm) → Machine → Machine
on_cpu f m = record m { cpu = f m.cpu }

-- The sign extension at the end of _LoadReg.
abbrev pub extend_loaded : Bool → ℕ → Arm → Arm
extend_loaded signed rd_idx a = if signed then set_x rd_idx (sext32 (w a rd_idx)) a else a

unfoldable pub load_x : ℕ → Outcome (ℕ × Machine) → Bool → Outcome Machine
load_x rd_idx read signed = do
  (value, m) ← read
  ok (on_cpu (λ a. extend_loaded signed rd_idx (set_x rd_idx value a)) m)

-- The two reads into d[0] and d[1] of a 128-bit load.
unfoldable pub load_q : ℕ → ℕ → Machine → Outcome Machine
load_q v_idx addr m = do
  (low, m₁) ← read_u64 addr m
  (high, m₂) ← read_u64 (u64 (addr + 8)) (on_cpu (set_lane 8 v_idx 0 low) m₁)
  ok (on_cpu (set_lane 8 v_idx 1 high) m₂)

unfoldable pub store_q : ℕ → ℕ → Machine → Outcome Machine
store_q v_idx addr m = do
  m₁ ← write_u64 addr (lane 8 m.cpu v_idx 0) m
  write_u64 (u64 (addr + 8)) (lane 8 m₁.cpu v_idx 1) m₁

-- _LoadReg.
unfoldable pub load_reg_at : ℕ → ℕ → ℕ → Bool → Bool → Machine → Outcome Machine
unfolding load_x load_q
load_reg_at rd_idx addr size is_sign extend m =
    let signed = extend && is_sign in
    if size == 0
    then load_x rd_idx (read_u8 addr m) signed
    else if size == 1
    then load_x rd_idx (read_u16 addr m) signed
    else if size == 2
    then load_x rd_idx (read_u32 addr m) signed
    else if size == 3
    then load_x rd_idx (read_u64 addr m) signed
    else do m' ← load_q rd_idx addr m; ok (on_cpu (extend_loaded signed rd_idx) m')

-- _StoreReg.
unfoldable pub store_reg_at : ℕ → ℕ → ℕ → Machine → Outcome Machine
unfolding store_q
store_reg_at rd_idx addr size m =
    if size == 0
    then write_u8 addr (bit_and (w m.cpu rd_idx) 0xff) m
    else if size == 1
    then write_u16 addr (bit_and (w m.cpu rd_idx) 0xffff) m
    else if size == 2
    then write_u32 addr (w m.cpu rd_idx) m
    else if size == 3
    then write_u64 addr (x m.cpu rd_idx) m
    else store_q rd_idx addr m

-- The address of LoadReg and its three kin: the base alone where it is updated afterwards.
unfoldable pub address : ℕ → ℕ → Bool → Bool → Arm → ℕ
address base_idx rm_idx post bit64 a =
    let base = x a (handle_as_sp base_idx) in if post then base else u64 (base + xw bit64 a rm_idx)

unfoldable pub load_reg : ℕ → ℕ → ℕ → ℕ → Bool → Bool → Bool → Bool → Machine → Outcome Machine
unfolding load_reg_at address
load_reg rd_idx base_idx rm_idx size is_sign extend post bit64 m =
    load_reg_at rd_idx (address base_idx rm_idx post bit64 m.cpu) size is_sign extend m

unfoldable pub load_reg_i64 : ℕ → ℕ → ℕ → Bool → Bool → Machine → Outcome Machine
unfolding load_reg_at
load_reg_i64 rd_idx ad_idx size is_sign extend m =
    load_reg_at rd_idx (x m.cpu ad_idx) size is_sign extend m

unfoldable pub store_reg : ℕ → ℕ → ℕ → ℕ → Bool → Bool → Bool → Bool → Machine → Outcome Machine
unfolding store_reg_at address
store_reg rd_idx base_idx rm_idx size is_sign extend post bit64 m =
    store_reg_at rd_idx (address base_idx rm_idx post bit64 m.cpu) size m

unfoldable pub store_reg_i64 : ℕ → ℕ → ℕ → Bool → Bool → Machine → Outcome Machine
unfolding store_reg_at
store_reg_i64 rd_idx ad_idx size is_sign extend m = store_reg_at rd_idx (x m.cpu ad_idx) size m

load_lane : ℕ → ℕ → ℕ → Outcome (ℕ × Machine) → Outcome Machine
load_lane n v_idx element read = do
  (value, m) ← read
  ok (on_cpu (set_lane n v_idx element value) m)

unfoldable pub load_vec_reg : ℕ → ℕ → ℕ → ℕ → Machine → Outcome Machine
unfolding load_lane
load_vec_reg vd_idx element rn_idx size m =
    let addr = x m.cpu (handle_as_sp rn_idx) in
    if size == 0
    then load_lane 1 vd_idx element (read_u8 addr m)
    else if size == 1
    then load_lane 2 vd_idx element (read_u16 addr m)
    else if size == 2
    then load_lane 4 vd_idx element (read_u32 addr m)
    else if size == 3
    then load_lane 8 vd_idx element (read_u64 addr m)
    else abort

unfoldable pub store_vec_reg : ℕ → ℕ → ℕ → ℕ → Machine → Outcome Machine
store_vec_reg rd_idx element vn_idx size m =
    let addr = x m.cpu (handle_as_sp rd_idx) in
    if size == 0
    then write_u8 addr (lane 1 m.cpu vn_idx element) m
    else if size == 1
    then write_u16 addr (lane 2 m.cpu vn_idx element) m
    else if size == 2
    then write_u32 addr (lane 4 m.cpu vn_idx element) m
    else if size == 3
    then write_u64 addr (lane 8 m.cpu vn_idx element) m
    else abort

-- VREG(v).d[0] = VREG(v).d[1] = 0.
abbrev pub clear_vreg : ℕ → Arm → Arm
clear_vreg v_idx a = set_lane 8 v_idx 0 0 (set_lane 8 v_idx 1 0 a)

-- _LoadFpReg.
unfoldable pub load_fp_reg_at : ℕ → ℕ → ℕ → Machine → Outcome Machine
unfolding load_lane load_q
load_fp_reg_at fd_idx addr size m =
    let m₀ = on_cpu (clear_vreg fd_idx) m in
    if size == 0
    then load_lane 1 fd_idx 0 (read_u8 addr m₀)
    else if size == 1
    then load_lane 2 fd_idx 0 (read_u16 addr m₀)
    else if size == 2
    then load_lane 4 fd_idx 0 (read_u32 addr m₀)
    else if size == 3
    then load_lane 8 fd_idx 0 (read_u64 addr m₀)
    else load_q fd_idx addr m₀

-- _StoreFpReg.
unfoldable pub store_fp_reg_at : ℕ → ℕ → ℕ → Machine → Outcome Machine
unfolding store_q
store_fp_reg_at fd_idx addr size m =
    if size == 0
    then write_u8 addr (lane 1 m.cpu fd_idx 0) m
    else if size == 1
    then write_u16 addr (lane 2 m.cpu fd_idx 0) m
    else if size == 2
    then write_u32 addr (lane 4 m.cpu fd_idx 0) m
    else if size == 3
    then write_u64 addr (lane 8 m.cpu fd_idx 0) m
    else if size == 4
    then store_q fd_idx addr m
    else ok m

unfoldable pub load_fp_reg : ℕ → ℕ → ℕ → ℕ → Bool → Bool → Machine → Outcome Machine
unfolding load_fp_reg_at address
load_fp_reg rd_idx base_idx rm_idx size post bit64 m =
    load_fp_reg_at rd_idx (address base_idx rm_idx post bit64 m.cpu) size m

unfoldable pub store_fp_reg : ℕ → ℕ → ℕ → ℕ → Bool → Bool → Machine → Outcome Machine
unfolding store_fp_reg_at address
store_fp_reg rd_idx base_idx rm_idx size post bit64 m =
    store_fp_reg_at rd_idx (address base_idx rm_idx post bit64 m.cpu) size m

unfoldable pub load_fp_reg_i64 : ℕ → ℕ → ℕ → Machine → Outcome Machine
unfolding load_fp_reg_at
load_fp_reg_i64 fd_idx ad_idx size m = load_fp_reg_at fd_idx (x m.cpu ad_idx) size m

unfoldable pub store_fp_reg_i64 : ℕ → ℕ → ℕ → Machine → Outcome Machine
unfolding store_fp_reg_at
store_fp_reg_i64 fd_idx ad_idx size m = store_fp_reg_at fd_idx (x m.cpu ad_idx) size m
