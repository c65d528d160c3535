-- ===== src/Loader/Segments.antt =====
-- NintendoObject.cpp: where the segments of an NSO file are after loading, inside the straight mapping.
use nsemu.Common.{
  ℕ, zero, suc, ◌+◌, ◌-◌, ◌^◌, ◌≤◌, ◌<◌, ◌≡◌, refl, ◌∙◌, ◌⊎◌, inl, true, false, u32, u64, ltb, leb,
  ◌==◌, some, List, [], ◌∷◌, ok, arith,
}
use nsemu.Common.Lists.{length, byte_at, bytes_from, update}
use nsemu.Machine.{Memory}
use nsemu.Memory.{ram_size, straight_max, is_straight, in_ram, get_raw_ptr, load_host, store_host}
use nsemu.Memory.Copy.{store_all, load_all, copy_to_emu, copy_from_emu}
use nsemu.Mmu.Straight.{put_bytes, put_bytes_inside, put_bytes_outside}
use nsemu.Loader.{
  File, Lz4, NsoHeader, dumped, read_header, nso0, check_size, decompress, load_segment, image_size,
  load_segments, load_nso,
}

store_all-straight :
    (bs : List ℕ) (p k : ℕ) (m : Memory)
    → p + k + length bs ≤ ram_size
    → store_all (in_ram p) k bs m ≡ ok (record m { ram = put_bytes m.ram (p + k) bs })
unfolding store_all store_host put_bytes
store_all-straight [] p k m h = refl
store_all-straight (b ∷ bs) p k m h =
    let inside : ltb (p + k) ram_size ≡ true = ground arith in
    let next : p + (k + 1) ≡ p + k + 1 = omega arith in
    let rest =
      store_all-straight bs p (k + 1) (record m { ram = update m.ram (p + k) b }) (omega arith) in
    rw (inside, rest, next) refl

load_all-straight :
    (n p k : ℕ) (m : Memory)
    → p + k + n ≤ ram_size
    → load_all (in_ram p) k n m ≡ ok (bytes_from n (p + k) m.ram)
unfolding load_all load_host bytes_from
load_all-straight zero p k m h = refl
load_all-straight (suc n) p k m h =
    let inside : ltb (p + k) ram_size ≡ true = ground arith in
    let next : p + (k + 1) ≡ p + k + 1 = omega arith in
    rw (inside, load_all-straight n p (k + 1) m (omega arith), next) refl

copy_to_emu-straight :
    (bs : List ℕ) (gpa : ℕ) (m : Memory)
    → gpa + length bs ≤ straight_max
    → copy_to_emu bs gpa m ≡ ok (record m { ram = put_bytes m.ram gpa bs })
unfolding copy_to_emu get_raw_ptr is_straight
copy_to_emu-straight bs gpa m h =
    let near : leb (u64 (gpa + length bs)) straight_max ≡ true = ground arith in
    let at : gpa + 0 ≡ gpa = omega arith in
    rw (near, store_all-straight bs gpa 0 m (omega arith), at) refl

copy_from_emu-straight :
    (gpa len : ℕ) (m : Memory)
    → gpa + len ≤ straight_max
    → copy_from_emu gpa len m ≡ ok (bytes_from len (gpa + 0) m.ram)
unfolding copy_from_emu get_raw_ptr is_straight
copy_from_emu-straight gpa len m h =
    let near : leb (u64 (gpa + len)) straight_max ≡ true = ground arith in
    rw (near, load_all-straight len gpa 0 m (omega arith)) refl

-- The file's bytes between two offsets unpack to a segment of the size that the header states.
pub record Unpacks (lz4 : Lz4) (file : File) (off next size : ℕ) (bytes : List ℕ) : Type 0 where
  pub ordered : off ≤ next
  pub inside : next ≤ file.size
  pub short : file.size < 2 ^ 32
  pub unpacked : lz4 (bytes_from (next - off) off file.byte) size ≡ some bytes
  pub complete : length bytes ≡ size

load_segment_lem :
    (lz4 : Lz4) (file : File) (off next loc size : ℕ) (bytes : List ℕ) (m : Memory)
    → Unpacks lz4 file off next size bytes
    → loc + size ≤ straight_max
    → load_segment lz4 file off next loc size m ≡ ok (record m { ram = put_bytes m.ram loc bytes })
unfolding load_segment decompress check_size
load_segment_lem lz4 file off next loc size bytes m s h =
    let csize : u32 (next + 2 ^ 32 - off) ≡ next - off =
      omega (arith, s.ordered, s.inside, s.short) in
    let within : leb (off + (next - off)) file.size ≡ true = ground (arith, s.ordered, s.inside) in
    let whole : (length bytes == size) ≡ true = ground (arith, s.complete) in
    let copied = copy_to_emu-straight bytes loc m (omega (arith, s.complete)) in
    rw (csize, within, s.unpacked, whole, copied) refl

-- The segments lie in their order in the straight mapping.
pub record Ordered (hdr : NsoHeader) : Type 0 where
  pub text : hdr.text_loc + hdr.text_size ≤ hdr.rdata_loc
  pub rdata : hdr.rdata_loc + hdr.rdata_size ≤ hdr.data_loc
  pub all : hdr.data_loc + hdr.data_size ≤ straight_max

-- An index that a segment does not hold.
abbrev pub Outside : ℕ → ℕ → ℕ → Type 0
Outside loc size j = (j < loc) ⊎ (loc + size ≤ j)

-- Loading an NSO file whose three segments unpack to the sizes that its header states succeeds, returns
-- the size of the image, and leaves each segment at its place; no byte of pRAM outside of the three,
-- no region and no size of the heap changes. The segments have to stand in the order text, rdata, data
-- inside the straight mapping, and .text to have the 105 bytes that are dumped.
pub load_nso-segments :
    (lz4 : Lz4) (file : File) (hdr : NsoHeader) (text rdata data' : List ℕ) (m : Memory)
    → read_header file ≡ ok hdr
    → hdr.magic ≡ nso0
    → Unpacks lz4 file hdr.text_off hdr.rdata_off hdr.text_size text
    → Unpacks lz4 file hdr.rdata_off hdr.data_off hdr.rdata_size rdata
    → Unpacks lz4 file hdr.data_off file.size hdr.data_size data'
    → Ordered hdr
    → dumped ≤ hdr.text_size
    → (m' : Memory) × (load_nso lz4 file m ≡ ok (image_size hdr, m'))
      × ((k : ℕ) → k < hdr.text_size → m'.ram (hdr.text_loc + k) ≡ byte_at text k)
      × ((k : ℕ) → k < hdr.rdata_size → m'.ram (hdr.rdata_loc + k) ≡ byte_at rdata k)
      × ((k : ℕ) → k < hdr.data_size → m'.ram (hdr.data_loc + k) ≡ byte_at data' k)
      × ((j : ℕ)
          → Outside hdr.text_loc hdr.text_size j
          → Outside hdr.rdata_loc hdr.rdata_size j
          → Outside hdr.data_loc hdr.data_size j
          → m'.ram j ≡ m.ram j)
      × (m'.regions ≡ m.regions)
      × (m'.heap_size ≡ m.heap_size)
unfolding load_nso load_segments
load_nso-segments lz4 file hdr text rdata data' m read magic t r d o long =
    let ram₁ = put_bytes m.ram hdr.text_loc text in
    let ram₂ = put_bytes ram₁ hdr.rdata_loc rdata in
    let ram₃ = put_bytes ram₂ hdr.data_loc data' in
    let m₁ : Memory = record m { ram = ram₁ } in
    let m₂ : Memory = record m { ram = ram₂ } in
    let is_nso : (hdr.magic == nso0) ≡ true = ground (arith, magic) in
    let enough : ltb hdr.text_size dumped ≡ false = ground (arith, long) in
    let size : u32 file.size ≡ file.size = omega (arith, d.short) in
    (
      record m { ram = ram₃ },
      rw
          (
            read,
            is_nso,
            load_segment_lem lz4 file hdr.text_off hdr.rdata_off hdr.text_loc hdr.text_size text m t
                (omega (arith, o.text, o.rdata, o.all)),
            copy_from_emu-straight hdr.text_loc hdr.text_size m₁
                (omega (arith, o.text, o.rdata, o.all)),
            enough,
            load_segment_lem lz4 file hdr.rdata_off hdr.data_off hdr.rdata_loc hdr.rdata_size rdata
                m₁ r (omega (arith, o.rdata, o.all)),
            size,
            load_segment_lem lz4 file hdr.data_off file.size hdr.data_loc hdr.data_size data' m₂ d
                o.all,
          )
          refl,
      λ k h.
          put_bytes_outside data' ram₂ hdr.data_loc (hdr.text_loc + k)
            (inl (omega (arith, o.text, o.rdata)))
          ∙ put_bytes_outside rdata ram₁ hdr.rdata_loc (hdr.text_loc + k)
              (inl (omega (arith, o.text)))
          ∙ put_bytes_inside text m.ram hdr.text_loc k (omega (arith, t.complete)),
      λ k h.
          put_bytes_outside data' ram₂ hdr.data_loc (hdr.rdata_loc + k)
            (inl (omega (arith, o.rdata)))
          ∙ put_bytes_inside rdata ram₁ hdr.rdata_loc k (omega (arith, r.complete)),
      λ k h. put_bytes_inside data' ram₂ hdr.data_loc k (omega (arith, d.complete)),
      λ j text_apart rdata_apart data_apart.
          put_bytes_outside data' ram₂ hdr.data_loc j (ground (arith, d.complete, data_apart))
          ∙ put_bytes_outside rdata ram₁ hdr.rdata_loc j (ground (arith, r.complete, rdata_apart))
          ∙ put_bytes_outside text m.ram hdr.text_loc j (ground (arith, t.complete, text_apart)),
      refl,
      refl,
    )
