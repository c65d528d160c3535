-- ===== src/Loader.antt =====
-- NintendoObject.cpp: loading a guest's file of the format NSO. The file is its length and its bytes; a
-- read beyond its end leaves memory that is not initialised, which is a fault. LZ4_decompress_safe is
-- the parameter `lz4`: the bytes that it writes, or `none` where it returns a negative number.
pub mod Segments
use nsemu.Common.{
  ℕ, ◌+◌, ◌-◌, ◌*◌, ◌%◌, ◌^◌, Bool, u32, u64, ltb, leb, ◌==◌, if◌then◌else◌, Option, none, some,
  List, Outcome, ok, abort, fault, ◌>>=◌,
}
use nsemu.Common.Bytes.{read_le}
use nsemu.Common.Lists.{length, bytes_from}
use nsemu.Machine.{Memory}
use nsemu.Memory.Copy.{copy_to_emu, copy_from_emu}

pub record File : Type 0 where
  pub size : ℕ
  pub byte : ℕ → ℕ

abbrev pub Lz4 : Type 0
Lz4 = List ℕ → ℕ → Option (List ℕ)

-- NsoHeader, without its padding.
pub record NsoHeader : Type 0 where
  pub magic : ℕ
  pub text_off : ℕ
  pub text_loc : ℕ
  pub text_size : ℕ
  pub rdata_off : ℕ
  pub rdata_loc : ℕ
  pub rdata_size : ℕ
  pub data_off : ℕ
  pub data_loc : ℕ
  pub data_size : ℕ
  pub bss_size : ℕ

abbrev pub header_size : ℕ
header_size = 0x40

abbrev pub header_word : File → ℕ → ℕ
header_word file i = read_le 4 file.byte (i * 4)

unfoldable pub read_header : File → Outcome NsoHeader
read_header file =
    if leb header_size file.size
    then ok record {
      magic = header_word file 0;
      text_off = header_word file 4;
      text_loc = header_word file 5;
      text_size = header_word file 6;
      rdata_off = header_word file 8;
      rdata_loc = header_word file 9;
      rdata_size = header_word file 10;
      data_off = header_word file 12;
      data_loc = header_word file 13;
      data_size = header_word file 14;
      bss_size = header_word file 15;
    }
    else fault

-- byte_swap32_str ("NSO0").
abbrev pub nso0 : ℕ
nso0 = 0x304f534e

-- The assert of `decompress`, on what LZ4_decompress_safe writes.
unfoldable pub check_size : ℕ → Option (List ℕ) → Outcome (List ℕ)
check_size usize none = abort
check_size usize (some obuf) = if length obuf == usize then ok obuf else abort

unfoldable pub decompress : Lz4 → File → ℕ → ℕ → ℕ → Outcome (List ℕ)
unfolding check_size
decompress lz4 file offset csize usize =
    if leb (offset + csize) file.size
    then check_size usize (lz4 (bytes_from csize offset file.byte) usize)
    else fault

-- Decompression and copy of a segment. The difference of the offsets is a uint32_t.
unfoldable pub load_segment : Lz4 → File → ℕ → ℕ → ℕ → ℕ → Memory → Outcome Memory
load_segment lz4 file off next loc size m = do
  bytes ← decompress lz4 file off (u32 (next + 2 ^ 32 - off)) size
  copy_to_emu bytes loc m

-- The bytes that the program takes, in whole pages.
unfoldable pub image_size : NsoHeader → ℕ
image_size hdr =
    let size = u32 (hdr.data_loc + hdr.data_size + hdr.bss_size) in
    if size % 0x1000 == 0 then size else u32 (size - size % 0x1000 + 0x1000)

-- The bytes that bindump prints of .text and of its copy: a buffer that is shorter is left.
abbrev pub dumped : ℕ
dumped = 105

unfoldable pub load_segments : Lz4 → File → NsoHeader → Memory → Outcome Memory
load_segments lz4 file hdr m = do
  m₁ ← load_segment lz4 file hdr.text_off hdr.rdata_off hdr.text_loc hdr.text_size m
  txt_dump ← copy_from_emu hdr.text_loc hdr.text_size m₁
  if ltb hdr.text_size dumped then fault else (do
    m₂ ← load_segment lz4 file hdr.rdata_off hdr.data_off hdr.rdata_loc hdr.rdata_size m₁
    load_segment lz4 file hdr.data_off (u32 file.size) hdr.data_loc hdr.data_size m₂)

-- Nso::load: what it returns, and the memory. Nro::load returns 0 and does nothing.
unfoldable pub load_nso : Lz4 → File → Memory → Outcome (ℕ × Memory)
load_nso lz4 file m = do
  hdr ← read_header file
  if hdr.magic == nso0
      then (do m' ← load_segments lz4 file hdr m; ok (image_size hdr, m'))
      else ok (0, m)

unfoldable pub load_nro : Memory → ℕ × Memory
load_nro m = (0, m)
