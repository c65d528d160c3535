-- ===== src/Disas/Decode.antt =====
-- ARMv8/Disassembler.cpp: what DisasA64 calls for the words of Encode, by the decoder that takes them.
pub mod Imm
pub mod Branch
pub mod LdSt
