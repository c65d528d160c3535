-- ===== src/Gdb.antt =====
-- GdbStub.cpp, in parts.
pub mod Hex
pub mod Send
pub mod Watch
pub mod Break
pub mod Parse
pub mod Command
pub mod Stub
