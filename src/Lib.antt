-- ===== src/Lib.antt =====
-- nsemu: the interpreter, the memory, the debugger and the kernel of the console emulator.
--
-- The emulator runs a guest program of 64-bit ARM code. The interpreter fetches a word, the
-- disassembler calls one callback for it, and the callback reads and writes the registers and the
-- guest's memory. The memory is a straight mapping at the low addresses and a list of regions with
-- buffers of their own. A debugger may be connected: its stub takes packets byte by byte, patches
-- breakpoints into the guest's code, and is told of every access for its watchpoints. BootUp loads the
-- guest's file into memory and makes the services of the kernel; the guest reaches them by supervisor
-- calls, of which SendSyncRequest takes a message from the thread-local storage, gives it to the service
-- behind a handle, and puts the reply in its place.
--
-- The state is explicit: each namespace's globals are a record of `Machine`, and an operation is a
-- function from the state to a result of `Outcome`, which is `ok`, `abort` for a call of ns_abort
-- or a failed assert, or `fault` where the code does what C++ leaves undefined.
--
--   Common: words of a fixed width, with their wrap-around written out, the bit operations, numbers
--   as bytes, `Outcome`, and lists over the native numbers.
--   Machine: ARMv8State (include/ARMv8/ARMv8.hpp), RAMBlock (include/Memory.hpp), the globals of
--   Memory.cpp, GdbStub.cpp, Nsemu.cpp, Thread.cpp, Ipc.cpp and Service/Dispdrv.cpp.
--   Memory: Memory.cpp: IsStraight, FindRamBlock, AddMemmap, DelMemmap, InitMemmap, GetRawPtr;
--   GetRegions in Memory/Regions, CopytoEmu and CopyfromEmu in Memory/Copy. A host pointer is an
--   index into pRAM or into a region's buffer.
--   Mmu: ARMv8/MMU.cpp: ReadFromRAM and WriteToRAM with their byte loops, ReadU8 to WriteU64,
--   ReadBytes, WriteBytes, ReadString, GdbReadBytes and GdbWriteBytes.
--   Gdb: GdbStub.cpp: the hexadecimal digits (Hex), the packets sent (Send), strtol on the command
--   line (Parse), breakpoints (Break), watchpoints (Watch), HandleCommand (Command), HandlePacket
--   (Stub). The bytes that recv returns are arguments; those given to send are a list.
--   Util: the bit fields and masks of include/Util.hpp.
--   Cpu: ARMv8/Interpreter.cpp: the flags and conditions (Flags), ALCalc and ArithmeticLogic (Alu),
--   the callbacks on general registers (Arith, Mul, Bitfield), loads and stores (LoadStore), vector
--   registers (Vector), branches and system registers (Branch). A callback's name is the source's
--   in lower case: `sub_reg` is SubReg, `load_reg_at` is _LoadReg.
--   Disas: ARMv8/Disassembler.cpp: DisasA64 and every decoder under it, named as in the source in
--   lower case (`disas_add_sub_imm` is DisasAddSubImm). A decoder is a function from the instruction
--   word to the list of the callbacks that it calls (Disas/Callback, after DisasCallback of
--   include/ARMv8/Disassembler.hpp); Imm, System, Branch, Reg, LdSt, LdStVec, Fp and Simd hold the
--   groups. Encode is the architecture's layout of some instructions, written without the decoders;
--   Decode and Bounds are about the decoders.
--   Interpreter: ARMv8/Interpreter.cpp: the callback behind each call (Exec), SingleStep, and a
--   round of Run as a step relation, with the bytes that the client has still to send as its input
--   (Interpreter); Step and Run are about them.
--   Kernel: the tables of handles, services and threads (include/Nsemu.hpp, include/Ipc.hpp, Ipc.cpp,
--   Thread.cpp); an object is a number, a pointer to what `objects` says. Mapping is SERVICE_MAPPING of
--   include/IpcStubs.hpp.
--   Ipc: Ipc.cpp and include/Ipc.hpp: ParseMessage, GenBuf and the accessors of IpcMessage (Ipc),
--   GetBuffer (Buffer), ProcMessage and SmService (Session, with Service/Sm.cpp). Command is the form of
--   the generated commands of include/IpcStubs.hpp, with the methods of Service/Hid.cpp,
--   Service/Vi.cpp and Service/Dispdrv.cpp. Layout and Reply are about them.
--   Services: the commands of 119 classes as tables, from their Dispatch in include/IpcStubs.hpp. Am,
--   Fsp, Hid and Vi hold the classes that Service/Am.cpp, Service/Fsp.cpp, Service/Hid.cpp and
--   Service/Vi.cpp implement, and below them the others of their namespaces; Account, Audio, Capsrv,
--   Ncm, Nfp, Nim, Ns, Settings and Ssl are stubs alone.
--   Svc: Svc.cpp: the table svc_handlers that Init fills, with SetHeapSize, MirrorStack, UnmapMemory,
--   QueryMemory, GetInfo, ConnectToPort and SendSyncRequest.
--   Loader: NintendoObject.cpp: the NSO header, its segments, and what Nso::load returns. The file is
--   an argument, and LZ4_decompress_safe a parameter.
--   Boot: BootUp of Nsemu.cpp up to Cpu::Run, with Init of Cpu.cpp, of ARMv8/ARMv8.cpp and of
--   Service/Dispdrv.cpp.
--   Tests: the results at concrete inputs.
--
-- Bounds. The byte loops of the MMU run for as many rounds as the wrapping bound of the source
-- gives, at most eight; replicate64 has seven rounds, after which the width that doubles is past 64;
-- the scans of the command line have as many rounds as the buffer has bytes. ReadString takes its
-- bound of 2 ^ 30 rounds from the source. The loops of the decoders have as many rounds as their bounds
-- say, and that over a name in a message as many as the buffer has bytes left. Every other loop is recursion on a list. Run itself is
-- the closure of its rounds, of any number.
--
-- A message has 0x100 bytes, after message_size; what reads or writes past it is a fault.
--
-- Not modelled: Dispatch of the classes without a table here and the sockets of Service/Bsd.cpp, which
-- are the field `dispatch` of `Host`; its other fields are what C++ leaves unset: the members of the
-- two messages and the contents of a new buffer. Left out are printing, the command line and the
-- host thread, the scripts that generate the IPC stubs, and the third-party option parser. The
-- interpreter takes the table of supervisor calls as the parameter `handlers`; svc_handlers is one.
pub mod Common
pub mod Machine
pub mod Memory
pub mod Gdb
pub mod Mmu
pub mod Util
pub mod Cpu
pub mod Disas
pub mod Interpreter
pub mod Kernel
pub mod Ipc
pub mod Services
pub mod Svc
pub mod Loader
pub mod Boot
pub mod Tests
