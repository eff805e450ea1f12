-- ===== src/Lib.antt =====
-- The Mesa emulator: the memory and its page cache, the registers with the evaluation stack, and the
-- instructions of the main table, with the control transfers, the processes, the block and bit block
-- transfers, and some of the extended instructions; and the byte buffers that its tools and agents use.
--
-- The emulator keeps a map from virtual to real pages (src/mesa/memory.cpp). A cache in front of it
-- (src/mesa/memory.h) turns a virtual address into a pointer and sets the map's flags; the access
-- functions behind it (Fetch, Store, ReadDbl, GetCodeByte and their like) add the registers of
-- src/mesa/Variable.h. Each instruction (src/opcode/OpcodeMop0xx.cpp to OpcodeMop3xx.cpp,
-- OpcodeEsc.cpp, Opcode_block.cpp, Opcode_bitblt.cpp, Opcode_special.cpp, Opcode_control.cpp,
-- Opcode_process.cpp) is a function of these, and `Execute`
-- (src/opcode/opcode.h) runs the one that the next code byte selects. A trap or a fault saves what it
-- has to and enters its handler by XFER or by the scheduler, and then throws `Abort`.
--
-- Files and what they model:
--   Common                  casts to CARD8, CARD16 and CARD32, Boolean tests, bits, lists
--   Action                  the ways a function may end: a value, or a C++ exception, or behaviour that
--                           C++ leaves undefined, each with the state that it leaves
--   Types                   unions, shifts and bit fields of src/mesa/Type.h; ReadField and WriteField
--   Memory                  FetchPage, StorePage, peek, isVacant, ReadMap, WriteMap; Memory/Cache has
--                           cache::fetch and cache::store, Memory/Init initialize, Memory/DisplayPages
--                           reserveDisplayPage and mapDisplay, Memory/Coherent the cache's invariant
--   Machine                 push, pop, pushLong, popLong, recover, discard; Machine/Access has Fetch to
--                           FetchLink, Machine/Safe the invariant of the machine and its rules,
--                           Machine/Stack the stack as a list, Machine/Registers the assignments to the
--                           registers, Machine/Words whole words of virtual memory, and Machine/Flat
--                           programs over them, Machine/Flat/Pointers those that keep a pointer;
--                           Memory/Flat is what they rest on
--   Opcode                  Mop0, Reads, Writes, FieldAccess, Mop1, Jumps, Arith, Mop2, Mop3, Esc,
--                           EscRegisters, EscMore, Block and BitBlt have the instructions (`E_LL_` is
--                           `e_ll`), Interpreter Dispatch and Execute, Safety the proofs that instructions keep the invariant; Control and
--                           Process have Opcode_control.cpp and Opcode_process.cpp, in the files
--                           Frames, Xfer, Calls and Traps, and Queues, Save, Conditions, Schedule and
--                           Monitors; Control/FrameLists, Process/Rings, Process/Insertion,
--                           Process/Enqueue and Process/Removal have the proofs on words, Block/Copies,
--                           Block/Transfers, Block/Checksums and EscMore/Signed those on what the
--                           instructions compute
--   ByteBuffer              src/util/ByteBuffer.h and ByteBuffer.cpp; ByteBuffer/RoundTrip and
--                           ByteBuffer/Safety have the proofs
--   Examples                concrete runs
--
-- Conventions. A function of the program is an `Action`: it takes the state and returns a value with
-- a new state, or stops in a state. A pointer into real memory is the index of its word. Every
-- conversion to a narrower type is a remainder; a signed operand is its bit pattern. A null page and an
-- index outside an array stop with `undefined`. The loops of `initialize` and `mapDisplay` recurse on
-- their counts. A loop of the source that may never end takes fuel, and stops with `diverges` when it is
-- spent: Alloc has 257 rounds for its 256 slots, XFER 65,537 for the indirect links of one data space, a
-- walk along a ring of processes 1,025 for the 1,024 blocks. These loops only read, so one that takes
-- more has met a place twice and never ends; BC takes a block off its queue in each round,
-- TimeoutScan has 65,536 rounds for the blocks of a CARD16 index, and with a count of 65,528 or more it never
-- ends; BYTBLT and BYTBLTR count down a word in each of their 65,536 rounds, and a block
-- transfer copies a word or more in each of as many rounds as there are words. `stop` with a
-- trap or a fault is the state of the raise; `handle_trap`, `handle_fault` and `settle` go on from there.
--
-- Not modelled: SDDIV of src/opcode/OpcodeEsc.cpp, CALLAGENT and STOPEMULATOR of Opcode_special.cpp, and
-- VMFIND; the statistics, the traces,
-- and the observers of the registers; the agents, tools and host threads, which are input and output.
pub mod ByteBuffer
pub mod Common
pub mod Action
pub mod Types
pub mod Memory
pub mod Machine
pub mod Opcode
pub mod Examples
