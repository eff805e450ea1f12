-- ===== src/Opcode/Control/Frames.antt =====
-- Alloc and Free of src/opcode/Opcode_control.cpp, with AF and FF.
use mesa_emulator_unix.Common.{ℕ, zero, suc, not, leb, ◌==◌, if◌then◌else◌, u8}
use mesa_emulator_unix.Action.{
  Action, ◌>>=◌, ◌>>◌, pure, raise, raise_if, error, fault, frame_fault, diverges,
}
use mesa_emulator_unix.Types.{low_byte}
use mesa_emulator_unix.Machine.{Machine, push, pop}
use mesa_emulator_unix.Machine.Words.{read_mds, write_mds}
use mesa_emulator_unix.Opcode.{Instruction}
use mesa_emulator_unix.Opcode.Control.{lo_offset, lo_word, av_slot, av_tag, av_data}

-- AVLink and AVFrame
unfoldable pub av_frame : ℕ → Action Machine ℕ
av_frame u = if not (av_tag u == 0) then raise error else pure u

-- The loop of Alloc: the slot that indirect items lead to, and its item. A read changes no item, so
-- a walk that has not ended after 256 slots has met one twice, and never ends.
unfoldable pub alloc_slot : ℕ → ℕ → Action Machine (ℕ × ℕ)
alloc_slot zero slot = raise diverges
alloc_slot (suc fuel) slot = do
  item ← read_mds (av_slot slot)
  let rest = alloc_slot fuel (av_data item)
  (if not (av_tag item == 2)
      then pure (slot, item)
      else (if leb 256 (av_data item) then raise error else rest))

abbrev pub slots : ℕ
slots = 257

unfoldable pub alloc : ℕ → Action Machine ℕ
alloc fsi = do
  (slot, item) ← alloc_slot slots fsi
  raise_if (av_tag item == 1) (fault (frame_fault fsi))
  link ← av_frame item
  next ← read_mds link
  write_mds (av_slot slot) next
  av_frame item

unfoldable pub free : ℕ → Instruction
free frame = do
  word ← read_mds (lo_offset frame lo_word)
  item ← read_mds (av_slot (low_byte word))
  write_mds frame item
  write_mds (av_slot (low_byte word)) frame

-- The parameter of Alloc is an FSIndex, CARD8.
unfoldable pub e_af : Instruction
e_af = do fsi ← pop; frame ← alloc (u8 fsi); push frame

unfoldable pub e_ff : Instruction
e_ff = do frame ← pop; free frame
