-- ===== src/Opcode/Control.antt =====
-- src/opcode/Opcode_control.cpp: frames, control transfers, traps and calls, with the control links
-- and the overhead words of src/mesa/Type.h. A trap or a fault stops the function that raises it;
-- what the C++ code does at that point, before it throws `Abort`, is in Control/Traps and Process.
pub mod Frames
pub mod Xfer
pub mod Calls
pub mod Traps
pub mod FrameLists
use mesa_emulator_unix.Common.{
  ℕ, ◌+◌, ◌*◌, ◌/◌, ◌%◌, Bool, true, false, ◌==◌, if◌then◌else◌, u16, sub16, sub32,
}

-- LO_OFFSET for the fields `word`, `returnlink`, `globallink` and `pc` of LocalOverhead.
abbrev pub lo_offset : ℕ → ℕ → ℕ
lo_offset frame field = u16 (sub16 frame 4 + field)

abbrev pub lo_word : ℕ
lo_word = 0

abbrev pub lo_returnlink : ℕ
lo_returnlink = 1

abbrev pub lo_globallink : ℕ
lo_globallink = 2

abbrev pub lo_pc : ℕ
lo_pc = 3

-- GO_OFFSET(gf, word)
abbrev pub go_word : ℕ → ℕ
go_word gf = sub32 gf 2 + 1

-- GFT_OFFSET for the fields `globalFrame` and `codebase`; `GFT` is mGFT.
abbrev pub gft_global_frame : ℕ → ℕ
gft_global_frame n = 131072 + n / 4 * 4

abbrev pub gft_codebase : ℕ → ℕ
gft_codebase n = 131072 + n / 4 * 4 + 2

-- `AV + OFFSET_AV(slot)`, `SD + OFFSET_SD(n)` and `ETT + OFFSET_ETT(n)`
abbrev pub av_slot : ℕ → ℕ
av_slot slot = 256 + slot

abbrev pub sd_item : ℕ → ℕ
sd_item n = 512 + n * 2

abbrev pub ett_item : ℕ → ℕ
ett_item n = 1024 + n * 2

-- AVItem
abbrev pub av_tag : ℕ → ℕ
av_tag u = u % 4

abbrev pub av_data : ℕ → ℕ
av_data u = u / 4

pub data LinkType : Type 0 where
  frame old_procedure indirect new_procedure : LinkType

-- ControlLinkType
unfoldable pub control_link_type : ℕ → LinkType
control_link_type link =
    if link % 4 == 0
    then frame
    else (if link % 4 == 1
        then old_procedure
        else (if link % 4 == 2 then indirect else new_procedure))

pub data XferType : Type 0 where
  return call local_call port xfer trap process_switch : XferType

abbrev pub is_trap : XferType → Bool
is_trap trap = true
is_trap _ = false

-- `XferType` as the number that an XFER trap stores.
abbrev pub xfer_code : XferType → ℕ
xfer_code return = 0
xfer_code call = 1
xfer_code local_call = 2
xfer_code port = 3
xfer_code xfer = 4
xfer_code trap = 5
xfer_code process_switch = 6

-- ValidContext of src/mesa/Function.h: SIZE(CodeSegment) is 4.
abbrev pub first_pc : ℕ
first_pc = 8
