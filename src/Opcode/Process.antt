-- ===== src/Opcode/Process.antt =====
-- src/opcode/Opcode_process.cpp: the process data area, with the words of src/mesa/Type.h that it is
-- made of. A bit field is a quotient and a remainder of its word; `next`, `cleanup` and `tail` have
-- the same ten bits of PsbLink, PsbFlags, Monitor, Condition and Queue.
pub mod Queues
pub mod Save
pub mod Conditions
pub mod Schedule
pub mod Monitors
pub mod Fields
pub mod Rings
pub mod Insertion
pub mod Enqueue
pub mod Removal
use mesa_emulator_unix.Common.{ℕ, ◌+◌, ◌*◌, ◌/◌, ◌%◌, Bool, ◌==◌, if◌then◌else◌, u16}

-- The offsets of `block[psb].link`, `flags`, `context`, `timeout` and `mds` in ProcessDataArea.
abbrev pub link_of : ℕ → ℕ
link_of psb = psb * 8

abbrev pub flags_of : ℕ → ℕ
flags_of psb = psb * 8 + 1

abbrev pub context_of : ℕ → ℕ
context_of psb = psb * 8 + 2

abbrev pub timeout_of : ℕ → ℕ
timeout_of psb = psb * 8 + 3

abbrev pub mds_of : ℕ → ℕ
mds_of psb = psb * 8 + 4

-- `ready`, `count`, `state[pri]`, `interrupt[level].condition`, and the two words of `fault[fi]`.
abbrev pub ready : ℕ
ready = 0

abbrev pub count : ℕ
count = 1

abbrev pub state_of : ℕ → ℕ
state_of pri = 8 + pri

abbrev pub interrupt_condition : ℕ → ℕ
interrupt_condition level = 16 + level * 2

abbrev pub fault_queue : ℕ → ℕ
fault_queue fi = 48 + fi * 2

abbrev pub fault_condition : ℕ → ℕ
fault_condition fi = 49 + fi * 2

abbrev pub start_psb : ℕ
start_psb = 8

-- Handle and Index
abbrev pub handle : ℕ → ℕ
handle index = u16 (index * 8)

abbrev pub index : ℕ → ℕ
index h = h / 8

-- StateVector
abbrev pub sv_frame : ℕ
sv_frame = 15

abbrev pub sv_data : ℕ
sv_data = 16

-- `next`, `cleanup` or `tail` of a word, read and set.
unfoldable pub psb_field : ℕ → ℕ
psb_field u = u / 8 % 1024

unfoldable pub with_psb : ℕ → ℕ → ℕ
with_psb u psb = u / 8192 * 8192 + psb % 1024 * 8 + u % 8

-- The low three bits: PsbLink has `preempted`, `permanent` and `failed`, PsbFlags `abort` and `waiting`,
-- Monitor `locked`, Condition `wakeup` and `abortable`.
unfoldable pub bit0 : ℕ → Bool
bit0 u = u % 2 == 1

unfoldable pub bit1 : ℕ → Bool
bit1 u = u / 2 % 2 == 1

unfoldable pub bit2 : ℕ → Bool
bit2 u = u / 4 % 2 == 1

unfoldable pub with_bit0 : ℕ → Bool → ℕ
with_bit0 u b = u / 2 * 2 + (if b then 1 else 0)

unfoldable pub with_bit1 : ℕ → Bool → ℕ
with_bit1 u b = u / 4 * 4 + (if b then 2 else 0) + u % 2

unfoldable pub with_bit2 : ℕ → Bool → ℕ
with_bit2 u b = u / 8 * 8 + (if b then 4 else 0) + u % 4

unfoldable pub priority : ℕ → ℕ
priority u = u / 8192

unfoldable pub with_priority : ℕ → ℕ → ℕ
with_priority u pri = pri % 8 * 8192 + u % 8192
