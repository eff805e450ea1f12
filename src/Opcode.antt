-- ===== src/Opcode.antt =====
-- The instructions of src/opcode. A table lists the instructions of one file in the order of their
-- codes; the numbers that a source macro pastes into names are arguments here, and the function that
-- takes the arguments (`E_LL_` and the like) has the name of the instruction. A trace is left out.
pub mod Mop0
pub mod Reads
pub mod Writes
pub mod FieldAccess
pub mod Mop1
pub mod Jumps
pub mod Arith
pub mod Mop2
pub mod Mop3
pub mod Esc
pub mod EscRegisters
pub mod EscMore
pub mod Block
pub mod BitBlt
pub mod Control
pub mod Process
pub mod Interpreter
pub mod Safety
use mesa_emulator_unix.Common.{ℕ, Option, none, some}
use mesa_emulator_unix.Action.{Action, ◌>>=◌, raise, pure, error}
use mesa_emulator_unix.Types.{NibblePair, nibble_pair, FieldDesc, field_desc}
use mesa_emulator_unix.Machine.{Machine}
use mesa_emulator_unix.Machine.Access.{get_code_byte, get_code_word}

abbrev pub Instruction : Type 0
Instruction = Action Machine (Unit {0})

-- An instruction whose argument is the next byte or word of the code, the two halves of the next
-- byte, or the two bytes of the next word.
unfoldable pub with_byte : (ℕ → Instruction) → Instruction
with_byte f = do arg ← get_code_byte; f arg

unfoldable pub with_word : (ℕ → Instruction) → Instruction
with_word f = do arg ← get_code_word; f arg

unfoldable pub with_pair : (ℕ → ℕ → Instruction) → Instruction
with_pair f = do byte ← get_code_byte; f (nibble_pair byte).left (nibble_pair byte).right

unfoldable pub with_desc : (ℕ → ℕ → Instruction) → Instruction
with_desc f = do word ← get_code_word; f (field_desc word).offset (field_desc word).field

-- The result of `ReadField` or `WriteField`, which may call ERROR().
unfoldable pub or_error : Option ℕ → Action Machine ℕ
or_error none = raise error
or_error (some value) = pure value
