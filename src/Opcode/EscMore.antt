-- ===== src/Opcode/EscMore.antt =====
-- The instructions of src/opcode/OpcodeEsc.cpp on numbers of 32 bits and signed ones, DMUL, SDIV and UDDIV,
-- those that save the stack, DSK and LSK, and the instructions of src/opcode/Opcode_special.cpp that call
-- neither an agent nor the processor thread: MAPDISPLAY, VERSION, A214, A305 and A306.
pub mod Signed
use mesa_emulator_unix.Common.{
  ℕ, ◌+◌, ◌-◌, ◌*◌, ◌/◌, ◌%◌, Bool, not, ltb, ◌==◌, if◌then◌else◌, u16, u32, List, [], ◌∷◌,
}
use mesa_emulator_unix.Action.{◌>>=◌, ◌>>◌, gets, skip, raise_if, error, trap, div_zero_trap}
use mesa_emulator_unix.Memory.DisplayPages.{map_display}
use mesa_emulator_unix.Machine.{push, pop, push_long, pop_long, discard, on_memory}
use mesa_emulator_unix.Machine.Access.{lengthen_pointer}
use mesa_emulator_unix.Opcode.{Instruction, with_byte}
use mesa_emulator_unix.Opcode.Control.Traps.{save_stack, load_stack}

-- `POINTER state = LF + arg; SaveStack(LengthenPointer(state));`
unfoldable pub e_dsk : ℕ → Instruction
e_dsk arg = do lf ← gets (λ s. s.lf); state ← lengthen_pointer (lf + arg); save_stack state

unfoldable pub e_lsk : ℕ → Instruction
e_lsk arg = do lf ← gets (λ s. s.lf); state ← lengthen_pointer (lf + arg); load_stack state

unfoldable pub e_dmul : Instruction
e_dmul = do t ← pop_long; s ← pop_long; push_long (u32 (s * t))

-- The size of the INT16 that a word stands for, its sign, and the word of the INT16 of a sign and a size.
abbrev pub size_of16 : ℕ → ℕ
size_of16 w = if ltb w 32768 then w else 65536 - w

abbrev pub is_negative16 : ℕ → Bool
is_negative16 w = not (ltb w 32768)

abbrev pub signed_word : Bool → ℕ → ℕ
signed_word negative size = if negative then u16 (65536 - size) else u16 size

-- `j / k` and `j % k` of two INT16, computed as `int` and cut to a word: the quotient is rounded towards
-- zero, and the remainder has the sign of `j`.
unfoldable pub quotient16 : ℕ → ℕ → ℕ
quotient16 j k =
    signed_word (if is_negative16 j then not (is_negative16 k) else is_negative16 k)
      (size_of16 j / size_of16 k)

unfoldable pub remainder16 : ℕ → ℕ → ℕ
remainder16 j k = signed_word (is_negative16 j) (size_of16 j % size_of16 k)

unfoldable pub e_sdiv : Instruction
e_sdiv = do
  k ← pop
  j ← pop
  raise_if (k == 0) (trap div_zero_trap)
  push (quotient16 j k)
  push (remainder16 j k)
  discard

unfoldable pub e_uddiv : Instruction
e_uddiv = do
  t ← pop_long
  s ← pop_long
  raise_if (t == 0) (trap div_zero_trap)
  push_long (s / t)
  push_long (s % t)
  discard
  discard

unfoldable pub e_mapdisplay : Instruction
e_mapdisplay = do
  in_block ← pop
  total ← pop
  rp ← pop_long
  vp ← pop_long
  raise_if (not (total == in_block)) error
  on_memory (map_display vp rp total)

-- `u0` of the VersionResult: machine type 8 in its highest four bits, and the bit of floating point.
unfoldable pub e_version : Instruction
e_version = do push (8 * 4096 + 2); push 40908

unfoldable pub e_214 : Instruction
e_214 = do _ ← pop_long; _ ← pop_long; _ ← pop_long; push 0

unfoldable pub e_305 : Instruction
e_305 = skip

unfoldable pub e_306 : Instruction
e_306 = do _ ← pop; push 0

-- The instructions above but LSK, which takes SP from memory, and MAPDISPLAY.
unfoldable pub more_codes : List Instruction
more_codes = with_byte e_dsk ∷ e_dmul ∷ e_sdiv ∷ e_uddiv ∷ e_version ∷ e_214 ∷ e_305 ∷ e_306 ∷ []
