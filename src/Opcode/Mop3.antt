-- ===== src/Opcode/Mop3.antt =====
-- src/opcode/OpcodeMop3xx.cpp: constants and addresses.
use mesa_emulator_unix.Common.{ℕ, ◌+◌, ◌*◌, bit_or, List, [], ◌∷◌, ◌==◌, if◌then◌else◌, u32}
use mesa_emulator_unix.Action.{◌>>=◌, ◌>>◌, gets, raise, error}
use mesa_emulator_unix.Machine.{push, pop, push_long}
use mesa_emulator_unix.Machine.Access.{lengthen_pointer}
use mesa_emulator_unix.Opcode.{Instruction, with_byte, with_word}

unfoldable pub e_li : ℕ → Instruction
e_li arg = do push arg

unfoldable pub e_lid : ℕ → Instruction
e_lid arg = do push_long arg

unfoldable pub e_la : ℕ → Instruction
e_la arg = do lf ← gets (λ s. s.lf); push (lf + arg)

unfoldable pub e_ga : ℕ → Instruction
e_ga arg = do gf ← gets (λ s. s.gf); push (gf + arg)

unfoldable pub e_lp : Instruction
e_lp = do ptr ← pop; long ← lengthen_pointer ptr; push_long (if ptr == 0 then 0 else long)

unfoldable pub e_lga : ℕ → Instruction
e_lga arg = do gf ← gets (λ s. s.gf); push_long (u32 (gf + arg))

unfoldable pub e_desc : ℕ → Instruction
e_desc arg = do gfi ← gets (λ s. s.gfi); push (bit_or gfi 3); push arg

unfoldable pub e_resrvd : Instruction
e_resrvd = do raise error

unfoldable pub immediate_codes : List Instruction
immediate_codes =
    e_li 0
    ∷ e_li 1
    ∷ e_li 2
    ∷ e_li 3
    ∷ e_li 4
    ∷ e_li 5
    ∷ e_li 6
    ∷ e_li 7
    ∷ e_li 8
    ∷ e_li 9
    ∷ e_li 10
    ∷ e_li 65535
    ∷ e_li 32768
    ∷ with_byte e_li
    ∷ with_word e_li
    ∷ with_byte (λ arg. e_li (bit_or 65280 arg))
    ∷ with_byte (λ arg. e_li (arg * 256))
    ∷ e_lid 0
    ∷ e_la 0
    ∷ e_la 1
    ∷ e_la 2
    ∷ e_la 3
    ∷ e_la 6
    ∷ e_la 8
    ∷ with_byte e_la
    ∷ with_word e_la
    ∷ e_ga 0
    ∷ e_ga 1
    ∷ with_byte e_ga
    ∷ with_word e_ga
    ∷ []

unfoldable pub address_codes : List Instruction
address_codes = e_lga 0 ∷ with_byte e_lga ∷ with_word e_lga ∷ with_word e_desc ∷ e_resrvd ∷ []
