-- ===== src/Opcode/Process/Fields.antt =====
-- The bit fields of the process data (src/mesa/Type.h): a field that is written is read back, and the
-- others stay.
use mesa_emulator_unix.Common.{ℕ, ◌%◌, ◌<◌, ◌≡◌, Bool, true, false, arith}
use mesa_emulator_unix.Opcode.Process.{
  psb_field, with_psb, bit0, bit1, bit2, with_bit0, with_bit1, with_bit2, priority,
}

-- A word whose block is set has that block, and the priority and the three low bits of the old word;
-- a word of 16 bits stays one.
pub with_psb_lem :
    (u psb : ℕ)
    → (psb_field (with_psb u psb) ≡ psb % 1024)
      × (priority (with_psb u psb) ≡ priority u)
      × (bit0 (with_psb u psb) ≡ bit0 u)
      × (bit1 (with_psb u psb) ≡ bit1 u)
      × (bit2 (with_psb u psb) ≡ bit2 u)
      × (u < 65536 → with_psb u psb < 65536)
unfolding psb_field with_psb priority bit0 bit1 bit2
with_psb_lem u psb =
    (omega arith, omega arith, ground arith, ground arith, ground arith, λ h. omega arith)

low_bits_lem :
    (u : ℕ) (b : Bool)
    → (bit0 (with_bit0 u b) ≡ b) × (bit1 (with_bit1 u b) ≡ b) × (bit2 (with_bit2 u b) ≡ b)
unfolding bit0 bit1 bit2 with_bit0 with_bit1 with_bit2
low_bits_lem u true = (ground arith, ground arith, ground arith)
low_bits_lem u false = (ground arith, ground arith, ground arith)

-- The block of a word is what it was once it is set back.
pub with_psb-with_psb : (u psb : ℕ) → psb_field u ≡ 0 → with_psb (with_psb u psb) 0 ≡ u
unfolding psb_field with_psb
with_psb-with_psb u psb e = omega arith
