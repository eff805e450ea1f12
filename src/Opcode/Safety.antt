-- ===== src/Opcode/Safety.antt =====
-- Instructions of Opcode that keep the invariant of the machine (Machine/Safe). Those that load the stack
-- from memory (LSK, BRK and what reschedules), CKSUM and MAPDISPLAY are not among them, nor are the
-- constants and addresses of Opcode/Mop3, which only push.
pub mod Mop0
pub mod Reads
pub mod Writes
pub mod FieldAccess
pub mod Mop1
pub mod Jumps
pub mod Arith
pub mod Esc
pub mod EscRegisters
pub mod EscMore
pub mod Block
pub mod BitBlt
pub mod Tables
pub mod Transfers
pub mod Monitors
use mesa_emulator_unix.Common.{ℕ, Option, none, some}
use mesa_emulator_unix.Action.{Action, ◌>>=◌, raise, pure}
use mesa_emulator_unix.Machine.{Machine}
use mesa_emulator_unix.Machine.Safe.{Safe}
use mesa_emulator_unix.Machine.Safe.Rules.{instruction}
use mesa_emulator_unix.Opcode.{or_error}

pub Safe-or_error :
    {size n : ℕ} {B : Type 0} (o : Option ℕ) (f : ℕ → Action Machine B)
    → ((v : ℕ) → Safe size n (f v))
    → Safe size n (or_error o >>= f)
unfolding or_error ◌>>=◌ raise pure
Safe-or_error none f k = record { at = λ s r. (tt, r.fine) }
Safe-or_error (some v) f k = record { at = λ s r. (k v).at s r }
