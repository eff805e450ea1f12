-- ===== src/Machine.antt =====
-- The registers and the evaluation stack of src/mesa/Variable.h, and the ways to memory of
-- src/mesa/memory.h that use them. `SP` and `PC` are CARD16 variables. A stack index outside
-- `storage[StackDepth]` is undefined in C++ where the code does not test it.
pub mod Access
pub mod Registers
pub mod Words
pub mod Stack
pub mod Safe
pub mod Flat
use mesa_emulator_unix.Common.{
  ℕ, ◌+◌, ◌-◌, ◌*◌, ◌/◌, ◌%◌, bit_or, Bool, true, false, ltb, leb, ◌==◌, if◌then◌else◌, update, u16,
  u32,
}
use mesa_emulator_unix.Action.{
  Action, Outcome, Stop, trap, stack_error, undefined, index_out_of_range, ok, stop,
}
use mesa_emulator_unix.Memory.{Memory}

pub record Machine : Type 0 where
  pub memory : Memory
  pub storage : ℕ → ℕ
  pub sp : ℕ
  pub pc : ℕ
  pub lf : ℕ
  pub gf : ℕ
  pub cb : ℕ
  pub mds : ℕ
  pub gfi : ℕ
  pub psb : ℕ
  pub mp : ℕ
  pub wp : ℕ
  pub wdc : ℕ
  pub ptc : ℕ
  pub xts : ℕ
  pub break_byte : ℕ
  pub saved_pc : ℕ
  pub saved_sp : ℕ
  pub running : Bool
  pub timeout_time : ℕ

abbrev pub stack_depth : ℕ
stack_depth = 14

module _ {A : Type 0} where
  abbrev pub with_memory : Machine → Outcome Memory A → Outcome Machine A
  with_memory s (ok a t) = ok a (record s { memory = t })
  with_memory s (stop c t) = stop c (record s { memory = t })

  -- A function of src/mesa/memory.cpp, called on the machine's memory.
  unfoldable pub on_memory : Action Memory A → Action Machine A
  on_memory m s = with_memory s (m s.memory)

-- `SP++` and `SP--`, which the instructions use behind a `Pop` or a `Push`.
unfoldable pub sp_inc : Action Machine (Unit {0})
sp_inc s = ok tt (record s { sp = u16 (s.sp + 1) })

unfoldable pub sp_dec : Action Machine (Unit {0})
sp_dec s = ok tt (record s { sp = u16 (s.sp + 65535) })

unfoldable pub set_pc : ℕ → Action Machine (Unit {0})
set_pc pc s = ok tt (record s { pc = u16 pc })

-- VariableStack::recover
unfoldable pub recover : Action Machine (Unit {0})
recover s =
    if s.sp == stack_depth
    then stop (trap stack_error) s
    else ok tt (record s { sp = u16 (s.sp + 1) })

-- VariableStack::discard
unfoldable pub discard : Action Machine (Unit {0})
discard s =
    if s.sp == 0 then stop (trap stack_error) s else ok tt (record s { sp = u16 (s.sp + 65535) })

-- VariableStack::push; the conversion of `value` is that of its parameter, CARD16.
unfoldable pub push : ℕ → Action Machine (Unit {0})
push value s =
    if s.sp == stack_depth
    then stop (trap stack_error) s
    else (if ltb s.sp stack_depth
        then ok tt (record s { storage = update s.storage s.sp (u16 value); sp = u16 (s.sp + 1) })
        else stop (undefined index_out_of_range) s)

-- VariableStack::pop
unfoldable pub pop : Action Machine ℕ
pop s =
    if s.sp == 0
    then stop (trap stack_error) s
    else (if leb s.sp stack_depth
        then ok (s.storage (s.sp - 1)) (record s { sp = s.sp - 1 })
        else stop (undefined index_out_of_range) s)

-- VariableStack::pushLong
unfoldable pub push_long : ℕ → Action Machine (Unit {0})
push_long value s =
    if leb (stack_depth - 1) s.sp
    then stop (trap stack_error) s
    else ok tt (record s {
      storage = update (update s.storage s.sp (u16 value)) (s.sp + 1) (u16 (value / 65536));
      sp = u16 (s.sp + 2);
    })

-- VariableStack::popLong
unfoldable pub pop_long : Action Machine ℕ
pop_long s =
    if leb s.sp 1
    then stop (trap stack_error) s
    else (if leb s.sp stack_depth
        then ok (bit_or (s.storage (s.sp - 1) * 65536) (s.storage (s.sp - 2)))
            (record s { sp = s.sp - 2 })
        else stop (undefined index_out_of_range) s)

-- VariableStack::operator[], read and written.
unfoldable pub stack_at : ℕ → Action Machine ℕ
stack_at n s = if leb stack_depth n then stop (trap stack_error) s else ok (s.storage n) s

unfoldable pub set_stack_at : ℕ → ℕ → Action Machine (Unit {0})
set_stack_at n value s =
    if leb stack_depth n
    then stop (trap stack_error) s
    else ok tt (record s { storage = update s.storage n (u16 value) })
