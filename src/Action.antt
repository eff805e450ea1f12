-- ===== src/Action.antt =====
-- The effects of the emulator's C++ functions: they read and write global variables, and leave by
-- throwing. `Abort` (mesa/MesaBasic.h) is thrown behind each trap and fault of mesa/Function.h;
-- the value of `Stop` says which of them was raised. `ERROR()` (util/Util.h) throws `ErrorError`.
-- `diverges` stands for a loop that never ends, and is found by fuel that no other run uses up.
-- `undefined` stands for what C++ leaves undefined: an index outside an array, a null page.
use mesa_emulator_unix.Common.{ℕ, Bool, if◌then◌else◌}

pub data Trap : Type 0 where
  stack_error bounds_trap break_trap div_check_trap div_zero_trap interrupt_error : Trap
  pointer_trap process_trap reschedule_error hardware_error : Trap
  esc_opcode_trap opcode_trap code_trap control_trap unbound_trap : ℕ → Trap
  xfer_trap : ℕ → ℕ → Trap

pub data Fault : Type 0 where
  page_fault write_protect_fault frame_fault : ℕ → Fault

pub data Undefined : Type 0 where
  null_page index_out_of_range bad_shift : Undefined

pub data Stop : Type 0 where
  trap : Trap → Stop
  fault : Fault → Stop
  error : Stop
  diverges : Stop
  undefined : Undefined → Stop

pub data Outcome (S A : Type 0) : Type 0 where
  ok : A → S → Outcome S A
  stop : Stop → S → Outcome S A

abbrev pub Action : Type 0 → Type 0 → Type 0
Action S A = S → Outcome S A

module _ {S A B : Type 0} where
  abbrev pub and_then : Outcome S A → (A → Action S B) → Outcome S B
  and_then (ok a s) f = f a s
  and_then (stop c s) f = stop c s

  infixl 5 ◌>>=◌
  unfoldable pub ◌>>=◌ : Action S A → (A → Action S B) → Action S B
  ◌>>=◌ m f s = and_then (m s) f

infixl 5 ◌>>◌
abbrev pub ◌>>◌ : {S B : Type 0} → Action S (Unit {0}) → Action S B → Action S B
m >> k = m >>= λ _. k

module _ {S A : Type 0} where
  unfoldable pub pure : A → Action S A
  pure a s = ok a s

  unfoldable pub raise : Stop → Action S A
  raise c s = stop c s

  unfoldable pub gets : (S → A) → Action S A
  gets f s = ok (f s) s

unfoldable pub skip : {S : Type 0} → Action S (Unit {0})
skip s = ok tt s

unfoldable pub modify : {S : Type 0} → (S → S) → Action S (Unit {0})
modify f s = ok tt (f s)

-- `if (b) raise;` in front of the rest of a function.
unfoldable pub raise_if : {S : Type 0} → Bool → Stop → Action S (Unit {0})
raise_if b c s = if b then stop c s else ok tt s
