-- ===== src/Machine/Safe.antt =====
-- The invariant of the machine (src/mesa/Variable.h and memory.cpp), and rules that carry it
-- through the body of an instruction, statement by statement.
pub mod Steps
pub mod Pointers
pub mod Code
pub mod Rules
pub mod Stays
pub mod Statements
use mesa_emulator_unix.Common.{
  ℕ, zero, suc, ◌+◌, ◌*◌, ◌%◌, ◌≤◌, ◌<◌, ◌≡◌, refl, Bool, true, false, if◌then◌else◌,
}
use mesa_emulator_unix.Action.{
  Action, Outcome, Stop, trap, fault, error, diverges, and_then, ok, stop, undefined, null_page,
  index_out_of_range, bad_shift, ◌>>=◌, pure, gets,
}
use mesa_emulator_unix.Memory.Coherent.{IsCoherent, IsTame}
use mesa_emulator_unix.Memory.{Memory}
use mesa_emulator_unix.Machine.{Machine}

-- The parts of the state that the invariant is about; `size` is the number of real pages.
pub record PartsOk (size : ℕ) (memory : Memory) (storage : ℕ → ℕ) (sp pc saved_pc saved_sp mds : ℕ)
    : Type 0 where
  pub coherent : IsCoherent memory
  pub real_size : memory.rp_size ≡ size
  pub memory_words : (p : ℕ) → memory.words p < 65536
  pub stack_words : (i : ℕ) → storage i < 65536
  pub sp_bound : sp ≤ 14
  pub pc_word : pc < 65536
  pub saved_pc_word : saved_pc < 65536
  pub saved_sp_bound : saved_sp ≤ 14
  pub mds_aligned : mds % 65536 ≡ 0

abbrev pub IsOk : ℕ → Machine → Type 0
IsOk size s = PartsOk size s.memory s.storage s.sp s.pc s.saved_pc s.saved_sp s.mds

-- The stack has at least `n` words to spare.
pub record Room (size n : ℕ) (s : Machine) : Type 0 where
  pub fine : IsOk size s
  pub spare : s.sp + n ≤ 14

-- How a run may end: the invariant holds, and no array was left. Of a null page nothing is said.
abbrev pub StopsOk : ℕ → Stop → Machine → Type 0
StopsOk size (undefined null_page) s = Unit
StopsOk size c s = IsTame c × IsOk size s

abbrev pub EndsOk : ℕ → {A : Type 0} → Outcome Machine A → Type 0
EndsOk size (ok a s) = IsOk size s
EndsOk size (stop c s) = StopsOk size c s

pub record Safe (size n : ℕ) {A : Type 0} (m : Action Machine A) : Type 0 where
  pub at : (s : Machine) → Room size n s → EndsOk size (m s)

-- One statement, which leaves `k` words spare, with what is known of its value.
abbrev pub GivesOk : ℕ → ℕ → {A : Type 0} → (A → Type 0) → Outcome Machine A → Type 0
GivesOk size k V (ok a s) = V a × Room size k s
GivesOk size k V (stop c s) = StopsOk size c s

pub record Step (size n k : ℕ) {A : Type 0} (V : A → Type 0) (m : Action Machine A) : Type 0 where
  pub at : (s : Machine) → Room size n s → GivesOk size k V (m s)

module _ {size k : ℕ} {A B : Type 0} {V : A → Type 0} where
  bind-EndsOk :
      (f : A → Action Machine B)
      → ((a : A) → V a → Safe size k (f a))
      → (o : Outcome Machine A) → GivesOk size k V o
      → EndsOk size (and_then o f)
  bind-EndsOk f h (ok a s) g = (h a g.0).at s g.1
  bind-EndsOk f h (stop (trap x) s) g = g
  bind-EndsOk f h (stop (fault x) s) g = g
  bind-EndsOk f h (stop error s) g = g
  bind-EndsOk f h (stop diverges s) g = g
  bind-EndsOk f h (stop (undefined null_page) s) g = g
  bind-EndsOk f h (stop (undefined index_out_of_range) s) g = g
  bind-EndsOk f h (stop (undefined bad_shift) s) g = g

module _ (size k : ℕ) {A : Type 0} (V : A → Type 0) where
  last-EndsOk : (o : Outcome Machine A) → GivesOk size k V o → EndsOk size o
  last-EndsOk (ok a s) g = g.1.fine
  last-EndsOk (stop (trap x) s) g = g
  last-EndsOk (stop (fault x) s) g = g
  last-EndsOk (stop error s) g = g
  last-EndsOk (stop diverges s) g = g
  last-EndsOk (stop (undefined null_page) s) g = g
  last-EndsOk (stop (undefined index_out_of_range) s) g = g
  last-EndsOk (stop (undefined bad_shift) s) g = g

module _ {size n k : ℕ} {A : Type 0} {V : A → Type 0} {m : Action Machine A} where
  pub Safe-bind :
      {B : Type 0}
      → Step size n k V m
      → (f : A → Action Machine B) → ((a : A) → V a → Safe size k (f a))
      → Safe size n (m >>= f)
  unfolding ◌>>=◌
  Safe-bind st f h = record { at = λ s r. bind-EndsOk f h (m s) (st.at s r) }

  pub Safe-last : Step size n k V m → Safe size n m
  Safe-last st = record { at = λ s r. last-EndsOk size k V (m s) (st.at s r) }

module _ (size l : ℕ) {A B : Type 0} (W : B → Type 0) where
  then-GivesOk :
      (k : ℕ) (V : A → Type 0) (f : A → Action Machine B)
      → ((a : A) → V a → Step size k l W (f a))
      → (o : Outcome Machine A) → GivesOk size k V o
      → GivesOk size l W (and_then o f)
  then-GivesOk k V f h (ok a s) g = (h a g.0).at s g.1
  then-GivesOk k V f h (stop (trap x) s) g = g
  then-GivesOk k V f h (stop (fault x) s) g = g
  then-GivesOk k V f h (stop error s) g = g
  then-GivesOk k V f h (stop diverges s) g = g
  then-GivesOk k V f h (stop (undefined null_page) s) g = g
  then-GivesOk k V f h (stop (undefined index_out_of_range) s) g = g
  then-GivesOk k V f h (stop (undefined bad_shift) s) g = g

module _ {size n k l : ℕ} {A B : Type 0} {V : A → Type 0} {W : B → Type 0}
    {m : Action Machine A} where
  pub Step-bind :
      Step size n k V m
      → (f : A → Action Machine B) → ((a : A) → V a → Step size k l W (f a))
      → Step size n l W (m >>= f)
  unfolding ◌>>=◌
  Step-bind st f h = record { at = λ s r. then-GivesOk size l W k V f h (m s) (st.at s r) }

module _ {size n : ℕ} {A : Type 0} {V : A → Type 0} where
  pub Step-pure : (a : A) → V a → Step size n n V (pure a)
  unfolding pure
  Step-pure a v = record { at = λ s r. (v, r) }

  pub Step-gets :
      (f : Machine → A) → ((s : Machine) → IsOk size s → V (f s)) → Step size n n V (gets f)
  unfolding gets
  Step-gets f h = record { at = λ s r. (h s r.fine, r) }

  pub Step-if :
      {k : ℕ} (b : Bool) {x y : Action Machine A}
      → (b ≡ true → Step size n k V x)
      → (b ≡ false → Step size n k V y)
      → Step size n k V (if b then x else y)
  Step-if true h g = h refl
  Step-if false h g = g refl

module _ (size k : ℕ) {A : Type 0} (V W : A → Type 0) (h : (a : A) → V a → W a) where
  weaken-GivesOk : (o : Outcome Machine A) → GivesOk size k V o → GivesOk size k W o
  weaken-GivesOk (ok a s) g = (h a g.0, g.1)
  weaken-GivesOk (stop (trap x) s) g = g
  weaken-GivesOk (stop (fault x) s) g = g
  weaken-GivesOk (stop error s) g = g
  weaken-GivesOk (stop diverges s) g = g
  weaken-GivesOk (stop (undefined null_page) s) g = g
  weaken-GivesOk (stop (undefined index_out_of_range) s) g = g
  weaken-GivesOk (stop (undefined bad_shift) s) g = g

pub Step-weaken :
    {size n k : ℕ} {A : Type 0} {V W : A → Type 0} {m : Action Machine A}
    → ((a : A) → V a → W a)
    → Step size n k V m
    → Step size n k W m
Step-weaken {size} {n} {k} {A} {V} {W} h st = record {
  at = λ s r. weaken-GivesOk size k V W h _ (st.at s r);
}
