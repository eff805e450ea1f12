-- ===== src/Machine/Safe/Stays.antt =====
-- Rules for the actions that leave the stack as it is: each can stand anywhere in a body. They are
-- the statements of the control transfers and of the processes (src/opcode/Opcode_control.cpp and
-- Opcode_process.cpp).
use mesa_emulator_unix.Common.{ℕ, ◌≤◌, Bool, true, false, arith, if◌then◌else◌}
use mesa_emulator_unix.Action.{
  Action, Outcome, Stop, ok, stop, trap, fault, error, diverges, undefined, null_page,
  index_out_of_range, bad_shift, ◌>>=◌, pure, skip, gets, raise, raise_if,
}
use mesa_emulator_unix.Memory.Coherent.{IsTame}
use mesa_emulator_unix.Machine.{Machine}
use mesa_emulator_unix.Machine.Safe.{
  IsOk, GivesOk, StopsOk, Safe, Step, Safe-bind, Safe-last, Step-bind, Step-if, Step-weaken,
}

abbrev pub Stays : ℕ → ℕ → {A : Type 0} → Action Machine A → Type 0
Stays size n m = Step size n n (λ _. Unit {0}) m

module _ (size k l : ℕ) {A : Type 0} (V : A → Type 0) (h : l ≤ k) where
  spare-GivesOk : (o : Outcome Machine A) → GivesOk size k V o → GivesOk size l V o
  spare-GivesOk (ok a s) g = (g.0, record { fine = g.1.fine; spare = omega (arith, g.1.spare) })
  spare-GivesOk (stop (trap x) s) g = g
  spare-GivesOk (stop (fault x) s) g = g
  spare-GivesOk (stop error s) g = g
  spare-GivesOk (stop diverges s) g = g
  spare-GivesOk (stop (undefined null_page) s) g = g
  spare-GivesOk (stop (undefined index_out_of_range) s) g = g
  spare-GivesOk (stop (undefined bad_shift) s) g = g

pub Step-spare :
    {size n k l : ℕ} {A : Type 0} {V : A → Type 0} {m : Action Machine A}
    → Step size n k V m
    → l ≤ k
    → Step size n l V m
Step-spare {size} {n} {k} {l} {A} {V} st h = record {
  at = λ s r. spare-GivesOk size k l V h _ (st.at s r);
}

tame-StopsOk : {size : ℕ} (c : Stop) (s : Machine) → IsTame c → IsOk size s → StopsOk size c s
tame-StopsOk (trap x) s h k = (h, k)
tame-StopsOk (fault x) s h k = (h, k)
tame-StopsOk error s h k = (h, k)
tame-StopsOk diverges s h k = (h, k)
tame-StopsOk (undefined null_page) s h k = tt
tame-StopsOk (undefined index_out_of_range) s h k = (h, k)
tame-StopsOk (undefined bad_shift) s h k = (h, k)

module _ {size n : ℕ} {A B : Type 0} {m : Action Machine A} where
  pub Safe-then :
      (f : A → Action Machine B)
      → Stays size n m
      → ((a : A) → Safe size n (f a))
      → Safe size n (m >>= f)
  Safe-then f st k = Safe-bind st f (λ a _. k a)

  pub Stays-then :
      (f : A → Action Machine B)
      → Stays size n m
      → ((a : A) → Stays size n (f a))
      → Stays size n (m >>= f)
  Stays-then f st k = Step-bind st f (λ a _. k a)

module _ {size n : ℕ} {A : Type 0} where
  pub Safe-end : {m : Action Machine A} → Stays size n m → Safe size n m
  Safe-end st = Safe-last st

  pub Step-Stays : {V : A → Type 0} {m : Action Machine A} → Step size n n V m → Stays size n m
  Step-Stays st = Step-weaken (λ a v. tt) st

  pub pure-Stays : (a : A) → Stays size n (pure a)
  unfolding pure
  pure-Stays a = record { at = λ s r. (tt, r) }

  pub gets-Stays : (f : Machine → A) → Stays size n (gets f)
  unfolding gets
  gets-Stays f = record { at = λ s r. (tt, r) }

  pub if-Stays :
      (b : Bool) {x y : Action Machine A}
      → Stays size n x
      → Stays size n y
      → Stays size n (if b then x else y)
  if-Stays b h g = Step-if b (λ _. h) (λ _. g)

  pub raise-Stays : (c : Stop) → IsTame c → Stays size n (raise {S = Machine} {A = A} c)
  unfolding raise
  raise-Stays c h = record { at = λ s r. tame-StopsOk c s h r.fine }

module _ {size n : ℕ} where
  pub skip-Stays : Stays size n (skip {S = Machine})
  unfolding skip
  skip-Stays = record { at = λ s r. (tt, r) }

  pub raise_if-Stays : (b : Bool) (c : Stop) → IsTame c → Stays size n (raise_if {S = Machine} b c)
  unfolding raise_if
  raise_if-Stays true c h = record { at = λ s r. tame-StopsOk c s h r.fine }
  raise_if-Stays false c h = record { at = λ s r. (tt, r) }
