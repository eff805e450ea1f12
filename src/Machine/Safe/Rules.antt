-- ===== src/Machine/Safe/Rules.antt =====
-- The rules of `Safe` for a statement and what follows it, in the form that `search` applies: one
-- for each register operation and each way to memory, collected in the ruleset `instruction`.
use mesa_emulator_unix.Common.{ℕ, suc, pred, ◌*◌, ◌<◌, true, false, Bool, if◌then◌else◌}
use mesa_emulator_unix.Action.{Action, ◌>>=◌, pure, gets, raise, raise_if, skip, error, trap, Trap}
use mesa_emulator_unix.Machine.{
  Machine, push, pop, push_long, pop_long, recover, discard, sp_inc, set_pc, stack_at, set_stack_at,
}
use mesa_emulator_unix.Machine.Access.{
  fetch, store, load, assign, lengthen_pointer, fetch_mds, store_mds, fetch_mds_pair,
  store_mds_pair, fetch_pair, store_pair, read_dbl, read_dbl_mds, read_code, get_code_byte,
  get_code_word, fetch_byte, store_byte, fetch_link,
}
use mesa_emulator_unix.Machine.Safe.{Safe, Safe-bind, Safe-last, Step-gets}
use mesa_emulator_unix.Machine.Safe.Steps.{
  pop-Step, pop_long-Step, push-Step, push_long-Step, recover-Step, discard-Step, stack_at-Step,
  set_stack_at-Step, push_long-sp_dec-Safe, sp_inc-Step,
}
use mesa_emulator_unix.Machine.Safe.Pointers.{
  fetch-Step, store-Step, load-Step, assign-Step, lengthen_pointer-Step, fetch_mds-Step,
  store_mds-Step, fetch_mds_pair-Step, store_mds_pair-Step, fetch_pair-Step, store_pair-Step,
  read_dbl-Step, read_dbl_mds-Step, read_code-Step,
}
use mesa_emulator_unix.Machine.Safe.Code.{
  jumped, get_code_byte-Step, get_code_word-Step, fetch_byte-Step, store_byte-Step, fetch_link-Step,
}

module _ {size n : ℕ} {B : Type 0} where
  pub Safe-pop :
      (f : ℕ → Action Machine B) → ((v : ℕ) → Safe size (suc n) (f v)) → Safe size n (pop >>= f)
  Safe-pop f k = Safe-bind pop-Step f (λ v _. k v)

  pub Safe-pop_long :
      (f : ℕ → Action Machine B)
      → ((a : ℕ) → Safe size (suc (suc n)) (f a))
      → Safe size n (pop_long >>= f)
  Safe-pop_long f k = Safe-bind pop_long-Step f (λ a _. k a)

  pub Safe-push :
      (v : ℕ) (f : Unit {0} → Action Machine B)
      → ((a : Unit {0}) → Safe size (pred n) (f a))
      → Safe size n (push v >>= f)
  Safe-push v f k = Safe-bind (push-Step v) f (λ a _. k a)

  pub Safe-push_long :
      (v : ℕ) (f : Unit {0} → Action Machine B)
      → ((a : Unit {0}) → Safe size (pred (pred n)) (f a))
      → Safe size n (push_long v >>= f)
  Safe-push_long v f k = Safe-bind (push_long-Step v) f (λ a _. k a)

  pub Safe-recover :
      (f : Unit {0} → Action Machine B)
      → ((a : Unit {0}) → Safe size (pred n) (f a))
      → Safe size n (recover >>= f)
  Safe-recover f k = Safe-bind recover-Step f (λ a _. k a)

  pub Safe-discard :
      (f : Unit {0} → Action Machine B)
      → ((a : Unit {0}) → Safe size (suc n) (f a))
      → Safe size n (discard >>= f)
  Safe-discard f k = Safe-bind discard-Step f (λ a _. k a)

  pub Safe-lengthen_pointer :
      (v : ℕ) (f : ℕ → Action Machine B)
      → ((a : ℕ) → Safe size (n) (f a))
      → Safe size n (lengthen_pointer v >>= f)
  Safe-lengthen_pointer v f k = Safe-bind (lengthen_pointer-Step v) f (λ a _. k a)

  pub Safe-read_dbl :
      (v : ℕ) (f : ℕ → Action Machine B)
      → ((a : ℕ) → Safe size (n) (f a))
      → Safe size n (read_dbl v >>= f)
  Safe-read_dbl v f k = Safe-bind (read_dbl-Step v) f (λ a _. k a)

  pub Safe-read_dbl_mds :
      (v : ℕ) (f : ℕ → Action Machine B)
      → ((a : ℕ) → Safe size (n) (f a))
      → Safe size n (read_dbl_mds v >>= f)
  Safe-read_dbl_mds v f k = Safe-bind (read_dbl_mds-Step v) f (λ a _. k a)

  pub Safe-read_code :
      (v : ℕ) (f : ℕ → Action Machine B)
      → ((a : ℕ) → Safe size (n) (f a))
      → Safe size n (read_code v >>= f)
  Safe-read_code v f k = Safe-bind (read_code-Step v) f (λ a _. k a)

  pub Safe-get_code_byte :
      (f : ℕ → Action Machine B)
      → ((a : ℕ) → Safe size (n) (f a))
      → Safe size n (get_code_byte >>= f)
  Safe-get_code_byte f k = Safe-bind get_code_byte-Step f (λ a _. k a)

  pub Safe-get_code_word :
      (f : ℕ → Action Machine B)
      → ((a : ℕ) → Safe size (n) (f a))
      → Safe size n (get_code_word >>= f)
  Safe-get_code_word f k = Safe-bind get_code_word-Step f (λ a _. k a)

  pub Safe-fetch_byte :
      (v w : ℕ) (f : ℕ → Action Machine B)
      → ((a : ℕ) → Safe size (n) (f a))
      → Safe size n (fetch_byte v w >>= f)
  Safe-fetch_byte v w f k = Safe-bind (fetch_byte-Step v w) f (λ a _. k a)

  pub Safe-store_byte :
      (v w x : ℕ) (f : Unit {0} → Action Machine B)
      → ((a : Unit {0}) → Safe size (n) (f a))
      → Safe size n (store_byte v w x >>= f)
  Safe-store_byte v w x f k = Safe-bind (store_byte-Step v w x) f (λ a _. k a)

  pub Safe-fetch_link :
      (v : ℕ) (f : ℕ → Action Machine B)
      → ((a : ℕ) → Safe size (n) (f a))
      → Safe size n (fetch_link v >>= f)
  Safe-fetch_link v f k = Safe-bind (fetch_link-Step v) f (λ a _. k a)

  pub Safe-fetch :
      (v : ℕ) (f : ℕ → Action Machine B)
      → ((p : ℕ) → p < size * 256 → Safe size n (f p))
      → Safe size n (fetch v >>= f)
  Safe-fetch v f k = Safe-bind (fetch-Step v) f (λ p h. k p h.0)

  pub Safe-store :
      (v : ℕ) (f : ℕ → Action Machine B)
      → ((p : ℕ) → p < size * 256 → Safe size n (f p))
      → Safe size n (store v >>= f)
  Safe-store v f k = Safe-bind (store-Step v) f (λ p h. k p h.0)

  pub Safe-fetch_mds :
      (v : ℕ) (f : ℕ → Action Machine B)
      → ((p : ℕ) → p < size * 256 → Safe size n (f p))
      → Safe size n (fetch_mds v >>= f)
  Safe-fetch_mds v f k = Safe-bind (fetch_mds-Step v) f (λ p h. k p h.0)

  pub Safe-store_mds :
      (v : ℕ) (f : ℕ → Action Machine B)
      → ((p : ℕ) → p < size * 256 → Safe size n (f p))
      → Safe size n (store_mds v >>= f)
  Safe-store_mds v f k = Safe-bind (store_mds-Step v) f (λ p h. k p h.0)

  pub Safe-fetch_pair :
      (v : ℕ) (f : ℕ × ℕ → Action Machine B)
      → ((p q : ℕ) → p < size * 256 → q < size * 256 → Safe size n (f (p, q)))
      → Safe size n (fetch_pair v >>= f)
  Safe-fetch_pair v f k = Safe-bind (fetch_pair-Step v) f (λ p h. k p.0 p.1 h.0 h.1)

  pub Safe-store_pair :
      (v : ℕ) (f : ℕ × ℕ → Action Machine B)
      → ((p q : ℕ) → p < size * 256 → q < size * 256 → Safe size n (f (p, q)))
      → Safe size n (store_pair v >>= f)
  Safe-store_pair v f k = Safe-bind (store_pair-Step v) f (λ p h. k p.0 p.1 h.0 h.1)

  pub Safe-fetch_mds_pair :
      (v : ℕ) (f : ℕ × ℕ → Action Machine B)
      → ((p q : ℕ) → p < size * 256 → q < size * 256 → Safe size n (f (p, q)))
      → Safe size n (fetch_mds_pair v >>= f)
  Safe-fetch_mds_pair v f k = Safe-bind (fetch_mds_pair-Step v) f (λ p h. k p.0 p.1 h.0 h.1)

  pub Safe-store_mds_pair :
      (v : ℕ) (f : ℕ × ℕ → Action Machine B)
      → ((p q : ℕ) → p < size * 256 → q < size * 256 → Safe size n (f (p, q)))
      → Safe size n (store_mds_pair v >>= f)
  Safe-store_mds_pair v f k = Safe-bind (store_mds_pair-Step v) f (λ p h. k p.0 p.1 h.0 h.1)

  pub Safe-load :
      (p : ℕ) (f : ℕ → Action Machine B)
      → p < size * 256
      → ((v : ℕ) → Safe size n (f v))
      → Safe size n (load p >>= f)
  Safe-load p f h k = Safe-bind (load-Step p h) f (λ v _. k v)

  pub Safe-assign :
      (p v : ℕ) (f : Unit {0} → Action Machine B)
      → p < size * 256
      → ((v : Unit {0}) → Safe size n (f v))
      → Safe size n (assign p v >>= f)
  Safe-assign p v f h k = Safe-bind (assign-Step p v h) f (λ v _. k v)

  pub Safe-sp_inc :
      (f : Unit {0} → Action Machine B)
      → ((v : Unit {0}) → Safe size n (f v))
      → Safe size (suc n) (sp_inc >>= f)
  Safe-sp_inc f k = Safe-bind sp_inc-Step f (λ v _. k v)

  pub Safe-gets :
      {A : Type 0} (g : Machine → A) (f : A → Action Machine B)
      → ((a : A) → Safe size n (f a))
      → Safe size n (gets g >>= f)
  Safe-gets g f k = Safe-bind (Step-gets {V = λ _. Unit} g (λ s h. tt)) f (λ a _. k a)

module _ {size n : ℕ} where
  pub Safe-skip : Safe size n (skip {S = Machine})
  unfolding skip pure
  Safe-skip = record { at = λ s r. r.fine }

  pub Safe-if :
      {B : Type 0} (b : Bool) {x y : Action Machine B}
      → Safe size n x
      → Safe size n y
      → Safe size n (if b then x else y)
  Safe-if true h g = h
  Safe-if false h g = g

  pub Safe-raise_error : {B : Type 0} → Safe size n (raise {S = Machine} {A = B} error)
  unfolding raise
  Safe-raise_error = record { at = λ s r. (tt, r.fine) }

  pub Safe-raise_trap : {B : Type 0} (x : Trap) → Safe size n (raise {S = Machine} {A = B} (trap x))
  unfolding raise
  Safe-raise_trap x = record { at = λ s r. (tt, r.fine) }

  pub Safe-set_pc : (pc : ℕ) → Safe size n (set_pc pc)
  unfolding set_pc
  Safe-set_pc pc = record { at = λ s r. jumped s pc r.fine }

  pub Safe-end_push : (v : ℕ) → Safe size n (push v)
  Safe-end_push v = Safe-last (push-Step v)

  pub Safe-end_push_long : (v : ℕ) → Safe size n (push_long v)
  Safe-end_push_long v = Safe-last (push_long-Step v)

  pub Safe-end_recover : Safe size n recover
  Safe-end_recover = Safe-last recover-Step

  pub Safe-end_discard : Safe size n discard
  Safe-end_discard = Safe-last discard-Step

  pub Safe-end_assign : (p v : ℕ) → p < size * 256 → Safe size n (assign p v)
  Safe-end_assign p v h = Safe-last (assign-Step p v h)

  pub Safe-end_store_byte : (v w x : ℕ) → Safe size n (store_byte v w x)
  Safe-end_store_byte v w x = Safe-last (store_byte-Step v w x)

  pub Safe-end_sp_inc : Safe size (suc n) sp_inc
  Safe-end_sp_inc = Safe-last sp_inc-Step

module _ {size n : ℕ} {B : Type 0} where
  pub Safe-stack_at :
      (i : ℕ) (f : ℕ → Action Machine B)
      → ((v : ℕ) → Safe size n (f v))
      → Safe size n (stack_at i >>= f)
  Safe-stack_at i f k = Safe-bind (stack_at-Step i) f (λ v _. k v)

  pub Safe-set_stack_at :
      (i v : ℕ) (f : Unit {0} → Action Machine B)
      → ((a : Unit {0}) → Safe size n (f a))
      → Safe size n (set_stack_at i v >>= f)
  Safe-set_stack_at i v f k = Safe-bind (set_stack_at-Step i v) f (λ a _. k a)

  pub Safe-raise_if_trap :
      (b : Bool) (x : Trap) (f : Unit {0} → Action Machine B)
      → ((a : Unit {0}) → Safe size n (f a))
      → Safe size n (raise_if b (trap x) >>= f)
  unfolding raise_if ◌>>=◌
  Safe-raise_if_trap true x f k = record { at = λ s r. (tt, r.fine) }
  Safe-raise_if_trap false x f k = record { at = λ s r. (k tt).at s r }

module _ {size n : ℕ} where
  pub Safe-end_set_stack_at : (i v : ℕ) → Safe size n (set_stack_at i v)
  Safe-end_set_stack_at i v = Safe-last (set_stack_at-Step i v)

pub ruleset instruction = (
  Safe-pop, Safe-stack_at, Safe-set_stack_at, Safe-raise_if_trap, Safe-end_set_stack_at,
  push_long-sp_dec-Safe, Safe-pop_long, Safe-push, Safe-push_long, Safe-recover, Safe-discard,
  Safe-lengthen_pointer, Safe-read_dbl, Safe-read_dbl_mds, Safe-read_code, Safe-get_code_byte,
  Safe-get_code_word, Safe-fetch_byte, Safe-store_byte, Safe-fetch_link, Safe-fetch, Safe-store,
  Safe-fetch_mds, Safe-store_mds, Safe-fetch_pair, Safe-store_pair, Safe-fetch_mds_pair,
  Safe-store_mds_pair, Safe-load, Safe-assign, Safe-sp_inc, Safe-gets, Safe-skip, Safe-if,
  Safe-set_pc, Safe-end_push, Safe-end_push_long, Safe-end_recover, Safe-end_discard,
  Safe-end_assign, Safe-end_store_byte, Safe-end_sp_inc, Safe-raise_error, Safe-raise_trap,
)
