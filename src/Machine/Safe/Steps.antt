-- ===== src/Machine/Safe/Steps.antt =====
-- Rules of `Safe` for the registers and the stack (src/mesa/Variable.h). Each says how many words
-- the rest of the body finds spare.
use mesa_emulator_unix.Common.{
  ℕ, suc, pred, ◌+◌, ◌-◌, ◌/◌, ◌≤◌, ◌<◌, ◌≡◌, true, arith, Bool-cases, inl, inr, u16, ◌==◌, update,
  leb, ltb,
}
use mesa_emulator_unix.Common.Bits.{bit_or_sum}
use mesa_emulator_unix.Action.{◌>>=◌, ◌>>◌}
use mesa_emulator_unix.Machine.{
  Machine, push, pop, push_long, pop_long, recover, discard, sp_inc, sp_dec, stack_at, set_stack_at,
  sp_dec,
}
use mesa_emulator_unix.Machine.Safe.{IsOk, Room, Safe, Step}

abbrev IsWord : ℕ → Type 0
IsWord v = v < 65536

abbrev IsLong : ℕ → Type 0
IsLong v = v < 4294967296

abbrev Anything : {A : Type 0} → A → Type 0
Anything a = Unit

restack :
    {size : ℕ} (s : Machine) (storage : ℕ → ℕ) (sp : ℕ)
    → IsOk size s
    → ((i : ℕ) → storage i < 65536)
    → sp ≤ 14
    → IsOk size (record s { storage = storage; sp = sp })
restack s storage sp h words bound = record {
  coherent = h.coherent;
  real_size = h.real_size;
  memory_words = h.memory_words;
  stack_words = words;
  sp_bound = bound;
  pc_word = h.pc_word;
  saved_pc_word = h.saved_pc_word;
  saved_sp_bound = h.saved_sp_bound;
  mds_aligned = h.mds_aligned;
}

move_sp :
    {size n : ℕ} (s : Machine) (k sp : ℕ)
    → Room size n s
    → sp + k ≤ 14
    → Room size k (record s { sp = sp })
move_sp s k sp r h = record {
  fine = restack s s.storage sp r.fine r.fine.stack_words (omega arith);
  spare = h;
}

update_word :
    (f : ℕ → ℕ) (i v : ℕ) → ((j : ℕ) → f j < 65536) → v < 65536 → (j : ℕ) → update f i v j < 65536
update_word f i v h hv j = ground (arith, h j)

module _ {size n : ℕ} where
  pub pop-Step : Step size n (suc n) IsWord pop
  unfolding pop
  pop-Step = record {
    at = λ s r. elim (Bool-cases (s.sp == 0)) [
      | inl e ↦ rw e (tt, r.fine)
      | inr e ↦
          let inside : leb s.sp 14 ≡ true = ground (arith, r.spare) in
          let left : s.sp - 1 + suc n ≤ 14 = ground (arith, r.spare) in
          rw (e, inside) (r.fine.stack_words (s.sp - 1), move_sp s (suc n) (s.sp - 1) r left)
    ];
  }

  pub pop_long-Step : Step size n (suc (suc n)) IsLong pop_long
  unfolding pop_long
  pop_long-Step = record {
    at = λ s r. elim (Bool-cases (leb s.sp 1)) [
      | inl e ↦ rw e (tt, r.fine)
      | inr e ↦
          let inside : leb s.sp 14 ≡ true = ground (arith, r.spare) in
          let left : s.sp - 2 + suc (suc n) ≤ 14 = ground (arith, r.spare) in
          let high = r.fine.stack_words (s.sp - 1) in
          let low = r.fine.stack_words (s.sp - 2) in
          rw (e, inside)
            (
              rw (bit_or_sum 16 (s.storage (s.sp - 1)) (s.storage (s.sp - 2)) low) (omega arith),
              move_sp s (suc (suc n)) (s.sp - 2) r left,
            )
    ];
  }

  pub push-Step : (v : ℕ) → Step size n (pred n) Anything (push v)
  unfolding push
  push-Step v = record {
    at = λ s r. elim (Bool-cases (s.sp == 14)) [
      | inl e ↦ rw e (tt, r.fine)
      | inr e ↦
          let inside : ltb s.sp 14 ≡ true = ground (arith, r.spare) in
          let words = update_word s.storage s.sp (u16 v) r.fine.stack_words (omega arith) in
          rw (e, inside)
            (
              tt,
              record {
                fine =
                    restack s (update s.storage s.sp (u16 v)) (u16 (s.sp + 1)) r.fine words
                      (ground (arith, r.spare));
                spare = ground (arith, r.spare);
              },
            )
    ];
  }

  pub push_long-Step : (v : ℕ) → Step size n (pred (pred n)) Anything (push_long v)
  unfolding push_long
  push_long-Step v = record {
    at = λ s r. elim (Bool-cases (leb 13 s.sp)) [
      | inl e ↦ rw e (tt, r.fine)
      | inr e ↦
          let low = update_word s.storage s.sp (u16 v) r.fine.stack_words (omega arith) in
          let words =
            update_word (update s.storage s.sp (u16 v)) (s.sp + 1) (u16 (v / 65536)) low
              (omega arith) in
          rw e (
            tt,
            record {
              fine = restack s _ (u16 (s.sp + 2)) r.fine words (ground (arith, r.spare));
              spare = ground (arith, r.spare);
            },
          )
    ];
  }

  pub recover-Step : Step size n (pred n) Anything recover
  unfolding recover
  recover-Step = record {
    at = λ s r. elim (Bool-cases (s.sp == 14)) [
      | inl e ↦ rw e (tt, r.fine)
      | inr e ↦ rw e (tt, move_sp s (pred n) (u16 (s.sp + 1)) r (ground (arith, r.spare)))
    ];
  }

  pub discard-Step : Step size n (suc n) Anything discard
  unfolding discard
  discard-Step = record {
    at = λ s r. elim (Bool-cases (s.sp == 0)) [
      | inl e ↦ rw e (tt, r.fine)
      | inr e ↦ rw e (tt, move_sp s (suc n) (u16 (s.sp + 65535)) r (ground (arith, r.spare)))
    ];
  }

  pub sp_inc-Step : Step size (suc n) n Anything sp_inc
  unfolding sp_inc
  sp_inc-Step = record { at = λ s r. (tt, move_sp s n (u16 (s.sp + 1)) r (omega (arith, r.spare))) }

  pub stack_at-Step : (i : ℕ) → Step size n n IsWord (stack_at i)
  unfolding stack_at
  stack_at-Step i = record {
    at = λ s r. elim (Bool-cases (leb 14 i)) [
      | inl e ↦ rw e (tt, r.fine)
      | inr e ↦ rw e (r.fine.stack_words i, r)
    ];
  }

  pub set_stack_at-Step : (i v : ℕ) → Step size n n Anything (set_stack_at i v)
  unfolding set_stack_at
  set_stack_at-Step i v = record {
    at = λ s r. elim (Bool-cases (leb 14 i)) [
      | inl e ↦ rw e (tt, r.fine)
      | inr e ↦
          let words = update_word s.storage i (u16 v) r.fine.stack_words (omega arith) in
          rw e
            (tt, record { fine = restack s _ s.sp r.fine words r.fine.sp_bound; spare = r.spare })
    ];
  }

  pub push_long-sp_dec-Safe : (v : ℕ) → Safe size n (push_long v >> sp_dec)
  unfolding push_long sp_dec ◌>>=◌
  push_long-sp_dec-Safe v = record {
    at = λ s r. elim (Bool-cases (leb 13 s.sp)) [
      | inl e ↦ rw e (tt, r.fine)
      | inr e ↦
          let low = update_word s.storage s.sp (u16 v) r.fine.stack_words (omega arith) in
          let words =
            update_word (update s.storage s.sp (u16 v)) (s.sp + 1) (u16 (v / 65536)) low
              (omega arith) in
          rw e (restack s _ (u16 (u16 (s.sp + 2) + 65535)) r.fine words (ground arith))
    ];
  }
