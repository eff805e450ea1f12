-- ===== src/Opcode/Safety/Block.antt =====
-- The block transfers of Opcode/Block keep the invariant of the machine.
pub mod Compare
use mesa_emulator_unix.Common.{
  ℕ, zero, suc, ◌+◌, ◌-◌, ◌*◌, ◌%◌, ◌≤◌, ◌<◌, ◌==◌, u16, u32, sub16, sub32, arith, [], ◌∷◌, All,
}
use mesa_emulator_unix.Action.{diverges}
use mesa_emulator_unix.Machine.Safe.{Safe, Step-bind}
use mesa_emulator_unix.Machine.Safe.Steps.{push-Step, push_long-Step, discard-Step}
use mesa_emulator_unix.Machine.Safe.Pointers.{fetch-Step, store-Step, load-Step, assign-Step}
use mesa_emulator_unix.Machine.Safe.Rules.{instruction}
use mesa_emulator_unix.Machine.Safe.Stays.{
  Stays, Stays-then, Safe-end, Step-spare, pure-Stays, skip-Stays, if-Stays, raise-Stays,
}
use mesa_emulator_unix.Opcode.{Instruction}
use mesa_emulator_unix.Opcode.Block.{
  run_of, copy_up, copy_down, blt, bltr, save_short, save_long, save_code, blt_loop, bltr_loop,
  e_blt, e_bltl, e_bltc, e_bltcl, e_bltlr,
}

pub run_of-le : (sr dr c : ℕ) → (run_of sr dr c ≤ sr) × (run_of sr dr c ≤ dr)
unfolding run_of
run_of-le sr dr c = (ground arith, ground arith)

module _ {size n : ℕ} where
  copy_up-Stays :
      (run sp dp : ℕ)
      → sp + run ≤ size * 256
      → dp + run ≤ size * 256
      → Stays size n (copy_up run sp dp)
  unfolding copy_up
  copy_up-Stays zero sp dp h k = skip-Stays
  copy_up-Stays (suc run) sp dp h k = Step-bind (load-Step sp (omega (arith, h))) _ (λ word _.
      Step-bind (assign-Step dp word (omega (arith, k))) _
        (λ _ _. copy_up-Stays run (sp + 1) (dp + 1) (omega (arith, h)) (omega (arith, k))))

  copy_down-Stays :
      (run sp dp : ℕ) → sp < size * 256 → dp < size * 256 → Stays size n (copy_down run sp dp)
  unfolding copy_down
  copy_down-Stays zero sp dp h k = skip-Stays
  copy_down-Stays (suc run) sp dp h k = Step-bind (load-Step sp h) _ (λ word _.
      Step-bind (assign-Step dp word k) _
        (λ _ _. copy_down-Stays run (sp - 1) (dp - 1) (omega (arith, h)) (omega (arith, k))))

  blt-Stays : (s d c : ℕ) → Stays size n (blt s d c)
  unfolding blt
  blt-Stays s d c =
      let le = run_of-le (256 - s % 256) (256 - d % 256) c in
      Step-bind (fetch-Step s) _ (λ sp h. Step-bind (store-Step d) _ (λ dp k.
        Step-bind
          (copy_up-Stays (run_of (256 - s % 256) (256 - d % 256) c) sp dp
            (omega (arith, h.0, h.1, le.0)) (omega (arith, k.0, k.1, le.1)))
          _ (λ _ _. pure-Stays _)))

  bltr-Stays : (s d c : ℕ) → Stays size n (bltr s d c)
  unfolding bltr
  bltr-Stays s d c = Step-bind (fetch-Step s) _ (λ sp h.
      Step-bind (store-Step d) _
        (λ dp k. Step-bind (copy_down-Stays _ sp dp h.0 k.0) _ (λ _ _. pure-Stays _)))

  save_short-Stays : (a b c : ℕ) → Stays size n (save_short a b c)
  unfolding save_short
  save_short-Stays a b c =
      Step-spare
        (Step-bind (push-Step a) _ (λ _ _. Step-bind (push-Step b) _ (λ _ _.
          Step-bind (push-Step c) _ (λ _ _.
            Step-bind discard-Step _ (λ _ _. Step-bind discard-Step _ (λ _ _. discard-Step))))))
        (ground arith)

  pub save_long-Stays : (a b c : ℕ) → Stays size n (save_long a b c)
  unfolding save_long
  save_long-Stays a b c =
      Step-spare
        (Step-bind (push_long-Step a) _ (λ _ _. Step-bind (push-Step b) _ (λ _ _.
          Step-bind (push_long-Step c) _ (λ _ _. Step-bind discard-Step _ (λ _ _.
            Step-bind discard-Step _ (λ _ _.
              Step-bind discard-Step _ (λ _ _. Step-bind discard-Step _ (λ _ _. discard-Step))))))))
        (ground arith)

  pub save_code-Stays : (a b c : ℕ) → Stays size n (save_code a b c)
  unfolding save_code
  save_code-Stays a b c =
      Step-spare
        (Step-bind (push-Step a) _ (λ _ _. Step-bind (push-Step b) _ (λ _ _.
          Step-bind (push_long-Step c) _ (λ _ _. Step-bind discard-Step _ (λ _ _.
            Step-bind discard-Step _ (λ _ _. Step-bind discard-Step _ (λ _ _. discard-Step)))))))
        (ground arith)

module _ {size n : ℕ} (save : ℕ → ℕ → ℕ → Instruction) (ws wd : ℕ → ℕ)
    (kept : (a b c : ℕ) → Stays size n (save a b c)) where
  blt_loop-Stays :
      (fuel source count dest s d c : ℕ)
      → Stays size n (blt_loop save ws wd fuel source count dest s d c)
  unfolding blt_loop
  blt_loop-Stays zero source count dest s d c = raise-Stays diverges tt
  blt_loop-Stays (suc fuel) source count dest s d c = Stays-then _ (blt-Stays s d c) (λ r.
      if-Stays (c - r == 0) skip-Stays (
        Stays-then _ (kept (ws (source + r)) (sub16 count r) (wd (dest + r))) (λ _.
          blt_loop-Stays fuel (ws (source + r)) (sub16 count r) (wd (dest + r)) (u32 (s + r))
            (u32 (d + r)) (c - r))))

module _ {size n : ℕ} where
  bltr_loop-Stays :
      (fuel source count dest s d c : ℕ) → Stays size n (bltr_loop fuel source count dest s d c)
  unfolding bltr_loop
  bltr_loop-Stays zero source count dest s d c = raise-Stays diverges tt
  bltr_loop-Stays (suc fuel) source count dest s d c = Stays-then _ (bltr-Stays s d c) (λ r.
      if-Stays (c - r == 0) skip-Stays (
        Stays-then _ (save_long-Stays source (sub16 count r) dest)
          (λ _. bltr_loop-Stays fuel source (sub16 count r) dest (sub32 s r) (sub32 d r) (c - r))))

  short_loop-Stays :
      (fuel source count dest s d c : ℕ)
      → Stays size n (blt_loop save_short u16 u16 fuel source count dest s d c)
  short_loop-Stays = blt_loop-Stays save_short u16 u16 save_short-Stays

  long_loop-Stays :
      (fuel source count dest s d c : ℕ)
      → Stays size n (blt_loop save_long u32 u32 fuel source count dest s d c)
  long_loop-Stays = blt_loop-Stays save_long u32 u32 save_long-Stays

  code_loop-Stays :
      (fuel source count dest s d c : ℕ)
      → Stays size n (blt_loop save_code u16 u32 fuel source count dest s d c)
  code_loop-Stays = blt_loop-Stays save_code u16 u32 save_code-Stays

module _ {size : ℕ} where
  pub e_blt-Safe : Safe size 0 e_blt
  unfolding e_blt
  e_blt-Safe = search (instruction, Safe-end, short_loop-Stays) depth 15

  pub e_bltl-Safe : Safe size 0 e_bltl
  unfolding e_bltl
  e_bltl-Safe = search (instruction, Safe-end, long_loop-Stays) depth 15

  pub e_bltc-Safe : Safe size 0 e_bltc
  unfolding e_bltc
  e_bltc-Safe = search (instruction, Safe-end, short_loop-Stays) depth 15

  pub e_bltcl-Safe : Safe size 0 e_bltcl
  unfolding e_bltcl
  e_bltcl-Safe = search (instruction, Safe-end, code_loop-Stays) depth 15

  pub e_bltlr-Safe : Safe size 0 e_bltlr
  unfolding e_bltlr
  e_bltlr-Safe = search (instruction, Safe-end, bltr_loop-Stays) depth 15
