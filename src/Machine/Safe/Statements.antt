-- ===== src/Machine/Safe/Statements.antt =====
-- Rules for the statements of the control transfers and of the processes, each of which leaves the
-- stack as it is: the assignments to the registers (src/mesa/Variable.h) and the words of virtual memory.
use mesa_emulator_unix.Common.{ℕ, ◌≤◌, ◌<◌, Bool, arith}
use mesa_emulator_unix.Action.{error, ◌>>◌}
use mesa_emulator_unix.Machine.{Machine, push, discard, set_pc, stack_at}
use mesa_emulator_unix.Machine.Access.{
  fetch_link, read_dbl, read_dbl_mds, read_code, lengthen_pointer, get_code_byte, get_code_word,
}
use mesa_emulator_unix.Machine.Registers.{
  set_lf, set_gf, set_cb, set_gfi, set_psb, set_mp, set_wp, set_wdc, set_ptc, set_xts,
  set_break_byte, set_running, set_timeout_time, set_mds, restore, clear_sp, clear_pc,
  enable_interrupts, disable_interrupt,
}
use mesa_emulator_unix.Machine.Words.{
  read, write, read_mds, write_mds, offset_pda, read_pda, write_pda,
}
use mesa_emulator_unix.Machine.Safe.{IsOk, Step-bind}
use mesa_emulator_unix.Machine.Safe.Steps.{push-Step, discard-Step, stack_at-Step}
use mesa_emulator_unix.Machine.Safe.Pointers.{
  fetch-Step, store-Step, fetch_mds-Step, store_mds-Step, load-Step, assign-Step, read_dbl-Step,
  read_dbl_mds-Step, read_code-Step, lengthen_pointer-Step,
}
use mesa_emulator_unix.Machine.Safe.Code.{
  jumped, fetch_link-Step, get_code_byte-Step, get_code_word-Step,
}
use mesa_emulator_unix.Machine.Safe.Stays.{
  Safe-end, Safe-then, Stays, Stays-then, Step-Stays, Step-spare, gets-Stays, if-Stays, pure-Stays,
  raise-Stays, raise_if-Stays, skip-Stays,
}

moved :
    {size : ℕ} (s : Machine) (sp pc saved_sp saved_pc : ℕ)
    → IsOk size s
    → sp ≤ 14
    → saved_sp ≤ 14
    → pc < 65536
    → saved_pc < 65536
    → IsOk size (record s { sp = sp; pc = pc; saved_sp = saved_sp; saved_pc = saved_pc })
moved s sp pc saved_sp saved_pc h b saved_b w saved_w = record {
  coherent = h.coherent;
  real_size = h.real_size;
  memory_words = h.memory_words;
  stack_words = h.stack_words;
  sp_bound = b;
  pc_word = w;
  saved_pc_word = saved_w;
  saved_sp_bound = saved_b;
  mds_aligned = h.mds_aligned;
}

module _ {size n : ℕ} where
  pub set_lf-Stays : (v : ℕ) → Stays size n (set_lf v)
  unfolding set_lf
  set_lf-Stays v = record { at = λ s r. (tt, record { fine = r.fine; spare = r.spare }) }

  pub set_gf-Stays : (v : ℕ) → Stays size n (set_gf v)
  unfolding set_gf
  set_gf-Stays v = record { at = λ s r. (tt, record { fine = r.fine; spare = r.spare }) }

  pub set_cb-Stays : (v : ℕ) → Stays size n (set_cb v)
  unfolding set_cb
  set_cb-Stays v = record { at = λ s r. (tt, record { fine = r.fine; spare = r.spare }) }

  pub set_gfi-Stays : (v : ℕ) → Stays size n (set_gfi v)
  unfolding set_gfi
  set_gfi-Stays v = record { at = λ s r. (tt, record { fine = r.fine; spare = r.spare }) }

  pub set_psb-Stays : (v : ℕ) → Stays size n (set_psb v)
  unfolding set_psb
  set_psb-Stays v = record { at = λ s r. (tt, record { fine = r.fine; spare = r.spare }) }

  pub set_mp-Stays : (v : ℕ) → Stays size n (set_mp v)
  unfolding set_mp
  set_mp-Stays v = record { at = λ s r. (tt, record { fine = r.fine; spare = r.spare }) }

  pub set_wp-Stays : (v : ℕ) → Stays size n (set_wp v)
  unfolding set_wp
  set_wp-Stays v = record { at = λ s r. (tt, record { fine = r.fine; spare = r.spare }) }

  pub set_wdc-Stays : (v : ℕ) → Stays size n (set_wdc v)
  unfolding set_wdc
  set_wdc-Stays v = record { at = λ s r. (tt, record { fine = r.fine; spare = r.spare }) }

  pub set_ptc-Stays : (v : ℕ) → Stays size n (set_ptc v)
  unfolding set_ptc
  set_ptc-Stays v = record { at = λ s r. (tt, record { fine = r.fine; spare = r.spare }) }

  pub set_xts-Stays : (v : ℕ) → Stays size n (set_xts v)
  unfolding set_xts
  set_xts-Stays v = record { at = λ s r. (tt, record { fine = r.fine; spare = r.spare }) }

  pub set_break_byte-Stays : (v : ℕ) → Stays size n (set_break_byte v)
  unfolding set_break_byte
  set_break_byte-Stays v = record { at = λ s r. (tt, record { fine = r.fine; spare = r.spare }) }

  pub set_running-Stays : (v : Bool) → Stays size n (set_running v)
  unfolding set_running
  set_running-Stays v = record { at = λ s r. (tt, record { fine = r.fine; spare = r.spare }) }

  pub set_timeout_time-Stays : (v : ℕ) → Stays size n (set_timeout_time v)
  unfolding set_timeout_time
  set_timeout_time-Stays v = record { at = λ s r. (tt, record { fine = r.fine; spare = r.spare }) }

  pub set_mds-Stays : (v : ℕ) → Stays size n (set_mds v)
  unfolding set_mds
  set_mds-Stays v = record {
    at = λ s r. (
      tt,
      record {
        fine = record {
          coherent = r.fine.coherent;
          real_size = r.fine.real_size;
          memory_words = r.fine.memory_words;
          stack_words = r.fine.stack_words;
          sp_bound = r.fine.sp_bound;
          pc_word = r.fine.pc_word;
          saved_pc_word = r.fine.saved_pc_word;
          saved_sp_bound = r.fine.saved_sp_bound;
          mds_aligned = omega arith;
        };
        spare = r.spare;
      },
    );
  }

  pub pushes-Stays : (v w : ℕ) → Stays size n (do push v; push w; discard; discard)
  pushes-Stays v w =
      Step-spare
        (Step-bind (push-Step v) _ (λ _ _.
          Step-bind (push-Step w) _ (λ _ _. Step-bind discard-Step _ (λ _ _. discard-Step))))
        (ground arith)

  pub clear_sp-Stays : Stays size n clear_sp
  unfolding clear_sp
  clear_sp-Stays = record {
    at = λ s r. (
      tt,
      record {
        fine =
            moved s 0 s.pc 0 s.saved_pc r.fine (omega arith) (omega arith) r.fine.pc_word
              r.fine.saved_pc_word;
        spare = omega (arith, r.spare);
      },
    );
  }

  pub clear_pc-Stays : Stays size n clear_pc
  unfolding clear_pc
  clear_pc-Stays = record {
    at = λ s r. (
      tt,
      record {
        fine =
            moved s s.sp 0 s.saved_sp 0 r.fine r.fine.sp_bound r.fine.saved_sp_bound (omega arith)
              (omega arith);
        spare = r.spare;
      },
    );
  }

  pub set_pc-Stays : (pc : ℕ) → Stays size n (set_pc pc)
  unfolding set_pc
  set_pc-Stays pc = record {
    at = λ s r. (tt, record { fine = jumped s pc r.fine; spare = r.spare });
  }

  pub enable_interrupts-Stays : Stays size n enable_interrupts
  unfolding enable_interrupts
  enable_interrupts-Stays = search (Stays-then, gets-Stays, raise_if-Stays, set_wdc-Stays) depth 10

  pub disable_interrupt-Stays : Stays size n disable_interrupt
  unfolding disable_interrupt
  disable_interrupt-Stays = search (Stays-then, gets-Stays, raise_if-Stays, set_wdc-Stays) depth 10

  pub read-Stays : (va : ℕ) → Stays size n (read va)
  unfolding read
  read-Stays va = Step-bind (fetch-Step va) _ (λ p h. Step-Stays (load-Step p h.0))

  pub write-Stays : (va v : ℕ) → Stays size n (write va v)
  unfolding write
  write-Stays va v = Step-bind (store-Step va) _ (λ p h. assign-Step p v h.0)

  pub read_mds-Stays : (va : ℕ) → Stays size n (read_mds va)
  unfolding read_mds
  read_mds-Stays va = Step-bind (fetch_mds-Step va) _ (λ p h. Step-Stays (load-Step p h.0))

  pub write_mds-Stays : (va v : ℕ) → Stays size n (write_mds va v)
  unfolding write_mds
  write_mds-Stays va v = Step-bind (store_mds-Step va) _ (λ p h. assign-Step p v h.0)

  pub read_pda-Stays : (ptr : ℕ) → Stays size n (read_pda ptr)
  unfolding read_pda
  read_pda-Stays ptr = read-Stays _

  pub write_pda-Stays : (ptr v : ℕ) → Stays size n (write_pda ptr v)
  unfolding write_pda
  write_pda-Stays ptr v = write-Stays _ v

  pub offset_pda-Stays : (ptr : ℕ) → Stays size n (offset_pda ptr)
  unfolding offset_pda
  offset_pda-Stays ptr = if-Stays _ (raise-Stays error tt) (pure-Stays _)

  pub read_dbl-Stays : (v : ℕ) → Stays size n (read_dbl v)
  read_dbl-Stays v = Step-Stays (read_dbl-Step v)

  pub read_dbl_mds-Stays : (v : ℕ) → Stays size n (read_dbl_mds v)
  read_dbl_mds-Stays v = Step-Stays (read_dbl_mds-Step v)

  pub read_code-Stays : (v : ℕ) → Stays size n (read_code v)
  read_code-Stays v = Step-Stays (read_code-Step v)

  pub lengthen_pointer-Stays : (v : ℕ) → Stays size n (lengthen_pointer v)
  lengthen_pointer-Stays v = Step-Stays (lengthen_pointer-Step v)

  pub fetch_link-Stays : (v : ℕ) → Stays size n (fetch_link v)
  fetch_link-Stays v = Step-Stays (fetch_link-Step v)

  pub get_code_byte-Stays : Stays size n get_code_byte
  get_code_byte-Stays = Step-Stays get_code_byte-Step

  pub get_code_word-Stays : Stays size n get_code_word
  get_code_word-Stays = Step-Stays get_code_word-Step

  pub stack_at-Stays : (i : ℕ) → Stays size n (stack_at i)
  stack_at-Stays i = Step-Stays (stack_at-Step i)

pub restore-Stays : {size : ℕ} → Stays size 0 restore
unfolding restore
restore-Stays = record {
  at = λ s r. (
    tt,
    record {
      fine =
          moved s s.saved_sp s.saved_pc s.saved_sp s.saved_pc r.fine r.fine.saved_sp_bound
            r.fine.saved_sp_bound r.fine.saved_pc_word r.fine.saved_pc_word;
      spare = omega (arith, r.fine.saved_sp_bound);
    },
  );
}

pub ruleset staying = (
  Stays-then, pure-Stays, gets-Stays, if-Stays, raise-Stays, skip-Stays, raise_if-Stays,
  set_lf-Stays, set_gf-Stays, set_cb-Stays, set_gfi-Stays, set_psb-Stays, set_mp-Stays,
  set_wp-Stays, set_wdc-Stays, set_ptc-Stays, set_xts-Stays, set_break_byte-Stays,
  set_running-Stays, set_timeout_time-Stays, set_mds-Stays, clear_sp-Stays, clear_pc-Stays,
  restore-Stays, set_pc-Stays, enable_interrupts-Stays, disable_interrupt-Stays, read-Stays,
  write-Stays, read_mds-Stays, write_mds-Stays, read_pda-Stays, write_pda-Stays, offset_pda-Stays,
  read_dbl-Stays, read_dbl_mds-Stays, read_code-Stays, lengthen_pointer-Stays, fetch_link-Stays,
  get_code_byte-Stays, get_code_word-Stays, stack_at-Stays,
)
