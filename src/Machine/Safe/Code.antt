-- ===== src/Machine/Safe/Code.antt =====
-- Rules of `Step` for the code stream, bytes and links (src/mesa/memory.h).
use mesa_emulator_unix.Common.{
  ℕ, ◌+◌, ◌*◌, ◌/◌, ◌%◌, ◌<◌, ◌≡◌, Bool, true, false, arith, if◌then◌else◌, u16, u32, ◌==◌, ==→eq,
  sub32,
}
use mesa_emulator_unix.Common.Bits.{bit_or_sum}
use mesa_emulator_unix.Types.{low_byte, high_byte, byte_pair}
use mesa_emulator_unix.Action.{◌>>=◌, ◌>>◌, pure, modify}
use mesa_emulator_unix.Machine.{Machine}
use mesa_emulator_unix.Machine.Access.{
  fetch, load, get_code_byte, get_code_word, code_pair, fetch_byte, store_byte, fetch_link,
  is_same_page,
}
use mesa_emulator_unix.Machine.Safe.{
  IsOk, Step, Step-bind, Step-pure, Step-gets, Step-if, Step-weaken,
}
use mesa_emulator_unix.Machine.Safe.Pointers.{
  Points, next_inside, long_next, fetch-Step, store-Step, load-Step, assign-Step, read_dbl-Step,
  read_code-Step,
}

pub jumped : {size : ℕ} (s : Machine) (pc : ℕ) → IsOk size s → IsOk size (record s { pc = u16 pc })
jumped s pc h = record {
  coherent = h.coherent;
  real_size = h.real_size;
  memory_words = h.memory_words;
  stack_words = h.stack_words;
  sp_bound = h.sp_bound;
  pc_word = omega arith;
  saved_pc_word = h.saved_pc_word;
  saved_sp_bound = h.saved_sp_bound;
  mds_aligned = h.mds_aligned;
}

code_pair-lt : (w0 w1 : ℕ) → code_pair w0 w1 < 65536
unfolding low_byte high_byte byte_pair
code_pair-lt w0 w1 = rw (bit_or_sum 8 (w0 % 256) (w1 / 256 % 256) (omega arith)) (omega arith)

module _ {size n : ℕ} where
  pub code_byte-Step :
      (b : Bool) (word : ℕ)
      → Step size n n (λ v. v < 256) (pure (if b then low_byte word else high_byte word))
  unfolding low_byte high_byte byte_pair
  code_byte-Step true word = Step-pure _ (omega arith)
  code_byte-Step false word = Step-pure _ (omega arith)

  pub advance-Step :
      (k : ℕ) → Step size n n (λ _. Unit) (modify (λ s. record s { pc = u16 (s.pc + k) }))
  unfolding modify
  advance-Step k = record {
    at = λ s r. (tt, record { fine = jumped s (s.pc + k) r.fine; spare = r.spare });
  }

  pub get_code_byte-Step : Step size n n (λ v. v < 256) get_code_byte
  unfolding get_code_byte
  get_code_byte-Step = Step-bind (Step-gets {V = λ _. Unit} _ (λ s h. tt)) _ (λ pc _.
      Step-bind (read_code-Step (pc / 2)) _
        (λ word _. Step-bind (advance-Step 1) _ (λ _ _. code_byte-Step _ word)))

  pub odd_word-Step :
      (pc ptr p0 : ℕ)
      → Points size (u32 ptr) p0
      → ptr ≡ u32 ptr
      → Step size n n
          (λ v. v < 65536)
          (do
            p1 ← (if is_same_page ptr (u32 (ptr + 1)) then pure (p0 + 1) else fetch (ptr + 1))
            modify (λ s. record s { pc = u16 (s.pc + 2) })
            w0 ← load p0
            w1 ← load p1
            pure (code_pair w0 w1))
  odd_word-Step pc ptr p0 h e =
      Step-bind
        (Step-if {V = λ p1. p1 < size * 256} (is_same_page ptr (u32 (ptr + 1)))
          (λ t. Step-pure (p0 + 1) (
            next_inside size p0 ptr (u32 (ptr + 1)) (h.0, omega (arith, h.1)) (==→eq _ _ t)
              (long_next ptr (==→eq _ _ t))))
          (λ t. Step-weaken (λ p k. k.0) (fetch-Step (ptr + 1))))
        _
        (λ p1 h1. Step-bind (advance-Step 2) _ (λ _ _.
          Step-bind (load-Step p0 h.0) _
            (λ w0 _. Step-bind (load-Step p1 h1) _ (λ w1 _. Step-pure _ (code_pair-lt w0 w1)))))

  pub get_code_word-Step : Step size n n (λ v. v < 65536) get_code_word
  unfolding get_code_word
  get_code_word-Step = Step-bind (Step-gets {V = λ _. Unit} _ (λ s h. tt)) _ (λ pc _.
      Step-bind (Step-gets {V = λ _. Unit} _ (λ s h. tt)) _ (λ cb _.
        Step-bind (fetch-Step (u32 (cb + pc / 2))) _ (λ p0 h.
          Step-if _ (λ _. odd_word-Step pc (u32 (cb + pc / 2)) p0 h (omega arith))
            (λ _. Step-bind (advance-Step 2) _ (λ _ _. load-Step p0 h.0)))))

  pub fetch_byte-Step : (ptr offset : ℕ) → Step size n n (λ v. v < 65536) (fetch_byte ptr offset)
  unfolding fetch_byte byte_pair
  fetch_byte-Step ptr offset =
      Step-bind (fetch-Step (ptr + u32 offset / 2)) _
        (λ p h. Step-bind (load-Step p h.0) _ (λ word _. Step-pure _ (ground arith)))

  pub store_byte-Step :
      (ptr offset value : ℕ) → Step size n n (λ _. Unit) (store_byte ptr offset value)
  unfolding store_byte
  store_byte-Step ptr offset value = Step-bind (store-Step (ptr + u32 offset / 2)) _ (λ p h.
      Step-bind (load-Step p h.0) _ (λ word _.
        Step-if (u32 offset % 2 == 0) (λ _. assign-Step p _ h.0) (λ _. assign-Step p _ h.0)))

  pub fetch_link-Step : (offset : ℕ) → Step size n n (λ v. v < 4294967296) (fetch_link offset)
  unfolding fetch_link
  fetch_link-Step offset = Step-bind (Step-gets {V = λ _. Unit} _ (λ s h. tt)) _ (λ gf _.
      Step-bind (Step-gets {V = λ _. Unit} _ (λ s h. tt)) _ (λ cb _.
        Step-bind (fetch-Step (sub32 gf 2 + 1)) _
          (λ p h. Step-bind (load-Step p h.0) _ (λ word _. read_dbl-Step _))))
