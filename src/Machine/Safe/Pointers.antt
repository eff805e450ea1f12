-- ===== src/Machine/Safe/Pointers.antt =====
-- Rules of `Step` for the ways to memory (src/mesa/memory.h): every pointer that an access returns
-- lies inside the real memory, and so does `p0 + 1` where the code uses it.
use mesa_emulator_unix.Common.{
  ℕ, ◌+◌, ◌*◌, ◌/◌, ◌%◌, ◌<◌, ◌≡◌, Bool, true, arith, if◌then◌else◌, bit_or, u16, u32, update, ltb,
  ==→eq, subst, lt→ltb, sym, ◌∙◌,
}
use mesa_emulator_unix.Common.Bits.{bit_or_sum}
use mesa_emulator_unix.Action.{
  Action, Outcome, ok, stop, trap, fault, error, diverges, undefined, null_page, ◌>>=◌, pure,
}
use mesa_emulator_unix.Memory.{Memory, read_word, write_word}
use mesa_emulator_unix.Memory.Coherent.{Kept, AccessOk}
use mesa_emulator_unix.Memory.Coherent.Access.{fetch-AccessOk, store-AccessOk}
use mesa_emulator_unix.Machine.{Machine, with_memory, on_memory}
use mesa_emulator_unix.Machine.Access.{
  fetch, store, load, assign, lengthen_pointer, fetch_mds, store_mds, fetch_mds_pair,
  store_mds_pair, fetch_pair, store_pair, read_dbl, read_dbl_mds, read_code, is_last_of_page,
}
use mesa_emulator_unix.Machine.Safe.{
  Room, GivesOk, Step, Step-bind, Step-pure, Step-gets, Step-if, Step-weaken,
}

-- A pointer inside the real memory, at the offset in its page that the address has.
abbrev pub Points : ℕ → ℕ → ℕ → Type 0
Points size va p = (p < size * 256) × (p % 256 ≡ va % 256)

abbrev pub BothInside : ℕ → ℕ × ℕ → Type 0
BothInside size (p, q) = (p < size * 256) × (q < size * 256)

with-Kept :
    {size n : ℕ} (s : Machine) (t : Memory)
    → Room size n s
    → Kept s.memory t
    → Room size n (record s { memory = t })
with-Kept {size} s t r k = record {
  fine = record {
    coherent = k.coherent;
    real_size = k.rp_size ∙ r.fine.real_size;
    memory_words = λ p. subst (λ w. w p < 65536) (sym k.words) (r.fine.memory_words p);
    stack_words = r.fine.stack_words;
    sp_bound = r.fine.sp_bound;
    pc_word = r.fine.pc_word;
    saved_pc_word = r.fine.saved_pc_word;
    saved_sp_bound = r.fine.saved_sp_bound;
    mds_aligned = r.fine.mds_aligned;
  };
  spare = r.spare;
}

access-GivesOk :
    {size n : ℕ} (s : Machine) (va : ℕ) (o : Outcome Memory ℕ)
    → Room size n s
    → AccessOk s.memory va o
    → GivesOk size n (Points size va) (with_memory s o)
access-GivesOk {size} s va (ok p t) r a =
    ((subst (λ (z : ℕ). p < z * 256) r.fine.real_size a.0.inside, a.0.aligned), with-Kept s t r a.1)
access-GivesOk s va (stop (trap x) t) r a = (a.0, (with-Kept s t r a.1).fine)
access-GivesOk s va (stop (fault x) t) r a = (a.0, (with-Kept s t r a.1).fine)
access-GivesOk s va (stop error t) r a = (a.0, (with-Kept s t r a.1).fine)
access-GivesOk s va (stop diverges t) r a = (a.0, (with-Kept s t r a.1).fine)
access-GivesOk s va (stop (undefined null_page) t) r a = a
access-GivesOk s va (stop (undefined _) t) r a = absurd a.0

rewritten :
    {size n : ℕ} (s : Machine) (p v : ℕ)
    → Room size n s
    → Room size n
        (record s { memory = record (s.memory) { words = update s.memory.words p (u16 v) } })
rewritten s p v r = record {
  fine = record {
    coherent = record {
      small = r.fine.coherent.small;
      real = r.fine.coherent.real;
      entries = r.fine.coherent.entries;
    };
    real_size = r.fine.real_size;
    memory_words = λ q. ground (arith, r.fine.memory_words q);
    stack_words = r.fine.stack_words;
    sp_bound = r.fine.sp_bound;
    pc_word = r.fine.pc_word;
    saved_pc_word = r.fine.saved_pc_word;
    saved_sp_bound = r.fine.saved_sp_bound;
    mds_aligned = r.fine.mds_aligned;
  };
  spare = r.spare;
}

-- Inside a page, the pointer after one inside the real memory is inside it too.
pub next_inside :
    (size p va vb : ℕ) → Points size va p → va / 256 ≡ vb / 256 → vb ≡ va + 1 → p + 1 < size * 256
next_inside size p va vb h same e = omega (arith, h.0, h.1)

pub long_next : (va : ℕ) → va / 256 ≡ u32 (va + 1) / 256 → u32 (va + 1) ≡ va + 1
long_next va same = omega arith

module _ {size n : ℕ} where
  pub fetch-Step : (va : ℕ) → Step size n n (Points size (u32 va)) (fetch va)
  unfolding fetch on_memory
  fetch-Step va = record {
    at = λ s r. access-GivesOk s (u32 va) _ r (fetch-AccessOk s.memory (u32 va) r.fine.coherent);
  }

  pub store-Step : (va : ℕ) → Step size n n (Points size (u32 va)) (store va)
  unfolding store on_memory
  store-Step va = record {
    at = λ s r. access-GivesOk s (u32 va) _ r (store-AccessOk s.memory (u32 va) r.fine.coherent);
  }

  pub load-Step : (p : ℕ) → p < size * 256 → Step size n n (λ v. v < 65536) (load p)
  unfolding load on_memory read_word
  load-Step p h = record {
    at = λ s r.
        let inside : ltb p (s.memory.rp_size * 256) ≡ true =
          lt→ltb _ _ (subst (λ (z : ℕ). p < z * 256) (sym r.fine.real_size) h) in
        rw inside (r.fine.memory_words p, r);
  }

  pub assign-Step : (p v : ℕ) → p < size * 256 → Step size n n (λ _. Unit) (assign p v)
  unfolding assign on_memory write_word
  assign-Step p v h = record {
    at = λ s r.
        let inside : ltb p (s.memory.rp_size * 256) ≡ true =
          lt→ltb _ _ (subst (λ (z : ℕ). p < z * 256) (sym r.fine.real_size) h) in
        rw inside (tt, rewritten s p v r);
  }

  pub lengthen_pointer-Step :
      (ptr : ℕ) → Step size n n (λ p. p % 256 ≡ ptr % 256) (lengthen_pointer ptr)
  unfolding lengthen_pointer
  lengthen_pointer-Step ptr = Step-gets _ (λ s h. omega (arith, h.mds_aligned))

  pub fetch_mds-Step : (ptr : ℕ) → Step size n n (Points size ptr) (fetch_mds ptr)
  unfolding fetch_mds
  fetch_mds-Step ptr =
      Step-bind (lengthen_pointer-Step ptr) _
        (λ p e. Step-weaken (λ q h. (h.0, omega (arith, h.1, e))) (fetch-Step p))

  pub store_mds-Step : (ptr : ℕ) → Step size n n (Points size ptr) (store_mds ptr)
  unfolding store_mds
  store_mds-Step ptr =
      Step-bind (lengthen_pointer-Step ptr) _
        (λ p e. Step-weaken (λ q h. (h.0, omega (arith, h.1, e))) (store-Step p))

  -- The second pointer of a pair, by a second access where the page ends.
  pub second-Step :
      (b : Bool) (p0 va : ℕ) {m : Action Machine ℕ}
      → (b ≡ true → p0 + 1 < size * 256)
      → p0 < size * 256
      → Step size n n (Points size va) m
      → Step size n n (BothInside size) (do p1 ← (if b then pure (p0 + 1) else m); pure (p0, p1))
  second-Step b p0 va next inside other =
      Step-bind
        (Step-if {V = λ p1. p1 < size * 256} b (λ e. Step-pure (p0 + 1) (next e))
          (λ e. Step-weaken (λ p h. h.0) other))
        _ (λ p1 h. Step-pure (p0, p1) (inside, h))

  pub fetch_mds_pair-Step : (ptr : ℕ) → Step size n n (BothInside size) (fetch_mds_pair ptr)
  unfolding fetch_mds_pair
  fetch_mds_pair-Step ptr = Step-bind (fetch_mds-Step ptr) _ (λ p0 h.
      second-Step _ p0 _ (λ e. next_inside size p0 ptr (ptr + 1) h (==→eq _ _ e) (omega arith)) h.0
        (fetch_mds-Step (ptr + 1)))

  pub store_mds_pair-Step : (ptr : ℕ) → Step size n n (BothInside size) (store_mds_pair ptr)
  unfolding store_mds_pair
  store_mds_pair-Step ptr = Step-bind (store_mds-Step ptr) _ (λ p0 h.
      second-Step _ p0 _ (λ e. next_inside size p0 ptr (ptr + 1) h (==→eq _ _ e) (omega arith)) h.0
        (store_mds-Step (ptr + 1)))

  pub fetch_pair-Step : (ptr : ℕ) → Step size n n (BothInside size) (fetch_pair ptr)
  unfolding fetch_pair
  fetch_pair-Step ptr = Step-bind (fetch-Step ptr) _ (λ p0 h.
      second-Step _ p0 _
        (λ e.
          next_inside size p0 ptr (u32 (ptr + 1)) (h.0, omega (arith, h.1)) (==→eq _ _ e)
            (long_next ptr (==→eq _ _ e)))
        h.0 (fetch-Step (ptr + 1)))

  pub store_pair-Step : (ptr : ℕ) → Step size n n (BothInside size) (store_pair ptr)
  unfolding store_pair
  store_pair-Step ptr = Step-bind (store-Step ptr) _ (λ p0 h.
      second-Step _ p0 _
        (λ e.
          next_inside size p0 ptr (u32 (ptr + 1)) (h.0, omega (arith, h.1)) (==→eq _ _ e)
            (long_next ptr (==→eq _ _ e)))
        h.0 (store-Step (ptr + 1)))

  load2-Step :
      (p0 p1 : ℕ)
      → p0 < size * 256
      → p1 < size * 256
      → Step size n n
          (λ v. v < 4294967296)
          (do low ← load p0; high ← load p1; pure (bit_or (high * 65536) low))
  load2-Step p0 p1 h0 h1 = Step-bind (load-Step p0 h0) _ (λ low hl.
      Step-bind (load-Step p1 h1) _
        (λ high hh. Step-pure _ (rw (bit_or_sum 16 high low hl) (omega (arith, hl, hh)))))

  pub read_dbl-Step : (va : ℕ) → Step size n n (λ v. v < 4294967296) (read_dbl va)
  unfolding read_dbl
  read_dbl-Step va = Step-bind (fetch-Step va) _ (λ p0 h.
      Step-bind
        (Step-if {V = λ p1. p1 < size * 256} (is_last_of_page va)
          (λ e. Step-weaken (λ p k. k.0) (fetch-Step (va + 1)))
          (λ e. Step-pure (p0 + 1) (ground (arith, h.0, h.1))))
        _ (λ p1 h1. load2-Step p0 p1 h.0 h1))

  pub read_dbl_mds-Step : (ptr : ℕ) → Step size n n (λ v. v < 4294967296) (read_dbl_mds ptr)
  unfolding read_dbl_mds
  read_dbl_mds-Step ptr = Step-bind (lengthen_pointer-Step ptr) _ (λ p e. read_dbl-Step p)

  pub read_code-Step : (offset : ℕ) → Step size n n (λ v. v < 65536) (read_code offset)
  unfolding read_code
  read_code-Step offset =
      Step-bind (Step-gets {V = λ _. Unit} _ (λ s h. tt)) _
        (λ cb _. Step-bind (fetch-Step (cb + u16 offset)) _ (λ p h. load-Step p h.0))
