-- ===== src/Opcode/Process/Rings.antt =====
-- The queues of src/opcode/Opcode_process.cpp on the words of virtual memory.
use mesa_emulator_unix.Common.{
  ℕ, zero, suc, ◌<◌, ◌≡◌, ◌≢◌, arith, ◌==◌, subst, update, u16, fun_ext,
}
use mesa_emulator_unix.Action.{◌>>◌}
use mesa_emulator_unix.Machine.Words.{lengthen_pda_ptr}
use mesa_emulator_unix.Machine.Flat.{
  Does, Does-then, read-Does, write-Does, read_pda-Does, write_pda-Does, pure-Does, if-Does-true,
  if-Does-false,
}
use mesa_emulator_unix.Opcode.Process.Fields.{with_psb_lem, with_psb-with_psb}
use mesa_emulator_unix.Opcode.Process.{link_of, psb_field, with_psb}
use mesa_emulator_unix.Opcode.Process.Queues.{find_prev, unlink, dequeue, enqueue}

-- The link of a block, and the block that it names.
abbrev pub link_at : (ℕ → ℕ) → ℕ → ℕ
link_at f psb = f (lengthen_pda_ptr (link_of psb))

abbrev pub next_of : (ℕ → ℕ) → ℕ → ℕ
next_of f psb = psb_field (link_at f psb)

-- The links lead from a block to `last` in `k` steps, past no block whose link names `psb`; that of
-- `last` does.
pub data Reaches (f : ℕ → ℕ) (psb : ℕ) : ℕ → ℕ → ℕ → Type 0 where
  here : (last : ℕ) → next_of f last ≡ psb → Reaches f psb zero last last
  onto :
      (k prev last : ℕ)
      → next_of f prev ≢ psb
      → Reaches f psb k (next_of f prev) last
      → Reaches f psb (suc k) prev last

next_of-lt : (f : ℕ → ℕ) (psb : ℕ) → next_of f psb < 1024
unfolding psb_field
next_of-lt f psb = omega arith

module _ {D : ℕ → Type 0} {mds : ℕ} (f : ℕ → ℕ)
    (linked : (psb : ℕ) → psb < 1024 → D (lengthen_pda_ptr (link_of psb))) where
  -- Of a ring in which the links lead from `prev` to the block before `psb` in fewer steps than the fuel
  -- has rounds, the search of Dequeue ends, and finds that block and its link; it writes nothing.
  pub find_prev_lem :
      (fuel k psb prev last : ℕ)
      → Reaches f psb k prev last
      → prev < 1024
      → k < fuel
      → Does D mds f f (last, link_at f last) (find_prev fuel psb prev)
  unfolding find_prev
  find_prev_lem zero k psb prev last r h lt = absurd (omega (arith, lt))
  find_prev_lem (suc fuel) zero psb prev last (here _ e) h lt =
      Does-then _ (read_pda-Does (link_of prev) (linked prev h))
        (if-Does-true (next_of f prev == psb) _ (ground (arith, e)) (pure-Does _))
  find_prev_lem (suc fuel) (suc k) psb prev last (onto _ _ _ e r) h lt =
      Does-then _ (read_pda-Does (link_of prev) (linked prev h)) (
        if-Does-false (next_of f prev == psb) _ (ground (arith, e)) (
          find_prev_lem fuel k psb (next_of f prev) last r (next_of-lt f prev) (omega (arith, lt))))

-- The words behind Enqueue of a block on an empty queue.
abbrev alone : (ℕ → ℕ) → ℕ → ℕ → ℕ → ℕ
alone f que psb =
    update (update f (lengthen_pda_ptr (link_of psb)) (u16 (with_psb (link_at f psb) psb))) que
      (u16 (with_psb (f que) psb))

module _ {D : ℕ → Type 0} {mds : ℕ} (f : ℕ → ℕ) (que psb : ℕ) (at_que : D que)
    (at_link : D (lengthen_pda_ptr (link_of psb))) where
  enqueue-alone : psb_field (f que) ≡ 0 → Does D mds f (alone f que psb) tt (enqueue que psb)
  unfolding enqueue
  enqueue-alone empty = Does-then _ (read-Does que at_que) (
      Does-then _ (read_pda-Does (link_of psb) at_link) (
        if-Does-true (psb_field (f que) == 0) _ (ground (arith, empty))
          (Does-then _ (write_pda-Does (link_of psb) _ at_link) (write-Does que _ at_que))))

  dequeue_lone :
      que ≢ 0
      → next_of f psb ≡ psb
      → psb_field (f que) ≡ psb
      → Does D mds f (update f que (u16 (with_psb (f que) 0))) tt (dequeue que psb)
  unfolding dequeue unlink
  dequeue_lone some_que self only =
      Does-then _ (if-Does-false (que == 0) _ (ground (arith, some_que)) (read-Does que at_que)) (
        Does-then _ (read_pda-Does (link_of psb) at_link) (
          Does-then _ (if-Does-true (next_of f psb == psb) _ (ground (arith, self)) (pure-Does 0)) (
            if-Does-false (que == 0) _ (ground (arith, some_que)) (
              if-Does-true (psb_field (f que) == psb) _ (ground (arith, only))
                (write-Does que _ at_que)))))

emptied :
    (f : ℕ → ℕ) (que psb : ℕ)
    → psb_field (f que) ≡ 0
    → f que < 65536
    → f (lengthen_pda_ptr (link_of psb)) < 65536
    → lengthen_pda_ptr (link_of psb) ≢ que
    → update (alone f que psb) que (u16 (with_psb (alone f que psb que) 0))
      ≡ update f (lengthen_pda_ptr (link_of psb)) (with_psb (link_at f psb) psb)
emptied f que psb empty word link_word apart =
    let back = with_psb-with_psb (f que) psb empty in
    let word1 = (with_psb_lem (f que) psb).5 word in
    let word2 = (with_psb_lem (link_at f psb) psb).5 link_word in
    fun_ext λ u. ground (arith, apart, back, word, word1, word2)

-- A block that is put on an empty queue and taken off again leaves the queue empty, as it was, and
-- names itself; no other word changes. The queue is not PsbNull, its word is not the link of the
-- block, and the block has one of the ten-bit numbers.
pub enqueue-dequeue :
    {D : ℕ → Type 0} {mds : ℕ} (f : ℕ → ℕ) (que psb : ℕ)
    → D que
    → D (lengthen_pda_ptr (link_of psb))
    → que ≢ 0
    → psb < 1024
    → psb_field (f que) ≡ 0
    → f que < 65536
    → f (lengthen_pda_ptr (link_of psb)) < 65536
    → lengthen_pda_ptr (link_of psb) ≢ que
    → Does D mds f
        (update f (lengthen_pda_ptr (link_of psb)) (with_psb (link_at f psb) psb))
        tt
        (enqueue que psb >> dequeue que psb)
enqueue-dequeue {D} {mds} f que psb at_que at_link some_que small empty word link_word apart =
    let queue_law = with_psb_lem (f que) psb in
    let link_law = with_psb_lem (link_at f psb) psb in
    let word1 = queue_law.5 word in
    let word2 = link_law.5 link_word in
    let link_is : alone f que psb (lengthen_pda_ptr (link_of psb)) ≡ with_psb (link_at f psb) psb =
      ground (arith, apart, word2) in
    let queue_is : alone f que psb que ≡ with_psb (f que) psb = ground (arith, word1) in
    let self : next_of (alone f que psb) psb ≡ psb =
      rw link_is (rw link_law.0 (omega (arith, small))) in
    let only : psb_field (alone f que psb que) ≡ psb =
      rw queue_is (rw queue_law.0 (omega (arith, small))) in
    subst (λ g. Does D mds f g tt (enqueue que psb >> dequeue que psb))
      (emptied f que psb empty word link_word apart)
      (Does-then _ (enqueue-alone f que psb at_que at_link empty)
        (dequeue_lone (alone f que psb) que psb at_que at_link some_que self only))
