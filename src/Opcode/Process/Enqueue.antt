-- ===== src/Opcode/Process/Enqueue.antt =====
-- Enqueue of src/opcode/Opcode_process.cpp on a ring of blocks, as a whole.
use mesa_emulator_unix.Common.{
  ℕ, ◌<◌, ◌≡◌, ◌≢◌, refl, true, false, arith, ◌==◌, leb, sym, ap, ◌∙◌, subst, update, u16,
  Bool-cases, eq→==, inl, inr, List, [], ◌∷◌, ◌++◌, length, if◌then◌else◌,
}
use mesa_emulator_unix.Action.{◌>>◌}
use mesa_emulator_unix.Machine.Words.{write_pda, lengthen_pda_ptr}
use mesa_emulator_unix.Machine.Flat.{
  Does, Does-then, read-Does, write-Does, read_pda-Does, write_pda-Does, pure-Does, if-Does-true,
  if-Does-false,
}
use mesa_emulator_unix.Opcode.Process.{link_of, psb_field, with_psb}
use mesa_emulator_unix.Opcode.Process.Queues.{blocks, place, enqueue}
use mesa_emulator_unix.Opcode.Process.Rings.{link_at, next_of}
use mesa_emulator_unix.Opcode.Process.Insertion.{
  PathTo, Away, Apart, priority_of, insert, link_behind, next_of-lt, psb_field-u16, next_of-before,
  next_of-behind, PathTo-other, insert-Placed, find_place-Does,
}

-- The tail of the ring behind Enqueue, and the blocks before it from the head on.
abbrev pub tail_after : (ℕ → ℕ) → ℕ → ℕ → ℕ
tail_after f tail psb = if leb (priority_of f psb) (priority_of f tail) then psb else tail

abbrev pub blocks_after : (ℕ → ℕ) → ℕ → ℕ → List ℕ → List ℕ
blocks_after f tail psb xs =
    if leb (priority_of f psb) (priority_of f tail)
    then xs ++ (tail ∷ [])
    else insert f (priority_of f psb) psb xs

-- An action that leaves the queue `que` with this ring.
pub record Rings (D : ℕ → Type 0) (mds : ℕ) (f : ℕ → ℕ) (que psb tail : ℕ) (xs : List ℕ)
    : Type 0 where
  pub after : ℕ → ℕ
  pub does : Does D mds f after tt (enqueue que psb)
  pub tail_is : psb_field (after que) ≡ tail
  pub ring : PathTo after tail tail xs

PathTo-append :
    (g : ℕ → ℕ) (e t p : ℕ) (xs zs : List ℕ)
    → PathTo g e p xs
    → PathTo g t e zs
    → PathTo g t p (xs ++ (e ∷ zs))
PathTo-append g e t p [] zs h k = (h, k)
PathTo-append g e t p (x ∷ xs) zs (at, h) k = (at, PathTo-append g e t x xs zs h k)

-- The words with another queue word.
module _ (f : ℕ → ℕ) (que v : ℕ)
    (off : (b : ℕ) → b < 1024 → lengthen_pda_ptr (link_of b) ≢ que) where
  link_at-queue : (b : ℕ) → b < 1024 → link_at (update f que v) b ≡ link_at f b
  link_at-queue b h = ground (arith, off b h)

  PathTo-queue :
      (e p : ℕ) (xs : List ℕ) → p < 1024 → PathTo f e p xs → PathTo (update f que v) e p xs
  PathTo-queue e p [] h path = rw (link_at-queue p h) path
  PathTo-queue e p (x ∷ xs) h (at, path) = (
    rw (link_at-queue p h) at,
    PathTo-queue e x xs (subst (λ n. n < 1024) at (next_of-lt f p)) path,
  )

-- What Enqueue does behind its search.
module _ {D : ℕ → Type 0} {mds : ℕ}
    (linked : (psb : ℕ) → psb < 1024 → D (lengthen_pda_ptr (link_of psb))) where
  link-Does :
      (f : ℕ → ℕ) (q psb : ℕ)
      → q < 1024
      → psb < 1024
      → Does D mds f (link_behind f q psb) tt (do
        write_pda (link_of psb) (with_psb (link_at f psb) (next_of f q))
        write_pda (link_of q) (with_psb (link_at f q) psb))
  link-Does f q psb hq h =
      Does-then _ (write_pda-Does (link_of psb) _ (linked psb h))
        (write_pda-Does (link_of q) _ (linked q hq))

  link-Does_by :
      (f : ℕ → ℕ) (q psb lp lq : ℕ)
      → q < 1024
      → psb < 1024
      → lp ≡ link_at f psb
      → lq ≡ link_at f q
      → Does D mds f (link_behind f q psb) tt (do
        write_pda (link_of psb) (with_psb lp (psb_field lq))
        write_pda (link_of q) (with_psb lq psb))
  link-Does_by f q psb lp lq hq h e1 e2 = rw (e1, e2) (link-Does f q psb hq h)

PathTo-last :
    (f : ℕ → ℕ) (tail psb : ℕ) (xs : List ℕ)
    → tail < 1024
    → psb < 1024
    → Away psb (tail ∷ xs)
    → Apart (tail ∷ xs)
    → PathTo f tail tail xs
    → PathTo (link_behind f tail psb) psb psb (xs ++ (tail ∷ []))
PathTo-last f tail psb [] h small a apart path =
    (next_of-behind f tail psb h small a.0 ∙ path, next_of-before f tail psb h small a.0)
PathTo-last f tail psb (x ∷ xs) h small a apart (at, path) = (
  next_of-behind f tail psb h small a.0 ∙ at,
  PathTo-append (link_behind f tail psb) tail psb x xs []
      (PathTo-other f tail psb h small a.0 tail x xs (subst (λ n. n < 1024) at (next_of-lt f tail))
        apart.0 a.1 path)
      (next_of-before f tail psb h small a.0),
)

-- The tail of a queue.
abbrev pub tail_of : (ℕ → ℕ) → ℕ → ℕ
tail_of f que = psb_field (f que)

pub tail_of-lt : (f : ℕ → ℕ) (que : ℕ) → tail_of f que < 1024
unfolding psb_field
tail_of-lt f que = omega arith

link_behind-queue :
    (f : ℕ → ℕ) (que q psb : ℕ)
    → lengthen_pda_ptr (link_of q) ≢ que
    → lengthen_pda_ptr (link_of psb) ≢ que
    → link_behind f q psb que ≡ f que
link_behind-queue f que q psb n1 n2 = ground (arith, n1, n2)

module _ {D : ℕ → Type 0} {mds : ℕ} (f : ℕ → ℕ) (que psb : ℕ) (xs : List ℕ) (at_que : D que)
    (linked : (b : ℕ) → b < 1024 → D (lengthen_pda_ptr (link_of b)))
    (off : (b : ℕ) → b < 1024 → lengthen_pda_ptr (link_of b) ≢ que)
    (some_block : psb_field (f que) ≢ 0) (small : psb < 1024) (away : Away psb (tail_of f que ∷ xs))
    (apart : Apart (tail_of f que ∷ xs)) where
  -- Behind the tail, which the queue then names anew.
  enqueue_last :
      PathTo f (tail_of f que) (tail_of f que) xs
      → leb (priority_of f psb) (priority_of f (tail_of f que)) ≡ true
      → Rings D mds f que psb psb (xs ++ ((tail_of f que) ∷ []))
  unfolding enqueue place
  enqueue_last path low =
      let word = u16 (with_psb (f que) psb) in
      let f1 = update f que word in
      let same = link_at-queue f que word off in
      let path1 =
        PathTo-queue f que word off (tail_of f que) (tail_of f que) xs (tail_of-lt f que) path in
      let named : psb_field (f1 que) ≡ psb =
        rw (eq→== que que refl) (psb_field-u16 (f que) psb small) in
      record {
        after = link_behind f1 (tail_of f que) psb;
        does = Does-then _ (read-Does que at_que) (
            Does-then _ (read_pda-Does (link_of psb) (linked psb small)) (
              if-Does-false (psb_field (f que) == 0) _ (ground (arith, some_block)) (
                Does-then _
                  (read_pda-Does (link_of (tail_of f que))
                    (linked (tail_of f que) (tail_of-lt f que)))
                  (Does-then _
                    (if-Does-true (leb (priority_of f psb) (priority_of f (tail_of f que))) _ low (
                      Does-then _ (write-Does que _ at_que)
                        (pure-Does ((tail_of f que), link_at f (tail_of f que)))))
                    (link-Does_by linked f1 (tail_of f que) psb _ _ (tail_of-lt f que) small
                      (sym (same psb small)) (sym (same (tail_of f que) (tail_of-lt f que))))))));
        tail_is =
            subst (λ u. psb_field u ≡ psb)
              (sym (
                link_behind-queue f1 que (tail_of f que) psb
                  (off (tail_of f que) (tail_of-lt f que)) (off psb small)))
              named;
        ring = PathTo-last f1 (tail_of f que) psb xs (tail_of-lt f que) small away apart path1;
      }

  -- Before the first block of a lower priority.
  enqueue_before :
      length xs < 1025
      → PathTo f (tail_of f que) (tail_of f que) xs
      → leb (priority_of f psb) (priority_of f (tail_of f que)) ≡ false
      → Rings D mds f que psb (tail_of f que) (insert f (priority_of f psb) psb xs)
  unfolding enqueue place
  enqueue_before few path high =
      let found =
        insert-Placed f (priority_of f psb) psb (tail_of f que) small (ground (arith, high))
          (tail_of f que) xs (tail_of-lt f que) away apart path in
      record {
        after = link_behind f found.last psb;
        does = Does-then _ (read-Does que at_que) (
            Does-then _ (read_pda-Does (link_of psb) (linked psb small)) (
              if-Does-false (tail_of f que == 0) _ (ground (arith, some_block)) (
                Does-then _
                  (read_pda-Does (link_of (tail_of f que))
                    (linked (tail_of f que) (tail_of-lt f que)))
                  (Does-then _
                    (if-Does-false (leb (priority_of f psb) (priority_of f (tail_of f que))) _ high
                      (find_place-Does f linked blocks found.steps (link_at f psb) (tail_of f que)
                        found.last found.passes (omega (arith, found.few, few))))
                    (link-Does linked f found.last psb found.small small)))));
        tail_is =
            ap psb_field
              (link_behind-queue f que found.last psb (off found.last found.small) (off psb small));
        ring = found.path;
      }

-- Enqueue on a queue that is a ring of distinct blocks, of which `psb` is none, ends, and leaves a ring:
-- with `psb` for its tail if the old tail has the priority of `psb` or a higher one, and else with `psb`
-- before the first block of a lower priority, the old tail kept. The queue is not empty, its word is
-- not the link of a block, and the ring has at most the 1,024 blocks that there are.
pub enqueue_lem :
    {D : ℕ → Type 0} {mds : ℕ} (f : ℕ → ℕ) (que psb : ℕ) (xs : List ℕ)
    → D que
    → ((b : ℕ) → b < 1024 → D (lengthen_pda_ptr (link_of b)))
    → ((b : ℕ) → b < 1024 → lengthen_pda_ptr (link_of b) ≢ que)
    → tail_of f que ≢ 0
    → psb < 1024
    → Away psb (tail_of f que ∷ xs)
    → Apart (tail_of f que ∷ xs)
    → length xs < 1025
    → PathTo f (tail_of f que) (tail_of f que) xs
    → Rings D mds f que psb
        (tail_after f (tail_of f que) psb)
        (blocks_after f (tail_of f que) psb xs)
enqueue_lem {D} {mds} f que psb xs at_que linked off some_block small away apart few path =
    elim (Bool-cases (leb (priority_of f psb) (priority_of f (tail_of f que)))) [
      | inl low ↦ rw low (
          enqueue_last {D = D} {mds = mds} f que psb xs at_que linked off some_block small away
            apart path low)
      | inr high ↦ rw high (
          enqueue_before {D = D} {mds = mds} f que psb xs at_que linked off some_block small away
            apart few path high)
    ]
