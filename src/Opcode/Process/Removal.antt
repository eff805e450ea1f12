-- ===== src/Opcode/Process/Removal.antt =====
-- Dequeue of src/opcode/Opcode_process.cpp as the removal of a block from the list of the blocks of a ring.
use mesa_emulator_unix.Common.{
  ℕ, suc, ◌≤◌, ◌<◌, ◌≡◌, ◌≢◌, arith, ◌==◌, sym, ap, ◌∙◌, subst, update, u16, List, [], ◌∷◌, ◌++◌,
  length, if◌then◌else◌,
}
use mesa_emulator_unix.Machine.Words.{lengthen_pda_ptr}
use mesa_emulator_unix.Machine.Flat.{
  Does, Does-then, read-Does, read_pda-Does, write_pda-Does, pure-Does, skip-Does, if-Does-false,
}
use mesa_emulator_unix.Opcode.Process.{link_of, psb_field, with_psb}
use mesa_emulator_unix.Opcode.Process.Queues.{blocks, find_prev, unlink, dequeue}
use mesa_emulator_unix.Opcode.Process.Rings.{link_at, next_of, Reaches, here, onto, find_prev_lem}
use mesa_emulator_unix.Opcode.Process.Insertion.{PathTo, Away, Apart, next_of-lt, psb_field-u16}
use mesa_emulator_unix.Opcode.Process.Enqueue.{tail_of, tail_of-lt}

-- The words where `q` names the block that `psb` named.
abbrev pub link_past : (ℕ → ℕ) → ℕ → ℕ → ℕ → ℕ
link_past f q psb =
    update f (lengthen_pda_ptr (link_of q)) (u16 (with_psb (link_at f q) (next_of f psb)))

Away-middle : (b psb : ℕ) (xs ys : List ℕ) → Away b (xs ++ (psb ∷ ys)) → b ≢ psb
Away-middle b psb [] ys a = a.0
Away-middle b psb (x ∷ xs) ys a = Away-middle b psb xs ys a.1

module _ (f : ℕ → ℕ) (q psb : ℕ) (hq : q < 1024) where
  next_of-past : next_of (link_past f q psb) q ≡ next_of f psb
  next_of-past =
      let e = psb_field-u16 (link_at f q) (next_of f psb) (next_of-lt f psb) in ground (arith, e)

  next_of-beside : (b : ℕ) → b < 1024 → b ≢ q → next_of (link_past f q psb) b ≡ next_of f b
  next_of-beside b h ne = ground (arith, hq, h, ne)

  PathTo-beside :
      (e p : ℕ) (xs : List ℕ)
      → p < 1024
      → Away q (p ∷ xs)
      → PathTo f e p xs
      → PathTo (link_past f q psb) e p xs
  PathTo-beside e p [] h a path = next_of-beside p h (λ k. a.0 (sym k)) ∙ path
  PathTo-beside e p (x ∷ xs) h a (at, path) = (
    next_of-beside p h (λ k. a.0 (sym k)) ∙ at,
    PathTo-beside e x xs (subst (λ n. n < 1024) at (next_of-lt f p)) a.1 path,
  )

  -- From `q` the links now lead where they led from `psb`.
  PathTo-past :
      (e : ℕ) (ys : List ℕ) → Away q ys → PathTo f e psb ys → PathTo (link_past f q psb) e q ys
  PathTo-past e [] a path = next_of-past ∙ path
  PathTo-past e (y ∷ ys) a (at, path) =
      (next_of-past ∙ at, PathTo-beside e y ys (subst (λ n. n < 1024) at (next_of-lt f psb)) a path)

-- Where the search for `psb` from `prev` ends, and that the list without `psb` is then a path.
record Found (f : ℕ → ℕ) (psb e prev : ℕ) (xs ys : List ℕ) : Type 0 where
  last : ℕ
  steps : ℕ
  small : last < 1024
  few : steps ≤ length xs
  reaches : Reaches f psb steps prev last
  among : (b : ℕ) → Away b (prev ∷ xs ++ (psb ∷ ys)) → b ≢ last
  path : PathTo (link_past f last psb) e prev (xs ++ ys)

module _ (f : ℕ → ℕ) (psb e : ℕ) (ys : List ℕ) where
  remove-Found :
      (prev : ℕ) (xs : List ℕ)
      → prev < 1024
      → Apart (prev ∷ xs ++ (psb ∷ ys))
      → PathTo f e prev (xs ++ (psb ∷ ys))
      → Found f psb e prev xs ys
  remove-Found prev [] h apart (at, path) = record {
    last = prev;
    steps = 0;
    small = h;
    few = omega arith;
    reaches = here prev at;
    among = λ b a. a.0;
    path = PathTo-past f prev psb h e ys apart.0.1 path;
  }
  remove-Found prev (x ∷ xs) h apart (at, path) =
      let x_small : x < 1024 = subst (λ n. n < 1024) at (next_of-lt f prev) in
      let rest = remove-Found x xs x_small apart.1 path in
      let other = Away-middle x psb xs ys apart.1.0 in
      let not_last = rest.among prev apart.0 in
      record {
        last = rest.last;
        steps = suc rest.steps;
        small = rest.small;
        few = omega (arith, rest.few);
        reaches = onto rest.steps prev rest.last (λ k. other (sym at ∙ k)) (rw at rest.reaches);
        among = λ b a. rest.among b a.1;
        path = (next_of-beside f rest.last psb rest.small prev h not_last ∙ at, rest.path);
      }

-- An action of Dequeue that leaves the queue `que` with this ring.
pub record Dequeues (D : ℕ → Type 0) (mds : ℕ) (f : ℕ → ℕ) (que psb tail : ℕ) (xs : List ℕ)
    : Type 0 where
  pub after : ℕ → ℕ
  pub does : Does D mds f after tt (dequeue que psb)
  pub tail_is : psb_field (after que) ≡ tail
  pub ring : PathTo after tail tail xs

-- The block that `psb` names is another one.
next_of-another :
    (f : ℕ → ℕ) (e psb : ℕ) (xs ys : List ℕ)
    → Apart (xs ++ (psb ∷ ys))
    → e ≢ psb
    → (p : ℕ) → PathTo f e p (xs ++ (psb ∷ ys))
    → next_of f psb ≢ psb
next_of-another f e psb [] [] apart ne p (at, path) k = ne (sym path ∙ k)
next_of-another f e psb [] (y ∷ ys) apart ne p (at, path) k = apart.0.0 (sym k ∙ path.0)
next_of-another f e psb (x ∷ xs) ys apart ne p (at, path) k =
    next_of-another f e psb xs ys apart.1 ne x path k

-- Dequeue of a block that is not the tail, from a queue that is a ring of distinct blocks, ends: the ring
-- then has the same tail and the other blocks, in their order. The queue and the links of the blocks are
-- words of open pages, the queue is not PsbNull, its word is not the link of a block, and at most 1,024
-- blocks are before the one that is taken off.
pub dequeue_lem :
    {D : ℕ → Type 0} {mds : ℕ} (f : ℕ → ℕ) (que psb : ℕ) (xs ys : List ℕ)
    → D que
    → ((b : ℕ) → b < 1024 → D (lengthen_pda_ptr (link_of b)))
    → ((b : ℕ) → b < 1024 → lengthen_pda_ptr (link_of b) ≢ que)
    → que ≢ 0
    → psb < 1024
    → Apart (tail_of f que ∷ xs ++ (psb ∷ ys))
    → length xs < 1025
    → PathTo f (tail_of f que) (tail_of f que) (xs ++ (psb ∷ ys))
    → Dequeues D mds f que psb (tail_of f que) (xs ++ ys)
unfolding dequeue unlink
dequeue_lem {D} {mds} f que psb xs ys at_que linked off some_que small apart few path =
    let tail = tail_of f que in
    let found = remove-Found f psb tail ys tail xs (tail_of-lt f que) apart path in
    let other = Away-middle tail psb xs ys apart.0 in
    let onward = next_of-another f tail psb xs ys apart.1 other tail path in
    let start : (if que == 0 then psb else tail) ≡ tail = ground (arith, some_que) in
    let searched =
      subst (λ p. Does D mds f f (found.last, link_at f found.last) (find_prev blocks psb p))
        (sym start)
        (find_prev_lem f linked blocks found.steps psb tail found.last found.reaches
          (tail_of-lt f que) (omega (arith, found.few, few))) in
    record {
      after = link_past f found.last psb;
      does =
          Does-then _ (if-Does-false (que == 0) _ (ground (arith, some_que)) (read-Does que at_que))
            (Does-then _ (read_pda-Does (link_of psb) (linked psb small)) (
              Does-then _
                (if-Does-false (next_of f psb == psb) _ (ground (arith, onward)) (
                  Does-then _ searched (
                    Does-then _
                      (write_pda-Does (link_of found.last) _ (linked found.last found.small))
                      (pure-Does found.last))))
                (if-Does-false (que == 0) _ (ground (arith, some_que))
                  (if-Does-false (psb_field (f que) == psb) _ (ground (arith, other)) skip-Does))));
      tail_is = ap psb_field (ground (arith, off found.last found.small));
      ring = found.path;
    }
