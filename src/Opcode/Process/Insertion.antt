-- ===== src/Opcode/Process/Insertion.antt =====
-- Enqueue of src/opcode/Opcode_process.cpp as an insertion by priority into the list of the blocks of a
-- ring.
use mesa_emulator_unix.Common.{
  ℕ, zero, suc, ◌≤◌, ◌<◌, ◌≡◌, ◌≢◌, arith, ltb, sym, ◌∙◌, subst, update, u16, Bool-cases, inl, inr,
  List, [], ◌∷◌, length, if◌then◌else◌,
}
use mesa_emulator_unix.Machine.Words.{lengthen_pda_ptr}
use mesa_emulator_unix.Machine.Flat.{
  Does, Does-then, read_pda-Does, pure-Does, if-Does-true, if-Does-false,
}
use mesa_emulator_unix.Opcode.Process.{link_of, psb_field, with_psb, priority}
use mesa_emulator_unix.Opcode.Process.Queues.{find_place}
use mesa_emulator_unix.Opcode.Process.Rings.{link_at, next_of}

-- From block `p` the links lead through the blocks of a list, and then to `e`.
abbrev pub PathTo : (ℕ → ℕ) → ℕ → ℕ → List ℕ → Type 0
PathTo f e p [] = next_of f p ≡ e
PathTo f e p (x ∷ xs) = (next_of f p ≡ x) × PathTo f e x xs

abbrev pub Away : ℕ → List ℕ → Type 0
Away b [] = Unit {0}
Away b (x ∷ xs) = (b ≢ x) × Away b xs

abbrev pub Apart : List ℕ → Type 0
Apart [] = Unit {0}
Apart (x ∷ xs) = Away x xs × Apart xs

abbrev pub priority_of : (ℕ → ℕ) → ℕ → ℕ
priority_of f b = priority (link_at f b)

-- Before the first block of a lower priority than `p`.
unfoldable pub insert : (ℕ → ℕ) → ℕ → ℕ → List ℕ → List ℕ
insert f p psb [] = psb ∷ []
insert f p psb (x ∷ xs) =
    let rest = insert f p psb xs in if ltb (priority_of f x) p then psb ∷ x ∷ xs else x ∷ rest

-- The links behind Enqueue: `psb` is put behind `q`.
abbrev pub link_behind : (ℕ → ℕ) → ℕ → ℕ → ℕ → ℕ
link_behind f q psb =
    update
      (update f (lengthen_pda_ptr (link_of psb)) (u16 (with_psb (link_at f psb) (next_of f q))))
      (lengthen_pda_ptr (link_of q)) (u16 (with_psb (link_at f q) psb))

pub next_of-lt : (f : ℕ → ℕ) (b : ℕ) → next_of f b < 1024
unfolding psb_field
next_of-lt f b = omega arith

-- `u16` leaves the block of a word as it is.
pub psb_field-u16 : (u psb : ℕ) → psb < 1024 → psb_field (u16 (with_psb u psb)) ≡ psb
unfolding psb_field with_psb
psb_field-u16 u psb h = omega arith

module _ (f : ℕ → ℕ) (q psb : ℕ) (hq : q < 1024) (small : psb < 1024) (ne : psb ≢ q) where
  pub next_of-before : next_of (link_behind f q psb) q ≡ psb
  next_of-before = let e = psb_field-u16 (link_at f q) psb small in ground (arith, e)

  pub next_of-behind : next_of (link_behind f q psb) psb ≡ next_of f q
  next_of-behind =
      let e = psb_field-u16 (link_at f psb) (next_of f q) (next_of-lt f q) in
      ground (arith, e, hq, small, ne)

  next_of-other :
      (b : ℕ) → b < 1024 → b ≢ q → b ≢ psb → next_of (link_behind f q psb) b ≡ next_of f b
  next_of-other b h n1 n2 = ground (arith, hq, small, n1, n2, h)

  pub PathTo-other :
      (e p : ℕ) (xs : List ℕ)
      → p < 1024
      → Away q (p ∷ xs)
      → Away psb (p ∷ xs)
      → PathTo f e p xs
      → PathTo (link_behind f q psb) e p xs
  PathTo-other e p [] h a b path = next_of-other p h (λ k. a.0 (sym k)) (λ k. b.0 (sym k)) ∙ path
  PathTo-other e p (x ∷ xs) h a b (at, path) = (
    next_of-other p h (λ k. a.0 (sym k)) (λ k. b.0 (sym k)) ∙ at,
    PathTo-other e x xs (subst (λ n. n < 1024) at (next_of-lt f p)) a.1 b.1 path,
  )

-- The walk of Enqueue from a block to `last`, behind which the first block of a lower priority than `p`
-- comes, in `k` steps.
pub data Passes (f : ℕ → ℕ) (p : ℕ) : ℕ → ℕ → ℕ → Type 0 where
  here : (last : ℕ) → priority_of f (next_of f last) < p → Passes f p zero last last
  onto :
      (k prev last : ℕ)
      → p ≤ priority_of f (next_of f prev)
      → Passes f p k (next_of f prev) last
      → Passes f p (suc k) prev last

-- Where the walk ends, and that the block is put there in the list.
pub record Placed (f : ℕ → ℕ) (p psb e prev : ℕ) (xs : List ℕ) : Type 0 where
  pub last : ℕ
  pub steps : ℕ
  pub small : last < 1024
  pub few : steps ≤ length xs
  pub passes : Passes f p steps prev last
  pub among : (b : ℕ) → Away b (prev ∷ xs) → b ≢ last
  pub path : PathTo (link_behind f last psb) e prev (insert f p psb xs)

module _ (f : ℕ → ℕ) (p psb e : ℕ) (small : psb < 1024) (low : priority_of f e < p) where
  Placed-here :
      (prev : ℕ) (xs : List ℕ)
      → prev < 1024
      → psb ≢ prev
      → priority_of f (next_of f prev) < p
      → PathTo (link_behind f prev psb) e prev (insert f p psb xs)
      → Placed f p psb e prev xs
  Placed-here prev xs h ne lower path = record {
    last = prev;
    steps = 0;
    small = h;
    few = omega arith;
    passes = here prev lower;
    among = λ b a. a.0;
    path = path;
  }

  pub insert-Placed :
      (prev : ℕ) (xs : List ℕ)
      → prev < 1024
      → Away psb (prev ∷ xs)
      → Apart (prev ∷ xs)
      → PathTo f e prev xs
      → Placed f p psb e prev xs
  unfolding insert
  insert-Placed prev [] h a apart path =
      Placed-here prev [] h a.0 (rw path low)
        (next_of-before f prev psb h small a.0, next_of-behind f prev psb h small a.0 ∙ path)
  insert-Placed prev (x ∷ xs) h a apart (at, path) =
      let x_small : x < 1024 = subst (λ n. n < 1024) at (next_of-lt f prev) in
      elim (Bool-cases (ltb (priority_of f x) p)) [
        | inl lower ↦
            let onwards = PathTo-other f prev psb h small a.0 e x xs x_small apart.0 a.1 path in
            let ring : PathTo (link_behind f prev psb) e prev (psb ∷ x ∷ xs) = (
              next_of-before f prev psb h small a.0,
              (next_of-behind f prev psb h small a.0 ∙ at, onwards),
            ) in
            Placed-here prev (x ∷ xs) h a.0 (rw at (ground (arith, lower))) (rw lower ring)
        | inr higher ↦
            let rest = insert-Placed x xs x_small a.1 apart.1 path in
            let not_last = rest.among prev apart.0 in
            let other =
              next_of-other f rest.last psb rest.small small (rest.among psb a.1) prev h not_last
                (λ k. a.0 (sym k)) in
            record {
              last = rest.last;
              steps = suc rest.steps;
              small = rest.small;
              few = omega (arith, rest.few);
              passes =
                  onto rest.steps prev rest.last (rw at (ground (arith, higher)))
                    (rw at rest.passes);
              among = λ b away. rest.among b away.1;
              path = rw higher (other ∙ at, rest.path);
            }
      ]

module _ {D : ℕ → Type 0} {mds : ℕ} (f : ℕ → ℕ)
    (linked : (psb : ℕ) → psb < 1024 → D (lengthen_pda_ptr (link_of psb))) where
  pub find_place-Does :
      (fuel k link prev last : ℕ)
      → Passes f (priority link) k prev last
      → k < fuel
      → Does D mds f f (last, link_at f last) (find_place fuel link prev (link_at f prev))
  unfolding find_place
  find_place-Does zero k link prev last r lt = absurd (omega (arith, lt))
  find_place-Does (suc fuel) zero link prev last (here _ lower) lt =
      Does-then _
        (read_pda-Does (link_of (next_of f prev)) (linked (next_of f prev) (next_of-lt f prev)))
        (if-Does-true (ltb (priority_of f (next_of f prev)) (priority link)) _
          (ground (arith, lower)) (pure-Does _))
  find_place-Does (suc fuel) (suc k) link prev last (onto _ _ _ higher r) lt =
      Does-then _
        (read_pda-Does (link_of (next_of f prev)) (linked (next_of f prev) (next_of-lt f prev)))
        (if-Does-false (ltb (priority_of f (next_of f prev)) (priority link)) _
          (ground (arith, higher))
          (find_place-Does fuel k link (next_of f prev) last r (omega (arith, lt))))
