-- ===== src/Opcode/Block/Copies.antt =====
-- BLT and BLTL of src/opcode/Opcode_block.cpp against a copy word by word, on the words of virtual memory.
use mesa_emulator_unix.Common.{
  ℕ, zero, suc, ◌+◌, ◌-◌, ◌/◌, ◌%◌, ◌<◌, ◌≤◌, ◌≡◌, refl, arith, ◌==◌, subst, sym, ap, update, u16,
  u32, sub16, ◌∙◌,
}
use mesa_emulator_unix.Action.{◌>>◌, pure}
use mesa_emulator_unix.Machine.Access.{load, assign}
use mesa_emulator_unix.Machine.Flat.Pointers.{
  Moves, place, fetch-Moves, store-Moves, load-Moves, assign-Moves, pure-Moves, skip-Moves,
  Moves-then, Moves-leaves, if-Moves,
}
use mesa_emulator_unix.Opcode.{Instruction}
use mesa_emulator_unix.Opcode.Block.{run_of, copy_up, blt, blt_loop}

-- The words behind a copy of `n` words from `s` up to the words from `d` up, one after the other, so that
-- a word that was written may be read again.
abbrev pub copied : (ℕ → ℕ) → ℕ → ℕ → ℕ → ℕ → ℕ
copied f zero s d = f
copied f (suc n) s d = copied (update f d (u16 (f s))) n (s + 1) (d + 1)

copied_sum :
    (n m s d : ℕ) (f : ℕ → ℕ) → copied (copied f n s d) m (s + n) (d + n) ≡ copied f (n + m) s d
copied_sum zero m s d f =
    let e1 : s + 0 ≡ s = omega arith in
    let e2 : d + 0 ≡ d = omega arith in let e3 : 0 + m ≡ m = omega arith in rw (e1, e2, e3) refl
copied_sum (suc n) m s d f =
    let e1 : s + suc n ≡ s + 1 + n = omega arith in
    let e2 : d + suc n ≡ d + 1 + n = omega arith in
    let e3 : suc n + m ≡ suc (n + m) = omega arith in
    rw (e1, e2, e3) (copied_sum n m (s + 1) (d + 1) (update f d (u16 (f s))))

-- A run takes a word or more, no more than are left, and stays in both pages.
record RunOk (s d c run : ℕ) : Type 0 where
  some_word : 0 < run
  at_most : run ≤ c
  in_source : s % 256 + run ≤ 256
  in_target : d % 256 + run ≤ 256

run_of-RunOk : (s d c : ℕ) → 0 < c → RunOk s d c (run_of (256 - s % 256) (256 - d % 256) c)
unfolding run_of
run_of-RunOk s d c h = record {
  some_word = ground (arith, h);
  at_most = ground (arith, h);
  in_source = ground (arith, h);
  in_target = ground (arith, h);
}

-- The addresses from `s` up, `n` of them.
abbrev pub Span : (ℕ → Type 0) → ℕ → ℕ → Type 0
Span D s n = (i : ℕ) → i < n → D (s + i)

pub Span-rest :
    (D : ℕ → Type 0) (s n m total : ℕ) → n + m ≤ total → Span D s total → Span D (s + n) m
Span-rest D s n m total le span i h =
    let e : s + n + i ≡ s + (n + i) = omega arith in rw e (span (n + i) (omega (arith, h, le)))

pub Span-first : (D : ℕ → Type 0) (s n : ℕ) → Span D s n → 0 < n → D s
Span-first D s n span h = let e : s ≡ s + 0 = omega arith in rw e (span 0 h)

pub place-suc : (rp : ℕ → ℕ) (s : ℕ) → s % 256 + 1 < 256 → place rp s + 1 ≡ place rp (s + 1)
place-suc rp s h =
    let page : (s + 1) / 256 ≡ s / 256 = omega (arith, h) in
    let offset : (s + 1) % 256 ≡ s % 256 + 1 = omega (arith, h) in rw (page, offset) (omega arith)

module _ {D : ℕ → Type 0} {mds : ℕ} {rp : ℕ → ℕ} where
  copy_up-Moves :
      {f : ℕ → ℕ} {n : ℕ} (k s d p q : ℕ)
      → s % 256 + k ≤ 256
      → d % 256 + k ≤ 256
      → Span D s k
      → Span D d k
      → (0 < k → p ≡ place rp s)
      → (0 < k → q ≡ place rp d)
      → Moves D mds rp n n f (copied f k s d) tt (copy_up k p q)
  unfolding copy_up
  copy_up-Moves zero s d p q hs hd ins ind at_p at_q = skip-Moves
  copy_up-Moves {f} {n} (suc k) s d p q hs hd ins ind at_p at_q =
      let next_p : 0 < k → p + 1 ≡ place rp (s + 1) =
        λ h. ap (λ x. x + 1) (at_p (omega arith)) ∙ place-suc rp s (omega (arith, h, hs)) in
      let next_q : 0 < k → q + 1 ≡ place rp (d + 1) =
        λ h. ap (λ x. x + 1) (at_q (omega arith)) ∙ place-suc rp d (omega (arith, h, hd)) in
      let rest =
        copy_up-Moves {f = update f d (u16 (f s))} {n = n} k (s + 1) (d + 1) (p + 1) (q + 1)
          (omega (arith, hs)) (omega (arith, hd)) (Span-rest D s 1 k (suc k) (omega arith) ins)
          (Span-rest D d 1 k (suc k) (omega arith) ind) next_p next_q in
      Moves-then _
        (subst (λ x. Moves D mds rp n n f f (f s) (load x)) (sym (at_p (omega arith)))
          (load-Moves s (Span-first D s (suc k) ins (omega arith))))
        (Moves-then _
          (subst (λ x. Moves D mds rp n n f (update f d (u16 (f s))) tt (assign x (f s)))
            (sym (at_q (omega arith)))
            (assign-Moves d (f s) (Span-first D d (suc k) ind (omega arith))))
          rest)

  blt-Moves :
      {f : ℕ → ℕ} {n : ℕ} (s d c run : ℕ)
      → run ≡ run_of (256 - s % 256) (256 - d % 256) c
      → 0 < c
      → Span D s c
      → Span D d c
      → Moves D mds rp n n f (copied f run s d) run (blt s d c)
  unfolding blt
  blt-Moves {f} {n} s d c run e lt ins ind =
      let ok = run_of-RunOk s d c lt in
      let counted : RunOk s d c run = subst (RunOk s d c) (sym e) ok in
      Moves-then _ (fetch-Moves s (Span-first D s c ins lt)) (
        Moves-then _ (store-Moves d (Span-first D d c ind lt)) (
          subst
            (λ r.
              Moves D mds rp n n f (copied f run s d) run
                (copy_up r (place rp s) (place rp d) >> pure r))
            e
            (Moves-then _
              (copy_up-Moves run s d (place rp s) (place rp d) counted.in_source counted.in_target
                (λ i h. ins i (omega (arith, h, counted.at_most)))
                (λ i h. ind i (omega (arith, h, counted.at_most))) (λ _. refl) (λ _. refl))
              (pure-Moves run))))

  -- The loop around BLT ends after at most a round for each word, and leaves what the copy word by word
  -- leaves, wherever the pages of the source and the target end.
  pub loop-Moves :
      {f : ℕ → ℕ} {n : ℕ} (save : ℕ → ℕ → ℕ → Instruction) (ws wd : ℕ → ℕ)
      → ((g : ℕ → ℕ) (x y z : ℕ) → Moves D mds rp n n g g tt (save x y z))
      → (fuel c s d source count dest : ℕ) → c ≤ fuel
      → 0 < c
      → s + c ≤ 4294967296
      → d + c ≤ 4294967296
      → Span D s c
      → Span D d c
      → Moves D mds rp n n f (copied f c s d) tt (blt_loop save ws wd fuel source count dest s d c)
  unfolding blt_loop
  loop-Moves save ws wd kept zero c s d source count dest enough lt hs hd ins ind =
      absurd (omega (arith, enough, lt))
  loop-Moves {f} {n} save ws wd kept (suc fuel) c s d source count dest enough lt hs hd ins ind =
      let run = run_of (256 - s % 256) (256 - d % 256) c in
      let ok = run_of-RunOk s d c lt in
      let some_word = ok.some_word in
      let at_most = ok.at_most in
      Moves-then _ (blt-Moves s d c run refl lt ins ind) (
        if-Moves (c - run == 0) _ _
          (λ last.
            let e : run ≡ c = ground (arith, last, at_most) in
            Moves-leaves (ap (λ r. copied f r s d) e) skip-Moves)
          (λ more.
            let left : 0 < c - run = ground (arith, more) in
            let e1 : u32 (s + run) ≡ s + run = omega (arith, hs, left) in
            let e2 : u32 (d + run) ≡ d + run = omega (arith, hd, left) in
            let total : run + (c - run) ≡ c = omega (arith, at_most) in
            let sum : copied (copied f run s d) (c - run) (s + run) (d + run) ≡ copied f c s d =
              copied_sum run (c - run) s d f ∙ ap (λ x. copied f x s d) total in
            let later =
              loop-Moves {f = copied f run s d} {n = n} save ws wd kept fuel (c - run) (s + run)
                (d + run) (ws (source + run)) (sub16 count run) (wd (dest + run))
                (omega (arith, enough, some_word)) left (omega (arith, hs, at_most))
                (omega (arith, hd, at_most))
                (Span-rest D s run (c - run) c (omega (arith, at_most)) ins)
                (Span-rest D d run (c - run) c (omega (arith, at_most)) ind) in
            rw (e1, e2) (Moves-then _ (kept (copied f run s d) _ _ _) (Moves-leaves sum later))))
