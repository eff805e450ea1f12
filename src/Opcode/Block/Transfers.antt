-- ===== src/Opcode/Block/Transfers.antt =====
-- The instructions BLT, BLTL, BLTC and BLTCL of src/opcode/Opcode_block.cpp: the whole of each, from the
-- words on the stack to the words in virtual memory.
use mesa_emulator_unix.Common.{
  ℕ, zero, suc, ◌+◌, ◌-◌, ◌*◌, ◌<◌, ◌≤◌, ◌≡◌, refl, Bool, true, false, arith, ◌==◌, subst, sym, u16,
  u32, bit_or, leb, ◌∙◌, if◌then◌else◌,
}
use mesa_emulator_unix.Action.{Action, Outcome, ok, stop, ◌>>=◌, skip, gets}
use mesa_emulator_unix.Machine.{Machine, pop, pop_long}
use mesa_emulator_unix.Machine.Access.{lengthen, lengthen_pointer}
use mesa_emulator_unix.Machine.Flat.{Holds}
use mesa_emulator_unix.Machine.Flat.Pointers.{
  Placed, Moves, MovesTo, SameRest, push-Moves, push_long-Moves, discard-Moves, Moves-then,
  Holds-stack,
}
use mesa_emulator_unix.Opcode.{Instruction}
use mesa_emulator_unix.Opcode.Block.{
  blt_loop, save_short, save_long, save_code, e_blt, e_bltl, e_bltc, e_bltcl,
}
use mesa_emulator_unix.Opcode.Block.Copies.{copied, Span, loop-Moves}

-- Of a run from `s`: it ends with the words of `g` and `n` words on the stack, and nothing else is changed.
abbrev pub CopiesTo : (ℕ → Type 0) → ℕ → (ℕ → ℕ) → ℕ → Machine → Outcome Machine (Unit {0}) → Type 0
CopiesTo D mds g n s (ok b t) = Holds D mds g t × (t.sp ≡ n) × SameRest s t
CopiesTo D mds g n s (stop c t) = ⊥

-- The number whose low and high word are on the stack from `i` on.
abbrev pub long_at : (ℕ → ℕ) → ℕ → ℕ
long_at f i = bit_or (f (i + 1) * 65536) (f i)

pop-then :
    {B : Type 0} (k : ℕ → Action Machine B) (s : Machine) (m : ℕ)
    → s.sp ≡ suc m
    → m < 14
    → (pop >>= k) s ≡ k (s.storage m) (record s { sp = m })
unfolding pop ◌>>=◌
pop-then k s m e lt =
    let full : (s.sp == 0) ≡ false = ground (arith, e) in
    let inside : leb s.sp 14 ≡ true = ground (arith, e, lt) in
    let next : s.sp - 1 ≡ m = omega (arith, e) in rw (full, inside, next) refl

pop_long-then :
    {B : Type 0} (k : ℕ → Action Machine B) (s : Machine) (m : ℕ)
    → s.sp ≡ suc (suc m)
    → m < 13
    → (pop_long >>= k) s ≡ k (long_at s.storage m) (record s { sp = m })
unfolding pop_long ◌>>=◌
pop_long-then k s m e lt =
    let full : leb s.sp 1 ≡ false = ground (arith, e) in
    let inside : leb s.sp 14 ≡ true = ground (arith, e, lt) in
    let high : s.sp - 1 ≡ m + 1 = omega (arith, e) in
    let low : s.sp - 2 ≡ m = omega (arith, e) in rw (full, inside, high, low) refl

Span-end :
    (D : ℕ → Type 0) (s n : ℕ)
    → ((va : ℕ) → D va → va < 4294967296)
    → Span D s n
    → 0 < n
    → s + n ≤ 4294967296
Span-end D s n small span h =
    let last = small (s + (n - 1)) (span (n - 1) (omega (arith, h))) in omega (arith, last, h)

module _ {D : ℕ → Type 0} {mds : ℕ} {rp : ℕ → ℕ} {n : ℕ} (room : n < 10) (g : ℕ → ℕ)
    (x y z : ℕ) where
  save_short-Moves : Moves D mds rp n n g g tt (save_short x y z)
  unfolding save_short
  save_short-Moves = Moves-then _ (push-Moves x (omega (arith, room))) (
      Moves-then _ (push-Moves y (omega (arith, room))) (
        Moves-then _ (push-Moves z (omega (arith, room))) (
          Moves-then _ (discard-Moves (omega (arith, room))) (
            Moves-then _ (discard-Moves (omega (arith, room)))
              (discard-Moves (omega (arith, room)))))))

  save_code-Moves : Moves D mds rp n n g g tt (save_code x y z)
  unfolding save_code
  save_code-Moves = Moves-then _ (push-Moves x (omega (arith, room))) (
      Moves-then _ (push-Moves y (omega (arith, room))) (
        Moves-then _ (push_long-Moves z (omega (arith, room))) (
          Moves-then _ (discard-Moves (omega (arith, room))) (
            Moves-then _ (discard-Moves (omega (arith, room))) (
              Moves-then _ (discard-Moves (omega (arith, room)))
                (discard-Moves (omega (arith, room))))))))

  save_long-Moves : Moves D mds rp n n g g tt (save_long x y z)
  unfolding save_long
  save_long-Moves = Moves-then _ (push_long-Moves x (omega (arith, room))) (
      Moves-then _ (push-Moves y (omega (arith, room))) (
        Moves-then _ (push_long-Moves z (omega (arith, room))) (
          Moves-then _ (discard-Moves (omega (arith, room))) (
            Moves-then _ (discard-Moves (omega (arith, room))) (
              Moves-then _ (discard-Moves (omega (arith, room))) (
                Moves-then _ (discard-Moves (omega (arith, room)))
                  (discard-Moves (omega (arith, room)))))))))

else-same :
    {B : Type 0} (b : Bool) (x y z : Action Machine B) (s : Machine)
    → y s ≡ z s
    → (if b then x else y) s ≡ (if b then x else z) s
else-same true x y z s e = refl
else-same false x y z s e = e

MovesTo-CopiesTo :
    (D : ℕ → Type 0) (mds : ℕ) (rp g : ℕ → ℕ) (n : ℕ) (s : Machine) (o : Outcome Machine (Unit {0}))
    → MovesTo D mds rp n g tt (record s { sp = n }) o
    → CopiesTo D mds g n s o
MovesTo-CopiesTo D mds rp g n s (ok b t) (e, h, same) = (h.holds, h.depth, same)
MovesTo-CopiesTo D mds rp g n s (stop c t) h = absurd h

module _ {D : ℕ → Type 0} {mds : ℕ} (f : ℕ → ℕ) (s : Machine) (n : ℕ) (h : Holds D mds f s)
    (room : n < 10) where
  -- The loop of an instruction that copies `c` words, 0 included, on the stack without its operands.
  loop-CopiesTo :
      (save : ℕ → ℕ → ℕ → Instruction) (ws wd : ℕ → ℕ)
      → ((rp g : ℕ → ℕ) (x y z : ℕ) → Moves D mds rp n n g g tt (save x y z))
      → (c a b source dest : ℕ) → Span D a c
      → Span D b c
      → CopiesTo D mds (copied f c a b) n s (
          (if c == 0 then skip else blt_loop save ws wd c source c dest a b c)
            (record s { sp = n }))
  unfolding skip
  loop-CopiesTo save ws wd kept zero a b source dest ins ind =
      (Holds-stack s s.storage n h, refl, refl)
  loop-CopiesTo save ws wd kept (suc c) a b source dest ins ind =
      let rp : ℕ → ℕ = λ vp. (s.memory.maps vp).rp in
      let placed : Placed D mds rp f n (record s { sp = n }) = record {
        holds = Holds-stack s s.storage n h;
        places = λ vp. refl;
        depth = refl;
      } in
      let nonzero : (suc c == 0) ≡ false = ground arith in
      rw nonzero (
        MovesTo-CopiesTo D mds rp _ n s _ (
          (loop-Moves {D = D} {mds = mds} {rp = rp} {f = f} {n = n} save ws wd (kept rp) (suc c)
              (suc c) a b source (suc c) dest (omega arith) (omega arith)
              (Span-end D a (suc c) h.address ins (omega arith))
              (Span-end D b (suc c) h.address ind (omega arith)) ins ind).at
            (record s { sp = n }) placed))

  -- BLT on words of open pages, with its three operand words on top of at most nine others, ends without a
  -- fault for every count, 0 included. It takes its operands off the stack, leaves the words of the main data
  -- space that a copy of one word after the other leaves, and changes no register but SP.
  pub e_blt-CopiesTo :
      s.sp ≡ n + 3
      → Span D (lengthen s.mds (s.storage n)) (s.storage (n + 1))
      → Span D (lengthen s.mds (s.storage (n + 2))) (s.storage (n + 1))
      → CopiesTo D mds
          (copied f
            (s.storage (n + 1))
            (lengthen s.mds (s.storage n))
            (lengthen s.mds (s.storage (n + 2))))
          n
          s
          (e_blt s)
  unfolding e_blt lengthen_pointer gets ◌>>=◌
  e_blt-CopiesTo depth ins ind =
      let steps =
        pop-then _ s (n + 2) (omega (arith, depth)) (omega (arith, room))
        ∙ pop-then _ (record s { sp = n + 2 }) (n + 1) (omega arith) (omega (arith, room))
        ∙ pop-then _ (record s { sp = n + 1 }) n (omega arith) (omega (arith, room))
        ∙ else-same (s.storage (n + 1) == 0) skip _
            (blt_loop save_short u16 u16 (s.storage (n + 1)) (s.storage n) (s.storage (n + 1))
              (s.storage (n + 2)) (lengthen s.mds (s.storage n))
              (lengthen s.mds (s.storage (n + 2))) (s.storage (n + 1)))
            (record s { sp = n }) refl in
      subst (CopiesTo D mds _ n s) (sym steps) (
        loop-CopiesTo save_short u16 u16 (λ rp g x y z. save_short-Moves room g x y z)
          (s.storage (n + 1)) (lengthen s.mds (s.storage n)) (lengthen s.mds (s.storage (n + 2))) _
          _ ins ind)

  -- BLTC on words of open pages, with its three operand words on top of at most nine others, ends without a
  -- fault for every count, 0 included. It takes its operands off the stack, leaves the words that a copy of
  -- one word after the other from the code segment to the main data space leaves, and changes no register
  -- but SP.
  pub e_bltc-CopiesTo :
      s.sp ≡ n + 3
      → Span D (u32 (s.cb + s.storage n)) (s.storage (n + 1))
      → Span D (lengthen s.mds (s.storage (n + 2))) (s.storage (n + 1))
      → CopiesTo D mds
          (copied f
            (s.storage (n + 1))
            (u32 (s.cb + s.storage n))
            (lengthen s.mds (s.storage (n + 2))))
          n
          s
          (e_bltc s)
  unfolding e_bltc lengthen_pointer gets ◌>>=◌
  e_bltc-CopiesTo depth ins ind =
      let steps =
        pop-then _ s (n + 2) (omega (arith, depth)) (omega (arith, room))
        ∙ pop-then _ (record s { sp = n + 2 }) (n + 1) (omega arith) (omega (arith, room))
        ∙ pop-then _ (record s { sp = n + 1 }) n (omega arith) (omega (arith, room))
        ∙ else-same (s.storage (n + 1) == 0) skip _
            (blt_loop save_short u16 u16 (s.storage (n + 1)) (s.storage n) (s.storage (n + 1))
              (s.storage (n + 2)) (u32 (s.cb + s.storage n)) (lengthen s.mds (s.storage (n + 2)))
              (s.storage (n + 1)))
            (record s { sp = n }) refl in
      subst (CopiesTo D mds _ n s) (sym steps) (
        loop-CopiesTo save_short u16 u16 (λ rp g x y z. save_short-Moves room g x y z)
          (s.storage (n + 1)) (u32 (s.cb + s.storage n)) (lengthen s.mds (s.storage (n + 2))) _ _
          ins ind)

  -- BLTCL on words of open pages, with its four operand words on top of at most nine others, ends without a
  -- fault for every count, 0 included. It takes its operands off the stack, leaves the words that a copy of
  -- one word after the other from the code segment to the address of a long pointer leaves, and changes no
  -- register but SP.
  pub e_bltcl-CopiesTo :
      s.sp ≡ n + 4
      → Span D (u32 (s.cb + s.storage n)) (s.storage (n + 1))
      → Span D (long_at s.storage (n + 2)) (s.storage (n + 1))
      → CopiesTo D mds
          (copied f (s.storage (n + 1)) (u32 (s.cb + s.storage n)) (long_at s.storage (n + 2)))
          n
          s
          (e_bltcl s)
  unfolding e_bltcl gets ◌>>=◌
  e_bltcl-CopiesTo depth ins ind =
      let steps =
        pop_long-then _ s (n + 2) (omega (arith, depth)) (omega (arith, room))
        ∙ pop-then _ (record s { sp = n + 2 }) (n + 1) (omega arith) (omega (arith, room))
        ∙ pop-then _ (record s { sp = n + 1 }) n (omega arith) (omega (arith, room))
        ∙ else-same (s.storage (n + 1) == 0) skip _
            (blt_loop save_code u16 u32 (s.storage (n + 1)) (s.storage n) (s.storage (n + 1))
              (long_at s.storage (n + 2)) (u32 (s.cb + s.storage n)) (long_at s.storage (n + 2))
              (s.storage (n + 1)))
            (record s { sp = n }) refl in
      subst (CopiesTo D mds _ n s) (sym steps) (
        loop-CopiesTo save_code u16 u32 (λ rp g x y z. save_code-Moves room g x y z)
          (s.storage (n + 1)) (u32 (s.cb + s.storage n)) (long_at s.storage (n + 2)) _ _ ins ind)

  -- BLTL on words of open pages, with its five operand words on top of at most nine others, ends without a
  -- fault for every count, 0 included. It takes its operands off the stack and leaves the words that a copy
  -- of one word after the other from the source up leaves, over page ends and where source and target
  -- overlap, and it changes no register but SP.
  pub e_bltl-CopiesTo :
      s.sp ≡ n + 5
      → Span D (long_at s.storage n) (s.storage (n + 2))
      → Span D (long_at s.storage (n + 3)) (s.storage (n + 2))
      → CopiesTo D mds
          (copied f (s.storage (n + 2)) (long_at s.storage n) (long_at s.storage (n + 3)))
          n
          s
          (e_bltl s)
  unfolding e_bltl
  e_bltl-CopiesTo depth ins ind =
      let steps =
        pop_long-then _ s (n + 3) (omega (arith, depth)) (omega (arith, room))
        ∙ pop-then _ (record s { sp = n + 3 }) (n + 2) (omega arith) (omega (arith, room))
        ∙ pop_long-then _ (record s { sp = n + 2 }) n (omega arith) (omega (arith, room)) in
      subst (CopiesTo D mds _ n s) (sym steps) (
        loop-CopiesTo save_long u32 u32 (λ rp g x y z. save_long-Moves room g x y z)
          (s.storage (n + 2)) (long_at s.storage n) (long_at s.storage (n + 3)) _ _ ins ind)
