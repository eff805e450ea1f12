-- ===== src/Machine/Stack.antt =====
-- The evaluation stack of src/mesa/Variable.h as a list of words, the top first, and what `push`,
-- `pop` and their double forms do to it.
use mesa_emulator_unix.Common.{
  ℕ, zero, suc, ◌+◌, ◌-◌, ◌*◌, ◌/◌, ◌%◌, ◌≤◌, ◌<◌, ◌≡◌, ◌≢◌, refl, List, [], ◌∷◌, arith, update,
  u16, leb, ltb, true, false, ◌==◌,
}
use mesa_emulator_unix.Common.Bits.{bit_or_sum}
use mesa_emulator_unix.Action.{Outcome, ok, stop}
use mesa_emulator_unix.Machine.{Machine, push, pop, push_long, pop_long}

-- The words of `f` below `n`, the last first.
abbrev pub contents : ℕ → (ℕ → ℕ) → List ℕ
contents zero f = []
contents (suc n) f = f n ∷ contents n f

abbrev pub stack_of : Machine → List ℕ
stack_of s = contents s.sp s.storage

contents-update : (n i v : ℕ) (f : ℕ → ℕ) → n ≤ i → contents n (update f i v) ≡ contents n f
contents-update zero i v f h = refl
contents-update (suc n) i v f h =
    let other : update f i v n ≡ f n = ground (arith, h) in
    rw (other, contents-update n i v f (omega (arith, h))) refl

contents-suc : (n : ℕ) (f : ℕ → ℕ) → n ≢ 0 → contents n f ≡ f (n - 1) ∷ contents (n - 1) f
contents-suc zero f h = absurd (h refl)
contents-suc (suc n) f h = let e : suc n - 1 ≡ n = omega arith in rw e refl

contents-suc2 :
    (n : ℕ) (f : ℕ → ℕ) → 2 ≤ n → contents n f ≡ f (n - 1) ∷ f (n - 2) ∷ contents (n - 2) f
contents-suc2 zero f h = absurd (omega (arith, h))
contents-suc2 (suc zero) f h = absurd (omega (arith, h))
contents-suc2 (suc (suc n)) f h =
    let e1 : suc (suc n) - 1 ≡ suc n = omega arith in
    let e2 : suc (suc n) - 2 ≡ n = omega arith in rw (e1, e2) refl

-- The list that a run leaves, `none` of it where the run stops by a stack error.
abbrev pub Leaves : Outcome Machine (Unit {0}) → List ℕ → Type 0
Leaves (ok a s) l = stack_of s ≡ l
Leaves (stop c s) l = ⊥

-- `l` is the word, or the two words of the number, that a run returns, before the list it leaves.
abbrev pub Pops : Outcome Machine ℕ → List ℕ → Type 0
Pops (ok v s) l = l ≡ v ∷ stack_of s
Pops (stop c s) l = ⊥

abbrev pub PopsLong : Outcome Machine ℕ → List ℕ → Type 0
PopsLong (ok v s) l = l ≡ v / 65536 ∷ (v % 65536) ∷ stack_of s
PopsLong (stop c s) l = ⊥

-- Where fewer than 14 words are on the stack, `push` puts the 16-bit word in front of them.
pub push-stack_of : (v : ℕ) (s : Machine) → s.sp < 14 → Leaves (push v s) (u16 v ∷ stack_of s)
unfolding push
push-stack_of v s h =
    let free : (s.sp == 14) ≡ false = ground (arith, h) in
    let inside : ltb s.sp 14 ≡ true = ground (arith, h) in
    let next : u16 (s.sp + 1) ≡ suc s.sp = omega (arith, h) in
    let top : update s.storage s.sp (u16 v) s.sp ≡ u16 v = ground arith in
    rw (free, inside, next, top, contents-update s.sp s.sp (u16 v) s.storage (omega arith)) refl

-- On a stack of 1 to 14 words, `pop` returns the first word and leaves the others.
pub pop-stack_of : (s : Machine) → s.sp ≢ 0 → s.sp ≤ 14 → Pops (pop s) (stack_of s)
unfolding pop
pop-stack_of s h b =
    let full : (s.sp == 0) ≡ false = ground (arith, h) in
    let inside : leb s.sp 14 ≡ true = ground (arith, b) in
    rw (full, inside) (contents-suc s.sp s.storage h)

-- Where fewer than 13 words are on the stack, `pushLong` puts the high and the low word of the number in front.
pub push_long-stack_of :
    (v : ℕ) (s : Machine)
    → s.sp < 13
    → Leaves (push_long v s) (u16 (v / 65536) ∷ u16 v ∷ stack_of s)
unfolding push_long
push_long-stack_of v s h =
    let free : leb 13 s.sp ≡ false = ground (arith, h) in
    let next : u16 (s.sp + 2) ≡ suc (suc s.sp) = omega (arith, h) in
    let low = update s.storage s.sp (u16 v) in
    let e0 : update low (s.sp + 1) (u16 (v / 65536)) s.sp ≡ u16 v = ground arith in
    let e1 : update low (s.sp + 1) (u16 (v / 65536)) (suc s.sp) ≡ u16 (v / 65536) = ground arith in
    rw
      (
        free,
        next,
        e1,
        e0,
        contents-update s.sp (s.sp + 1) (u16 (v / 65536)) low (omega arith),
        contents-update s.sp s.sp (u16 v) s.storage (omega arith),
      )
      refl

-- On a stack of 2 to 14 words of 16 bits, `popLong` returns the number of which they are the high
-- and the low word, and leaves the others.
pub pop_long-stack_of :
    (s : Machine)
    → 2 ≤ s.sp
    → s.sp ≤ 14
    → ((i : ℕ) → s.storage i < 65536)
    → PopsLong (pop_long s) (stack_of s)
unfolding pop_long
pop_long-stack_of s h b w =
    let full : leb s.sp 1 ≡ false = ground (arith, h) in
    let inside : leb s.sp 14 ≡ true = ground (arith, b) in
    let high = s.storage (s.sp - 1) in
    let low = s.storage (s.sp - 2) in
    let sum = bit_or_sum 16 high low (w (s.sp - 2)) in
    let e1 : (high * 65536 + low) / 65536 ≡ high = omega (arith, w (s.sp - 2)) in
    let e0 : (high * 65536 + low) % 65536 ≡ low = omega (arith, w (s.sp - 2)) in
    rw (full, inside, sum, e1, e0) (contents-suc2 s.sp s.storage h)
