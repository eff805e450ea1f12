-- ===== src/Opcode/Block.antt =====
-- The block transfers of src/opcode/Opcode_block.cpp, as they are built with USE_FAST_BLT: BLT, BLTL,
-- BLTC, BLTCL and BLTLR. One call of BLT or BLTR copies up to the end of a page of its source or its
-- target; the stack that a page fault in the next call leaves is written in between.
pub mod Compare
pub mod Copies
pub mod Checksums
pub mod Transfers
use mesa_emulator_unix.Common.{
  ℕ, zero, suc, ◌+◌, ◌-◌, ◌%◌, ltb, ◌==◌, if◌then◌else◌, u16, u32, sub16, sub32,
}
use mesa_emulator_unix.Action.{Action, ◌>>=◌, ◌>>◌, pure, gets, raise, skip, diverges}
use mesa_emulator_unix.Machine.{Machine, push, pop, push_long, pop_long, discard}
use mesa_emulator_unix.Machine.Access.{fetch, store, load, assign, lengthen_pointer}
use mesa_emulator_unix.Opcode.{Instruction}

-- `run = (sr < dr) ? sr : dr; if (c < run) run = c;`
unfoldable pub run_of : ℕ → ℕ → ℕ → ℕ
run_of sr dr c = let run = if ltb sr dr then sr else dr in if ltb c run then c else run

-- `while(run--) *dp++ = *sp++;`
unfoldable pub copy_up : ℕ → ℕ → ℕ → Instruction
copy_up zero sp dp = skip
copy_up (suc run) sp dp = do word ← load sp; assign dp word; copy_up run (sp + 1) (dp + 1)

-- `while(run--) *dp-- = *sp--;` in one page, so that only the last decrement may go below the first word,
-- and what it gives is not read.
unfoldable pub copy_down : ℕ → ℕ → ℕ → Instruction
copy_down zero sp dp = skip
copy_down (suc run) sp dp = do word ← load sp; assign dp word; copy_down run (sp - 1) (dp - 1)

-- BLT: the length of the run, which the caller adds to `s` and `d` and takes from `c`.
unfoldable pub blt : ℕ → ℕ → ℕ → Action Machine ℕ
blt s d c = do
  sp ← fetch s
  dp ← store d
  let run = run_of (256 - s % 256) (256 - d % 256) c
  copy_up run sp dp
  pure run

unfoldable pub bltr : ℕ → ℕ → ℕ → Action Machine ℕ
bltr s d c = do
  sp ← fetch s
  dp ← store d
  let run = run_of (s % 256 + 1) (d % 256 + 1) c
  copy_down run sp dp
  pure run

-- What the source, the count and the target look like on the stack, pushed and discarded again.
unfoldable pub save_short : ℕ → ℕ → ℕ → Instruction
save_short source count dest = do push source; push count; push dest; discard; discard; discard

unfoldable pub save_long : ℕ → ℕ → ℕ → Instruction
save_long source count dest = do
  push_long source
  push count
  push_long dest
  discard
  discard
  discard
  discard
  discard

unfoldable pub save_code : ℕ → ℕ → ℕ → Instruction
save_code source count dest = do
  push source
  push count
  push_long dest
  discard
  discard
  discard
  discard

-- The loop around BLT; `ws` and `wd` are the casts to the types of the two pointers. Each round copies
-- a word or more, so `c` rounds are enough.
unfoldable pub blt_loop :
    (ℕ → ℕ → ℕ → Instruction) → (ℕ → ℕ) → (ℕ → ℕ) → ℕ → ℕ → ℕ → ℕ → ℕ → ℕ → ℕ → Instruction
blt_loop save ws wd zero source count dest s d c = raise diverges
blt_loop save ws wd (suc fuel) source count dest s d c = do
  r ← blt s d c
  let rest =
      blt_loop save ws wd fuel (ws (source + r)) (sub16 count r) (wd (dest + r)) (u32 (s + r))
        (u32 (d + r)) (c - r)
  (if c - r == 0 then skip else (do save (ws (source + r)) (sub16 count r) (wd (dest + r)); rest))

-- The loop around BLTR: the pointers on the stack stay.
unfoldable pub bltr_loop : ℕ → ℕ → ℕ → ℕ → ℕ → ℕ → ℕ → Instruction
bltr_loop zero source count dest s d c = raise diverges
bltr_loop (suc fuel) source count dest s d c = do
  r ← bltr s d c
  let rest = bltr_loop fuel source (sub16 count r) dest (sub32 s r) (sub32 d r) (c - r)
  (if c - r == 0 then skip else (do save_long source (sub16 count r) dest; rest))

unfoldable pub e_blt : Instruction
e_blt = do
  dest ← pop
  count ← pop
  source ← pop
  (if count == 0 then skip else (do
    d ← lengthen_pointer dest
    s ← lengthen_pointer source
    blt_loop save_short u16 u16 count source count dest s d count))

unfoldable pub e_bltl : Instruction
e_bltl = do
  dest ← pop_long
  count ← pop
  source ← pop_long
  (if count == 0
      then skip
      else blt_loop save_long u32 u32 count source count dest source dest count)

unfoldable pub e_bltc : Instruction
e_bltc = do
  dest ← pop
  count ← pop
  source ← pop
  (if count == 0 then skip else (do
    d ← lengthen_pointer dest
    cb ← gets (λ s. s.cb)
    blt_loop save_short u16 u16 count source count dest (u32 (cb + source)) d count))

unfoldable pub e_bltcl : Instruction
e_bltcl = do
  dest ← pop_long
  count ← pop
  source ← pop
  (if count == 0 then skip else (do
    cb ← gets (λ s. s.cb)
    blt_loop save_code u16 u32 count source count dest (u32 (cb + source)) dest count))

unfoldable pub e_bltlr : Instruction
e_bltlr = do
  dest ← pop_long
  count ← pop
  source ← pop_long
  (if count == 0
      then skip
      else bltr_loop count source count dest (u32 (source + count - 1)) (u32 (dest + count - 1))
          count)
