-- ===== src/Opcode/BitBlt/Process.antt =====
-- The functions `process` of the subclasses of MonoBlt, and the instructions BITBLT and COLORBLT
-- (src/opcode/Opcode_bitblt.cpp).
use mesa_emulator_unix.Common.{ℕ, zero, suc, ◌+◌, ◌-◌, ◌*◌, ◌%◌, ◌==◌, if◌then◌else◌, u32, sub32}
use mesa_emulator_unix.Action.{Action, ◌>>=◌, pure, gets, raise, skip, error}
use mesa_emulator_unix.Machine.{Machine, pop}
use mesa_emulator_unix.Opcode.{Instruction}
use mesa_emulator_unix.Opcode.BitBlt.{
  Address, WordCache, new_cache, bump, bit_at, read_pixel, read_pattern, write_pixel,
  write_pixel_zero, write_pixel_one, write_pixel_not, function_mono,
}
use mesa_emulator_unix.Opcode.BitBlt.Tables.{
  Table, Job, zeros_src, zeros, ones_src, ones_xor, ones, word_rows, pattern_rows, bits,
  height_minus_one, width_minus_one, y_offset, unpacked_of, fetch_color_table, fetch_bit_table,
  get_instance,
}

-- The loop over one line: `paint` writes the pixel at an offset.
unfoldable pub row :
    (WordCache → ℕ → Action Machine WordCache) → ℕ → ℕ → WordCache → Action Machine WordCache
row paint zero offset cache = pure cache
row paint (suc n) offset cache = do next ← paint cache offset; row paint n (offset + 1) next

-- The loop over the lines, of which each moves the target by `ppl` pixels.
unfoldable pub rows :
    (Address → WordCache → ℕ → Action Machine WordCache)
    → ℕ
    → ℕ
    → ℕ
    → Address
    → WordCache
    → Action Machine WordCache
rows paint zero width ppl dst cache = pure cache
rows paint (suc n) width ppl dst cache = do
  next ← row (paint dst) width 0 cache
  rows paint n width ppl (bump dst ppl) next

-- `d` of the target, and the function of `s` and `d` written back.
unfoldable pub paint_with : Table → ℕ → Address → WordCache → ℕ → Action Machine WordCache
paint_with t s dst cache offset = do
  (next, d) ← read_pixel cache dst offset t.dst_type
  write_pixel next dst offset (function_mono t.src_func t.dst_func s d) t.dst_type

-- The line of MonoBlt_pat_word, where `shift` runs down from 15 and starts again.
unfoldable pub word_row : Table → ℕ → Address → ℕ → ℕ → ℕ → WordCache → Action Machine WordCache
word_row t word dst zero offset shift cache = pure cache
word_row t word dst (suc n) offset shift cache = do
  next ← paint_with t (bit_at word (15 - shift)) dst cache offset
  word_row t word dst n (offset + 1) (if shift == 0 then 15 else shift - 1) next

unfoldable pub word_lines : Table → ℕ → ℕ → Address → WordCache → Action Machine WordCache
word_lines t word zero dst cache = pure cache
word_lines t word (suc n) dst cache = do
  next ← word_row t word dst t.width 0 15 cache
  word_lines t word n (bump dst t.dst_ppl) next

-- A pixel of the source and one of the target, with the caches of both.
unfoldable pub copy_pixel :
    Table
    → Address
    → Address
    → ℕ
    → ℕ
    → WordCache × WordCache
    → Action Machine (WordCache × WordCache)
copy_pixel t src dst pos offset (from, to) = do
  (from2, s) ← read_pixel from src pos t.src_type
  (to2, d) ← read_pixel to dst offset t.dst_type
  to3 ← write_pixel to2 dst offset (function_mono t.src_func t.dst_func s d) t.dst_type
  pure (from2, to3)

-- The inner loop of MonoBlt_bit
unfoldable pub bit_row :
    Table
    → Address
    → Address
    → ℕ
    → ℕ
    → ℕ
    → WordCache × WordCache
    → Action Machine (WordCache × WordCache)
bit_row t src dst zero offset inc caches = pure caches
bit_row t src dst (suc n) offset inc caches = do
  next ← copy_pixel t src dst offset offset caches
  bit_row t src dst n (u32 (offset + inc)) inc next

-- The outer loop of MonoBlt_bit: `line` goes from one end to the other, so there are as many rounds as
-- lines.
unfoldable pub bit_lines :
    Table
    → ℕ
    → ℕ
    → ℕ
    → ℕ
    → ℕ
    → Address
    → Address
    → WordCache × WordCache
    → Action Machine (WordCache × WordCache)
bit_lines t zero ini inc bump_src bump_dst src dst caches = pure caches
bit_lines t (suc n) ini inc bump_src bump_dst src dst caches = do
  next ← bit_row t src dst t.width ini inc caches
  bit_lines t n ini inc bump_src bump_dst (bump src bump_src) (bump dst bump_dst) next

-- MonoBlt_pat: `gray_width` is 16 times one more than `widthMinusOne`.
abbrev pub gray_width : Table → ℕ
gray_width t = (width_minus_one t.src_desc + 1) * 16

unfoldable pub pattern_pixel :
    Table → Address → Address → ℕ → WordCache × WordCache → Action Machine (WordCache × WordCache)
pattern_pixel t src dst offset (from, to) = do
  let pos = sub32 ((offset + src.pixel) % gray_width t) src.pixel
  (from2, s) ← read_pattern from src pos t.src_type (unpacked_of t.src_desc)
  (to2, d) ← read_pixel to dst offset t.dst_type
  to3 ← write_pixel to2 dst offset (function_mono t.src_func t.dst_func s d) t.dst_type
  pure (from2, to3)

unfoldable pub pattern_row :
    Table
    → Address
    → Address
    → ℕ
    → ℕ
    → WordCache × WordCache
    → Action Machine (WordCache × WordCache)
pattern_row t src dst zero offset caches = pure caches
pattern_row t src dst (suc n) offset caches = do
  next ← pattern_pixel t src dst offset caches
  pattern_row t src dst n (offset + 1) next

-- Where the pattern goes on behind a line: back to its first line behind its last one.
abbrev pub pattern_bump : Table → ℕ → ℕ
pattern_bump t line =
    if line % (height_minus_one t.src_desc + 1)
      == sub32 (height_minus_one t.src_desc) (y_offset t.src_desc)
    then sub32 0 (gray_width t * height_minus_one t.src_desc)
    else gray_width t

unfoldable pub pattern_lines :
    Table
    → ℕ
    → ℕ
    → Address
    → Address
    → WordCache × WordCache
    → Action Machine (WordCache × WordCache)
pattern_lines t zero line src dst caches = pure caches
pattern_lines t (suc n) line src dst caches = do
  next ← pattern_row t src dst t.width 0 caches
  pattern_lines t n (line + 1) (bump src (pattern_bump t line)) (bump dst t.dst_ppl) next

-- Each `rows` and `lines` gives the last state of the caches, which the destructor drops.
abbrev pub drop : {A : Type 0} → Action Machine A → Instruction
drop m = m >>= λ _. skip

unfoldable pub process : Job → Table → Instruction
process zeros_src t = drop (
    rows (λ dst cache offset. write_pixel_zero cache dst offset t.dst_type) t.height t.width
      t.dst_ppl t.dst new_cache)
process zeros t = drop (rows (paint_with t 0) t.height t.width t.dst_ppl t.dst new_cache)
process ones_src t = drop (
    rows (λ dst cache offset. write_pixel_one cache dst offset t.dst_type) t.height t.width
      t.dst_ppl t.dst new_cache)
process ones_xor t = drop (
    rows (λ dst cache offset. write_pixel_not cache dst offset t.dst_type) t.height t.width
      t.dst_ppl t.dst new_cache)
process ones t = drop (rows (paint_with t 1) t.height t.width t.dst_ppl t.dst new_cache)
process (word_rows word) t = drop (word_lines t word t.height t.dst new_cache)
process pattern_rows t = drop (pattern_lines t t.height 0 t.src t.dst (new_cache, new_cache))
process bits t =
    if t.direction == 0
    then drop (bit_lines t t.height 0 1 t.src_desc t.dst_ppl t.src t.dst (new_cache, new_cache))
    else drop (
        bit_lines t t.height (sub32 t.width 1) 4294967295 (sub32 0 t.src_desc) (sub32 0 t.dst_ppl)
          t.src t.dst (new_cache, new_cache))

unfoldable pub blt_with : (ℕ → Action Machine Table) → Instruction
blt_with fetch_table = do
  sp ← gets (λ s. s.sp)
  (if sp == 1
      then (do ptr ← pop; t ← fetch_table ptr; job ← get_instance t; process job t)
      else raise error)

unfoldable pub e_colorblt : Instruction
e_colorblt = blt_with fetch_color_table

unfoldable pub e_bitblt : Instruction
e_bitblt = blt_with fetch_bit_table
