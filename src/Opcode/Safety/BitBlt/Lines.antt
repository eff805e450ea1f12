-- ===== src/Opcode/Safety/BitBlt/Lines.antt =====
-- The loops over pixels and lines of src/opcode/Opcode_bitblt.cpp, as steps that keep the invariant.
use mesa_emulator_unix.Common.{ℕ, zero, suc, ◌+◌, ◌-◌, u32}
use mesa_emulator_unix.Action.{Action}
use mesa_emulator_unix.Machine.{Machine}
use mesa_emulator_unix.Machine.Safe.{Step, Step-bind, Step-pure}
use mesa_emulator_unix.Opcode.BitBlt.{Address, WordCache, bump, bit_at}
use mesa_emulator_unix.Opcode.BitBlt.Tables.{Table, unpacked_of}
use mesa_emulator_unix.Opcode.BitBlt.Process.{
  row, rows, word_row, word_lines, copy_pixel, bit_row, bit_lines, pattern_pixel, pattern_row,
  pattern_bump, pattern_lines,
}
use mesa_emulator_unix.Opcode.Safety.BitBlt.Pixels.{
  CacheOk, BothOk, read_pixel-Step, read_pattern-Step, write_pixel-Step, paint_with-Step,
}

module _ {size n : ℕ} where
  pub row-Step :
      (paint : WordCache → ℕ → Action Machine WordCache)
      → ((cache : WordCache) (offset : ℕ)
          → CacheOk size cache
          → Step size n n (CacheOk size) (paint cache offset))
      → (k offset : ℕ) (cache : WordCache) → CacheOk size cache
      → Step size n n (CacheOk size) (row paint k offset cache)
  unfolding row
  row-Step paint kept zero offset cache h = Step-pure cache h
  row-Step paint kept (suc k) offset cache h =
      Step-bind (kept cache offset h) _ (λ next g. row-Step paint kept k (offset + 1) next g)

  pub rows-Step :
      (paint : Address → WordCache → ℕ → Action Machine WordCache)
      → ((dst : Address) (cache : WordCache) (offset : ℕ)
          → CacheOk size cache
          → Step size n n (CacheOk size) (paint dst cache offset))
      → (k width ppl : ℕ) (dst : Address) (cache : WordCache) → CacheOk size cache
      → Step size n n (CacheOk size) (rows paint k width ppl dst cache)
  unfolding rows
  rows-Step paint kept zero width ppl dst cache h = Step-pure cache h
  rows-Step paint kept (suc k) width ppl dst cache h =
      Step-bind (row-Step (paint dst) (kept dst) width 0 cache h) _
        (λ next g. rows-Step paint kept k width ppl (bump dst ppl) next g)

  pub word_row-Step :
      (t : Table) (word : ℕ) (dst : Address) (k offset shift : ℕ) (cache : WordCache)
      → CacheOk size cache
      → Step size n n (CacheOk size) (word_row t word dst k offset shift cache)
  unfolding word_row
  word_row-Step t word dst zero offset shift cache h = Step-pure cache h
  word_row-Step t word dst (suc k) offset shift cache h =
      Step-bind (paint_with-Step t (bit_at word (15 - shift)) dst cache offset h) _
        (λ next g. word_row-Step t word dst k (offset + 1) _ next g)

  pub word_lines-Step :
      (t : Table) (word k : ℕ) (dst : Address) (cache : WordCache)
      → CacheOk size cache
      → Step size n n (CacheOk size) (word_lines t word k dst cache)
  unfolding word_lines
  word_lines-Step t word zero dst cache h = Step-pure cache h
  word_lines-Step t word (suc k) dst cache h =
      Step-bind (word_row-Step t word dst t.width 0 15 cache h) _
        (λ next g. word_lines-Step t word k (bump dst t.dst_ppl) next g)

  pub copy_pixel-Step :
      (t : Table) (src dst : Address) (pos offset : ℕ) (caches : WordCache × WordCache)
      → BothOk size caches
      → Step size n n (BothOk size) (copy_pixel t src dst pos offset caches)
  unfolding copy_pixel
  copy_pixel-Step t src dst pos offset (from, to) h =
      Step-bind (read_pixel-Step from src pos t.src_type h.0) _ (λ o k.
        Step-bind (read_pixel-Step to dst offset t.dst_type h.1) _ (λ q l.
          Step-bind (write_pixel-Step q.0 dst offset _ t.dst_type l) _
            (λ to3 g. Step-pure _ (k, g))))

  pub bit_row-Step :
      (t : Table) (src dst : Address) (k offset inc : ℕ) (caches : WordCache × WordCache)
      → BothOk size caches
      → Step size n n (BothOk size) (bit_row t src dst k offset inc caches)
  unfolding bit_row
  bit_row-Step t src dst zero offset inc caches h = Step-pure caches h
  bit_row-Step t src dst (suc k) offset inc caches h =
      Step-bind (copy_pixel-Step t src dst offset offset caches h) _
        (λ next g. bit_row-Step t src dst k (u32 (offset + inc)) inc next g)

  pub bit_lines-Step :
      (t : Table) (k ini inc bump_src bump_dst : ℕ) (src dst : Address)
      (caches : WordCache × WordCache)
      → BothOk size caches
      → Step size n n (BothOk size) (bit_lines t k ini inc bump_src bump_dst src dst caches)
  unfolding bit_lines
  bit_lines-Step t zero ini inc bump_src bump_dst src dst caches h = Step-pure caches h
  bit_lines-Step t (suc k) ini inc bump_src bump_dst src dst caches h =
      Step-bind (bit_row-Step t src dst t.width ini inc caches h) _ (λ next g.
        bit_lines-Step t k ini inc bump_src bump_dst (bump src bump_src) (bump dst bump_dst) next g)

  pub pattern_pixel-Step :
      (t : Table) (src dst : Address) (offset : ℕ) (caches : WordCache × WordCache)
      → BothOk size caches
      → Step size n n (BothOk size) (pattern_pixel t src dst offset caches)
  unfolding pattern_pixel
  pattern_pixel-Step t src dst offset (from, to) h =
      Step-bind (read_pattern-Step from src _ t.src_type (unpacked_of t.src_desc) h.0) _ (λ o k.
        Step-bind (read_pixel-Step to dst offset t.dst_type h.1) _ (λ q l.
          Step-bind (write_pixel-Step q.0 dst offset _ t.dst_type l) _
            (λ to3 g. Step-pure _ (k, g))))

  pub pattern_row-Step :
      (t : Table) (src dst : Address) (k offset : ℕ) (caches : WordCache × WordCache)
      → BothOk size caches
      → Step size n n (BothOk size) (pattern_row t src dst k offset caches)
  unfolding pattern_row
  pattern_row-Step t src dst zero offset caches h = Step-pure caches h
  pattern_row-Step t src dst (suc k) offset caches h =
      Step-bind (pattern_pixel-Step t src dst offset caches h) _
        (λ next g. pattern_row-Step t src dst k (offset + 1) next g)

  pub pattern_lines-Step :
      (t : Table) (k line : ℕ) (src dst : Address) (caches : WordCache × WordCache)
      → BothOk size caches
      → Step size n n (BothOk size) (pattern_lines t k line src dst caches)
  unfolding pattern_lines
  pattern_lines-Step t zero line src dst caches h = Step-pure caches h
  pattern_lines-Step t (suc k) line src dst caches h =
      Step-bind (pattern_row-Step t src dst t.width 0 caches h) _ (λ next g.
        pattern_lines-Step t k (line + 1) (bump src (pattern_bump t line)) (bump dst t.dst_ppl) next
          g)
