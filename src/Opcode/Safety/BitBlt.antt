-- ===== src/Opcode/Safety/BitBlt.antt =====
-- BITBLT and COLORBLT of Opcode/BitBlt keep the invariant of the machine: the pointer that a cache of
-- one word keeps lies inside the real memory for as long as the transfer runs.
pub mod Pixels
pub mod Lines
use mesa_emulator_unix.Common.{
  ℕ, zero, suc, ◌+◌, ◌-◌, ◌*◌, ◌/◌, ◌%◌, ◌<◌, ◌≡◌, refl, Bool, true, false, not, bit_or, bit_xor,
  Option, none, some, ◌==◌, ==→eq, arith, Bool-cases, inl, inr, u32, List, [], ◌∷◌, All,
  if◌then◌else◌, sub32,
}
use mesa_emulator_unix.Action.{
  Action, ◌>>=◌, ◌>>◌, pure, error, raise, undefined, null_page, raise_if,
}
use mesa_emulator_unix.Machine.{Machine}
use mesa_emulator_unix.Machine.Safe.{Safe, Step, Step-bind, Step-if, Step-pure, Step-gets}
use mesa_emulator_unix.Machine.Safe.Pointers.{
  Points, fetch-Step, fetch_mds-Step, store-Step, load-Step, assign-Step,
}
use mesa_emulator_unix.Machine.Safe.Rules.{
  instruction, Safe-pop, Safe-if, Safe-raise_error, Safe-gets,
}
use mesa_emulator_unix.Machine.Safe.Stays.{
  Stays, Stays-then, Safe-then, Safe-end, Step-Stays, pure-Stays, gets-Stays, if-Stays, raise-Stays,
  raise_if-Stays, skip-Stays,
}
use mesa_emulator_unix.Machine.Safe.Statements.{staying, read-Stays, read_mds-Stays}
use mesa_emulator_unix.Opcode.{Instruction}
use mesa_emulator_unix.Opcode.BitBlt.{
  Address, WordCache, new_cache, bump, cache_read, cache_open, assign_at, cache_write, read_pixel,
  read_pattern, write_pixel_by, write_pixel, write_pixel_zero, write_pixel_one, write_pixel_not,
  put_bit, clear_bit, order_of, bit_at, function_mono, pixel_mask,
}
use mesa_emulator_unix.Opcode.BitBlt.Tables.{
  Table, Job, zeros_src, zeros, ones_src, ones_xor, ones, word_rows, pattern_rows, bits, copy_table,
  fetch_color_table, fetch_bit_table, job_of, get_instance, unpacked_of,
}
use mesa_emulator_unix.Opcode.BitBlt.Process.{
  row, rows, paint_with, word_row, word_lines, copy_pixel, bit_row, bit_lines, gray_width,
  pattern_pixel, pattern_row, pattern_bump, pattern_lines, process, blt_with, e_colorblt, e_bitblt,
  drop,
}
use mesa_emulator_unix.Opcode.Safety.BitBlt.Pixels.{
  CacheOk, BothOk, FirstOk, cache_read-Step, cache_open-Step, raise_null-Stays, assign_at-Stays,
  cache_write-Step, read_pixel-Step, read_pattern-Step, write_pixel_by-Step, write_pixel-Step,
  paint_with-Step,
}
use mesa_emulator_unix.Opcode.Safety.BitBlt.Lines.{
  row-Step, rows-Step, word_row-Step, word_lines-Step, copy_pixel-Step, bit_row-Step,
  bit_lines-Step, pattern_pixel-Step, pattern_row-Step, pattern_lines-Step,
}

table_inside :
    (size ptr p j : ℕ)
    → Points size ptr p
    → j < 12
    → not (ptr % 16 == 0) ≡ false
    → p + j < size * 256
table_inside size ptr p j h lt aligned =
    let even : ptr % 16 ≡ 0 = ground (arith, aligned) in omega (arith, h.0, h.1)

module _ {size n : ℕ} where
  drop-Stays :
      {A : Type 0} {V : A → Type 0} (m : Action Machine A)
      → Step size n n V m
      → Stays size n (drop m)
  drop-Stays m st = Step-bind st _ (λ a _. skip-Stays)

  process-Stays : (job : Job) (t : Table) → Stays size n (process job t)
  unfolding process write_pixel_zero write_pixel_one write_pixel_not
  process-Stays zeros_src t = drop-Stays _ (
      rows-Step _
        (λ dst cache offset h. write_pixel_by-Step clear_bit cache dst offset t.dst_type h) t.height
        t.width t.dst_ppl t.dst new_cache tt)
  process-Stays zeros t =
      drop-Stays _ (rows-Step _ (paint_with-Step t 0) t.height t.width t.dst_ppl t.dst new_cache tt)
  process-Stays ones_src t = drop-Stays _ (
      rows-Step _ (λ dst cache offset h. write_pixel_by-Step bit_or cache dst offset t.dst_type h)
        t.height t.width t.dst_ppl t.dst new_cache tt)
  process-Stays ones_xor t = drop-Stays _ (
      rows-Step _ (λ dst cache offset h. write_pixel_by-Step bit_xor cache dst offset t.dst_type h)
        t.height t.width t.dst_ppl t.dst new_cache tt)
  process-Stays ones t =
      drop-Stays _ (rows-Step _ (paint_with-Step t 1) t.height t.width t.dst_ppl t.dst new_cache tt)
  process-Stays (word_rows word) t =
      drop-Stays _ (word_lines-Step t word t.height t.dst new_cache tt)
  process-Stays pattern_rows t =
      drop-Stays _ (pattern_lines-Step t t.height 0 t.src t.dst (new_cache, new_cache) (tt, tt))
  process-Stays bits t =
      if-Stays (t.direction == 0)
        (drop-Stays _
          (bit_lines-Step t t.height _ _ _ _ t.src t.dst (new_cache, new_cache) (tt, tt)))
        (drop-Stays _
          (bit_lines-Step t t.height _ _ _ _ t.src t.dst (new_cache, new_cache) (tt, tt)))

  get_instance-Stays : (t : Table) → Stays size n (get_instance t)
  unfolding get_instance job_of
  get_instance-Stays t = search (staying) depth 10

  copy_table-Stays :
      (k : ℕ) (get : ℕ → Action Machine ℕ) (i : ℕ)
      → ((j : ℕ) → j < i + k → Stays size n (get j))
      → Stays size n (copy_table k get i)
  unfolding copy_table
  copy_table-Stays zero get i kept = pure-Stays _
  copy_table-Stays (suc k) get i kept = Stays-then _ (kept i (omega arith)) (λ word.
      Stays-then _ (copy_table-Stays k get (i + 1) (λ j h. kept j (omega arith)))
        (λ rest. pure-Stays _))

  checked-Stays :
      {B : Type 0} (b : Bool) (f : Unit {0} → Action Machine B)
      → (b ≡ false → Stays size n (f tt))
      → Stays size n (raise_if b error >>= f)
  unfolding raise_if ◌>>=◌
  checked-Stays true f k = record { at = λ s r. (tt, r.fine) }
  checked-Stays false f k = record { at = λ s r. (k refl).at s r }

  fetch_color_table-Stays : (ptr : ℕ) → Stays size n (fetch_color_table ptr)
  unfolding fetch_color_table
  fetch_color_table-Stays ptr = checked-Stays _ _ (λ _.
      Stays-then _ (copy_table-Stays 13 _ 0 (λ j h. read_mds-Stays (ptr + j))) (λ w. pure-Stays _))

  fetch_bit_table-Stays : (ptr : ℕ) → Stays size n (fetch_bit_table ptr)
  unfolding fetch_bit_table
  fetch_bit_table-Stays ptr = checked-Stays _ _ (λ aligned. Step-bind (fetch_mds-Step ptr) _ (λ p h.
      Stays-then _
        (copy_table-Stays 12 _ 0
          (λ j lt. Step-Stays (load-Step (p + j) (table_inside size _ p j h lt aligned))))
        (λ w. Stays-then _ (gets-Stays _) (λ display. pure-Stays _))))

module _ {size : ℕ} where
  blt_with-Safe :
      (get : ℕ → Action Machine Table)
      → ((ptr : ℕ) → Stays size 1 (get ptr))
      → Safe size 0 (blt_with get)
  unfolding blt_with
  blt_with-Safe get kept = Safe-gets _ _ (λ sp.
      Safe-if (sp == 1)
        (Safe-pop _ (λ ptr.
          Safe-then _ (kept ptr)
            (λ t. Safe-then _ (get_instance-Stays t) (λ job. Safe-end (process-Stays job t)))))
        Safe-raise_error)

  e_colorblt-Safe : Safe size 0 e_colorblt
  unfolding e_colorblt
  e_colorblt-Safe = blt_with-Safe fetch_color_table fetch_color_table-Stays

  e_bitblt-Safe : Safe size 0 e_bitblt
  unfolding e_bitblt
  e_bitblt-Safe = blt_with-Safe fetch_bit_table fetch_bit_table-Stays

-- BITBLT and COLORBLT keep the invariant of the machine, with any table in memory: every pixel that they
-- read or write lies in a word of the real memory, whatever addresses, widths and directions the table
-- has, and the words of the table are read inside a page. Each ends in a machine with the invariant, or
-- stops in one, or meets a null page, as the cache does at address 0.
pub bitblt_codes-Safe : (size : ℕ) → All (Safe size 0) (e_bitblt ∷ e_colorblt ∷ [])
bitblt_codes-Safe size = search (e_bitblt-Safe, e_colorblt-Safe) depth 10
