-- ===== src/Opcode/BitBlt/Tables.antt =====
-- The argument of BITBLT and COLORBLT (src/opcode/Opcode_bitblt.cpp, ColorBlt of src/mesa/Pilot.h): its
-- words in the main data space, and the kind of transfer that MonoBlt::getInstance makes of them.
use mesa_emulator_unix.Common.{
  ℕ, zero, suc, ◌+◌, ◌*◌, ◌/◌, ◌%◌, Bool, not, ◌&&◌, ◌||◌, ltb, leb, ◌==◌, if◌then◌else◌, update,
  u32,
}
use mesa_emulator_unix.Action.{Action, ◌>>=◌, ◌>>◌, pure, gets, raise_if, error}
use mesa_emulator_unix.Machine.{Machine}
use mesa_emulator_unix.Machine.Access.{fetch_mds, load}
use mesa_emulator_unix.Machine.Words.{read, read_mds}
use mesa_emulator_unix.Opcode.BitBlt.{Address}

-- ColorBlt::ColorBltTable, with the fields of its flags. `src_desc` is `srcPpl` or `pattern`.
pub record Table : Type 0 where
  pub dst : Address
  pub dst_ppl : ℕ
  pub src : Address
  pub src_desc : ℕ
  pub width : ℕ
  pub height : ℕ
  pub direction : ℕ
  pub src_type : ℕ
  pub dst_type : ℕ
  pub pattern : ℕ
  pub src_func : ℕ
  pub dst_func : ℕ

-- PatternParm and GrayParm
abbrev pub height_minus_one : ℕ → ℕ
height_minus_one u = u % 16

abbrev pub width_minus_one : ℕ → ℕ
width_minus_one u = u / 16 % 16

abbrev pub y_offset : ℕ → ℕ
y_offset u = u / 256 % 16

abbrev pub unpacked_of : ℕ → ℕ
unpacked_of u = u / 4096 % 16

-- The words `0` to `n - 1` that `get` finds, from `i` on.
unfoldable pub copy_table : ℕ → (ℕ → Action Machine ℕ) → ℕ → Action Machine (ℕ → ℕ)
copy_table zero get i = pure (λ _. 0)
copy_table (suc n) get i = do
  word ← get i
  rest ← copy_table n get (i + 1)
  pure (update rest i word)

abbrev pub color_table : (ℕ → ℕ) → Table
color_table w = record {
  dst = record { word = w 1 * 65536 + w 0; pixel = w 2 };
  dst_ppl = w 3;
  src = record { word = w 5 * 65536 + w 4; pixel = w 6 };
  src_desc = w 7;
  width = w 8;
  height = w 9;
  direction = w 10 / 32768 % 2;
  src_type = w 10 / 16384 % 2;
  dst_type = w 10 / 8192 % 2;
  pattern = w 10 / 4096 % 2;
  src_func = w 10 / 2048 % 2;
  dst_func = w 10 / 256 % 8;
}

-- FetchColorBltTable: SIZE(*arg) is 13.
unfoldable pub fetch_color_table : ℕ → Action Machine Table
fetch_color_table ptr = do
  raise_if (not (ptr % 16 == 0)) error
  w ← copy_table 13 (λ i. read_mds (ptr + i)) 0
  pure (color_table w)

-- `(base <= word && word < (base + size))`, as a bit.
abbrev pub in_display : ℕ → ℕ → ℕ → ℕ
in_display base size word = if leb base word && ltb word (u32 (base + size)) then 1 else 0

-- DF_src, DF_srcIfDstNot0, DF_srcIfDst0 and DF_srcXorDst for DF_null, DF_and, DF_or and DF_xor.
abbrev pub color_func : ℕ → ℕ
color_func dst_func =
    if dst_func == 0 then 0 else (if dst_func == 1 then 3 else (if dst_func == 2 then 5 else 7))

abbrev pub bit_table : ℕ → ℕ → (ℕ → ℕ) → Table
bit_table base size w = record {
  dst = record { word = w 1 * 65536 + w 0; pixel = w 2 % 16 };
  dst_ppl = w 3;
  src = record { word = w 5 * 65536 + w 4; pixel = w 6 % 16 };
  src_desc = if w 10 / 4096 % 2 == 1 then 4096 + w 7 % 4096 else w 7;
  width = w 8;
  height = w 9;
  direction = w 10 / 32768 % 2;
  src_type = in_display base size (w 5 * 65536 + w 4);
  dst_type = in_display base size (w 1 * 65536 + w 0);
  pattern = w 10 / 4096 % 2;
  src_func = w 10 / 2048 % 2;
  dst_func = color_func (w 10 / 512 % 4);
}

-- FetchBitBltTable: the 12 words of BitBltArg are copied from one page.
unfoldable pub fetch_bit_table : ℕ → Action Machine Table
fetch_bit_table ptr = do
  raise_if (not (ptr % 16 == 0)) error
  p ← fetch_mds ptr
  w ← copy_table 12 (λ i. load (p + i)) 0
  display ← gets (λ s. s.memory.display)
  pure (bit_table (u32 (display.vp * 256)) (u32 (display.page_size * 256)) w)

-- The subclasses of MonoBlt.
pub data Job : Type 0 where
  zeros_src zeros ones_src ones_xor ones pattern_rows bits : Job
  word_rows : ℕ → Job

-- The checks of the constructors: all but that of MonoBlt_bit share the first two.
abbrev pub bad_pattern : Table → Bool
bad_pattern t =
    t.dst_ppl == 0
    || ltb 32767 t.width
    || ltb 32767 t.height
    || not (width_minus_one t.src_desc == 0)
    || not (t.direction == 0)
    || leb 32768 t.dst_ppl

abbrev pub bad_offset : Table → Bool
bad_offset t = bad_pattern t || not (y_offset t.src_desc == 0)

unfoldable pub is_bad : Job → Table → Bool
is_bad zeros_src t = bad_offset t
is_bad zeros t = bad_offset t || not (t.src.pixel == 0)
is_bad ones_src t = bad_offset t
is_bad ones_xor t = bad_offset t
is_bad ones t = bad_offset t || not (t.src.pixel == 0)
is_bad (word_rows word) t = bad_offset t || not (t.src.pixel == 0)
is_bad pattern_rows t = bad_pattern t
is_bad bits t =
    ltb 32767 t.width || ltb 32767 t.height || leb 32768 t.src_desc || leb 32768 t.dst_ppl

-- getInstance of MonoBlt_pat_word and below, for the word of the pattern.
unfoldable pub word_job : Table → ℕ → Job
word_job t word =
    if word == 0
    then (if t.src_func == 0 && t.dst_func == 0 then zeros_src else zeros)
    else (if word == 65535
        then (if t.src_func == 0 && t.dst_func == 0
            then ones_src
            else (if t.src_func == 0 && t.dst_func == 7 then ones_xor else ones))
        else word_rows word)

unfoldable pub job_of : Table → Action Machine Job
job_of t =
    if t.pattern == 0
    then pure bits
    else (if height_minus_one t.src_desc == 0 && width_minus_one t.src_desc == 0
        then (do
          word ← read t.src.word
          pure (
              word_job t (
                if unpacked_of t.src_desc == 0 then word else (if word == 0 then word else 65535))))
        else pure pattern_rows)

-- MonoBlt::getInstance
unfoldable pub get_instance : Table → Action Machine Job
get_instance t = do job ← job_of t; raise_if (is_bad job t) error; pure job
