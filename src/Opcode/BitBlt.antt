-- ===== src/Opcode/BitBlt.antt =====
-- The class MonoBlt of src/opcode/Opcode_bitblt.cpp: bit addresses, the cache of one word that each side
-- of a transfer has, and the pixels read and written through it. An object dies with the exception
-- that leaves its function, so its fields are arguments and results here. An `int` is its 32-bit pattern.
-- The counts of hits are left out.
pub mod Tables
pub mod Process
use mesa_emulator_unix.Common.{
  ℕ, ◌+◌, ◌-◌, ◌*◌, ◌/◌, ◌%◌, ◌^◌, bit_and, bit_or, bit_xor, Bool, Option, none, some, ltb, ◌==◌,
  if◌then◌else◌, u16, u32,
}
use mesa_emulator_unix.Action.{Action, ◌>>=◌, ◌>>◌, pure, raise, error, undefined, null_page}
use mesa_emulator_unix.Machine.{Machine}
use mesa_emulator_unix.Machine.Access.{fetch, store, load, assign}

-- ColorBlt::Address
pub record Address : Type 0 where
  pub word : ℕ
  pub pixel : ℕ

-- `LongArithShift(offset, -4)`
abbrev pub shift_down : ℕ → ℕ
shift_down offset = if ltb offset 2147483648 then offset / 16 else offset / 16 + 4026531840

-- Bump
unfoldable pub bump : Address → ℕ → Address
bump address offset =
    let sum = u32 (offset + address.pixel) in
    record { word = u32 (address.word + shift_down sum); pixel = sum % 16 }

-- MonoBlt::MemoryCache. Its pointer is `none` before the first access: the constructor sets it to 0.
pub record WordCache : Type 0 where
  pub read_ptr : ℕ
  pub write_ptr : ℕ
  pub address : Option ℕ
  pub word : ℕ

abbrev pub new_cache : WordCache
new_cache = record { read_ptr = 0; write_ptr = 0; address = none; word = 0 }

-- MemoryCache::read
unfoldable pub cache_read : WordCache → ℕ → Action Machine (WordCache × ℕ)
cache_read cache ptr = if ptr == cache.read_ptr then pure (cache, cache.word) else (do
  p ← fetch ptr
  word ← load p
  pure (record { read_ptr = ptr; write_ptr = 0; address = some p; word = word }, word))

-- MemoryCache::write of one argument
unfoldable pub cache_open : WordCache → ℕ → Action Machine (WordCache × ℕ)
cache_open cache ptr = if ptr == cache.write_ptr then pure (cache, cache.word) else (do
  p ← store ptr
  word ← load p
  pure (record { read_ptr = ptr; write_ptr = ptr; address = some p; word = word }, word))

-- `*address = newWord`
unfoldable pub assign_at : Option ℕ → ℕ → Action Machine (Unit {0})
assign_at none value = raise (undefined null_page)
assign_at (some p) value = assign p value

-- MemoryCache::write of two arguments
unfoldable pub cache_write : WordCache → ℕ → ℕ → Action Machine WordCache
cache_write cache ptr value =
    if ptr == cache.write_ptr
    then (do assign_at cache.address value; pure (record cache { word = u16 value }))
    else (do
      p ← store ptr
      assign p value
      pure (record { read_ptr = ptr; write_ptr = ptr; address = some p; word = u16 value }))

-- std::byteswap of a word
abbrev pub byteswap : ℕ → ℕ
byteswap word = word % 256 * 256 + word / 256 % 256

-- `if (type == ColorBlt::PT_display) word = std::byteswap(word);`
abbrev pub order_of : ℕ → ℕ → ℕ
order_of type word = if type == 1 then byteswap word else word

-- The bit of a word at a pixel; the pixel is below 16.
abbrev pub pixel_mask : ℕ → ℕ
pixel_mask pixel = 2 ^ (15 - pixel)

abbrev pub bit_at : ℕ → ℕ → ℕ
bit_at word pixel = bit_and (word / pixel_mask pixel) 1

-- ReadPixel_bit
unfoldable pub read_pixel : WordCache → Address → ℕ → ℕ → Action Machine (WordCache × ℕ)
read_pixel cache address offset type = do
  let at = bump address offset
  (next, word) ← cache_read cache at.word
  pure (next, bit_at (order_of type word) at.pixel)

-- ReadPixel_pat
unfoldable pub read_pattern : WordCache → Address → ℕ → ℕ → ℕ → Action Machine (WordCache × ℕ)
read_pattern cache address offset type unpacked = do
  let at = bump address offset
  (next, word) ← cache_read cache at.word
  let full = if word == 0 then word else (if unpacked == 0 then word else 65535)
  pure (next, bit_at (order_of type full) at.pixel)

-- WritePixel, WritePixel_zero, WritePixel_one and WritePixel_not, which differ in what they make of the
-- word and the mask.
unfoldable pub write_pixel_by : (ℕ → ℕ → ℕ) → WordCache → Address → ℕ → ℕ → Action Machine WordCache
write_pixel_by change cache address offset type = do
  let at = bump address offset
  (next, word) ← cache_open cache at.word
  cache_write next at.word (order_of type (change (order_of type word) (pixel_mask at.pixel)))

-- `(word & ~mask) | ((bit << shift) & mask)`
abbrev pub put_bit : ℕ → ℕ → ℕ → ℕ
put_bit bit word mask = bit_or (bit_and word (65535 - mask)) (bit_and (bit * mask) mask)

unfoldable pub write_pixel : WordCache → Address → ℕ → ℕ → ℕ → Action Machine WordCache
write_pixel cache address offset bit type = write_pixel_by (put_bit bit) cache address offset type

abbrev pub clear_bit : ℕ → ℕ → ℕ
clear_bit word mask = bit_and word (65535 - mask)

unfoldable pub write_pixel_zero : WordCache → Address → ℕ → ℕ → Action Machine WordCache
write_pixel_zero = write_pixel_by clear_bit

unfoldable pub write_pixel_one : WordCache → Address → ℕ → ℕ → Action Machine WordCache
write_pixel_one = write_pixel_by bit_or

unfoldable pub write_pixel_not : WordCache → Address → ℕ → ℕ → Action Machine WordCache
write_pixel_not = write_pixel_by bit_xor

-- Function_mono: `s` is complemented as a word; of its result only the lowest bit is used.
unfoldable pub function_mono : ℕ → ℕ → ℕ → ℕ → ℕ
function_mono src_func dst_func s d =
    let source = if src_func == 1 then 65535 - s else s in
    if dst_func == 0
    then source
    else (if ltb dst_func 4
        then bit_and d source
        else (if ltb dst_func 6 then bit_or d source else bit_xor d source))
