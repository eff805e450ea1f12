-- ===== src/ByteBuffer.antt =====
-- ByteBuffer of src/util/ByteBuffer.h and src/util/ByteBuffer.cpp: a window on an array of bytes with a
-- position, a limit and a mark, and numbers of 8, 16 and 32 bits read and written at the position. `Mesa`
-- and `Net` differ in the order of the two halves of 32 bits. The window of `range` has its own copy of the
-- array here. The variadic `read` and `write` call the functions below one after the other.
pub mod Bytes
pub mod RoundTrip
pub mod Safety
use mesa_emulator_unix.Common.{
  ℕ, ◌+◌, ◌-◌, ◌*◌, ◌/◌, ◌%◌, bit_or, Bool, not, ltb, leb, ◌==◌, if◌then◌else◌, update, u8, u16,
  u32, sub32,
}
use mesa_emulator_unix.Action.{
  Action, Outcome, ok, stop, ◌>>=◌, ◌>>◌, pure, gets, modify, raise_if, error, undefined,
  index_out_of_range,
}

-- The two subclasses of Impl.
pub data Order : Type 0 where
  mesa_order net_order : Order

-- `bytes` is the array, of `size` bytes, and myData is `base` behind its start.
pub record ByteBuffer : Type 0 where
  pub order : Order
  pub bytes : ℕ → ℕ
  pub size : ℕ
  pub base : ℕ
  pub capacity : ℕ
  pub pos : ℕ
  pub limit : ℕ
  pub mark_pos : ℕ

abbrev pub bad_mark : ℕ
bad_mark = 4294967295

-- The constructor of Mesa::getInstance and Net::getInstance of a size.
abbrev pub empty_buffer : Order → (ℕ → ℕ) → ℕ → ByteBuffer
empty_buffer order bytes size = record {
  order = order;
  bytes = bytes;
  size = size;
  base = 0;
  capacity = size;
  pos = 0;
  limit = 0;
  mark_pos = bad_mark;
}

-- That of given data, which are ready to be read.
abbrev pub full_buffer : Order → (ℕ → ℕ) → ℕ → ByteBuffer
full_buffer order bytes size = record {
  order = order;
  bytes = bytes;
  size = size;
  base = 0;
  capacity = size;
  pos = 0;
  limit = size;
  mark_pos = bad_mark;
}

-- `myData[i]`, read and written.
unfoldable pub byte_at : ℕ → Action ByteBuffer ℕ
byte_at i b =
    if ltb (b.base + u32 i) b.size
    then ok (b.bytes (b.base + u32 i)) b
    else stop (undefined index_out_of_range) b

unfoldable pub set_byte_at : ℕ → ℕ → Action ByteBuffer (Unit {0})
set_byte_at i value b =
    if ltb (b.base + u32 i) b.size
    then ok tt (record b { bytes = update b.bytes (b.base + u32 i) (u8 value) })
    else stop (undefined index_out_of_range) b

-- A word of two bytes, and a number of two words.
abbrev pub two_bytes : ℕ → ℕ → ℕ
two_bytes high low = bit_or (high * 256) low

abbrev pub four_bytes : ℕ → ℕ → ℕ → ℕ → ℕ
four_bytes b3 b2 b1 b0 = bit_or (bit_or (b3 * 16777216) (b2 * 65536)) (bit_or (b1 * 256) b0)

-- get16 and put16 of a position
unfoldable pub get16_at : ℕ → Action ByteBuffer ℕ
get16_at p = do high ← byte_at p; low ← byte_at (p + 1); pure (two_bytes high low)

unfoldable pub put16_at : ℕ → ℕ → Action ByteBuffer (Unit {0})
put16_at p value = do set_byte_at p (value / 256); set_byte_at (p + 1) value

-- MyImpl::get32 of Mesa and of Net
unfoldable pub get32_at : Order → ℕ → Action ByteBuffer ℕ
get32_at mesa_order p = do
  b1 ← byte_at p
  b0 ← byte_at (p + 1)
  b3 ← byte_at (p + 2)
  b2 ← byte_at (p + 3)
  pure (four_bytes b3 b2 b1 b0)
get32_at net_order p = do
  b3 ← byte_at p
  b2 ← byte_at (p + 1)
  b1 ← byte_at (p + 2)
  b0 ← byte_at (p + 3)
  pure (four_bytes b3 b2 b1 b0)

-- MyImpl::put32 of Mesa and of Net
unfoldable pub put32_at : Order → ℕ → ℕ → Action ByteBuffer (Unit {0})
put32_at mesa_order p value = do
  set_byte_at p (value / 256)
  set_byte_at (p + 1) value
  set_byte_at (p + 2) (value / 16777216)
  set_byte_at (p + 3) (value / 65536)
put32_at net_order p value = do
  set_byte_at p (value / 16777216)
  set_byte_at (p + 1) (value / 65536)
  set_byte_at (p + 2) (value / 256)
  set_byte_at (p + 3) value

unfoldable pub check_before_read : ℕ → Action ByteBuffer (Unit {0})
check_before_read n = do b ← gets (λ b. b); raise_if (not (leb (u32 (b.pos + n)) b.limit)) error

unfoldable pub check_before_write : ℕ → Action ByteBuffer (Unit {0})
check_before_write n = do b ← gets (λ b. b); raise_if (not (leb (u32 (b.pos + n)) b.capacity)) error

-- `myBytePos += byteSize;`, and behind a write `myByteLimit = myBytePos;`
unfoldable pub advance : ℕ → Action ByteBuffer (Unit {0})
advance n = modify (λ b. record b { pos = u32 (b.pos + n) })

unfoldable pub set_limit : Action ByteBuffer (Unit {0})
set_limit = modify (λ b. record b { limit = b.pos })

unfoldable pub get8 : Action ByteBuffer ℕ
get8 = do check_before_read 1; p ← gets (λ b. b.pos); value ← byte_at p; advance 1; pure value

unfoldable pub get16 : Action ByteBuffer ℕ
get16 = do check_before_read 2; p ← gets (λ b. b.pos); value ← get16_at p; advance 2; pure value

unfoldable pub get32 : Action ByteBuffer ℕ
get32 = do
  check_before_read 4
  b ← gets (λ b. b)
  value ← get32_at b.order b.pos
  advance 4
  pure value

unfoldable pub put8 : ℕ → Action ByteBuffer (Unit {0})
put8 value = do
  check_before_write 1
  p ← gets (λ b. b.pos)
  set_byte_at p value
  advance 1
  set_limit

unfoldable pub put16 : ℕ → Action ByteBuffer (Unit {0})
put16 value = do check_before_write 2; p ← gets (λ b. b.pos); put16_at p value; advance 2; set_limit

unfoldable pub put32 : ℕ → Action ByteBuffer (Unit {0})
put32 value = do
  check_before_write 4
  b ← gets (λ b. b)
  put32_at b.order b.pos value
  advance 4
  set_limit

-- clear, flip and rewind
unfoldable pub clear_buffer : Action ByteBuffer (Unit {0})
clear_buffer = modify (λ b. record b { limit = 0; pos = 0 })

unfoldable pub flip : Action ByteBuffer (Unit {0})
flip = modify (λ b. record b { limit = b.pos; pos = 0 })

unfoldable pub rewind : Action ByteBuffer (Unit {0})
rewind = modify (λ b. record b { pos = 0 })

unfoldable pub mark : Action ByteBuffer (Unit {0})
mark = do
  m ← gets (λ b. b.mark_pos)
  raise_if (not (m == bad_mark)) error
  modify (λ b. record b { mark_pos = b.pos })

unfoldable pub reset : Action ByteBuffer (Unit {0})
reset = do
  m ← gets (λ b. b.mark_pos)
  raise_if (m == bad_mark) error
  modify (λ b. record b { pos = b.mark_pos; mark_pos = bad_mark })

-- byteValueToWordValue and wordValueToByteValue
unfoldable pub words_of_bytes : ℕ → ℕ
words_of_bytes n = u32 (n + 1) / 2

unfoldable pub bytes_of_words : ℕ → ℕ
bytes_of_words n = u32 (n * 2)

-- byteRemains and remains
unfoldable pub byte_remains : ByteBuffer → ℕ
byte_remains b = sub32 b.limit b.pos

unfoldable pub remains : ByteBuffer → ℕ
remains b = words_of_bytes (byte_remains b)

-- range: a window of its own, ready to be read
unfoldable pub range : ℕ → ℕ → ByteBuffer → ByteBuffer
range word_offset word_size b =
    let start = bytes_of_words word_offset in
    let wanted = bytes_of_words word_size in
    let got = if ltb b.capacity (u32 (start + wanted)) then sub32 b.capacity start else wanted in
    record b { base = b.base + start; capacity = got; pos = 0; limit = got; mark_pos = bad_mark }
