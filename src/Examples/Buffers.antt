-- ===== src/Examples/Buffers.antt =====
-- Concrete runs of ByteBuffer.
use mesa_emulator_unix.Common.{◌≡◌, ◌+◌, ◌≤◌, ◌%◌, ◌*◌, refl, arith, All, inl}
use mesa_emulator_unix.ByteBuffer.{
  ByteBuffer, mesa_order, empty_buffer, full_buffer, put8, get8, put16, get16, put32, get32, range,
}
use mesa_emulator_unix.ByteBuffer.RoundTrip.{Returns, written_and_read, get-put}
use mesa_emulator_unix.ByteBuffer.Safety.{IsValid, Keeps, acts, gives, buffer-Keeps, range-IsValid}

abbrev small_buffer : ByteBuffer
small_buffer = empty_buffer mesa_order (λ i. 0) 10

get-put_example :
    Returns 200 (written_and_read (put8 200) get8 small_buffer)
    × Returns 40000 (written_and_read (put16 40000) get16 small_buffer)
    × Returns 305419896 (written_and_read (put32 305419896) get32 small_buffer)
get-put_example =
    get-put small_buffer 200 40000 305419896
      (record { room = omega arith; small = omega arith; inside = omega arith }) refl (omega arith)
      (omega arith) (omega arith)

buffer-Keeps_example : All Keeps (acts 70000) × All Keeps gives
buffer-Keeps_example = buffer-Keeps 70000

abbrev ten_bytes : ByteBuffer
ten_bytes = full_buffer mesa_order (λ i. i * 7 % 256) 10

-- The last 3 of 5 words, of 8 wanted.
range-IsValid_example :
    IsValid (range 2 8 ten_bytes)
    × ((range 2 8 ten_bytes).base ≡ 4)
    × ((range 2 8 ten_bytes).capacity ≡ 6)
    × ((range 2 8 ten_bytes).limit ≡ (range 2 8 ten_bytes).capacity)
    × ((range 2 8 ten_bytes).base + (range 2 8 ten_bytes).capacity ≤ 10)
range-IsValid_example =
    range-IsValid 2 8 ten_bytes
      (record {
        in_array = omega arith;
        small = omega arith;
        pos_in = omega arith;
        limit_in = omega arith;
        mark_in = inl refl;
      })
      (omega arith) (omega arith)
