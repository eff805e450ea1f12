-- ===== src/ByteBuffer/Bytes.antt =====
-- The numbers that ByteBuffer makes of bytes.
use mesa_emulator_unix.Common.{ℕ, ◌+◌, ◌*◌, ◌/◌, ◌<◌, ◌≡◌, arith, u8}
use mesa_emulator_unix.Common.Bits.{bit_or_sum}
use mesa_emulator_unix.ByteBuffer.{two_bytes, four_bytes}

pub two_bytes_lem : (v : ℕ) → v < 65536 → two_bytes (u8 (v / 256)) (u8 v) ≡ v
two_bytes_lem v h =
    let sum = bit_or_sum 8 (u8 (v / 256)) (u8 v) (omega arith) in omega (arith, sum, h)

pub four_bytes_lem :
    (v : ℕ)
    → v < 4294967296
    → four_bytes (u8 (v / 16777216)) (u8 (v / 65536)) (u8 (v / 256)) (u8 v) ≡ v
four_bytes_lem v h =
    let upper = bit_or_sum 24 (u8 (v / 16777216)) (u8 (v / 65536) * 65536) (omega arith) in
    let lower = bit_or_sum 8 (u8 (v / 256)) (u8 v) (omega arith) in
    let split : u8 (v / 16777216) * 16777216 + u8 (v / 65536) * 65536 ≡ v / 65536 * 65536 =
      omega (arith, h) in
    let all = bit_or_sum 16 (v / 65536) (u8 (v / 256) * 256 + u8 v) (omega arith) in
    rw (upper, lower, split, all) (omega arith)
