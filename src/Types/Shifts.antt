-- ===== src/Types/Shifts.antt =====
-- `Shift`, `Rotate` and `LongShift` of src/mesa/Type.h. A count is a C++ `int`.
use mesa_emulator_unix.Common.{
  ℕ, zero, suc, ◌-◌, ◌*◌, ◌/◌, ◌%◌, ◌^◌, bit_or, leb, if◌then◌else◌, u16, u32,
}
use mesa_emulator_unix.Common.Int.{ℤ, pos, negsuc}

-- `negsuc n` is the count -(n + 1).
unfoldable pub shift : ℕ → ℤ → ℕ
shift value (pos zero) = value
shift value (pos (suc n)) = if leb 16 (suc n) then 0 else u16 (value * 2 ^ suc n)
shift value (negsuc n) = if leb 16 (suc n) then 0 else u16 (value / 2 ^ suc n)

unfoldable pub long_shift : ℕ → ℤ → ℕ
long_shift value (pos zero) = value
long_shift value (pos (suc n)) = if leb 32 (suc n) then 0 else u32 (value * 2 ^ suc n)
long_shift value (negsuc n) = if leb 32 (suc n) then 0 else u32 (value / 2 ^ suc n)

-- (t & 0xffff) | ((t >> 16) & 0xffff)
unfoldable pub fold_word : ℕ → ℕ
fold_word t = bit_or (t % 65536) (t / 65536 % 65536)

unfoldable pub rotate : ℕ → ℤ → ℕ
unfolding fold_word
rotate value (pos zero) = value
rotate value (pos (suc n)) =
    let count = if leb 16 (suc n) then suc n % 16 else suc n in u16 (fold_word (value * 2 ^ count))
rotate value (negsuc n) =
    let count = if leb 16 (suc n) then suc n % 16 else suc n in
    u16 (fold_word (value * 2 ^ (16 - count)))
