-- ===== src/Types/Fields/Laws.antt =====
-- What `ReadField` and `WriteField` (src/mesa/memory.h) do to the bits of a word.
use native.Mathlib.Nat.{
  one-le-pow, mod-eq_of_lt, add-zero, mul-add-div_right, mul-add-mod_self_right, div-eq_of_lt,
}
use mathlib.Core.Option.{some-injective}
use mesa_emulator_unix.Common.{
  ℕ, zero, suc, ◌+◌, ◌-◌, ◌*◌, ◌/◌, ◌%◌, ◌^◌, ◌≤◌, ◌<◌, bit_and, bit_or, ◌≡◌, ap, arith, some, u16,
  le→ltb, refl, sym, ◌∙◌, subst,
}
use mesa_emulator_unix.Types.{field_spec}
use mesa_emulator_unix.Types.Fields.{field_shift, read_field, write_field}
use mesa_emulator_unix.Common.Bits.{
  two-pow-suc, bit_and_cut, bit_or_cut, bit_and_mask, bit_and-zero, zero-bit_and, bit_or_sum,
  bit_or-zero,
}

two-pow-add : (a b : ℕ) → 2 ^ (a + b) ≡ 2 ^ a * 2 ^ b
two-pow-add zero b = ground arith
two-pow-add (suc a) b =
    let e : suc a + b ≡ suc (a + b) = omega arith in
    rw (e, two-pow-suc (a + b), two-pow-suc a, two-pow-add a b) (omega arith)

-- The parts of a word around a field of `n` bits that stands `s` bits above the low end.
abbrev pub above : ℕ → ℕ → ℕ → ℕ
above s n d = d / 2 ^ s / 2 ^ n

abbrev pub below : ℕ → ℕ → ℕ
below s d = d % 2 ^ s

split_at : (k a : ℕ) → a ≡ a / 2 ^ k * 2 ^ k + a % 2 ^ k
split_at k a = omega (arith, one-le-pow k 2 (omega arith))

below-lt : (k a : ℕ) → a % 2 ^ k < 2 ^ k
below-lt k a = omega (arith, one-le-pow k 2 (omega arith))

-- Keeping all bits of `d` but those of the field.
keep_above : (n m d : ℕ) → d / 2 ^ n < 2 ^ m → bit_and d ((2 ^ m - 1) * 2 ^ n) ≡ d / 2 ^ n * 2 ^ n
keep_above n m d h = ground (
  arith,
  ap (λ (t : ℕ). bit_and t ((2 ^ m - 1) * 2 ^ n)) (split_at n d),
  ap (λ (t : ℕ). bit_and (d / 2 ^ n * 2 ^ n + d % 2 ^ n) t) (add-zero ((2 ^ m - 1) * 2 ^ n)),
  below-lt n d,
  one-le-pow n 2,
  bit_and_cut n (d / 2 ^ n) (2 ^ m - 1) (d % 2 ^ n) 0,
  bit_and_mask m (d / 2 ^ n),
  mod-eq_of_lt h,
  bit_and-zero (d % 2 ^ n),
)

keep_around :
    (s n m d : ℕ)
    → above s n d < 2 ^ m
    → bit_and d ((2 ^ m - 1) * 2 ^ n * 2 ^ s + (2 ^ s - 1))
      ≡ above s n d * 2 ^ n * 2 ^ s + below s d
keep_around s n m d h = ground (
  arith,
  ap (λ (t : ℕ). bit_and t ((2 ^ m - 1) * 2 ^ n * 2 ^ s + (2 ^ s - 1))) (split_at s d),
  below-lt s d,
  one-le-pow s 2,
  bit_and_cut s (d / 2 ^ s) ((2 ^ m - 1) * 2 ^ n) (d % 2 ^ s) (2 ^ s - 1),
  ap (λ (t : ℕ). t * 2 ^ s) (keep_above n m (d / 2 ^ s) h),
  bit_and_mask s (d % 2 ^ s),
  mod-eq_of_lt (below-lt s d),
)

-- Moving a value to the place of the field, and cutting it there.
place_field : (s n v : ℕ) → bit_and (v * 2 ^ s) ((2 ^ n - 1) * 2 ^ s) ≡ v % 2 ^ n * 2 ^ s
place_field s n v =
    ground
      (arith, one-le-pow s 2, bit_and_cut s v (2 ^ n - 1) 0 0, bit_and_mask n v, zero-bit_and 0)

join_field :
    (s n h v lo : ℕ)
    → v < 2 ^ n
    → lo < 2 ^ s
    → bit_or (h * 2 ^ n * 2 ^ s + lo) (v * 2 ^ s) ≡ (h * 2 ^ n + v) * 2 ^ s + lo
join_field s n h v lo hv hl =
    ground
      (arith, one-le-pow s 2, bit_or_cut s (h * 2 ^ n) v lo 0, bit_or_sum n h v hv, bit_or-zero lo)

mul-pred : (a b : ℕ) → (a - 1) * b ≡ a * b - b
mul-pred zero b = omega arith
mul-pred (suc a) b = let e : suc a - 1 ≡ a = omega arith in rw e (omega arith)

pos_pow : (k : ℕ) → 0 < 2 ^ k
pos_pow k = one-le-pow k 2 (omega arith)

le-mul : (a b : ℕ) → 0 < a → b ≤ a * b
le-mul zero b h = absurd (omega arith)
le-mul (suc a) b h = omega arith

-- The mask of the other bits, as the two runs of ones that it is.
other_bits :
    (p n s : ℕ)
    → 0 < p
    → 0 < n
    → 0 < s
    → p * n * s ≡ 65536
    → 65535 - (n - 1) * s ≡ (p - 1) * n * s + (s - 1)
other_bits (suc p) (suc n) (suc s) hp hn hs e =
    let ep : suc p - 1 ≡ p = omega arith in
    let en : suc n - 1 ≡ n = omega arith in rw (ep, en) (omega arith)
other_bits zero n s hp hn hs e = absurd (omega arith)
other_bits (suc p) zero s hp hn hs e = absurd (omega arith)
other_bits (suc p) (suc n) zero hp hn hs e = absurd (omega arith)

div-lt : (a q b : ℕ) → a < q * b → a / b < q
div-lt a q b h = grind arith

under_mul : (h p n v : ℕ) → h < p → v < n → h * n + v < p * n
under_mul h p n v hh hv = grind arith

powers : (m n s : ℕ) → m + n + s ≡ 16 → 2 ^ m * 2 ^ n * 2 ^ s ≡ 65536
powers m n s e = rw (← two-pow-add m n, ← two-pow-add (m + n) s, e) refl

low_mask_word : (m n s : ℕ) → m + n + s ≡ 16 → u16 (2 ^ n - 1) ≡ 2 ^ n - 1
low_mask_word m n s e =
    let whole = powers m n s e in
    let room : 2 ^ n * 2 ^ s ≤ 65536 = omega (arith, le-mul (2 ^ m) (2 ^ n * 2 ^ s) (pos_pow m)) in
    mod-eq_of_lt (omega (arith, le-mul (2 ^ s) (2 ^ n) (pos_pow s), pos_pow n))

-- The low mask of a field, moved to its place, is a word: neither conversion cuts it.
mask_word : (m n s : ℕ) → m + n + s ≡ 16 → u16 (u16 (2 ^ n - 1) * 2 ^ s) ≡ (2 ^ n - 1) * 2 ^ s
mask_word m n s e =
    let whole = powers m n s e in
    let room : 2 ^ n * 2 ^ s ≤ 65536 = omega (arith, le-mul (2 ^ m) (2 ^ n * 2 ^ s) (pos_pow m)) in
    rw (low_mask_word m n s e)
      (mod-eq_of_lt (omega (arith, mul-pred (2 ^ n) (2 ^ s), pos_pow n, pos_pow s)))

above-lt : (m n s d : ℕ) → m + n + s ≡ 16 → d < 65536 → above s n d < 2 ^ m
above-lt m n s d e h =
    div-lt (d / 2 ^ s) (2 ^ m) (2 ^ n)
      (div-lt d (2 ^ m * 2 ^ n) (2 ^ s) (omega (arith, powers m n s e)))

insert_field :
    (m n s d v : ℕ)
    → m + n + s ≡ 16
    → d < 65536
    → let mask = u16 (u16 (2 ^ n - 1) * 2 ^ s) in
      u16 (bit_or (bit_and d (65535 - mask)) (bit_and (v * 2 ^ s) mask))
      ≡ (above s n d * 2 ^ n + v % 2 ^ n) * 2 ^ s + below s d
insert_field m n s d v e h =
    rw
      (
        mask_word m n s e,
        other_bits (2 ^ m) (2 ^ n) (2 ^ s) (pos_pow m) (pos_pow n) (pos_pow s) (powers m n s e),
        keep_around s n m d (above-lt m n s d e h),
        place_field s n v,
        join_field s n (above s n d) (v % 2 ^ n) (d % 2 ^ s) (below-lt n v) (below-lt s d),
      )
      (mod-eq_of_lt (
        rw (← powers m n s e) (
          under_mul _ (2 ^ m * 2 ^ n) (2 ^ s) (d % 2 ^ s)
            (under_mul (above s n d) (2 ^ m) (2 ^ n) (v % 2 ^ n) (above-lt m n s d e h)
              (below-lt n v))
            (below-lt s d))))

-- On a 16-bit word and a specification whose field lies within 16 bits, `WriteField` puts the low
-- bits of the value into the field, and keeps all other bits.
pub write_field_lem :
    (dest spec8 v : ℕ)
    → dest < 65536
    → (field_spec spec8).spec_pos + (field_spec spec8).size + 1 ≤ 16
    → let s = field_shift (field_spec spec8) in
      let n = (field_spec spec8).size + 1 in
      write_field dest spec8 v ≡ some ((above s n dest * 2 ^ n + v % 2 ^ n) * 2 ^ s + below s dest)
unfolding write_field
write_field_lem dest spec8 v hd fits = rw (le→ltb 16 _ fits) (
    ap some (
      insert_field (field_spec spec8).spec_pos ((field_spec spec8).size + 1)
        (field_shift (field_spec spec8)) dest v (omega arith) hd))

div_unique : (q b r : ℕ) → r < b → (q * b + r) / b ≡ q
div_unique q b r h = rw (mul-add-div_right {m = b} (omega arith) q r, div-eq_of_lt h) (omega arith)

mod_unique : (q b r : ℕ) → r < b → (q * b + r) % b ≡ r
mod_unique q b r h = rw (mul-add-mod_self_right q b r) (mod-eq_of_lt h)

field_at :
    (m n s h v lo : ℕ)
    → m + n + s ≡ 16
    → lo < 2 ^ s
    → bit_and (((h * 2 ^ n + v % 2 ^ n) * 2 ^ s + lo) / 2 ^ s) (u16 (2 ^ n - 1)) ≡ v % 2 ^ n
field_at m n s h v lo e hl =
    rw (div_unique (h * 2 ^ n + v % 2 ^ n) (2 ^ s) lo hl, low_mask_word m n s e, bit_and_mask n _)
      (mod_unique h (2 ^ n) (v % 2 ^ n) (below-lt n v))

-- On a 16-bit word and a specification whose field lies within 16 bits, `ReadField` after `WriteField`
-- with the same specification gives the low bits of the value written.
pub read_field-write_field :
    (dest spec8 v : ℕ) {w : ℕ}
    → dest < 65536
    → (field_spec spec8).spec_pos + (field_spec spec8).size + 1 ≤ 16
    → write_field dest spec8 v ≡ some w
    → read_field w spec8 ≡ some (v % 2 ^ ((field_spec spec8).size + 1))
unfolding read_field
read_field-write_field dest spec8 v {w} hd fits e =
    let written = some-injective _ _ (sym (write_field_lem dest spec8 v hd fits) ∙ e) in
    subst (λ (t : ℕ). read_field t spec8 ≡ some (v % 2 ^ ((field_spec spec8).size + 1))) written
      (rw (le→ltb 16 _ fits) (
        ap some (
          field_at (field_spec spec8).spec_pos ((field_spec spec8).size + 1)
            (field_shift (field_spec spec8)) _ v _ (omega arith) (below-lt _ dest))))
