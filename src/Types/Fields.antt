-- ===== src/Types/Fields.antt =====
-- `Field_MaskTable`, `ReadField` and `WriteField` of src/mesa/memory.h. `none` stands for ERROR().
pub mod Laws
use mesa_emulator_unix.Common.{
  ℕ, ◌+◌, ◌-◌, ◌*◌, ◌/◌, ◌^◌, bit_and, bit_or, Option, none, some, ltb, if◌then◌else◌, u16,
}
use mesa_emulator_unix.Types.{FieldSpec, field_spec}

unfoldable pub field_mask : ℕ → ℕ
field_mask n = u16 (2 ^ (n + 1) - 1)

-- The amount that the field lies above the low end of the word.
unfoldable pub field_shift : FieldSpec → ℕ
field_shift spec = 16 - (spec.spec_pos + spec.size + 1)

unfoldable pub read_field : ℕ → ℕ → Option ℕ
unfolding field_spec field_mask field_shift
read_field source spec8 =
    let spec = field_spec spec8 in
    if ltb 16 (spec.spec_pos + spec.size + 1)
    then none
    else some (bit_and (source / 2 ^ field_shift spec) (field_mask spec.size))

unfoldable pub write_field : ℕ → ℕ → ℕ → Option ℕ
unfolding field_spec field_mask field_shift
write_field dest spec8 value =
    let spec = field_spec spec8 in
    let mask = u16 (field_mask spec.size * 2 ^ field_shift spec) in
    if ltb 16 (spec.spec_pos + spec.size + 1)
    then none
    else some
        (u16 (bit_or (bit_and dest (65535 - mask)) (bit_and (value * 2 ^ field_shift spec) mask)))
