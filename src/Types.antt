-- ===== src/Types.antt =====
-- src/mesa/Type.h: bytes, nibbles and halves of words, shifts, the bit fields of the words that
-- the memory and the field instructions read, and the field masks of src/mesa/memory.h.
-- A C++ bit field is a quotient and a remainder of the word that it is a part of.
pub mod Shifts
pub mod Fields
use mesa_emulator_unix.Common.{
  ℕ, ◌+◌, ◌-◌, ◌*◌, ◌/◌, ◌%◌, Bool, true, false, not, ◌&&◌, ltb, ◌==◌, if◌then◌else◌, u16, u8,
}

-- struct of two bit fields of a byte, `right` the low one; of a word, for BytePair.
pub record NibblePair : Type 0 where
  pub left : ℕ
  pub right : ℕ

unfoldable pub nibble_pair : ℕ → NibblePair
nibble_pair u = record { left = u / 16 % 16; right = u % 16 }

pub record BytePair : Type 0 where
  pub left : ℕ
  pub right : ℕ

unfoldable pub byte_pair : ℕ → BytePair
byte_pair u = record { left = u / 256 % 256; right = u % 256 }

-- The word that a BytePair with these two parts overlays.
unfoldable pub byte_pair_u : BytePair → ℕ
byte_pair_u p = u8 p.left * 256 + u8 p.right

unfoldable pub high_byte : ℕ → ℕ
unfolding byte_pair
high_byte u = (byte_pair u).left

unfoldable pub low_byte : ℕ → ℕ
unfolding byte_pair
low_byte u = (byte_pair u).right

unfoldable pub high_half : ℕ → ℕ
high_half u = u16 (u / 65536)

unfoldable pub low_half : ℕ → ℕ
low_half u = u16 u

-- INT16 of a byte, as the 16-bit pattern of the result.
unfoldable pub sign_extend : ℕ → ℕ
sign_extend z = if ltb (u8 z) 128 then u8 z else u8 z + 65280

-- FieldDesc: the offset is the high byte, the field specification the low one.
pub record FieldDesc : Type 0 where
  pub offset : ℕ
  pub field : ℕ

unfoldable pub field_desc : ℕ → FieldDesc
field_desc u = record { offset = u / 256 % 256; field = u % 256 }

pub record FieldSpec : Type 0 where
  pub spec_pos : ℕ
  pub size : ℕ

unfoldable pub field_spec : ℕ → FieldSpec
field_spec u = record { spec_pos = u / 16 % 16; size = u % 16 }

-- GlobalWord: only `codelinks` and `trapxfers` are tested.
unfoldable pub codelinks : ℕ → Bool
codelinks u = u % 2 == 1

pub record MapFlags : Type 0 where
  pub referenced : Bool
  pub dirty : Bool
  pub protect : Bool
  pub reserved : ℕ

unfoldable pub bit : Bool → ℕ
bit b = if b then 1 else 0

unfoldable pub map_flags : ℕ → MapFlags
map_flags u = record {
  referenced = u % 2 == 1;
  dirty = u / 2 % 2 == 1;
  protect = u / 4 % 2 == 1;
  reserved = u / 8 % 8192;
}

unfoldable pub map_flags_u : MapFlags → ℕ
unfolding bit
map_flags_u f = bit f.referenced + bit f.dirty * 2 + bit f.protect * 4 + f.reserved % 8192 * 8

unfoldable pub is_vacant : MapFlags → Bool
is_vacant f = f.protect && f.dirty && not f.referenced

unfoldable pub is_protect : MapFlags → Bool
is_protect f = f.protect

-- `MapFlags vacant = {6}` and `MapFlags clear = {0}` of src/mesa/memory.cpp.
abbrev pub vacant : MapFlags
vacant = record { referenced = false; dirty = true; protect = true; reserved = 0 }

abbrev pub clear : MapFlags
clear = record { referenced = false; dirty = false; protect = false; reserved = 0 }
