-- ===== src/Machine/Access.antt =====
-- Memory access by the registers: src/mesa/memory.h from `Fetch` to `FetchLink`.
use mesa_emulator_unix.Common.{
  ℕ, ◌+◌, ◌*◌, ◌/◌, ◌%◌, bit_or, Bool, ◌==◌, if◌then◌else◌, u16, u32, sub32,
}
use mesa_emulator_unix.Action.{Action, ◌>>=◌, ◌>>◌, pure, gets, modify}
use mesa_emulator_unix.Types.{byte_pair, byte_pair_u, high_byte, low_byte, codelinks}
use mesa_emulator_unix.Memory.{read_word, write_word}
use mesa_emulator_unix.Memory.Cache
use mesa_emulator_unix.Machine.{Machine, on_memory}

-- VariableMDS::lengthenPointer; the parameter is CARD16.
abbrev pub lengthen : ℕ → ℕ → ℕ
lengthen mds ptr = u32 (mds + u16 ptr)

abbrev pub is_same_page : ℕ → ℕ → Bool
is_same_page a b = a / 256 == b / 256

-- `(ptr & PageOffset) == PageOffset`
abbrev pub is_last_of_page : ℕ → Bool
is_last_of_page ptr = ptr % 256 == 255

unfoldable pub fetch : ℕ → Action Machine ℕ
fetch va = on_memory (Cache.fetch (u32 va))

unfoldable pub store : ℕ → Action Machine ℕ
store va = on_memory (Cache.store (u32 va))

-- `*p`, read and written.
unfoldable pub load : ℕ → Action Machine ℕ
load p = on_memory (read_word p)

unfoldable pub assign : ℕ → ℕ → Action Machine (Unit {0})
assign p value = on_memory (write_word p value)

unfoldable pub lengthen_pointer : ℕ → Action Machine ℕ
lengthen_pointer ptr = gets (λ s. lengthen s.mds ptr)

unfoldable pub fetch_mds : ℕ → Action Machine ℕ
fetch_mds ptr = do p ← lengthen_pointer ptr; fetch p

unfoldable pub store_mds : ℕ → Action Machine ℕ
store_mds ptr = do p ← lengthen_pointer ptr; store p

-- Two neighbouring words, as the instructions find them: `p0` by one access, and `p1` as `p0 + 1`
-- where both addresses lie in one page. The first two take a POINTER, the others a LONG_POINTER.
unfoldable pub fetch_mds_pair : ℕ → Action Machine (ℕ × ℕ)
fetch_mds_pair ptr = do
  p0 ← fetch_mds ptr
  p1 ← (if is_same_page ptr (ptr + 1) then pure (p0 + 1) else fetch_mds (ptr + 1))
  pure (p0, p1)

unfoldable pub store_mds_pair : ℕ → Action Machine (ℕ × ℕ)
store_mds_pair ptr = do
  p0 ← store_mds ptr
  p1 ← (if is_same_page ptr (ptr + 1) then pure (p0 + 1) else store_mds (ptr + 1))
  pure (p0, p1)

unfoldable pub fetch_pair : ℕ → Action Machine (ℕ × ℕ)
fetch_pair ptr = do
  p0 ← fetch ptr
  p1 ← (if is_same_page ptr (u32 (ptr + 1)) then pure (p0 + 1) else fetch (ptr + 1))
  pure (p0, p1)

unfoldable pub store_pair : ℕ → Action Machine (ℕ × ℕ)
store_pair ptr = do
  p0 ← store ptr
  p1 ← (if is_same_page ptr (u32 (ptr + 1)) then pure (p0 + 1) else store (ptr + 1))
  pure (p0, p1)

-- `(*p1 << WordSize) | *p0`
unfoldable pub read_dbl : ℕ → Action Machine ℕ
read_dbl va = do
  p0 ← fetch va
  p1 ← (if is_last_of_page va then fetch (va + 1) else pure (p0 + 1))
  low ← load p0
  high ← load p1
  pure (bit_or (high * 65536) low)

unfoldable pub read_dbl_mds : ℕ → Action Machine ℕ
read_dbl_mds ptr = do p ← lengthen_pointer ptr; read_dbl p

unfoldable pub read_code : ℕ → Action Machine ℕ
read_code offset = do cb ← gets (λ s. s.cb); p ← fetch (cb + u16 offset); load p

unfoldable pub get_code_byte : Action Machine ℕ
get_code_byte = do
  pc ← gets (λ s. s.pc)
  word ← read_code (pc / 2)
  modify (λ s. record s { pc = u16 (s.pc + 1) })
  pure (if pc % 2 == 1 then low_byte word else high_byte word)

abbrev pub code_pair : ℕ → ℕ → ℕ
code_pair w0 w1 = bit_or (low_byte w0 * 256) (high_byte w1)

unfoldable pub get_code_word : Action Machine ℕ
get_code_word = do
  pc ← gets (λ s. s.pc)
  cb ← gets (λ s. s.cb)
  let ptr = u32 (cb + pc / 2)
  p0 ← fetch ptr
  (if pc % 2 == 1
      then (do
        p1 ← (if is_same_page ptr (u32 (ptr + 1)) then pure (p0 + 1) else fetch (ptr + 1))
        modify (λ s. record s { pc = u16 (s.pc + 2) })
        w0 ← load p0
        w1 ← load p1
        pure (code_pair w0 w1))
      else (do modify (λ s. record s { pc = u16 (s.pc + 2) }); load p0))

unfoldable pub fetch_byte : ℕ → ℕ → Action Machine ℕ
fetch_byte ptr offset = do
  p ← fetch (ptr + u32 offset / 2)
  word ← load p
  pure (if u32 offset % 2 == 0 then (byte_pair word).left else (byte_pair word).right)

unfoldable pub store_byte : ℕ → ℕ → ℕ → Action Machine (Unit {0})
store_byte ptr offset value = do
  p ← store (ptr + u32 offset / 2)
  word ← load p
  let pair = byte_pair word
  (if u32 offset % 2 == 0
      then assign p (byte_pair_u (record pair { left = value }))
      else assign p (byte_pair_u (record pair { right = value })))

-- GO_OFFSET(GF, word) is GF - 2 + 1.
unfoldable pub fetch_link : ℕ → Action Machine ℕ
fetch_link offset = do
  gf ← gets (λ s. s.gf)
  cb ← gets (λ s. s.cb)
  p ← fetch (sub32 gf 2 + 1)
  word ← load p
  read_dbl (sub32 (if codelinks word then cb else sub32 gf 2) (u32 ((offset + 1) * 2)))
