-- ===== src/Machine/Words.antt =====
-- A word of virtual memory, read and written: `*Fetch(va)`, `*Store(va) = value`, and the same for a
-- POINTER in the main data space and for an offset in the process data area (src/mesa/memory.h).
use mesa_emulator_unix.Common.{ℕ, ◌+◌, ◌/◌, not, ◌==◌, if◌then◌else◌, u16, u32}
use mesa_emulator_unix.Action.{Action, ◌>>=◌, raise, pure, error}
use mesa_emulator_unix.Machine.{Machine}
use mesa_emulator_unix.Machine.Access.{fetch, store, load, assign, fetch_mds, store_mds}

unfoldable pub read : ℕ → Action Machine ℕ
read va = do p ← fetch va; load p

unfoldable pub write : ℕ → ℕ → Action Machine (Unit {0})
write va value = do p ← store va; assign p value

unfoldable pub read_mds : ℕ → Action Machine ℕ
read_mds ptr = do p ← fetch_mds ptr; load p

unfoldable pub write_mds : ℕ → ℕ → Action Machine (Unit {0})
write_mds ptr value = do p ← store_mds ptr; assign p value

-- `PDA` is mPDA of src/mesa/Constant.h.
abbrev pub pda : ℕ
pda = 65536

-- LengthenPdaPtr; the parameter is a POINTER.
abbrev pub lengthen_pda_ptr : ℕ → ℕ
lengthen_pda_ptr ptr = pda + u16 ptr

unfoldable pub offset_pda : ℕ → Action Machine ℕ
offset_pda ptr = if not (u32 ptr / 65536 == 1) then raise error else pure (u16 ptr)

-- `*FetchPda(ptr)` and `*StorePda(ptr) = value`
unfoldable pub read_pda : ℕ → Action Machine ℕ
read_pda ptr = read (lengthen_pda_ptr ptr)

unfoldable pub write_pda : ℕ → ℕ → Action Machine (Unit {0})
write_pda ptr value = write (lengthen_pda_ptr ptr) value
