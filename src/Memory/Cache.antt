-- ===== src/Memory/Cache.antt =====
-- memory::cache of src/mesa/memory.h and memory.cpp: one entry for each remainder of a virtual page
-- number by 2 ^ 16, and the four ways into it.
use mesa_emulator_unix.Common.{
  ℕ, ◌+◌, ◌*◌, ◌/◌, ◌%◌, Bool, true, false, not, Option, none, some, ◌==◌, if◌then◌else◌, update,
}
use mesa_emulator_unix.Action.{
  Action, undefined, null_page, ◌>>=◌, ◌>>◌, pure, raise, gets, modify, skip,
}
use mesa_emulator_unix.Memory.{
  Memory, Entry, fetch_page, store_page, set_referenced_flag, set_referenced_dirty_flag, hash,
}

abbrev pub set_entry : ℕ → Entry → Memory → Memory
set_entry i e s = record s { entry = update s.entry i e }

-- `vpno` is a field of 30 bits.
abbrev pub filled : ℕ → Bool → ℕ → Entry
filled vp stored page = record {
  vpno = vp % 1073741824;
  flag_fetch = true;
  flag_store = stored;
  page = some page;
}

unfoldable pub fetch_setup : ℕ → ℕ → Action Memory (Unit {0})
fetch_setup i vp = do page ← fetch_page vp; modify (set_entry i (filled vp false page))

unfoldable pub store_setup : ℕ → ℕ → Action Memory (Unit {0})
store_setup i vp = do page ← store_page vp; modify (set_entry i (filled vp true page))

unfoldable pub fetch_maintain_flag : ℕ → ℕ → Action Memory (Unit {0})
fetch_maintain_flag i vp = do
  set_referenced_flag vp
  p ← gets (λ s. s.entry i)
  modify (set_entry i (record p { flag_fetch = true }))

unfoldable pub store_maintain_flag : ℕ → ℕ → Action Memory (Unit {0})
store_maintain_flag i vp = do
  set_referenced_dirty_flag vp
  p ← gets (λ s. s.entry i)
  modify (set_entry i (record p { flag_fetch = true; flag_store = true }))

-- `p->page + (va % PageSize)`: on a null page C++ does not define the sum.
unfoldable pub page_offset : ℕ → Option ℕ → Action Memory ℕ
page_offset va none = raise (undefined null_page)
page_offset va (some page) = pure (page * 256 + va % 256)

unfoldable pub fetch : ℕ → Action Memory ℕ
unfolding hash
fetch va = do
  let vp = va / 256
  p ← gets (λ s. s.entry (hash vp))
  (if not (p.vpno == vp)
      then fetch_setup (hash vp) vp
      else (if not p.flag_fetch then fetch_maintain_flag (hash vp) vp else skip))
  q ← gets (λ s. s.entry (hash vp))
  page_offset va q.page

unfoldable pub store : ℕ → Action Memory ℕ
unfolding hash
store va = do
  let vp = va / 256
  p ← gets (λ s. s.entry (hash vp))
  (if not (p.vpno == vp)
      then store_setup (hash vp) vp
      else (if not p.flag_store then store_maintain_flag (hash vp) vp else skip))
  q ← gets (λ s. s.entry (hash vp))
  page_offset va q.page
