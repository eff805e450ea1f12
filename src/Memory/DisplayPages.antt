-- ===== src/Memory/DisplayPages.antt =====
-- memory::reserveDisplayPage and memory::mapDisplay (src/mesa/memory.cpp).
use mesa_emulator_unix.Common.{ℕ, zero, suc, ◌+◌, ◌*◌, not, some, ltb, ◌==◌, u16, u32, sub32}
use mesa_emulator_unix.Action.{
  Action, error, undefined, index_out_of_range, ◌>>=◌, ◌>>◌, raise_if, gets, modify, skip,
}
use mesa_emulator_unix.Types.{vacant, clear}
use mesa_emulator_unix.Memory.{Display, Memory, real_page, write_map}

abbrev pub set_display : Display → Memory → Memory
set_display d s = record s { display = d }

-- for(i = 0; i < n; i++) WriteMap(vp + i, map), from `vp` on.
unfoldable pub write_vacant : ℕ → ℕ → Action Memory (Unit {0})
write_vacant zero vp = skip
write_vacant (suc n) vp = do write_map vp (record { mf = vacant; rp = 0 }); write_vacant n (vp + 1)

-- `display_page_size` is a C++ `int` above zero. `maps[vp]` is read with no test of `vp`.
unfoldable pub reserve_display_page : ℕ → Action Memory (Unit {0})
reserve_display_page display_page_size = do
  modify (λ s. set_display (record (s.display) { page_size = display_page_size }) s)
  rp_size ← gets (λ s. s.rp_size)
  let vp = sub32 rp_size display_page_size
  vp_size ← gets (λ s. s.vp_size)
  raise_if (not (ltb vp vp_size)) (undefined index_out_of_range)
  map ← gets (λ s. s.maps vp)
  modify (λ s. set_display (record (s.display) { rp = map.rp }) s)
  page ← real_page map.rp
  modify (λ s. set_display (record (s.display) { bitmap = some (page * 256) }) s)
  write_vacant display_page_size vp

-- for(i = 0; i < n; i++) WriteMap(vp + i, {clear, rp + i}), from `vp` and `rp` on.
unfoldable pub write_clear : ℕ → ℕ → ℕ → Action Memory (Unit {0})
write_clear zero vp rp = skip
write_clear (suc n) vp rp = do
  write_map (u32 vp) (record { mf = clear; rp = u16 rp })
  write_clear n (vp + 1) (rp + 1)

unfoldable pub map_display : ℕ → ℕ → ℕ → Action Memory (Unit {0})
map_display vp rp page_count = do
  d ← gets (λ s. s.display)
  raise_if (not (rp == d.rp)) error
  raise_if (not (page_count == d.page_size)) error
  modify (λ s. set_display (record (s.display) { vp = vp }) s)
  write_clear page_count vp rp
