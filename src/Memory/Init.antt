-- ===== src/Memory/Init.antt =====
-- memory::initialize (src/mesa/memory.cpp), with memory::cache::initialize.
pub mod Boot
pub mod Coherence
use mesa_emulator_unix.Common.{
  ℕ, zero, suc, ◌+◌, ◌-◌, ◌^◌, Bool, not, ◌||◌, Option, none, ltb, leb, ◌==◌, if◌then◌else◌, update,
  u16,
}
use mesa_emulator_unix.Action.{
  Action, error, undefined, bad_shift, index_out_of_range, ◌>>=◌, ◌>>◌, raise_if, gets, modify,
}
use mesa_emulator_unix.Types.{MapFlags, vacant, clear}
use mesa_emulator_unix.Memory.{Map, Display, Memory, empty_entry}

-- RealMemoryImplGuam::largestArraySize * WordSize
abbrev pub max_realmemory_page_size : ℕ
max_realmemory_page_size = 65376

abbrev pub vmbits_min : ℕ
vmbits_min = 20

abbrev pub vmbits_max : ℕ
vmbits_max = 25

abbrev pub clear_display : Display
clear_display = record { page_size = 0; vp = 0; rp = 0; bitmap = none }

-- for(i = i0; i < i0 + n; i++) { maps[i].mf = clear; maps[i].rp = rp++; }
unfoldable pub map_clear : ℕ → ℕ → ℕ → (ℕ → Map) → ℕ → Map
map_clear zero i rp maps = maps
map_clear (suc n) i rp maps =
    map_clear n (i + 1) (rp + 1) (update maps i (record { mf = clear; rp = u16 rp }))

-- for(i = i0; i < i0 + n; i++) { maps[i].mf = vacant; maps[i].rp = 0; }
unfoldable pub map_vacant : ℕ → ℕ → (ℕ → Map) → ℕ → Map
map_vacant zero i maps = maps
map_vacant (suc n) i maps = map_vacant n (i + 1) (update maps i (record { mf = vacant; rp = 0 }))

abbrev pub clamp : ℕ → ℕ
clamp rp_size = if ltb max_realmemory_page_size rp_size then max_realmemory_page_size else rp_size

-- The four loops over `maps`; the second starts where the counter `rp` of the first has ended.
unfoldable pub boot_maps : ℕ → ℕ → ℕ → (ℕ → Map) → ℕ → Map
boot_maps vp_size rp_size io maps = map_vacant (vp_size - rp_size) rp_size (
    map_clear (rp_size - 256) 256 (256 - io + io)
      (map_clear io 0 (256 - io) (map_clear (256 - io) io 0 maps)))

-- The array `pages` is zeroed. A count of bits below 8 would shift by a negative number, and an
-- `ioRegionPage` above `vpSize` would write past the end of `maps`.
unfoldable pub initialize : ℕ → ℕ → ℕ → Action Memory (Unit {0})
initialize vm_bits rm_bits io_region_page = do
  used ← gets (λ s. s.vp_size)
  raise_if (not (used == 0)) error
  raise_if (ltb vm_bits vmbits_min) error
  raise_if (ltb vmbits_max vm_bits) error
  raise_if (ltb vm_bits rm_bits) error
  raise_if (ltb rm_bits 8) (undefined bad_shift)
  let vp_size = 2 ^ (vm_bits - 8)
  let rp_size = clamp (2 ^ (rm_bits - 8))
  raise_if (ltb vp_size io_region_page) (undefined index_out_of_range)
  modify (λ s. record s {
    vp_size = vp_size;
    rp_size = rp_size;
    display = clear_display;
    words = λ _. 0;
    maps = boot_maps vp_size rp_size io_region_page s.maps;
  })
  raise_if (not ((256 - io_region_page + io_region_page + (rp_size - 256)) == rp_size)) error
  modify (λ s. record s { entry = λ _. empty_entry })
