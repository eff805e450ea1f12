-- ===== src/Memory/Init/Boot.antt =====
-- What memory::initialize (src/mesa/memory.cpp) leaves in the map and in the cache.
use mesa_emulator_unix.Common.{
  ℕ, zero, suc, ◌+◌, ◌-◌, ◌≤◌, ◌<◌, ◌≡◌, arith, leb, ltb, ◌&&◌, if◌then◌else◌, u16, update,
}
use mesa_emulator_unix.Types.{vacant, clear}
use mesa_emulator_unix.Memory.{Map}
use mesa_emulator_unix.Memory.Init.{map_clear, map_vacant, boot_maps}

-- The maps at and after `i` that the loop sets.
map_clear_lem :
    (n i rp : ℕ) (maps : ℕ → Map) (vp : ℕ)
    → map_clear n i rp maps vp ≡ (
        if leb i vp && ltb vp (i + n)
        then record { mf = clear; rp = u16 (rp + (vp - i)) }
        else maps vp)
unfolding map_clear
map_clear_lem zero i rp maps vp = ground arith
map_clear_lem (suc n) i rp maps vp = ground (
  arith,
  map_clear_lem n (i + 1) (rp + 1) (update maps i (record { mf = clear; rp = u16 rp })) vp,
)

map_vacant_lem :
    (n i : ℕ) (maps : ℕ → Map) (vp : ℕ)
    → map_vacant n i maps vp
      ≡ (if leb i vp && ltb vp (i + n) then record { mf = vacant; rp = 0 } else maps vp)
unfolding map_vacant
map_vacant_lem zero i maps vp = ground arith
map_vacant_lem (suc n) i maps vp =
    ground (arith, map_vacant_lem n (i + 1) (update maps i (record { mf = vacant; rp = 0 })) vp)

-- The real page of a virtual page after the start: the first `256 - io` real pages stand from
-- virtual page `io` on, the next `io` from 0 on, and the others in place.
abbrev pub boot_page : ℕ → ℕ → ℕ
boot_page io vp = if ltb vp io then 256 - io + vp else (if ltb vp 256 then vp - io else vp)

-- With the I/O region in the first 256 pages, at most 65,536 real pages and at least 256, the
-- start gives every virtual page below the real memory's size its real page, with flags clear, and
-- leaves all above it vacant.
pub boot_maps_lem :
    (vp_size rp_size io vp : ℕ) (maps : ℕ → Map)
    → io ≤ 256
    → 256 ≤ rp_size
    → rp_size ≤ 65536
    → vp < vp_size
    → boot_maps vp_size rp_size io maps vp ≡ (
        if ltb vp rp_size
        then record { mf = clear; rp = boot_page io vp }
        else record { mf = vacant; rp = 0 })
unfolding boot_maps
boot_maps_lem vp_size rp_size io vp maps h1 h2 h3 h4 =
    let m1 = map_clear (256 - io) io 0 maps in
    let m2 = map_clear io 0 (256 - io) m1 in
    let m3 = map_clear (rp_size - 256) 256 (256 - io + io) m2 in
    ground (
      arith,
      map_vacant_lem (vp_size - rp_size) rp_size m3 vp,
      map_clear_lem (rp_size - 256) 256 (256 - io + io) m2 vp,
      map_clear_lem io 0 (256 - io) m1 vp,
      map_clear_lem (256 - io) io 0 maps vp,
    )
