-- ===== src/Memory.antt =====
-- src/mesa/memory.cpp and memory.h: the map from virtual to real pages, the real memory behind it,
-- and the state of the page cache (Memory/Cache). A CARD16* into real memory is the index of the
-- word in the array `pages`: `realPage[rp]` is the address rp * 256. `entry[i].page` is the number
-- of a real page, `none` for a null pointer. `logger` calls and PERF counters are left out.
pub mod Cache
pub mod Init
pub mod DisplayPages
pub mod Coherent
pub mod Flat
use mesa_emulator_unix.Common.{
  ℕ, ◌+◌, ◌*◌, ◌/◌, ◌%◌, Bool, true, false, not, ◌||◌, Option, none, some, ltb, leb, ◌==◌,
  if◌then◌else◌, update, u16,
}
use mesa_emulator_unix.Action.{
  Action, Fault, page_fault, write_protect_fault, fault, error, undefined, null_page,
  index_out_of_range, ok, stop, ◌>>=◌, ◌>>◌, pure, raise, raise_if, gets, modify,
}
use mesa_emulator_unix.Types.{MapFlags, is_vacant, is_protect}

pub record Map : Type 0 where
  pub mf : MapFlags
  pub rp : ℕ

-- memory::Config::Display
pub record Display : Type 0 where
  pub page_size : ℕ
  pub vp : ℕ
  pub rp : ℕ
  pub bitmap : Option ℕ

-- memory::cache::Entry
pub record Entry : Type 0 where
  pub vpno : ℕ
  pub flag_fetch : Bool
  pub flag_store : Bool
  pub page : Option ℕ

pub record Memory : Type 0 where
  pub vp_size : ℕ
  pub rp_size : ℕ
  pub display : Display
  pub maps : ℕ → Map
  pub words : ℕ → ℕ
  pub entry : ℕ → Entry

abbrev pub set_map : ℕ → Map → Memory → Memory
set_map vp map s = record s { maps = update s.maps vp map }

-- `*p` and `*p = value` for a pointer into real memory.
unfoldable pub read_word : ℕ → Action Memory ℕ
read_word p s =
    if ltb p (s.rp_size * 256) then ok (s.words p) s else stop (undefined index_out_of_range) s

unfoldable pub write_word : ℕ → ℕ → Action Memory (Unit {0})
write_word p value s =
    if ltb p (s.rp_size * 256)
    then ok tt (record s { words = update s.words p (u16 value) })
    else stop (undefined index_out_of_range) s

-- `realPage[rp]`: each of the `rpSize` elements is set by `initialize`, and none is null.
unfoldable pub real_page : ℕ → Action Memory ℕ
real_page rp s = if ltb rp s.rp_size then ok rp s else stop (undefined index_out_of_range) s

-- The test in front of each access to `maps[vp]`.
unfoldable pub check_vp : ℕ → Action Memory (Unit {0})
check_vp vp s = if leb s.vp_size vp then stop error s else ok tt s

unfoldable pub mark_referenced : MapFlags → MapFlags
mark_referenced f = if not f.referenced then record f { referenced = true } else f

unfoldable pub mark_dirty : MapFlags → MapFlags
mark_dirty f =
    if not f.referenced || not f.dirty then record f { referenced = true; dirty = true } else f

-- The page that `FetchPage` returns, as its number.
unfoldable pub fetch_page : ℕ → Action Memory ℕ
fetch_page vp = do
  check_vp vp
  map ← gets (λ s. s.maps vp)
  raise_if (is_vacant map.mf) (fault (page_fault (vp * 256)))
  modify (set_map vp (record map { mf = mark_referenced map.mf }))
  real_page map.rp

unfoldable pub store_page : ℕ → Action Memory ℕ
store_page vp = do
  check_vp vp
  map ← gets (λ s. s.maps vp)
  raise_if (is_vacant map.mf) (fault (page_fault (vp * 256)))
  raise_if (is_protect map.mf) (fault (write_protect_fault (vp * 256)))
  modify (set_map vp (record map { mf = mark_dirty map.mf }))
  real_page map.rp

unfoldable pub peek : ℕ → Action Memory ℕ
peek va = do
  check_vp (va / 256)
  map ← gets (λ s. s.maps (va / 256))
  raise_if (is_vacant map.mf) error
  page ← real_page map.rp
  pure (page * 256 + va % 256)

unfoldable pub is_vacant_va : ℕ → Action Memory Bool
is_vacant_va va = do
  check_vp (va / 256)
  map ← gets (λ s. s.maps (va / 256))
  pure (is_vacant map.mf)

unfoldable pub set_referenced_flag : ℕ → Action Memory (Unit {0})
set_referenced_flag vp = do
  check_vp vp
  map ← gets (λ s. s.maps vp)
  modify (set_map vp (record map { mf = record (map.mf) { referenced = true } }))

unfoldable pub set_referenced_dirty_flag : ℕ → Action Memory (Unit {0})
set_referenced_dirty_flag vp = do
  check_vp vp
  map ← gets (λ s. s.maps vp)
  modify (set_map vp (record map { mf = record (map.mf) { referenced = true; dirty = true } }))

abbrev pub forget_vacant : Map → Map
forget_vacant map = if is_vacant map.mf then record map { rp = 0 } else map

unfoldable pub read_map : ℕ → Action Memory Map
read_map vp = do check_vp vp; map ← gets (λ s. s.maps vp); pure (forget_vacant map)

abbrev pub empty_entry : Entry
empty_entry = record { vpno = 0; flag_fetch = false; flag_store = false; page = none }

-- memory::cache::hash and getEntry
unfoldable pub hash : ℕ → ℕ
hash vp = vp % 65536

-- memory::cache::invalidate
unfoldable pub invalidate : ℕ → Action Memory (Unit {0})
unfolding hash
invalidate vp s =
    if (s.entry (hash vp)).vpno == vp
    then ok tt (record s { entry = update s.entry (hash vp) empty_entry })
    else ok tt s

unfoldable pub write_map : ℕ → Map → Action Memory (Unit {0})
write_map vp map = do
  check_vp vp
  size ← gets (λ s. s.rp_size)
  raise_if (leb size map.rp) error
  modify (set_map vp (forget_vacant map))
  invalidate vp
