-- ===== src/Memory/Coherent/Fetches.antt =====
-- The cached accesses of src/mesa/memory.h against `FetchPage` and `StorePage`.
use mesa_emulator_unix.Common.{
  ℕ, ◌+◌, ◌*◌, ◌/◌, ◌%◌, ◌<◌, ◌≡◌, ◌≢◌, refl, true, false, some, arith, Bool-cases, ◌==◌, inl, inr,
  ==→eq,
}
use mesa_emulator_unix.Types.{is_vacant, is_protect}
use mesa_emulator_unix.Action.{ok, ◌>>=◌, gets, skip, pure, modify, raise_if}
use mesa_emulator_unix.Memory.{
  Memory, hash, set_map, fetch_page, store_page, check_vp, real_page, mark_referenced, mark_dirty,
  set_referenced_dirty_flag,
}
use mesa_emulator_unix.Memory.Cache.{
  fetch, store, page_offset, fetch_setup, store_setup, store_maintain_flag,
}
use mesa_emulator_unix.Memory.Coherent.{IsCoherent, fetch_direct, store_direct, visible, forget}
use mesa_emulator_unix.Memory.Coherent.Entries.{hit, fetch-hit, update_same}

-- A referenced page that is marked referenced stays as it is.
fetch_page-referenced :
    (s : Memory) (vp : ℕ)
    → vp < s.vp_size
    → (s.maps vp).rp < s.rp_size
    → (s.maps vp).mf.referenced ≡ true
    → fetch_page vp s ≡ ok ((s.maps vp).rp) s
unfolding fetch_page ◌>>=◌ gets modify raise_if check_vp real_page mark_referenced is_vacant
fetch_page-referenced s vp lt real r = ground (arith, update_same s.maps vp (s.maps vp) refl)

fetch-miss :
    (s : Memory) (va : ℕ)
    → (s.entry (hash (va / 256))).vpno ≢ va / 256
    → visible (fetch va s) ≡ visible (fetch_direct va s)
unfolding fetch fetch_direct fetch_setup ◌>>=◌ gets modify page_offset pure hash
fetch-miss s va ne = ground arith

-- On a coherent memory a cached read of a virtual page other than 0 gives the word, the flags of
-- the map and the fault, if any, that a read through the map alone gives.
pub fetch-fetch_direct :
    (s : Memory) (va : ℕ)
    → IsCoherent s
    → va / 256 ≢ 0
    → visible (fetch va s) ≡ visible (fetch_direct va s)
unfolding fetch_direct ◌>>=◌ pure
fetch-fetch_direct s va c ne = elim (Bool-cases ((s.entry (hash (va / 256))).vpno == va / 256)) [
  | inl same ↦
      let at = ==→eq (s.entry (hash (va / 256))).vpno (va / 256) same in
      let (rp, h) = hit (hash (va / 256)) (va / 256) c at ne in
      let real = c.real (va / 256) h.in_map in
      rw (
        fetch-hit s va rp at h.page h.fetched,
        fetch_page-referenced s (va / 256) h.in_map real h.referenced,
        h.same_page,
      )
  | inr other ↦ fetch-miss s va (ground arith)
]

store_page-dirty :
    (s : Memory) (vp : ℕ)
    → vp < s.vp_size
    → (s.maps vp).rp < s.rp_size
    → (s.maps vp).mf.protect ≡ false
    → (s.maps vp).mf.referenced ≡ true
    → (s.maps vp).mf.dirty ≡ true
    → store_page vp s ≡ ok ((s.maps vp).rp) s
unfolding store_page ◌>>=◌ gets modify raise_if check_vp real_page mark_dirty is_vacant is_protect
store_page-dirty s vp lt real p r d = ground (arith, update_same s.maps vp (s.maps vp) refl)

-- Of a referenced page that is not protected, both ways to a store set the dirty flag.
store_page-referenced :
    (s : Memory) (vp : ℕ)
    → vp < s.vp_size
    → (s.maps vp).rp < s.rp_size
    → (s.maps vp).mf.protect ≡ false
    → (s.maps vp).mf.referenced ≡ true
    → store_page vp s
      ≡ ok ((s.maps vp).rp) (
          set_map vp
            (record (s.maps vp) {
              mf = record ((s.maps vp).mf) { referenced = true; dirty = true };
            })
            s)
unfolding store_page ◌>>=◌ gets modify raise_if check_vp real_page mark_dirty is_vacant is_protect
store_page-referenced s vp lt real p r = ground arith

store-miss :
    (s : Memory) (va : ℕ)
    → (s.entry (hash (va / 256))).vpno ≢ va / 256
    → visible (store va s) ≡ visible (store_direct va s)
unfolding store store_direct store_setup ◌>>=◌ gets modify page_offset pure hash
store-miss s va ne = ground arith

pub store-hit :
    (s : Memory) (va rp : ℕ)
    → (s.entry (hash (va / 256))).vpno ≡ va / 256
    → (s.entry (hash (va / 256))).page ≡ some rp
    → va / 256 < s.vp_size
    → ((s.entry (hash (va / 256))).flag_store ≡ true → (s.maps (va / 256)).mf.dirty ≡ true)
    → (s.maps (va / 256)).mf.referenced ≡ true
    → visible (store va s)
      ≡ ok (rp * 256 + va % 256) (
          forget (
            set_map
              (va / 256)
              (record (s.maps (va / 256)) {
                mf = record ((s.maps (va / 256)).mf) { referenced = true; dirty = true };
              })
              s))
unfolding store store_maintain_flag set_referenced_dirty_flag check_vp ◌>>=◌ gets modify page_offset
    pure hash skip
store-hit s va rp at page lt st r =
    ground (arith, update_same s.maps (va / 256) (s.maps (va / 256)) refl)

-- On a coherent memory a cached write to a virtual page other than 0, that is not protected, finds
-- the word, sets the flags of the map and raises the fault, if any, that a write through the map
-- alone gives.
pub store-store_direct :
    (s : Memory) (va : ℕ)
    → IsCoherent s
    → va / 256 ≢ 0
    → (s.maps (va / 256)).mf.protect ≡ false
    → visible (store va s) ≡ visible (store_direct va s)
unfolding store_direct ◌>>=◌ pure
store-store_direct s va c ne open_page =
    elim (Bool-cases ((s.entry (hash (va / 256))).vpno == va / 256)) [
      | inl same ↦
          let at = ==→eq (s.entry (hash (va / 256))).vpno (va / 256) same in
          let (rp, h) = hit (hash (va / 256)) (va / 256) c at ne in
          let real = c.real (va / 256) h.in_map in
          rw (
            store-hit s va rp at h.page h.in_map h.stored h.referenced,
            store_page-referenced s (va / 256) h.in_map real open_page h.referenced,
            h.same_page,
          )
      | inr other ↦ store-miss s va (ground arith)
    ]
