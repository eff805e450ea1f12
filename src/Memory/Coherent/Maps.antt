-- ===== src/Memory/Coherent/Maps.antt =====
-- memory::WriteMap and memory::ReadMap (src/mesa/memory.cpp) and the page cache.
use mesa_emulator_unix.Common.{
  ℕ, ◌%◌, ◌<◌, ◌≡◌, ◌≢◌, refl, sym, arith, ◌==◌, if◌then◌else◌, update, Option, none, some,
  Bool-cases, inl, inr, subst, ap, ◌∙◌,
}
use mesa_emulator_unix.Action.{ok, ◌>>=◌, raise_if, gets, modify}
use mesa_emulator_unix.Memory.{
  Memory, Map, Entry, hash, invalidate, write_map, check_vp, forget_vacant, empty_entry,
}
use mesa_emulator_unix.Memory.Coherent.{IsCoherent, PageOk}

-- The memory after a map has been written and its entry, if it has one, emptied.
abbrev pub remapped : ℕ → Map → Memory → Memory
remapped vp map s = record s {
  maps = update s.maps vp (forget_vacant map);
  entry =
      (if (s.entry (hash vp)).vpno == vp then update s.entry (hash vp) empty_entry else s.entry);
}

write_map_lem :
    (s : Memory) (vp : ℕ) (map : Map)
    → vp < s.vp_size
    → map.rp < s.rp_size
    → write_map vp map s ≡ ok tt (remapped vp map s)
unfolding write_map invalidate ◌>>=◌ raise_if gets modify check_vp
write_map_lem s vp map h r = ground (arith, h, r)

-- An entry of another page does not see the change.
other-PageOk :
    (s : Memory) (vp : ℕ) (map : Map) (i : ℕ) (e : Entry) (p : Option ℕ)
    → e.vpno ≢ vp
    → PageOk s.vp_size s.maps i e p
    → PageOk s.vp_size (update s.maps vp map) i e p
other-PageOk s vp map i e none ne h = h
other-PageOk s vp map i e (some rp) ne h =
    let same : update s.maps vp map e.vpno ≡ s.maps e.vpno = ground (arith, ne) in
    record {
      at_hash = h.at_hash;
      in_map = h.in_map;
      same_page = rw same h.same_page;
      fetched = h.fetched;
      referenced = rw same h.referenced;
      stored = rw same h.stored;
    }

empty-PageOk :
    (s : Memory) (vp : ℕ) (map : Map) (i : ℕ) (e : Entry) (p : Option ℕ)
    → (e.vpno ≡ vp → i ≢ hash vp)
    → PageOk s.vp_size s.maps i e p
    → PageOk s.vp_size (update s.maps vp map) i e p
unfolding hash
empty-PageOk s vp map i e none ne h = h
empty-PageOk s vp map i e (some rp) ne h =
    other-PageOk s vp map i e (some rp) (λ q. ne q (sym h.at_hash ∙ ap (λ (z : ℕ). z % 65536) q)) h

-- On a coherent memory, for a virtual page of the map and a real page of the memory, `WriteMap`
-- succeeds, sets the page's map and no other, without its real page where its flags say vacant, and
-- leaves the cache coherent: the entry of the page is emptied.
pub write_map-IsCoherent :
    (s : Memory) (vp : ℕ) (map : Map)
    → IsCoherent s
    → vp < s.vp_size
    → map.rp < s.rp_size
    → (write_map vp map s ≡ ok tt (remapped vp map s)) × IsCoherent (remapped vp map s)
write_map-IsCoherent s vp map c h r = (
  write_map_lem s vp map h r,
  record {
    small = c.small;
    real = λ v lt. ground (arith, c.real v lt, r);
    entries = λ i. elim (Bool-cases ((s.entry (hash vp)).vpno == vp)) [
      | inl same ↦ rw same (elim (Bool-cases (i == hash vp)) [
        | inl at ↦ rw at record { vpno_zero = refl; not_fetched = refl; not_stored = refl }
        | inr off ↦ rw off (
            empty-PageOk s vp _ i (s.entry i) (s.entry i).page (λ q e. ground (arith, e, off))
              (c.entries i))
      ])
      | inr other ↦ rw other (
          empty-PageOk s vp _ i (s.entry i) (s.entry i).page
            (λ q e. ground (arith, other, subst (λ (z : ℕ). (s.entry z).vpno ≡ vp) e q))
            (c.entries i))
    ];
  },
)
