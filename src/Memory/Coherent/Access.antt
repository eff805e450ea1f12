-- ===== src/Memory/Coherent/Access.antt =====
-- What every cached access of src/mesa/memory.h keeps, and where its pointer lies.
use mesa_emulator_unix.Common.{
  ℕ, ◌+◌, ◌*◌, ◌/◌, ◌%◌, ◌<◌, ◌≡◌, refl, true, false, Option, none, some, arith, Bool-cases, ◌==◌,
  inl, inr, ==→eq, subst, Bool, leb, eq→==,
}
use mathlib.Core.Bool.{false≢true}
use mesa_emulator_unix.Types.{MapFlags}
use mesa_emulator_unix.Action.{
  Stop, error, diverges, trap, fault, undefined, null_page, ok, ◌>>=◌, gets, skip, pure, modify,
  raise, Outcome, and_then,
}
use mesa_emulator_unix.Memory.{
  Memory, Entry, hash, fetch_page, store_page, check_vp, set_referenced_flag,
  set_referenced_dirty_flag, mark_referenced, mark_dirty,
}
use mesa_emulator_unix.Memory.Cache.{
  fetch, store, page_offset, fetch_setup, store_setup, filled, store_maintain_flag, set_entry,
  fetch_maintain_flag,
}
use mesa_emulator_unix.Memory.Coherent.{
  IsLinked, IsCoherent, PageOk, IsTame, Kept, KeptBy, IsPointer, AccessOk,
}
use mesa_emulator_unix.Memory.Coherent.Keeps.{
  fill-IsCoherent, set_entry-IsCoherent, set_flags-IsCoherent, mark_referenced-Grows,
  mark_dirty-Grows, mark_referenced-referenced, mark_dirty_flags, fetch_page-by, store_page-by,
  set_flags, Grows, set_flags_self, PageOk-set_flags,
}

Kept-refl : (s : Memory) → IsCoherent s → Kept s s
Kept-refl s c = record { coherent = c; words = refl; rp_size = refl; vp_size = refl }

tame-KeptBy : {s t : Memory} (c : Stop) → IsTame c → Kept s t → KeptBy s c t
tame-KeptBy (trap x) h k = (h, k)
tame-KeptBy (fault x) h k = (h, k)
tame-KeptBy error h k = (h, k)
tame-KeptBy diverges h k = (h, k)
tame-KeptBy (undefined null_page) h k = tt
tame-KeptBy (undefined _) h k = absurd h

page-IsPointer : (s : Memory) (va rp : ℕ) → rp < s.rp_size → IsPointer s va (rp * 256 + va % 256)
page-IsPointer s va rp lt = record { inside = omega arith; aligned = omega arith }

linked_real :
    (s : Memory) {i rp : ℕ} {e : Entry}
    → IsCoherent s
    → IsLinked s.vp_size s.maps i e rp
    → rp < s.rp_size
linked_real s {rp} {e} c h = subst (λ r. r < s.rp_size) h.same_page (c.real e.vpno h.in_map)

-- A miss, as one access to the map and one write of the entry.
abbrev pub filling : ℕ → Bool → ℕ → Memory → Outcome Memory ℕ
filling va st page t =
    ok (page * 256 + va % 256) (set_entry (hash (va / 256)) (filled (va / 256) st page) t)

pub fetch-miss :
    (s : Memory) (va : ℕ)
    → ((s.entry (hash (va / 256))).vpno == va / 256) ≡ false
    → fetch va s ≡ and_then (fetch_page (va / 256) s) (filling va false)
unfolding fetch fetch_setup ◌>>=◌ gets modify page_offset pure
fetch-miss s va other = ground arith

store-miss :
    (s : Memory) (va : ℕ)
    → ((s.entry (hash (va / 256))).vpno == va / 256) ≡ false
    → store va s ≡ and_then (store_page (va / 256) s) (filling va true)
unfolding store store_setup ◌>>=◌ gets modify page_offset pure
store-miss s va other = ground arith

module _ (s : Memory) (va : ℕ) (c : IsCoherent s) where
  raised-AccessOk :
      (st : Bool) (mf : MapFlags)
      → Grows ((s.maps (va / 256)).mf) mf
      → mf.referenced ≡ true
      → (st ≡ true → mf.dirty ≡ true)
      → va / 256 < s.vp_size
      → AccessOk s va (filling va st (s.maps (va / 256)).rp (set_flags (va / 256) mf s))
  raised-AccessOk st mf g r d lt =
      let self = set_flags_self s (va / 256) mf in
      (
        page-IsPointer s va _ (c.real (va / 256) lt),
        record {
          coherent =
              fill-IsCoherent (set_flags (va / 256) mf s) (va / 256) (s.maps (va / 256)).rp st
                (set_flags-IsCoherent s (va / 256) mf g c) lt (rw self) (rw self r)
                (λ t. rw self (d t));
          words = refl;
          rp_size = refl;
          vp_size = refl;
        },
      )

  fetch_miss-AccessOk : AccessOk s va (and_then (fetch_page (va / 256) s) (filling va false))
  fetch_miss-AccessOk =
      fetch_page-by (λ o. AccessOk s va (and_then o (filling va false))) s (va / 256)
        (λ k tame. tame-KeptBy k tame (Kept-refl s c)) (c.real (va / 256))
        (raised-AccessOk false (mark_referenced (s.maps (va / 256)).mf)
          (mark_referenced-Grows (s.maps (va / 256)).mf)
          (mark_referenced-referenced (s.maps (va / 256)).mf) (λ e. absurd (false≢true e)))

  store_miss-AccessOk : AccessOk s va (and_then (store_page (va / 256) s) (filling va true))
  store_miss-AccessOk =
      let flags = mark_dirty_flags (s.maps (va / 256)).mf in
      store_page-by (λ o. AccessOk s va (and_then o (filling va true))) s (va / 256)
        (λ k tame. tame-KeptBy k tame (Kept-refl s c)) (c.real (va / 256))
        (raised-AccessOk true (mark_dirty (s.maps (va / 256)).mf)
          (mark_dirty-Grows (s.maps (va / 256)).mf) flags.0 (λ _. flags.1))

  fetch_hit-AccessOk :
      (p : Option ℕ)
      → (s.entry (hash (va / 256))).page ≡ p
      → PageOk s.vp_size s.maps (hash (va / 256)) (s.entry (hash (va / 256))) p
      → ((s.entry (hash (va / 256))).vpno == va / 256) ≡ true
      → AccessOk s va (fetch va s)
  unfolding fetch fetch_maintain_flag set_referenced_flag check_vp ◌>>=◌ gets modify page_offset
      pure skip raise
  fetch_hit-AccessOk none e h same =
      rw (same, h.not_fetched)
        (elim (Bool-cases (leb s.vp_size (va / 256))) [
          | inl out ↦ rw out (tt, Kept-refl s c)
          | inr in_map ↦ rw (in_map, eq→== (hash (va / 256)) (hash (va / 256)) refl, e) tt
        ])
  fetch_hit-AccessOk (some rp) e h same =
      rw (same, h.fetched, e) (page-IsPointer s va rp (linked_real s c h), Kept-refl s c)

  -- Both flags of a filled entry are set, the page's flags raised before.
  stored-IsCoherent :
      (rp : ℕ)
      → (s.entry (hash (va / 256))).vpno ≡ va / 256
      → (s.entry (hash (va / 256))).page ≡ some rp
      → IsLinked s.vp_size s.maps (hash (va / 256)) (s.entry (hash (va / 256))) rp
      → IsCoherent (
          set_entry
            (hash (va / 256))
            (record (s.entry (hash (va / 256))) { flag_fetch = true; flag_store = true })
            (set_flags
              (va / 256)
              (record ((s.maps (va / 256)).mf) { referenced = true; dirty = true })
              s))
  stored-IsCoherent rp at e h =
      let mf = record ((s.maps (va / 256)).mf) { referenced = true; dirty = true } in
      let g : Grows ((s.maps (va / 256)).mf) mf = record {
        keeps_referenced = λ _. refl;
        keeps_dirty = λ _. refl;
      } in
      let up =
        PageOk-set_flags s (va / 256) (hash (va / 256)) mf (s.entry (hash (va / 256))) (some rp) g
          h in
      set_entry-IsCoherent (set_flags (va / 256) mf s) (hash (va / 256))
        (record (s.entry (hash (va / 256))) { flag_fetch = true; flag_store = true })
        (rw e (record {
          at_hash = up.at_hash;
          in_map = up.in_map;
          same_page = up.same_page;
          fetched = refl;
          referenced = up.referenced;
          stored = λ _. rw (at, set_flags_self s (va / 256) mf);
        }))
        (set_flags-IsCoherent s (va / 256) mf g c)

  store_hit-AccessOk :
      (p : Option ℕ)
      → (s.entry (hash (va / 256))).page ≡ p
      → PageOk s.vp_size s.maps (hash (va / 256)) (s.entry (hash (va / 256))) p
      → ((s.entry (hash (va / 256))).vpno == va / 256) ≡ true
      → AccessOk s va (store va s)
  unfolding store store_maintain_flag set_referenced_dirty_flag check_vp ◌>>=◌ gets modify
      page_offset pure skip raise
  store_hit-AccessOk none e h same =
      rw (same, h.not_stored)
        (elim (Bool-cases (leb s.vp_size (va / 256))) [
          | inl out ↦ rw out (tt, Kept-refl s c)
          | inr in_map ↦ rw (in_map, eq→== (hash (va / 256)) (hash (va / 256)) refl, e) tt
        ])
  store_hit-AccessOk (some rp) e h same =
      let at = ==→eq (s.entry (hash (va / 256))).vpno (va / 256) same in
      let real = linked_real s c h in
      let in_map : leb s.vp_size (va / 256) ≡ false = ground (arith, h.in_map) in
      rw same (elim (Bool-cases (s.entry (hash (va / 256))).flag_store) [
        | inl st ↦ rw (st, e) (page-IsPointer s va rp real, Kept-refl s c)
        | inr st ↦
            rw (st, in_map, eq→== (hash (va / 256)) (hash (va / 256)) refl, e)
              (
                page-IsPointer s va rp real,
                record {
                  coherent = rw e at (stored-IsCoherent rp at e h);
                  words = refl;
                  rp_size = refl;
                  vp_size = refl;
                },
              )
      ])

-- On a coherent memory a cached read keeps the cache coherent and the words of the memory, and its
-- pointer lies inside the real memory, at the offset of its address in the page. It may also stop, but
-- not outside an array, and then keeps the same; where it meets a null page nothing is said.
pub fetch-AccessOk : (s : Memory) (va : ℕ) → IsCoherent s → AccessOk s va (fetch va s)
fetch-AccessOk s va c = elim (Bool-cases ((s.entry (hash (va / 256))).vpno == va / 256)) [
  | inl same ↦
      fetch_hit-AccessOk s va c (s.entry (hash (va / 256))).page refl (c.entries (hash (va / 256)))
        same
  | inr other ↦ rw (fetch-miss s va other) (fetch_miss-AccessOk s va c)
]

-- On a coherent memory a cached write keeps the cache coherent and the words of the memory, and its
-- pointer lies inside the real memory, at the offset of its address in the page. It may also stop, but
-- not outside an array, and then keeps the same; where it meets a null page nothing is said.
pub store-AccessOk : (s : Memory) (va : ℕ) → IsCoherent s → AccessOk s va (store va s)
store-AccessOk s va c = elim (Bool-cases ((s.entry (hash (va / 256))).vpno == va / 256)) [
  | inl same ↦
      store_hit-AccessOk s va c (s.entry (hash (va / 256))).page refl (c.entries (hash (va / 256)))
        same
  | inr other ↦ rw (store-miss s va other) (store_miss-AccessOk s va c)
]
