-- ===== src/Memory/Coherent/Keeps.antt =====
-- The operations of src/mesa/memory.cpp keep the cache coherent.
use mesa_emulator_unix.Common.{
  ℕ, ◌%◌, ◌<◌, ◌≡◌, refl, true, Option, none, some, arith, Bool-cases, ◌==◌, update, inl, inr,
  ==→eq, subst, sym, ◌∙◌, Bool, leb, lt→ltb,
}
use mesa_emulator_unix.Types.{is_vacant, is_protect, MapFlags}
use mesa_emulator_unix.Action.{Stop, error, ok, stop, ◌>>=◌, gets, modify, raise_if, Outcome}
use mesa_emulator_unix.Memory.{
  Memory, Entry, hash, fetch_page, store_page, check_vp, real_page, mark_referenced, mark_dirty,
  set_map, empty_entry,
}
use mesa_emulator_unix.Memory.Cache.{filled, set_entry}
use mesa_emulator_unix.Memory.Coherent.{IsCoherent, PageOk, IsTame}

-- More flags set on a page: referenced stays, and dirty stays.
pub record Grows (f g : MapFlags) : Type 0 where
  pub keeps_referenced : f.referenced ≡ true → g.referenced ≡ true
  pub keeps_dirty : f.dirty ≡ true → g.dirty ≡ true

abbrev pub set_flags : ℕ → MapFlags → Memory → Memory
set_flags vp mf s = set_map vp (record { mf = mf; rp = (s.maps vp).rp }) s

pub set_flags-referenced :
    (s : Memory) (vp v : ℕ) (mf : MapFlags)
    → Grows ((s.maps vp).mf) mf
    → (s.maps v).mf.referenced ≡ true
    → ((set_flags vp mf s).maps v).mf.referenced ≡ true
set_flags-referenced s vp v mf g h = elim (Bool-cases (v == vp)) [
  | inl same ↦
      let at = ==→eq v vp same in
      rw same (g.keeps_referenced (subst (λ t. (s.maps t).mf.referenced ≡ true) at h))
  | inr other ↦ rw other h
]

pub set_flags-dirty :
    (s : Memory) (vp v : ℕ) (mf : MapFlags)
    → Grows ((s.maps vp).mf) mf
    → (s.maps v).mf.dirty ≡ true
    → ((set_flags vp mf s).maps v).mf.dirty ≡ true
set_flags-dirty s vp v mf g h = elim (Bool-cases (v == vp)) [
  | inl same ↦
      let at = ==→eq v vp same in
      rw same (g.keeps_dirty (subst (λ t. (s.maps t).mf.dirty ≡ true) at h))
  | inr other ↦ rw other h
]

set_flags-rp :
    (s : Memory) (vp v : ℕ) (mf : MapFlags) → ((set_flags vp mf s).maps v).rp ≡ (s.maps v).rp
set_flags-rp s vp v mf = ground arith

-- The raised page itself.
pub set_flags_self :
    (s : Memory) (vp : ℕ) (mf : MapFlags)
    → (set_flags vp mf s).maps vp ≡ record { mf = mf; rp = (s.maps vp).rp }
set_flags_self s vp mf = ground arith

pub PageOk-set_flags :
    (s : Memory) (vp i : ℕ) (mf : MapFlags) (e : Entry) (p : Option ℕ)
    → Grows ((s.maps vp).mf) mf
    → PageOk s.vp_size s.maps i e p
    → PageOk s.vp_size (set_flags vp mf s).maps i e p
PageOk-set_flags s vp i mf e none g h = h
PageOk-set_flags s vp i mf e (some rp) g h = record {
  at_hash = h.at_hash;
  in_map = h.in_map;
  same_page = set_flags-rp s vp e.vpno mf ∙ h.same_page;
  fetched = h.fetched;
  referenced = set_flags-referenced s vp e.vpno mf g h.referenced;
  stored = λ st. set_flags-dirty s vp e.vpno mf g (h.stored st);
}

-- Raising the flags of a page keeps the cache coherent.
pub set_flags-IsCoherent :
    (s : Memory) (vp : ℕ) (mf : MapFlags)
    → Grows ((s.maps vp).mf) mf
    → IsCoherent s
    → IsCoherent (set_flags vp mf s)
set_flags-IsCoherent s vp mf g c = record {
  small = c.small;
  real = λ v lt. subst (λ (t : ℕ). t < s.rp_size) (sym (set_flags-rp s vp v mf)) (c.real v lt);
  entries = λ i. PageOk-set_flags s vp i mf (s.entry i) (s.entry i).page g (c.entries i);
}

PageOk-set_entry :
    (s : Memory) (i j : ℕ) (e : Entry)
    → PageOk s.vp_size s.maps i e e.page
    → PageOk s.vp_size s.maps j (s.entry j) (s.entry j).page
    → PageOk s.vp_size s.maps j (update s.entry i e j) (update s.entry i e j).page
PageOk-set_entry s i j e new old = elim (Bool-cases (j == i)) [
  | inl same ↦ rw same (subst (λ t. PageOk s.vp_size s.maps t e e.page) (sym (==→eq j i same)) new)
  | inr other ↦ rw other old
]

pub set_entry-IsCoherent :
    (s : Memory) (i : ℕ) (e : Entry)
    → PageOk s.vp_size s.maps i e e.page
    → IsCoherent s
    → IsCoherent (set_entry i e s)
set_entry-IsCoherent s i e new c = record {
  small = c.small;
  real = c.real;
  entries = λ j. PageOk-set_entry s i j e new (c.entries j);
}

-- Linking the entry of a page to its real page keeps the cache coherent.
pub fill-IsCoherent :
    (s : Memory) (vp rp : ℕ) (st : Bool)
    → IsCoherent s
    → vp < s.vp_size
    → (s.maps vp).rp ≡ rp
    → (s.maps vp).mf.referenced ≡ true
    → (st ≡ true → (s.maps vp).mf.dirty ≡ true)
    → IsCoherent (set_entry (hash vp) (filled vp st rp) s)
unfolding hash
fill-IsCoherent s vp rp st c lt p r d =
    let whole : vp % 1073741824 ≡ vp = omega (arith, c.small) in
    set_entry-IsCoherent s (vp % 65536) (filled vp st rp)
      (record {
        at_hash = rw whole;
        in_map = rw whole lt;
        same_page = rw whole p;
        fetched = refl;
        referenced = rw whole r;
        stored = λ t. rw whole (d t);
      })
      c

pub empty-IsCoherent : (s : Memory) (i : ℕ) → IsCoherent s → IsCoherent (set_entry i empty_entry s)
empty-IsCoherent s i c =
    set_entry-IsCoherent s i empty_entry
      (record { vpno_zero = refl; not_fetched = refl; not_stored = refl }) c

pub mark_referenced-Grows : (f : MapFlags) → Grows f (mark_referenced f)
unfolding mark_referenced
mark_referenced-Grows f = ground arith

pub mark_dirty-Grows : (f : MapFlags) → Grows f (mark_dirty f)
unfolding mark_dirty
mark_dirty-Grows f = ground arith

pub mark_referenced-referenced : (f : MapFlags) → (mark_referenced f).referenced ≡ true
unfolding mark_referenced
mark_referenced-referenced f = ground arith

pub mark_dirty_flags :
    (f : MapFlags) → ((mark_dirty f).referenced ≡ true) × ((mark_dirty f).dirty ≡ true)
unfolding mark_dirty
mark_dirty_flags f = ground arith

-- The ways out of `FetchPage` and `StorePage`: they stop and change nothing, or raise the flags.
module _ (P : Outcome Memory ℕ → Type 0) (s : Memory) (vp : ℕ) where
  pub fetch_page-by :
      ((c : Stop) → IsTame c → P (stop c s))
      → (vp < s.vp_size → (s.maps vp).rp < s.rp_size)
      → (vp < s.vp_size → P (ok (s.maps vp).rp (set_flags vp (mark_referenced (s.maps vp).mf) s)))
      → P (fetch_page vp s)
  unfolding fetch_page ◌>>=◌ gets modify raise_if check_vp real_page
  fetch_page-by bad real good = elim (Bool-cases (leb s.vp_size vp)) [
    | inl e ↦ rw e (bad error tt)
    | inr e ↦ rw e (elim (Bool-cases (is_vacant (s.maps vp).mf)) [
      | inl v ↦ rw v (bad _ tt)
      | inr v ↦ rw (v, lt→ltb _ _ (real (ground arith))) (good (ground arith))
    ])
  ]

  pub store_page-by :
      ((c : Stop) → IsTame c → P (stop c s))
      → (vp < s.vp_size → (s.maps vp).rp < s.rp_size)
      → (vp < s.vp_size → P (ok (s.maps vp).rp (set_flags vp (mark_dirty (s.maps vp).mf) s)))
      → P (store_page vp s)
  unfolding store_page ◌>>=◌ gets modify raise_if check_vp real_page
  store_page-by bad real good = elim (Bool-cases (leb s.vp_size vp)) [
    | inl e ↦ rw e (bad error tt)
    | inr e ↦ rw e (elim (Bool-cases (is_vacant (s.maps vp).mf)) [
      | inl v ↦ rw v (bad _ tt)
      | inr v ↦ rw v (elim (Bool-cases (is_protect (s.maps vp).mf)) [
        | inl p ↦ rw p (bad _ tt)
        | inr p ↦ rw (p, lt→ltb _ _ (real (ground arith))) (good (ground arith))
      ])
    ])
  ]
