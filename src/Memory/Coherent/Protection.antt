-- ===== src/Memory/Coherent/Protection.antt =====
-- A store to a write-protected page behind a fetch of it, through the cache of src/mesa/memory.h.
use mesa_emulator_unix.Common.{
  ℕ, ◌+◌, ◌*◌, ◌/◌, ◌%◌, ◌≡◌, ◌≢◌, refl, true, false, Bool-cases, ◌==◌, inl, inr, ==→eq, arith,
  subst, sym, ◌∙◌, ap,
}
use mesa_emulator_unix.Types.{MapFlags, is_vacant, is_protect}
use mesa_emulator_unix.Action.{
  Outcome, ok, stop, ◌>>=◌, gets, modify, raise_if, fault, write_protect_fault, and_then,
}
use mesa_emulator_unix.Memory.{Memory, hash, set_map, store_page, check_vp, mark_referenced}
use mesa_emulator_unix.Memory.Cache.{fetch, store}
use mesa_emulator_unix.Memory.Coherent.{IsCoherent, AccessOk, store_direct, visible, forget}
use mesa_emulator_unix.Memory.Coherent.Entries.{IsHit, hit, fetch-hit}
use mesa_emulator_unix.Memory.Coherent.Keeps.{fetch_page-by}
use mesa_emulator_unix.Memory.Coherent.Access.{fetch-AccessOk, fetch-miss, filling}
use mesa_emulator_unix.Memory.Coherent.Fetches.{store-hit}

-- The memory with the flags that a write of the page sets.
abbrev pub dirtied : ℕ → Memory → Memory
dirtied vp s =
    set_map vp
      (record (s.maps vp) { mf = record ((s.maps vp).mf) { referenced = true; dirty = true } }) s

-- What a fetch that succeeds leaves: an entry for its page, the page's place and protection.
abbrev FetchLeft : Memory → ℕ → Outcome Memory ℕ → Type 0
FetchLeft s va (ok p t) =
    ((t.entry (hash (va / 256))).vpno ≡ va / 256)
    × ((t.maps (va / 256)).mf.protect ≡ (s.maps (va / 256)).mf.protect)
    × (p ≡ (t.maps (va / 256)).rp * 256 + va % 256)
FetchLeft s va (stop c t) = Unit

mark_referenced-protect : (f : MapFlags) → (mark_referenced f).protect ≡ f.protect
unfolding mark_referenced
mark_referenced-protect f = ground arith

fetch-FetchLeft : (s : Memory) (va : ℕ) → IsCoherent s → va / 256 ≢ 0 → FetchLeft s va (fetch va s)
fetch-FetchLeft s va c ne = elim (Bool-cases ((s.entry (hash (va / 256))).vpno == va / 256)) [
  | inl same ↦
      let at = ==→eq (s.entry (hash (va / 256))).vpno (va / 256) same in
      let (rp, h) = hit (hash (va / 256)) (va / 256) c at ne in
      rw (fetch-hit s va rp at h.page h.fetched)
        (at, refl, ap (λ r. r * 256 + va % 256) (sym h.same_page))
  | inr other ↦ rw (fetch-miss s va other) (
      fetch_page-by (λ o. FetchLeft s va (and_then o (filling va false))) s (va / 256)
        (λ k tame. tt) (c.real (va / 256))
        (λ lt. (
          ground arith,
          ground (arith, mark_referenced-protect (s.maps (va / 256)).mf),
          ground arith,
        )))
]

store-hit_protected :
    (t : Memory) (va rp : ℕ)
    → IsHit t (hash (va / 256)) (va / 256) rp
    → (t.entry (hash (va / 256))).vpno ≡ va / 256
    → (t.maps (va / 256)).mf.protect ≡ true
    → (visible (store va t) ≡ ok (rp * 256 + va % 256) (forget (dirtied (va / 256) t)))
      × (store_direct va t ≡ stop (fault (write_protect_fault (va / 256 * 256))) t)
unfolding store_direct store_page ◌>>=◌ gets modify raise_if check_vp is_vacant is_protect
store-hit_protected t va rp h at p = (
  store-hit t va rp at h.page h.in_map h.stored h.referenced,
  ground (arith, h.in_map, h.referenced),
)

ok-IsCoherent :
    (s : Memory) (va : ℕ) (o : Outcome Memory ℕ) (p : ℕ) (t : Memory)
    → o ≡ ok p t
    → AccessOk s va o
    → IsCoherent t
ok-IsCoherent s va o p t e k = (subst (AccessOk s va) e k).1.coherent

-- On a coherent memory, a fetch that succeeds of an address in a write-protected page other than 0 opens
-- the page: the store to the same address behind it succeeds, finds the same word and marks the page
-- dirty, where the store through the map alone, on the same memory, raises a write protect fault.
pub store-after_fetch :
    (s t : Memory) (va p : ℕ)
    → IsCoherent s
    → va / 256 ≢ 0
    → (s.maps (va / 256)).mf.protect ≡ true
    → fetch va s ≡ ok p t
    → (visible (store va t) ≡ ok p (forget (dirtied (va / 256) t)))
      × (store_direct va t ≡ stop (fault (write_protect_fault (va / 256 * 256))) t)
store-after_fetch s t va p c ne protected done =
    let (at, same, place) = subst (FetchLeft s va) done (fetch-FetchLeft s va c ne) in
    let (rp, h) =
      hit (hash (va / 256)) (va / 256) (ok-IsCoherent s va _ p t done (fetch-AccessOk s va c)) at
        ne in
    let found : rp * 256 + va % 256 ≡ p = sym (place ∙ ap (λ r. r * 256 + va % 256) h.same_page) in
    let (stored, refused) = store-hit_protected t va rp h at (same ∙ protected) in
    (subst (λ q. visible (store va t) ≡ ok q (forget (dirtied (va / 256) t))) found stored, refused)
