-- ===== src/Memory/Flat.antt =====
-- The memory of src/mesa/memory.cpp as the program sees it: a word for each virtual address of the
-- pages that are in the map and open for reading and writing.
use mesa_emulator_unix.Common.{
  ℕ, ◌+◌, ◌*◌, ◌/◌, ◌%◌, ◌<◌, ◌≡◌, ◌≢◌, refl, false, arith, subst, sym, update, leb, lt→ltb, ◌∙◌,
}
use mesa_emulator_unix.Types.{is_vacant, is_protect, MapFlags}
use mesa_emulator_unix.Action.{Outcome, ok, stop, ◌>>=◌, gets, modify, raise_if, pure}
use mesa_emulator_unix.Memory.{
  Memory, fetch_page, store_page, check_vp, real_page, mark_referenced, mark_dirty,
}
use mesa_emulator_unix.Memory.Cache.{fetch, store}
use mesa_emulator_unix.Memory.Coherent.{
  IsCoherent, Kept, AccessOk, fetch_direct, store_direct, visible, forget,
}
use mesa_emulator_unix.Memory.Coherent.Access.{fetch-AccessOk, store-AccessOk}
use mesa_emulator_unix.Memory.Coherent.Fetches.{fetch-fetch_direct, store-store_direct}

-- A page of the map other than 0 with no write protection, so that it is not vacant either.
pub record IsOpen (s : Memory) (vp : ℕ) : Type 0 where
  pub in_map : vp < s.vp_size
  pub not_zero : vp ≢ 0
  pub open_page : (s.maps vp).mf.protect ≡ false

-- The index in real memory of the word of a virtual address, and the word.
abbrev pub location : Memory → ℕ → ℕ
location s va = (s.maps (va / 256)).rp * 256 + va % 256

abbrev pub word_at : Memory → ℕ → ℕ
word_at s va = s.words (location s va)

-- `t` maps each page to the real page of `s`, with the same protection.
pub record SameMap (s t : Memory) : Type 0 where
  pub same_rp : (v : ℕ) → (t.maps v).rp ≡ (s.maps v).rp
  pub same_protect : (v : ℕ) → (t.maps v).mf.protect ≡ (s.maps v).mf.protect

abbrev SeenAt : Memory → ℕ → Outcome Memory ℕ → Type 0
SeenAt s p (ok q t) = (q ≡ p) × SameMap s t
SeenAt s p (stop c t) = ⊥

-- An access that finds `p`, and changes flags and cache only.
abbrev pub FoundAt : Memory → ℕ → Outcome Memory ℕ → Type 0
FoundAt s p (ok q t) = (q ≡ p) × SameMap s t × Kept s t
FoundAt s p (stop c t) = ⊥

SeenAt-FoundAt :
    (s : Memory) (va p : ℕ) (o : Outcome Memory ℕ)
    → SeenAt s p (visible o)
    → AccessOk s va o
    → FoundAt s p o
SeenAt-FoundAt s va p (ok q t) (e, m) (_, k) =
    (e, record { same_rp = m.same_rp; same_protect = m.same_protect }, k)
SeenAt-FoundAt s va p (stop c t) h k = absurd h

open-vacant : (f : MapFlags) → f.protect ≡ false → is_vacant f ≡ false
unfolding is_vacant
open-vacant f e = ground (arith, e)

open-protect : (f : MapFlags) → f.protect ≡ false → is_protect f ≡ false
unfolding is_protect
open-protect f e = e

marked-protect : (f : MapFlags) → (mark_referenced f).protect ≡ f.protect
unfolding mark_referenced
marked-protect f = ground arith

dirtied-protect : (f : MapFlags) → (mark_dirty f).protect ≡ f.protect
unfolding mark_dirty
dirtied-protect f = ground arith

module _ (s : Memory) (va : ℕ) (c : IsCoherent s) (h : IsOpen s (va / 256)) where
  reached :
      (mf : MapFlags)
      → mf.protect ≡ (s.maps (va / 256)).mf.protect
      → SameMap s (
          forget (record s {
            maps = update s.maps (va / 256) (record { mf = mf; rp = (s.maps (va / 256)).rp });
          }))
  reached mf e = record { same_rp = λ v. ground arith; same_protect = λ v. ground (arith, e) }

  fetch_direct-SeenAt : SeenAt s (location s va) (visible (fetch_direct va s))
  unfolding fetch_direct fetch_page ◌>>=◌ gets modify raise_if check_vp real_page pure
  fetch_direct-SeenAt =
      let mapped : leb s.vp_size (va / 256) ≡ false = ground (arith, h.in_map) in
      rw
        (
          mapped,
          open-vacant ((s.maps (va / 256)).mf) h.open_page,
          lt→ltb _ _ (c.real (va / 256) h.in_map),
        )
        (refl, reached _ (marked-protect _))

  store_direct-SeenAt : SeenAt s (location s va) (visible (store_direct va s))
  unfolding store_direct store_page ◌>>=◌ gets modify raise_if check_vp real_page pure
  store_direct-SeenAt =
      let mapped : leb s.vp_size (va / 256) ≡ false = ground (arith, h.in_map) in
      rw
        (
          mapped,
          open-vacant ((s.maps (va / 256)).mf) h.open_page,
          open-protect ((s.maps (va / 256)).mf) h.open_page,
          lt→ltb _ _ (c.real (va / 256) h.in_map),
        )
        (refl, reached _ (dirtied-protect _))

  -- A cached read of an open page finds the word of the address.
  pub fetch-FoundAt : FoundAt s (location s va) (fetch va s)
  fetch-FoundAt =
      SeenAt-FoundAt s va (location s va) (fetch va s)
        (subst (SeenAt s (location s va)) (sym (fetch-fetch_direct s va c h.not_zero))
          fetch_direct-SeenAt)
        (fetch-AccessOk s va c)

  -- A cached write of an open page finds the word of the address.
  pub store-FoundAt : FoundAt s (location s va) (store va s)
  store-FoundAt =
      SeenAt-FoundAt s va (location s va) (store va s)
        (subst (SeenAt s (location s va)) (sym (store-store_direct s va c h.not_zero h.open_page))
          store_direct-SeenAt)
        (store-AccessOk s va c)

-- A memory whose open pages have real pages of their own.
pub record IsFlat (s : Memory) : Type 0 where
  pub coherent : IsCoherent s
  pub apart : (u v : ℕ) → IsOpen s u → IsOpen s v → (s.maps u).rp ≡ (s.maps v).rp → u ≡ v

pub location-inside :
    (s : Memory) (va : ℕ) → IsCoherent s → IsOpen s (va / 256) → location s va < s.rp_size * 256
location-inside s va c h = let real = c.real (va / 256) h.in_map in omega arith

pub location-apart :
    (s : Memory) (u v : ℕ)
    → IsFlat s
    → IsOpen s (u / 256)
    → IsOpen s (v / 256)
    → location s u ≡ location s v
    → u ≡ v
location-apart s u v c h k e =
    let same = c.apart (u / 256) (v / 256) h k (omega arith) in omega arith

module _ {s t : Memory} (m : SameMap s t) (k : Kept s t) where
  pub IsOpen-same : (v : ℕ) → IsOpen s v → IsOpen t v
  IsOpen-same v h = record {
    in_map = rw k.vp_size h.in_map;
    not_zero = h.not_zero;
    open_page = rw (m.same_protect v) h.open_page;
  }

  IsOpen-back : (v : ℕ) → IsOpen t v → IsOpen s v
  IsOpen-back v h = record {
    in_map = rw⁻¹ k.vp_size h.in_map;
    not_zero = h.not_zero;
    open_page = rw⁻¹ (m.same_protect v) h.open_page;
  }

  pub IsFlat-same : IsFlat s → IsFlat t
  IsFlat-same c = record {
    coherent = k.coherent;
    apart = λ u v h g e.
        c.apart u v (IsOpen-back u h) (IsOpen-back v g) (sym (m.same_rp u) ∙ e ∙ m.same_rp v);
  }

  pub word_at-same : (va : ℕ) → word_at t va ≡ word_at s va
  word_at-same va = rw (k.words, m.same_rp (va / 256)) refl

-- The memory with other words.
abbrev pub with_words : Memory → (ℕ → ℕ) → Memory
with_words s words = record s { words = words }

module _ (s : Memory) (words : ℕ → ℕ) where
  pub IsOpen-words : (v : ℕ) → IsOpen s v → IsOpen (with_words s words) v
  IsOpen-words v h = record { in_map = h.in_map; not_zero = h.not_zero; open_page = h.open_page }

  IsOpen-words_back : (v : ℕ) → IsOpen (with_words s words) v → IsOpen s v
  IsOpen-words_back v h = record {
    in_map = h.in_map;
    not_zero = h.not_zero;
    open_page = h.open_page;
  }

  pub IsFlat-words : IsFlat s → IsFlat (with_words s words)
  IsFlat-words c = record {
    coherent = record {
      small = c.coherent.small;
      real = c.coherent.real;
      entries = c.coherent.entries;
    };
    apart = λ u v h g e. c.apart u v (IsOpen-words_back u h) (IsOpen-words_back v g) e;
  }
