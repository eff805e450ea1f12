-- ===== src/Memory/Coherent/Entries.antt =====
-- The cases of an access to the page cache of src/mesa/memory.h: a hit and a miss.
use mesa_emulator_unix.Common.{
  ℕ, ◌+◌, ◌*◌, ◌/◌, ◌%◌, ◌<◌, ◌≡◌, ◌≢◌, refl, true, Option, none, some, arith, fun_ext, update,
  subst,
}
use mesa_emulator_unix.Action.{ok, ◌>>=◌, gets, skip, pure}
use mesa_emulator_unix.Memory.{Memory, Entry, hash}
use mesa_emulator_unix.Memory.Cache.{fetch, page_offset}
use mesa_emulator_unix.Memory.Coherent.{IsLinked, IsCoherent, PageOk}

pub update_same {ℓ} : {A : Type ℓ} (f : ℕ → A) (i : ℕ) (v : A) → f i ≡ v → update f i v ≡ f
update_same f i v e = fun_ext λ j. ground arith

-- An entry whose `vpno` is a page other than 0 is filled.
linked :
    (s : Memory) (i vp : ℕ) (e : Entry) (p : Option ℕ)
    → PageOk s.vp_size s.maps i e p
    → e.vpno ≡ vp
    → vp ≢ 0
    → (rp : ℕ) × (p ≡ some rp) × IsLinked s.vp_size s.maps i e rp
linked s i vp e none h ev ne = absurd (ne (omega arith))
linked s i vp e (some rp) h ev ne = (rp, refl, h)

-- What a hit says of the virtual page that was asked for.
pub record IsHit (s : Memory) (i vp : ℕ) (rp : ℕ) : Type 0 where
  pub page : (s.entry i).page ≡ some rp
  pub in_map : vp < s.vp_size
  pub same_page : (s.maps vp).rp ≡ rp
  pub fetched : (s.entry i).flag_fetch ≡ true
  pub referenced : (s.maps vp).mf.referenced ≡ true
  pub stored : (s.entry i).flag_store ≡ true → (s.maps vp).mf.dirty ≡ true

pub hit :
    {s : Memory} (i vp : ℕ)
    → IsCoherent s
    → (s.entry i).vpno ≡ vp
    → vp ≢ 0
    → (rp : ℕ) × IsHit s i vp rp
hit {s} i vp c ev ne =
    let (rp, p, l) = linked s i vp (s.entry i) (s.entry i).page (c.entries i) ev ne in
    (
      rp,
      record {
        page = p;
        in_map = subst (λ v. v < s.vp_size) ev l.in_map;
        same_page = subst (λ v. (s.maps v).rp ≡ rp) ev l.same_page;
        fetched = l.fetched;
        referenced = subst (λ v. (s.maps v).mf.referenced ≡ true) ev l.referenced;
        stored =
            subst (λ v. (s.entry i).flag_store ≡ true → (s.maps v).mf.dirty ≡ true) ev l.stored;
      },
    )

-- On a hit `fetch` changes nothing.
pub fetch-hit :
    (s : Memory) (va rp : ℕ)
    → (s.entry (hash (va / 256))).vpno ≡ va / 256
    → (s.entry (hash (va / 256))).page ≡ some rp
    → (s.entry (hash (va / 256))).flag_fetch ≡ true
    → fetch va s ≡ ok (rp * 256 + va % 256) s
unfolding fetch ◌>>=◌ gets skip page_offset pure
fetch-hit s va rp e p f = ground arith
