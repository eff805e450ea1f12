-- ===== src/Machine/Flat.antt =====
-- Programs over the words of virtual memory: what `*Fetch` and `*Store` of src/mesa/memory.h do to the
-- word of each address, and the same of a sequence of them.
pub mod Pointers
use mesa_emulator_unix.Common.{
  ℕ, ◌*◌, ◌/◌, ◌<◌, ◌≡◌, ◌≢◌, refl, true, false, Bool, arith, Bool-cases, ◌==◌, inl, inr, ==→eq,
  subst, sym, ◌∙◌, update, u16, u32, lt→ltb, if◌then◌else◌,
}
use mesa_emulator_unix.Action.{
  Action, Outcome, Stop, ok, stop, ◌>>=◌, and_then, pure, gets, skip, raise_if,
}
use mesa_emulator_unix.Memory.{Memory, read_word, write_word}
use mesa_emulator_unix.Memory.Flat.{
  IsFlat, IsOpen, FoundAt, SameMap, location, word_at, fetch-FoundAt, store-FoundAt,
  location-inside, location-apart, IsOpen-same, IsFlat-same, word_at-same, IsOpen-words,
  IsFlat-words, with_words,
}
use mesa_emulator_unix.Memory.Coherent.{Kept}
use mesa_emulator_unix.Machine.{Machine, on_memory, with_memory}
use mesa_emulator_unix.Machine.Access.{
  fetch, store, load, assign, lengthen, lengthen_pointer, fetch_mds, store_mds,
}
use mesa_emulator_unix.Machine.Words.{
  read, write, read_mds, write_mds, read_pda, write_pda, lengthen_pda_ptr,
}

-- The machine sees the words of `f` at the addresses of `D`, each of them in an open page.
pub record Holds (D : ℕ → Type 0) (mds : ℕ) (f : ℕ → ℕ) (s : Machine) : Type 0 where
  pub flat : IsFlat s.memory
  pub open_at : (va : ℕ) → D va → IsOpen s.memory (va / 256)
  pub address : (va : ℕ) → D va → va < 4294967296
  pub sees : (va : ℕ) → D va → word_at s.memory va ≡ f va
  pub base : s.mds ≡ mds

-- A run that ends with value `a` and the words of `g`, and changes nothing but the memory.
abbrev pub EndsIn :
    (ℕ → Type 0) → ℕ → (ℕ → ℕ) → {A : Type 0} → A → Machine → Outcome Machine A → Type 0
EndsIn D mds g a s (ok b t) = (b ≡ a) × Holds D mds g t × (t ≡ record s { memory = t.memory })
EndsIn D mds g a s (stop c t) = ⊥

-- From the words of `f`, the action gives `a` and leaves the words of `g`.
pub record Does (D : ℕ → Type 0) (mds : ℕ) {A : Type 0} (f g : ℕ → ℕ) (a : A) (m : Action Machine A)
    : Type 0 where
  pub at : (s : Machine) → Holds D mds f s → EndsIn D mds g a s (m s)

location-same : {s t : Memory} → SameMap s t → (va : ℕ) → location t va ≡ location s va
location-same m va = rw (m.same_rp (va / 256)) refl

onward :
    (D : ℕ → Type 0) (mds : ℕ) (g : ℕ → ℕ) {B : Type 0} (s t : Machine) (b : B)
    (o : Outcome Machine B)
    → t ≡ record s { memory = t.memory }
    → EndsIn D mds g b t o
    → EndsIn D mds g b s o
onward D mds g s t b (ok c u) same (e, h, e2) =
    (e, h, subst (λ r. u ≡ record r { memory = u.memory }) same e2)
onward D mds g s t b (stop c u) same h = absurd h

read_mds-read : (ptr : ℕ) (s : Machine) → read_mds ptr s ≡ read (lengthen s.mds ptr) s
unfolding read_mds read fetch_mds lengthen_pointer gets ◌>>=◌
read_mds-read ptr s = refl

write_mds-write : (ptr v : ℕ) (s : Machine) → write_mds ptr v s ≡ write (lengthen s.mds ptr) v s
unfolding write_mds write store_mds lengthen_pointer gets ◌>>=◌
write_mds-write ptr v s = refl

module _ {D : ℕ → Type 0} {mds : ℕ} where
  pub Holds-same :
      {f : ℕ → ℕ} (s : Machine) (t : Memory)
      → Holds D mds f s
      → SameMap s.memory t
      → Kept s.memory t
      → Holds D mds f (record s { memory = t })
  Holds-same s t h m k = record {
    flat = IsFlat-same m k h.flat;
    open_at = λ va d. IsOpen-same m k (va / 256) (h.open_at va d);
    address = h.address;
    sees = λ va d. word_at-same m k va ∙ h.sees va d;
    base = h.base;
  }

  put-sees :
      {f : ℕ → ℕ} (s : Machine) (va v u : ℕ)
      → Holds D mds f s
      → D va
      → D u
      → update s.memory.words (location s.memory va) v (location s.memory u) ≡ update f va v u
  put-sees s va v u h d e = elim (Bool-cases (u == va)) [
    | inl same ↦ let at = ==→eq u va same in ground (arith, at)
    | inr other ↦
        let sees = h.sees u e in
        let apart : location s.memory u ≢ location s.memory va = λ same.
          ground
            (arith, location-apart s.memory u va h.flat (h.open_at u e) (h.open_at va d) same) in
        ground (arith, apart, sees)
  ]

  pub Holds-put :
      {f : ℕ → ℕ} (s : Machine) (va v : ℕ)
      → Holds D mds f s
      → D va
      → Holds D mds (update f va v) (record s {
        memory = with_words s.memory (update s.memory.words (location s.memory va) v);
      })
  Holds-put s va v h d = record {
    flat = IsFlat-words s.memory _ h.flat;
    open_at = λ u e. IsOpen-words s.memory _ (u / 256) (h.open_at u e);
    address = h.address;
    sees = λ u e. put-sees s va v u h d e;
    base = h.base;
  }

  found-read :
      {f : ℕ → ℕ} (s : Machine) (va : ℕ) (o : Outcome Memory ℕ)
      → Holds D mds f s
      → D va
      → FoundAt s.memory (location s.memory va) o
      → EndsIn D mds f (f va) s (and_then (with_memory s o) load)
  unfolding load on_memory read_word
  found-read s va (ok p t) h d (e, m, k) =
      let inside = location-inside s.memory va h.flat.coherent (h.open_at va d) in
      let same = Holds-same s t h m k in
      let at : p ≡ location t va = e ∙ sym (location-same m va) in
      let within : p < t.rp_size * 256 = rw (e, k.rp_size) inside in
      rw (lt→ltb _ _ within, at) (same.sees va d, same, refl)
  found-read s va (stop c t) h d k = absurd k

  -- Where the words of open pages are those of `f`, `*Fetch(va)` of an address among them gives `f va`, and
  -- leaves the words and the registers as they are: neither map, flags nor cache can be told from it.
  pub read-Does : {f : ℕ → ℕ} (va : ℕ) → D va → Does D mds f f (f va) (read va)
  unfolding read fetch on_memory ◌>>=◌
  read-Does va d = record {
    at = λ s h.
        let small : u32 va ≡ va = omega (arith, h.address va d) in
        rw small
          (found-read s va _ h d (fetch-FoundAt s.memory va h.flat.coherent (h.open_at va d)));
  }

  found-write :
      {f : ℕ → ℕ} (s : Machine) (va v : ℕ) (o : Outcome Memory ℕ)
      → Holds D mds f s
      → D va
      → FoundAt s.memory (location s.memory va) o
      → EndsIn D mds (update f va (u16 v)) tt s (and_then (with_memory s o) (λ p. assign p v))
  unfolding assign on_memory write_word
  found-write s va v (ok p t) h d (e, m, k) =
      let inside = location-inside s.memory va h.flat.coherent (h.open_at va d) in
      let same = Holds-same s t h m k in
      let put = Holds-put (record s { memory = t }) va (u16 v) same d in
      let at : p ≡ location t va = e ∙ sym (location-same m va) in
      let within : p < t.rp_size * 256 = rw (e, k.rp_size) inside in
      rw (lt→ltb _ _ within, at) (refl, put, refl)
  found-write s va v (stop c t) h d k = absurd k

  -- Where the words of open pages are those of `f`, `*Store(va) = v` of an address among them changes the
  -- word of that address to the low 16 bits of `v`, and no other word and no register.
  pub write-Does :
      {f : ℕ → ℕ} (va v : ℕ) → D va → Does D mds f (update f va (u16 v)) tt (write va v)
  unfolding write store on_memory ◌>>=◌
  write-Does va v d = record {
    at = λ s h.
        let small : u32 va ≡ va = omega (arith, h.address va d) in
        rw small
          (found-write s va v _ h d (store-FoundAt s.memory va h.flat.coherent (h.open_at va d)));
  }

  pub pure-Does : {f : ℕ → ℕ} {A : Type 0} (a : A) → Does D mds f f a (pure a)
  unfolding pure
  pure-Does a = record { at = λ s h. (refl, h, refl) }

  pub skip-Does : {f : ℕ → ℕ} → Does D mds f f tt skip
  unfolding skip
  skip-Does = record { at = λ s h. (refl, h, refl) }

  then-EndsIn :
      {g i : ℕ → ℕ} {A B : Type 0} {a : A} {b : B} (k : A → Action Machine B) (s : Machine)
      (o : Outcome Machine A)
      → Does D mds g i b (k a)
      → EndsIn D mds g a s o
      → EndsIn D mds i b s (and_then o k)
  then-EndsIn {i} {b} k s (ok c t) d (e, h, same) = rw e (onward D mds i s t b _ same (d.at t h))
  then-EndsIn k s (stop c t) d h = absurd h

  pub Does-then :
      {f g i : ℕ → ℕ} {A B : Type 0} {a : A} {b : B} {m : Action Machine A}
      (k : A → Action Machine B)
      → Does D mds f g a m
      → Does D mds g i b (k a)
      → Does D mds f i b (m >>= k)
  unfolding ◌>>=◌
  Does-then {m} k d e = record { at = λ s h. then-EndsIn k s (m s) e (d.at s h) }

  pub if-Does-true :
      {f g : ℕ → ℕ} {A : Type 0} {a : A} (b : Bool) {x : Action Machine A} (y : Action Machine A)
      → b ≡ true
      → Does D mds f g a x
      → Does D mds f g a (if b then x else y)
  if-Does-true b y e d = rw e d

  pub if-Does-false :
      {f g : ℕ → ℕ} {A : Type 0} {a : A} (b : Bool) (x : Action Machine A) {y : Action Machine A}
      → b ≡ false
      → Does D mds f g a y
      → Does D mds f g a (if b then x else y)
  if-Does-false b x e d = rw e d

  pub raise_if-Does :
      {f : ℕ → ℕ} (b : Bool) (c : Stop) → b ≡ false → Does D mds f f tt (raise_if b c)
  unfolding raise_if
  raise_if-Does b c e = record { at = λ s h. rw e (refl, h, refl) }

  pub read_mds-Does :
      {f : ℕ → ℕ} (ptr : ℕ)
      → D (lengthen mds ptr)
      → Does D mds f f (f (lengthen mds ptr)) (read_mds ptr)
  read_mds-Does {f} ptr d = record {
    at = λ s h.
        let here : read_mds ptr s ≡ read (lengthen mds ptr) s =
          subst (λ m. read_mds ptr s ≡ read (lengthen m ptr) s) h.base (read_mds-read ptr s) in
        subst (EndsIn D mds f (f (lengthen mds ptr)) s) (sym here)
          ((read-Does (lengthen mds ptr) d).at s h);
  }

  pub write_mds-Does :
      {f : ℕ → ℕ} (ptr v : ℕ)
      → D (lengthen mds ptr)
      → Does D mds f (update f (lengthen mds ptr) (u16 v)) tt (write_mds ptr v)
  write_mds-Does {f} ptr v d = record {
    at = λ s h.
        let here : write_mds ptr v s ≡ write (lengthen mds ptr) v s =
          subst (λ m. write_mds ptr v s ≡ write (lengthen m ptr) v s) h.base
            (write_mds-write ptr v s) in
        subst (EndsIn D mds (update f (lengthen mds ptr) (u16 v)) tt s) (sym here)
          ((write-Does (lengthen mds ptr) v d).at s h);
  }

  pub read_pda-Does :
      {f : ℕ → ℕ} (ptr : ℕ)
      → D (lengthen_pda_ptr ptr)
      → Does D mds f f (f (lengthen_pda_ptr ptr)) (read_pda ptr)
  unfolding read_pda
  read_pda-Does ptr d = read-Does (lengthen_pda_ptr ptr) d

  pub write_pda-Does :
      {f : ℕ → ℕ} (ptr v : ℕ)
      → D (lengthen_pda_ptr ptr)
      → Does D mds f (update f (lengthen_pda_ptr ptr) (u16 v)) tt (write_pda ptr v)
  unfolding write_pda
  write_pda-Does ptr v d = write-Does (lengthen_pda_ptr ptr) v d
