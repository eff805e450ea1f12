-- ===== src/Machine/Flat/Pointers.antt =====
-- Programs that keep the pointers which `Fetch` and `Store` of src/mesa/memory.h give them, and use the
-- evaluation stack, on the words of virtual memory.
use mesa_emulator_unix.Common.{
  ℕ, suc, ◌+◌, ◌*◌, ◌/◌, ◌%◌, ◌<◌, ◌≡◌, refl, true, false, Bool, arith, ◌==◌, subst, ◌∙◌, ap,
  update, u16, u32, ltb, leb, if◌then◌else◌,
}
use mesa_emulator_unix.Action.{Action, Outcome, ok, stop, ◌>>=◌, and_then, pure, skip}
use mesa_emulator_unix.Memory.{Memory, read_word, write_word}
use mesa_emulator_unix.Memory.Flat.{FoundAt, location-inside, fetch-FoundAt, store-FoundAt}
use mesa_emulator_unix.Machine.{Machine, on_memory, with_memory, push, push_long, discard}
use mesa_emulator_unix.Machine.Access.{fetch, store, load, assign}
use mesa_emulator_unix.Machine.Flat.{Holds, Holds-same, Holds-put}

-- The index in real memory of the word of a virtual address, by the real page of each page.
abbrev pub place : (ℕ → ℕ) → ℕ → ℕ
place rp va = rp (va / 256) * 256 + va % 256

-- A machine that sees the words of `f`, with the real pages of `rp`, and has `n` words on the stack.
pub record Placed (D : ℕ → Type 0) (mds : ℕ) (rp f : ℕ → ℕ) (n : ℕ) (s : Machine) : Type 0 where
  pub holds : Holds D mds f s
  pub places : (vp : ℕ) → (s.memory.maps vp).rp ≡ rp vp
  pub depth : s.sp ≡ n

-- Nothing but the memory, the stack and its depth is changed.
abbrev pub SameRest : Machine → Machine → Type 0
SameRest s t = t ≡ record s { memory = t.memory; storage = t.storage; sp = t.sp }

-- A run that ends with `a`, the words of `g` and `m` words on the stack.
abbrev pub MovesTo :
    (ℕ → Type 0)
    → ℕ
    → (ℕ → ℕ)
    → ℕ
    → (ℕ → ℕ)
    → {A : Type 0} → A
    → Machine
    → Outcome Machine A
    → Type 0
MovesTo D mds rp m g a s (ok b t) = (b ≡ a) × Placed D mds rp g m t × SameRest s t
MovesTo D mds rp m g a s (stop c t) = ⊥

pub record Moves (D : ℕ → Type 0) (mds : ℕ) (rp : ℕ → ℕ) (n m : ℕ) {A : Type 0} (f g : ℕ → ℕ)
    (a : A) (x : Action Machine A) : Type 0 where
  pub at : (s : Machine) → Placed D mds rp f n s → MovesTo D mds rp m g a s (x s)

pub MovesTo-onward :
    (D : ℕ → Type 0) (mds : ℕ) (rp : ℕ → ℕ) (m : ℕ) (g : ℕ → ℕ) {B : Type 0} (s t : Machine) (b : B)
    (o : Outcome Machine B)
    → SameRest s t
    → MovesTo D mds rp m g b t o
    → MovesTo D mds rp m g b s o
MovesTo-onward D mds rp m g s t b (ok c u) same (e, h, e2) =
    (e, h, subst (λ r. u ≡ record r { memory = u.memory; storage = u.storage; sp = u.sp }) same e2)
MovesTo-onward D mds rp m g s t b (stop c u) same h = absurd h

pub Holds-stack :
    {D : ℕ → Type 0} {mds : ℕ} {f : ℕ → ℕ} (s : Machine) (storage : ℕ → ℕ) (sp : ℕ)
    → Holds D mds f s
    → Holds D mds f (record s { storage = storage; sp = sp })
Holds-stack s storage sp h = record {
  flat = h.flat;
  open_at = h.open_at;
  address = h.address;
  sees = h.sees;
  base = h.base;
}

module _ {D : ℕ → Type 0} {mds : ℕ} {rp : ℕ → ℕ} where
  Placed-stack :
      {f : ℕ → ℕ} {n : ℕ} (s : Machine) (storage : ℕ → ℕ) (sp : ℕ)
      → Placed D mds rp f n s
      → Placed D mds rp f sp (record s { storage = storage; sp = sp })
  Placed-stack s storage sp h = record {
    holds = Holds-stack s storage sp h.holds;
    places = h.places;
    depth = refl;
  }

  found-Moves :
      {f : ℕ → ℕ} {n : ℕ} (s : Machine) (va : ℕ) (o : Outcome Memory ℕ)
      → Placed D mds rp f n s
      → FoundAt s.memory ((s.memory.maps (va / 256)).rp * 256 + va % 256) o
      → MovesTo D mds rp n f (place rp va) s (with_memory s o)
  found-Moves s va (ok p t) h (e, m, k) = (
    e ∙ ap (λ r. r * 256 + va % 256) (h.places (va / 256)),
    record {
      holds = Holds-same s t h.holds m k;
      places = λ vp. m.same_rp vp ∙ h.places vp;
      depth = h.depth;
    },
    refl,
  )
  found-Moves s va (stop c t) h k = absurd k

  pub fetch-Moves :
      {f : ℕ → ℕ} {n : ℕ} (va : ℕ) → D va → Moves D mds rp n n f f (place rp va) (fetch va)
  unfolding fetch on_memory
  fetch-Moves va d = record {
    at = λ s h.
        let small : u32 va ≡ va = omega (arith, h.holds.address va d) in
        rw small (
          found-Moves s va _ h
            (fetch-FoundAt s.memory va h.holds.flat.coherent (h.holds.open_at va d)));
  }

  pub store-Moves :
      {f : ℕ → ℕ} {n : ℕ} (va : ℕ) → D va → Moves D mds rp n n f f (place rp va) (store va)
  unfolding store on_memory
  store-Moves va d = record {
    at = λ s h.
        let small : u32 va ≡ va = omega (arith, h.holds.address va d) in
        rw small (
          found-Moves s va _ h
            (store-FoundAt s.memory va h.holds.flat.coherent (h.holds.open_at va d)));
  }

  inside_memory :
      {f : ℕ → ℕ} {n : ℕ} (s : Machine) (va : ℕ)
      → Placed D mds rp f n s
      → D va
      → ltb (place rp va) (s.memory.rp_size * 256) ≡ true
  inside_memory s va h d =
      let inside = location-inside s.memory va h.holds.flat.coherent (h.holds.open_at va d) in
      let at = h.places (va / 256) in ground (arith, inside, at)

  pub load-Moves :
      {f : ℕ → ℕ} {n : ℕ} (va : ℕ) → D va → Moves D mds rp n n f f (f va) (load (place rp va))
  unfolding load on_memory read_word
  load-Moves {f} va d = record {
    at = λ s h.
        let sees : s.memory.words (place rp va) ≡ f va =
          subst (λ r. s.memory.words (r * 256 + va % 256) ≡ f va) (h.places (va / 256))
            (h.holds.sees va d) in
        rw (inside_memory s va h d) (sees, h, refl);
  }

  pub assign-Moves :
      {f : ℕ → ℕ} {n : ℕ} (va v : ℕ)
      → D va
      → Moves D mds rp n n f (update f va (u16 v)) tt (assign (place rp va) v)
  unfolding assign on_memory write_word
  assign-Moves {f} va v d = record {
    at = λ s h.
        let put = Holds-put s va (u16 v) h.holds d in
        rw (inside_memory s va h d) (
          refl,
          record {
            holds =
                subst
                  (λ r. Holds D mds (update f va (u16 v)) (record s {
                    memory = record s.memory {
                      words = update s.memory.words (r * 256 + va % 256) (u16 v);
                    };
                  }))
                  (h.places (va / 256)) put;
            places = h.places;
            depth = h.depth;
          },
          refl,
        );
  }

  pub push-Moves : {f : ℕ → ℕ} {n : ℕ} (v : ℕ) → n < 14 → Moves D mds rp n (suc n) f f tt (push v)
  unfolding push
  push-Moves {n} v lt = record {
    at = λ s h.
        let at = h.depth in
        let free : (s.sp == 14) ≡ false = ground (arith, lt, at) in
        let inside : ltb s.sp 14 ≡ true = ground (arith, lt, at) in
        let next : u16 (s.sp + 1) ≡ suc n = omega (arith, lt, at) in
        rw (free, inside, next) (refl, Placed-stack s _ _ h, refl);
  }

  pub push_long-Moves :
      {f : ℕ → ℕ} {n : ℕ} (v : ℕ) → n < 13 → Moves D mds rp n (suc (suc n)) f f tt (push_long v)
  unfolding push_long
  push_long-Moves {n} v lt = record {
    at = λ s h.
        let at = h.depth in
        let free : leb 13 s.sp ≡ false = ground (arith, lt, at) in
        let next : u16 (s.sp + 2) ≡ suc (suc n) = omega (arith, lt, at) in
        rw (free, next) (refl, Placed-stack s _ _ h, refl);
  }

  pub discard-Moves : {f : ℕ → ℕ} {n : ℕ} → n < 14 → Moves D mds rp (suc n) n f f tt discard
  unfolding discard
  discard-Moves {n} lt = record {
    at = λ s h.
        let at = h.depth in
        let some_left : (s.sp == 0) ≡ false = ground (arith, at) in
        let next : u16 (s.sp + 65535) ≡ n = omega (arith, lt, at) in
        rw (some_left, next) (refl, Placed-stack s _ _ h, refl);
  }

  pub pure-Moves : {f : ℕ → ℕ} {n : ℕ} {A : Type 0} (a : A) → Moves D mds rp n n f f a (pure a)
  unfolding pure
  pure-Moves a = record { at = λ s h. (refl, h, refl) }

  pub skip-Moves : {f : ℕ → ℕ} {n : ℕ} → Moves D mds rp n n f f tt skip
  unfolding skip
  skip-Moves = record { at = λ s h. (refl, h, refl) }

  then-MovesTo :
      {g i : ℕ → ℕ} {m l : ℕ} {A B : Type 0} {a : A} {b : B} (k : A → Action Machine B)
      (s : Machine) (o : Outcome Machine A)
      → Moves D mds rp m l g i b (k a)
      → MovesTo D mds rp m g a s o
      → MovesTo D mds rp l i b s (and_then o k)
  then-MovesTo {i} {l} {b} k s (ok c t) d (e, h, same) =
      rw e (MovesTo-onward D mds rp l i s t b _ same (d.at t h))
  then-MovesTo k s (stop c t) d h = absurd h

  pub Moves-then :
      {f g i : ℕ → ℕ} {n m l : ℕ} {A B : Type 0} {a : A} {b : B} {x : Action Machine A}
      (k : A → Action Machine B)
      → Moves D mds rp n m f g a x
      → Moves D mds rp m l g i b (k a)
      → Moves D mds rp n l f i b (x >>= k)
  unfolding ◌>>=◌
  Moves-then {x} k d e = record { at = λ s h. then-MovesTo k s (x s) e (d.at s h) }

  pub Moves-leaves :
      {f g h : ℕ → ℕ} {n m : ℕ} {A : Type 0} {a : A} {x : Action Machine A}
      → g ≡ h
      → Moves D mds rp n m f g a x
      → Moves D mds rp n m f h a x
  Moves-leaves {f} {n} {m} {a} {x} e k = subst (λ g. Moves D mds rp n m f g a x) e k

  pub if-Moves :
      {f g : ℕ → ℕ} {n m : ℕ} {A : Type 0} {a : A} (b : Bool) (x y : Action Machine A)
      → (b ≡ true → Moves D mds rp n m f g a x)
      → (b ≡ false → Moves D mds rp n m f g a y)
      → Moves D mds rp n m f g a (if b then x else y)
  if-Moves true x y d e = d refl
  if-Moves false x y d e = e refl
