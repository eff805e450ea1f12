-- ===== src/ByteBuffer/RoundTrip.antt =====
-- Numbers that a ByteBuffer gives back as they were written to it.
use mesa_emulator_unix.Common.{
  ℕ, ◌+◌, ◌/◌, ◌<◌, ◌≤◌, ◌≡◌, refl, true, false, arith, ◌==◌, ltb, leb, u8, u32, update, subst,
}
use mesa_emulator_unix.Action.{Action, Outcome, ok, stop, ◌>>=◌, ◌>>◌, pure, gets, modify, raise_if}
use mesa_emulator_unix.ByteBuffer.{
  ByteBuffer, Order, mesa_order, net_order, bad_mark, byte_at, set_byte_at, get16_at, put16_at,
  get32_at, put32_at, check_before_read, check_before_write, advance, set_limit, get8, get16, get32,
  put8, put16, put32, mark, reset, two_bytes, four_bytes,
}
use mesa_emulator_unix.ByteBuffer.Bytes.{two_bytes_lem, four_bytes_lem}

-- A run that returns `a`.
abbrev pub Returns : {A : Type 0} → A → Outcome ByteBuffer A → Type 0
Returns a (ok b t) = b ≡ a
Returns a (stop c t) = ⊥

-- A buffer with room for `n` bytes, whose window lies in its array.
pub record HasRoom (b : ByteBuffer) (n : ℕ) : Type 0 where
  pub room : b.pos + n ≤ b.capacity
  pub small : b.capacity < 4294967296
  pub inside : b.base + b.capacity ≤ b.size

module _ (b : ByteBuffer) (n : ℕ) (h : HasRoom b n) where
  index : (i : ℕ) → i < n → u32 (b.pos + i) ≡ b.pos + i
  index i lt = omega (arith, lt, h.room, h.small)

  in_array : (i : ℕ) → i < n → ltb (b.base + (b.pos + i)) b.size ≡ true
  in_array i lt = ground (arith, lt, h.room, h.inside)

pub put8-at :
    (b : ByteBuffer) (v : ℕ)
    → HasRoom b 1
    → put8 v b
      ≡ ok tt (record b {
        bytes = update b.bytes (b.base + b.pos) (u8 v);
        pos = u32 (b.pos + 1);
        limit = u32 (b.pos + 1);
      })
unfolding put8 ◌>>=◌ gets modify raise_if check_before_write advance set_limit set_byte_at
put8-at b v h =
    let u0 : u32 b.pos ≡ b.pos = omega (arith, h.room, h.small) in
    let fits : leb (u32 (b.pos + 1)) b.capacity ≡ true = ground (arith, h.room, h.small) in
    let i0 : ltb (b.base + b.pos) b.size ≡ true = ground (arith, h.room, h.inside) in
    simp (fits, u0, i0) refl

pub get8-at :
    (b : ByteBuffer)
    → HasRoom b 1
    → u32 (b.pos + 1) ≤ b.limit
    → get8 b ≡ ok (b.bytes (b.base + b.pos)) (record b { pos = u32 (b.pos + 1) })
unfolding get8 ◌>>=◌ gets modify raise_if check_before_read advance byte_at pure
get8-at b h le =
    let u0 : u32 b.pos ≡ b.pos = omega (arith, h.room, h.small) in
    let fits : leb (u32 (b.pos + 1)) b.limit ≡ true = ground (arith, le) in
    let i0 : ltb (b.base + b.pos) b.size ≡ true = ground (arith, h.room, h.inside) in
    simp (fits, u0, i0) refl

pub put16-at :
    (b : ByteBuffer) (v : ℕ)
    → HasRoom b 2
    → put16 v b
      ≡ ok tt (record b {
        bytes =
            update (update b.bytes (b.base + b.pos) (u8 (v / 256))) (b.base + (b.pos + 1)) (u8 v);
        pos = u32 (b.pos + 2);
        limit = u32 (b.pos + 2);
      })
unfolding put16 ◌>>=◌ gets modify raise_if check_before_write advance set_limit put16_at set_byte_at
put16-at b v h =
    let u0 : u32 b.pos ≡ b.pos = omega (arith, h.room, h.small) in
    let u1 = index b 2 h 1 (omega arith) in
    let fits : leb (u32 (b.pos + 2)) b.capacity ≡ true = ground (arith, h.room, h.small) in
    let i0 : ltb (b.base + b.pos) b.size ≡ true = ground (arith, h.room, h.inside) in
    let i1 = in_array b 2 h 1 (omega arith) in simp (fits, u0, i0, u1, i1) refl

pub get16-at :
    (b : ByteBuffer)
    → HasRoom b 2
    → u32 (b.pos + 2) ≤ b.limit
    → get16 b
      ≡ ok
          (two_bytes (b.bytes (b.base + b.pos)) (b.bytes (b.base + (b.pos + 1))))
          (record b { pos = u32 (b.pos + 2) })
unfolding get16 ◌>>=◌ gets modify raise_if check_before_read advance get16_at byte_at pure
get16-at b h le =
    let u0 : u32 b.pos ≡ b.pos = omega (arith, h.room, h.small) in
    let u1 = index b 2 h 1 (omega arith) in
    let fits : leb (u32 (b.pos + 2)) b.limit ≡ true = ground (arith, le) in
    let i0 : ltb (b.base + b.pos) b.size ≡ true = ground (arith, h.room, h.inside) in
    let i1 = in_array b 2 h 1 (omega arith) in simp (fits, u0, i0, u1, i1) refl

-- The bytes behind put32, and the number that get32 makes of them.
abbrev put_bytes : Order → (ℕ → ℕ) → ℕ → ℕ → ℕ → ℕ → ℕ
put_bytes mesa_order f base pos v =
    update
      (update (update (update f (base + pos) (u8 (v / 256))) (base + (pos + 1)) (u8 v))
        (base + (pos + 2)) (u8 (v / 16777216)))
      (base + (pos + 3)) (u8 (v / 65536))
put_bytes net_order f base pos v =
    update
      (update
        (update (update f (base + pos) (u8 (v / 16777216))) (base + (pos + 1)) (u8 (v / 65536)))
        (base + (pos + 2)) (u8 (v / 256)))
      (base + (pos + 3)) (u8 v)

abbrev take_bytes : Order → (ℕ → ℕ) → ℕ → ℕ → ℕ
take_bytes mesa_order f base pos =
    four_bytes (f (base + (pos + 2))) (f (base + (pos + 3))) (f (base + pos)) (f (base + (pos + 1)))
take_bytes net_order f base pos =
    four_bytes (f (base + pos)) (f (base + (pos + 1))) (f (base + (pos + 2))) (f (base + (pos + 3)))

take_bytes-put_bytes :
    (o : Order) (f : ℕ → ℕ) (base pos v : ℕ)
    → v < 4294967296
    → take_bytes o (put_bytes o f base pos v) base pos ≡ v
take_bytes-put_bytes mesa_order f base pos v h =
    let g = put_bytes mesa_order f base pos v in
    let e0 : g (base + pos) ≡ u8 (v / 256) = ground arith in
    let e1 : g (base + (pos + 1)) ≡ u8 v = ground arith in
    let e2 : g (base + (pos + 2)) ≡ u8 (v / 16777216) = ground arith in
    let e3 : g (base + (pos + 3)) ≡ u8 (v / 65536) = ground arith in
    rw (e0, e1, e2, e3) (four_bytes_lem v h)
take_bytes-put_bytes net_order f base pos v h =
    let g = put_bytes net_order f base pos v in
    let e0 : g (base + pos) ≡ u8 (v / 16777216) = ground arith in
    let e1 : g (base + (pos + 1)) ≡ u8 (v / 65536) = ground arith in
    let e2 : g (base + (pos + 2)) ≡ u8 (v / 256) = ground arith in
    let e3 : g (base + (pos + 3)) ≡ u8 v = ground arith in rw (e0, e1, e2, e3) (four_bytes_lem v h)

module _ (b : ByteBuffer) (h : HasRoom b 4) where
  index0 : u32 b.pos ≡ b.pos
  index0 = omega (arith, h.room, h.small)

  index1 : u32 (b.pos + 1) ≡ b.pos + 1
  index1 = index b 4 h 1 (omega arith)

  index2 : u32 (b.pos + 2) ≡ b.pos + 2
  index2 = index b 4 h 2 (omega arith)

  index3 : u32 (b.pos + 3) ≡ b.pos + 3
  index3 = index b 4 h 3 (omega arith)

  inside0 : ltb (b.base + b.pos) b.size ≡ true
  inside0 = ground (arith, h.room, h.inside)

  inside1 : ltb (b.base + (b.pos + 1)) b.size ≡ true
  inside1 = in_array b 4 h 1 (omega arith)

  inside2 : ltb (b.base + (b.pos + 2)) b.size ≡ true
  inside2 = in_array b 4 h 2 (omega arith)

  inside3 : ltb (b.base + (b.pos + 3)) b.size ≡ true
  inside3 = in_array b 4 h 3 (omega arith)

  put32_at-at :
      (o : Order) (v : ℕ)
      → put32_at o b.pos v b ≡ ok tt (record b { bytes = put_bytes o b.bytes b.base b.pos v })
  unfolding put32_at set_byte_at ◌>>=◌
  put32_at-at mesa_order v =
      simp (index0, index1, index2, index3, inside0, inside1, inside2, inside3) refl
  put32_at-at net_order v =
      simp (index0, index1, index2, index3, inside0, inside1, inside2, inside3) refl

  get32_at-at : (o : Order) → get32_at o b.pos b ≡ ok (take_bytes o b.bytes b.base b.pos) b
  unfolding get32_at byte_at ◌>>=◌ pure
  get32_at-at mesa_order =
      simp (index0, index1, index2, index3, inside0, inside1, inside2, inside3) refl
  get32_at-at net_order =
      simp (index0, index1, index2, index3, inside0, inside1, inside2, inside3) refl

  pub put32-at :
      (v : ℕ)
      → put32 v b
        ≡ ok tt (record b {
          bytes = put_bytes b.order b.bytes b.base b.pos v;
          pos = u32 (b.pos + 4);
          limit = u32 (b.pos + 4);
        })
  unfolding put32 ◌>>=◌ gets modify raise_if check_before_write advance set_limit
  put32-at v =
      let fits : leb (u32 (b.pos + 4)) b.capacity ≡ true = ground (arith, h.room, h.small) in
      simp (fits, put32_at-at b.order v) refl

  pub get32-at :
      u32 (b.pos + 4) ≤ b.limit
      → get32 b ≡ ok (take_bytes b.order b.bytes b.base b.pos) (record b { pos = u32 (b.pos + 4) })
  unfolding get32 ◌>>=◌ gets modify raise_if check_before_read advance pure
  get32-at le =
      let fits : leb (u32 (b.pos + 4)) b.limit ≡ true = ground (arith, le) in
      simp (fits, get32_at-at b.order) refl

-- A value written behind a mark, and read behind the reset to it.
abbrev pub written_and_read :
    {A : Type 0} → Action ByteBuffer (Unit {0}) → Action ByteBuffer A → Action ByteBuffer A
written_and_read put get = do mark; put; reset; get

written_and_read-Returns :
    {A : Type 0} {a : A} (put : Action ByteBuffer (Unit {0})) (get : Action ByteBuffer A)
    (b c e : ByteBuffer)
    → b.mark_pos ≡ bad_mark
    → b.pos < bad_mark
    → put (record b { mark_pos = b.pos }) ≡ ok tt c
    → c.mark_pos ≡ b.pos
    → get (record c { pos = b.pos; mark_pos = bad_mark }) ≡ ok a e
    → Returns a (written_and_read put get b)
unfolding mark reset ◌>>=◌ gets modify raise_if
written_and_read-Returns put get b c e unset small done kept found =
    let apart : (b.pos == 4294967295) ≡ false = ground (arith, small) in
    simp (unset, done, kept, apart, found) refl

less_room : (b : ByteBuffer) (n m : ℕ) → n ≤ m → HasRoom b m → HasRoom b n
less_room b n m le h = record {
  room = omega (arith, le, h.room);
  small = h.small;
  inside = h.inside;
}

HasRoom-again :
    (b : ByteBuffer) (n m : ℕ) (bytes : ℕ → ℕ) (limit : ℕ)
    → HasRoom b n
    → HasRoom (record b { bytes = bytes; limit = limit; mark_pos = m }) n
HasRoom-again b n m bytes limit h = record { room = h.room; small = h.small; inside = h.inside }

module _ (b : ByteBuffer) (h : HasRoom b 4) (unset : b.mark_pos ≡ bad_mark) where
  unmarked : b.pos < bad_mark
  unmarked = omega (arith, h.room, h.small)

  get8-put8 : (v : ℕ) → v < 256 → Returns v (written_and_read (put8 v) get8 b)
  get8-put8 v small =
      let k = less_room b 1 4 (omega arith) h in
      let kept : update b.bytes (b.base + b.pos) (u8 v) (b.base + b.pos) ≡ v =
        ground (arith, small) in
      subst (λ r. Returns r (written_and_read (put8 v) get8 b)) kept
        (written_and_read-Returns (put8 v) get8 b _ _ unset unmarked
          (put8-at _ v (HasRoom-again b 1 b.pos b.bytes b.limit k)) refl
          (get8-at _ (HasRoom-again b 1 bad_mark _ _ k) (omega arith)))

  get16-put16 : (v : ℕ) → v < 65536 → Returns v (written_and_read (put16 v) get16 b)
  get16-put16 v small =
      let k = less_room b 2 4 (omega arith) h in
      let g =
        update (update b.bytes (b.base + b.pos) (u8 (v / 256))) (b.base + (b.pos + 1)) (u8 v) in
      let e0 : g (b.base + b.pos) ≡ u8 (v / 256) = ground arith in
      let e1 : g (b.base + (b.pos + 1)) ≡ u8 v = ground arith in
      let kept : two_bytes (g (b.base + b.pos)) (g (b.base + (b.pos + 1))) ≡ v =
        rw (e0, e1) (two_bytes_lem v small) in
      subst (λ r. Returns r (written_and_read (put16 v) get16 b)) kept
        (written_and_read-Returns (put16 v) get16 b _ _ unset unmarked
          (put16-at _ v (HasRoom-again b 2 b.pos b.bytes b.limit k)) refl
          (get16-at _ (HasRoom-again b 2 bad_mark _ _ k) (omega arith)))

  get32-put32 : (v : ℕ) → v < 4294967296 → Returns v (written_and_read (put32 v) get32 b)
  get32-put32 v small =
      subst (λ r. Returns r (written_and_read (put32 v) get32 b))
        (take_bytes-put_bytes b.order b.bytes b.base b.pos v small)
        (written_and_read-Returns (put32 v) get32 b _ _ unset unmarked
          (put32-at _ (HasRoom-again b 4 b.pos b.bytes b.limit h) v) refl
          (get32-at _ (HasRoom-again b 4 bad_mark _ _ h) (omega arith)))

-- A buffer of either order with no mark, with its window inside its array and four bytes behind its
-- position, gives numbers of 8, 16 and 32 bits back: each is written behind a mark without an error, and is
-- what a read behind the reset to the mark returns.
pub get-put :
    (b : ByteBuffer) (v8 v16 v32 : ℕ)
    → HasRoom b 4
    → b.mark_pos ≡ bad_mark
    → v8 < 256
    → v16 < 65536
    → v32 < 4294967296
    → Returns v8 (written_and_read (put8 v8) get8 b)
      × Returns v16 (written_and_read (put16 v16) get16 b)
      × Returns v32 (written_and_read (put32 v32) get32 b)
get-put b v8 v16 v32 h unset s8 s16 s32 =
    (get8-put8 b h unset v8 s8, get16-put16 b h unset v16 s16, get32-put32 b h unset v32 s32)
