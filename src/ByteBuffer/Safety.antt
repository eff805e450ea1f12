-- ===== src/ByteBuffer/Safety.antt =====
-- The operations of ByteBuffer keep the position, the limit and the mark inside the window, and read and
-- write no byte outside the array.
use mesa_emulator_unix.Common.{
  if◌then◌else◌, ltb, ◌-◌, ℕ, ◌+◌, ◌*◌, ◌≤◌, ◌<◌, ◌≡◌, ◌⊎◌, inl, inr, Bool-cases, true, false,
  arith, subst, sym, leb, ◌==◌, u32, refl, List, [], ◌∷◌, All,
}
use mesa_emulator_unix.Action.{Action, Outcome, ok, stop, error, ◌>>=◌, gets, modify, raise_if}
use mesa_emulator_unix.ByteBuffer.{
  ByteBuffer, bad_mark, get8, get16, get32, put8, put16, put32, mark, reset, flip, clear_buffer,
  rewind, range, check_before_read, check_before_write, bytes_of_words,
}
use mesa_emulator_unix.ByteBuffer.RoundTrip.{
  HasRoom, put8-at, get8-at, put16-at, get16-at, put32-at, get32-at,
}

-- The window lies in the array, and the position, the limit and the mark in the window. With the bound on
-- the capacity a position does not wrap.
pub record IsValid (b : ByteBuffer) : Type 0 where
  pub in_array : b.base + b.capacity ≤ b.size
  pub small : b.capacity + 4 < 4294967296
  pub pos_in : b.pos ≤ b.capacity
  pub limit_in : b.limit ≤ b.capacity
  pub mark_in : (b.mark_pos ≡ bad_mark) ⊎ (b.mark_pos ≤ b.capacity)

-- A run ends in a valid buffer, or stops in one by ERROR().
abbrev pub EndsValid : {A : Type 0} → Outcome ByteBuffer A → Type 0
EndsValid (ok a t) = IsValid t
EndsValid (stop error t) = IsValid t
EndsValid (stop c t) = ⊥

abbrev pub Keeps : {A : Type 0} → Action ByteBuffer A → Type 0
Keeps m = (b : ByteBuffer) → IsValid b → EndsValid (m b)

moved :
    (b : ByteBuffer) (bytes : ℕ → ℕ) (pos limit : ℕ)
    → IsValid b
    → pos ≤ b.capacity
    → limit ≤ b.capacity
    → IsValid (record b { bytes = bytes; pos = pos; limit = limit })
moved b bytes pos limit h p l = record {
  in_array = h.in_array;
  small = h.small;
  pos_in = p;
  limit_in = l;
  mark_in = h.mark_in;
}

module _ (b : ByteBuffer) (h : IsValid b) where
  read-HasRoom : (n : ℕ) → n ≤ 4 → leb (u32 (b.pos + n)) b.limit ≡ true → HasRoom b n
  read-HasRoom n le fits = record {
    room = ground (arith, le, fits, h.small, h.pos_in, h.limit_in);
    small = omega (arith, h.small);
    inside = h.in_array;
  }

  write-HasRoom : (n : ℕ) → n ≤ 4 → leb (u32 (b.pos + n)) b.capacity ≡ true → HasRoom b n
  write-HasRoom n le fits = record {
    room = ground (arith, le, fits, h.small, h.pos_in);
    small = omega (arith, h.small);
    inside = h.in_array;
  }

  -- A read, or a write, of `n` bytes: the check refuses it, or it moves the position by `n`.
  read-EndsValid :
      {A : Type 0} {a : A} (m : Action ByteBuffer A) (n : ℕ)
      → n ≤ 4
      → (HasRoom b n → u32 (b.pos + n) ≤ b.limit → m b ≡ ok a (record b { pos = u32 (b.pos + n) }))
      → (leb (u32 (b.pos + n)) b.limit ≡ false → m b ≡ stop error b)
      → EndsValid (m b)
  read-EndsValid m n le done refused = elim (Bool-cases (leb (u32 (b.pos + n)) b.limit)) [
    | inl fits ↦
        let reached : u32 (b.pos + n) ≤ b.limit = ground (arith, fits) in
        subst EndsValid (sym (done (read-HasRoom n le fits) reached))
          (moved b b.bytes _ b.limit h (omega (arith, reached, h.limit_in)) h.limit_in)
    | inr over ↦ subst EndsValid (sym (refused over)) h
  ]

  write-EndsValid :
      {bytes : ℕ → ℕ} (m : Action ByteBuffer (Unit {0})) (n : ℕ)
      → n ≤ 4
      → (HasRoom b n
          → m b
            ≡ ok tt (record b { bytes = bytes; pos = u32 (b.pos + n); limit = u32 (b.pos + n) }))
      → (leb (u32 (b.pos + n)) b.capacity ≡ false → m b ≡ stop error b)
      → EndsValid (m b)
  write-EndsValid {bytes} m n le done refused =
      elim (Bool-cases (leb (u32 (b.pos + n)) b.capacity)) [
        | inl fits ↦
            let reached : u32 (b.pos + n) ≤ b.capacity = ground (arith, fits) in
            subst EndsValid (sym (done (write-HasRoom n le fits)))
              (moved b bytes _ _ h reached reached)
        | inr over ↦ subst EndsValid (sym (refused over)) h
      ]

get8-Keeps : Keeps get8
unfolding get8 ◌>>=◌ gets raise_if check_before_read
get8-Keeps b h = read-EndsValid b h get8 1 (omega arith) (get8-at b) (λ over. simp (over) refl)

get16-Keeps : Keeps get16
unfolding get16 ◌>>=◌ gets raise_if check_before_read
get16-Keeps b h = read-EndsValid b h get16 2 (omega arith) (get16-at b) (λ over. simp (over) refl)

get32-Keeps : Keeps get32
unfolding get32 ◌>>=◌ gets raise_if check_before_read
get32-Keeps b h = read-EndsValid b h get32 4 (omega arith) (get32-at b) (λ over. simp (over) refl)

put8-Keeps : (v : ℕ) → Keeps (put8 v)
unfolding put8 ◌>>=◌ gets raise_if check_before_write
put8-Keeps v b h =
    write-EndsValid b h (put8 v) 1 (omega arith) (put8-at b v) (λ over. simp (over) refl)

put16-Keeps : (v : ℕ) → Keeps (put16 v)
unfolding put16 ◌>>=◌ gets raise_if check_before_write
put16-Keeps v b h =
    write-EndsValid b h (put16 v) 2 (omega arith) (put16-at b v) (λ over. simp (over) refl)

put32-Keeps : (v : ℕ) → Keeps (put32 v)
unfolding put32 ◌>>=◌ gets raise_if check_before_write
put32-Keeps v b h =
    write-EndsValid b h (put32 v) 4 (omega arith) (λ k. put32-at b k v) (λ over. simp (over) refl)

mark-Keeps : Keeps mark
unfolding mark ◌>>=◌ gets raise_if modify
mark-Keeps b h = elim (Bool-cases (b.mark_pos == bad_mark)) [
  | inl unset ↦ rw unset (record {
    in_array = h.in_array;
    small = h.small;
    pos_in = h.pos_in;
    limit_in = h.limit_in;
    mark_in = inr h.pos_in;
  })
  | inr set ↦ rw set h
]

reset-Keeps : Keeps reset
unfolding reset ◌>>=◌ gets raise_if modify
reset-Keeps b h = elim (Bool-cases (b.mark_pos == bad_mark)) [
  | inl unset ↦ rw unset h
  | inr set ↦ rw set (record {
    in_array = h.in_array;
    small = h.small;
    pos_in = ground (arith, set, h.mark_in);
    limit_in = h.limit_in;
    mark_in = inl refl;
  })
]

flip-Keeps : Keeps flip
unfolding flip modify
flip-Keeps b h = moved b b.bytes 0 b.pos h (omega arith) h.pos_in

clear_buffer-Keeps : Keeps clear_buffer
unfolding clear_buffer modify
clear_buffer-Keeps b h = moved b b.bytes 0 0 h (omega arith) (omega arith)

rewind-Keeps : Keeps rewind
unfolding rewind modify
rewind-Keeps b h = moved b b.bytes 0 b.limit h (omega arith) h.limit_in

-- The operations of ByteBuffer that return nothing, or a number.
abbrev pub acts : ℕ → List (Action ByteBuffer (Unit {0}))
acts v = put8 v ∷ put16 v ∷ put32 v ∷ mark ∷ reset ∷ flip ∷ clear_buffer ∷ rewind ∷ []

abbrev pub gives : List (Action ByteBuffer ℕ)
gives = get8 ∷ get16 ∷ get32 ∷ []

-- Every operation of ByteBuffer, run on a buffer whose window lies in its array, with fewer than 2^32 - 4
-- bytes, and position, limit and mark in the window, ends in such a buffer or stops in one by ERROR():
-- no byte outside the array is read or written, whatever the calls before it were.
pub buffer-Keeps : (v : ℕ) → All Keeps (acts v) × All Keeps gives
buffer-Keeps v = (
  search
      (
        put8-Keeps, put16-Keeps, put32-Keeps, mark-Keeps, reset-Keeps, flip-Keeps,
        clear_buffer-Keeps, rewind-Keeps,
      )
      depth 20,
  search (get8-Keeps, get16-Keeps, get32-Keeps) depth 10,
)

-- The window that `range` makes of a valid buffer, where its first word begins in the buffer and the sum of
-- offset and size in bytes does not wrap, is valid and ready to be read from its start: it begins at the
-- offset, has the bytes that were asked for or those that the buffer has from there on, whichever are
-- fewer, and so ends where the buffer ends, or before.
pub range-IsValid :
    (word_offset word_size : ℕ) (b : ByteBuffer)
    → IsValid b
    → word_offset * 2 ≤ b.capacity
    → word_offset + word_size < 2147483648
    → IsValid (range word_offset word_size b)
      × ((range word_offset word_size b).base ≡ b.base + word_offset * 2)
      × ((range word_offset word_size b).capacity ≡ (
          if ltb (word_size * 2) (b.capacity - word_offset * 2)
          then word_size * 2
          else b.capacity - word_offset * 2))
      × ((range word_offset word_size b).limit ≡ (range word_offset word_size b).capacity)
      × ((range word_offset word_size b).base + (range word_offset word_size b).capacity
          ≤ b.base + b.capacity)
unfolding range bytes_of_words
range-IsValid word_offset word_size b h le small =
    let start : u32 (word_offset * 2) ≡ word_offset * 2 = omega (arith, small) in
    let wanted : u32 (word_size * 2) ≡ word_size * 2 = omega (arith, small) in
    (
      record {
        in_array = ground (arith, h.in_array, h.small, le, small);
        small = ground (arith, h.small, le, small);
        pos_in = omega arith;
        limit_in = omega arith;
        mark_in = inl refl;
      },
      omega (arith, start),
      ground (arith, start, wanted, h.small, le, small),
      refl,
      ground (arith, start, wanted, h.small, le, small),
    )
