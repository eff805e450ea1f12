-- ===== src/Opcode/Safety/BitBlt/Pixels.antt =====
-- The memory cache and the pixels of src/opcode/Opcode_bitblt.cpp, as steps that keep the invariant.
use mesa_emulator_unix.Common.{ℕ, ◌*◌, ◌<◌, Option, none, some, ◌==◌}
use mesa_emulator_unix.Action.{raise, undefined, null_page}
use mesa_emulator_unix.Machine.{Machine}
use mesa_emulator_unix.Machine.Safe.{Step, Step-bind, Step-if, Step-pure}
use mesa_emulator_unix.Machine.Safe.Pointers.{fetch-Step, store-Step, load-Step, assign-Step}
use mesa_emulator_unix.Machine.Safe.Stays.{Stays}
use mesa_emulator_unix.Opcode.BitBlt.{
  Address, WordCache, cache_read, cache_open, assign_at, cache_write, read_pixel, read_pattern,
  write_pixel_by, write_pixel, put_bit,
}
use mesa_emulator_unix.Opcode.BitBlt.Tables.{Table}
use mesa_emulator_unix.Opcode.BitBlt.Process.{paint_with}

abbrev pub Held : ℕ → Option ℕ → Type 0
Held size none = Unit {0}
Held size (some p) = p < size * 256

abbrev pub CacheOk : ℕ → WordCache → Type 0
CacheOk size cache = Held size cache.address

abbrev pub FirstOk : ℕ → WordCache × ℕ → Type 0
FirstOk size o = CacheOk size o.0

abbrev pub BothOk : ℕ → WordCache × WordCache → Type 0
BothOk size o = CacheOk size o.0 × CacheOk size o.1

module _ {size n : ℕ} where
  pub cache_read-Step :
      (cache : WordCache) (ptr : ℕ)
      → CacheOk size cache
      → Step size n n (FirstOk size) (cache_read cache ptr)
  unfolding cache_read
  cache_read-Step cache ptr h =
      Step-if (ptr == cache.read_ptr) (λ _. Step-pure _ h)
        (λ _.
          Step-bind (fetch-Step ptr) _
            (λ p k. Step-bind (load-Step p k.0) _ (λ w _. Step-pure _ k.0)))

  pub cache_open-Step :
      (cache : WordCache) (ptr : ℕ)
      → CacheOk size cache
      → Step size n n (FirstOk size) (cache_open cache ptr)
  unfolding cache_open
  cache_open-Step cache ptr h =
      Step-if (ptr == cache.write_ptr) (λ _. Step-pure _ h)
        (λ _.
          Step-bind (store-Step ptr) _
            (λ p k. Step-bind (load-Step p k.0) _ (λ w _. Step-pure _ k.0)))

  pub raise_null-Stays :
      {A : Type 0} → Stays size n (raise {S = Machine} {A = A} (undefined null_page))
  unfolding raise
  raise_null-Stays = record { at = λ s r. tt }

  pub assign_at-Stays : (a : Option ℕ) (v : ℕ) → Held size a → Stays size n (assign_at a v)
  unfolding assign_at
  assign_at-Stays none v h = raise_null-Stays
  assign_at-Stays (some p) v h = assign-Step p v h

  pub cache_write-Step :
      (cache : WordCache) (ptr v : ℕ)
      → CacheOk size cache
      → Step size n n (CacheOk size) (cache_write cache ptr v)
  unfolding cache_write
  cache_write-Step cache ptr v h =
      Step-if (ptr == cache.write_ptr)
        (λ _. Step-bind (assign_at-Stays cache.address v h) _ (λ _ _. Step-pure _ h))
        (λ _.
          Step-bind (store-Step ptr) _
            (λ p k. Step-bind (assign-Step p v k.0) _ (λ _ _. Step-pure _ k.0)))

  pub read_pixel-Step :
      (cache : WordCache) (a : Address) (offset type : ℕ)
      → CacheOk size cache
      → Step size n n (FirstOk size) (read_pixel cache a offset type)
  unfolding read_pixel
  read_pixel-Step cache a offset type h =
      Step-bind (cache_read-Step cache _ h) _ (λ o k. Step-pure _ k)

  pub read_pattern-Step :
      (cache : WordCache) (a : Address) (offset type unpacked : ℕ)
      → CacheOk size cache
      → Step size n n (FirstOk size) (read_pattern cache a offset type unpacked)
  unfolding read_pattern
  read_pattern-Step cache a offset type unpacked h =
      Step-bind (cache_read-Step cache _ h) _ (λ o k. Step-pure _ k)

  pub write_pixel_by-Step :
      (change : ℕ → ℕ → ℕ) (cache : WordCache) (a : Address) (offset type : ℕ)
      → CacheOk size cache
      → Step size n n (CacheOk size) (write_pixel_by change cache a offset type)
  unfolding write_pixel_by
  write_pixel_by-Step change cache a offset type h =
      Step-bind (cache_open-Step cache _ h) _ (λ o k. cache_write-Step o.0 _ _ k)

  pub write_pixel-Step :
      (cache : WordCache) (a : Address) (offset bit type : ℕ)
      → CacheOk size cache
      → Step size n n (CacheOk size) (write_pixel cache a offset bit type)
  unfolding write_pixel
  write_pixel-Step cache a offset bit type h =
      write_pixel_by-Step (put_bit bit) cache a offset type h

  pub paint_with-Step :
      (t : Table) (s : ℕ) (dst : Address) (cache : WordCache) (offset : ℕ)
      → CacheOk size cache
      → Step size n n (CacheOk size) (paint_with t s dst cache offset)
  unfolding paint_with
  paint_with-Step t s dst cache offset h =
      Step-bind (read_pixel-Step cache dst offset t.dst_type h) _
        (λ o k. write_pixel-Step o.0 dst offset _ t.dst_type k)
