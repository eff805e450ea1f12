-- ===== src/Memory/Init/Coherence.antt =====
-- memory::initialize establishes the invariant of Memory/Coherent.
use mesa_emulator_unix.Common.{ℕ, zero, suc, ◌+◌, ◌-◌, ◌^◌, ◌≤◌, ◌≡◌, refl, arith, subst}
use mesa_emulator_unix.Common.Bits.{two-pow-suc}
use mesa_emulator_unix.Action.{◌>>=◌, raise_if, gets, modify, ok}
use mesa_emulator_unix.Memory.{Memory, empty_entry}
use mesa_emulator_unix.Memory.Init.{initialize, boot_maps, clamp, clear_display}
use mesa_emulator_unix.Memory.Init.Boot.{boot_maps_lem}
use mesa_emulator_unix.Memory.Coherent.{IsCoherent}

pow_add : (d a : ℕ) → 2 ^ a ≤ 2 ^ (d + a)
pow_add zero a = let e : zero + a ≡ a = omega arith in rw e (omega arith)
pow_add (suc d) a =
    let e : suc d + a ≡ suc (d + a) = omega arith in
    rw (e, two-pow-suc (d + a)) (omega (arith, pow_add d a))

pow-le : (a b : ℕ) → a ≤ b → 2 ^ a ≤ 2 ^ b
pow-le a b h =
    let e : b - a + a ≡ b = omega (arith, h) in
    subst (λ (z : ℕ). 2 ^ a ≤ 2 ^ z) e (pow_add (b - a) a)

-- The memory that a run with these arguments leaves.
abbrev pub started : ℕ → ℕ → ℕ → Memory → Memory
started vm_bits rm_bits io s = record s {
  vp_size = 2 ^ (vm_bits - 8);
  rp_size = clamp (2 ^ (rm_bits - 8));
  display = clear_display;
  words = λ _. 0;
  maps = boot_maps (2 ^ (vm_bits - 8)) (clamp (2 ^ (rm_bits - 8))) io s.maps;
  entry = λ _. empty_entry;
}

-- On a memory not yet set up, with 20 to 25 bits of virtual and at least 16 of real memory, no more
-- real than virtual, and the I/O region within the first 256 pages, `initialize` succeeds, and the
-- cache agrees with the map that it leaves.
pub initialize-IsCoherent :
    (vm_bits rm_bits io : ℕ) (s : Memory)
    → s.vp_size ≡ 0
    → 20 ≤ vm_bits
    → vm_bits ≤ 25
    → 16 ≤ rm_bits
    → rm_bits ≤ vm_bits
    → io ≤ 256
    → (initialize vm_bits rm_bits io s ≡ ok tt (started vm_bits rm_bits io s))
      × IsCoherent (started vm_bits rm_bits io s)
unfolding initialize ◌>>=◌ raise_if gets modify
initialize-IsCoherent vm_bits rm_bits io s fresh v1 v2 r1 r2 hio =
    let vp_size = 2 ^ (vm_bits - 8) in
    let real = 2 ^ (rm_bits - 8) in
    let rp_size = clamp real in
    let most : vp_size ≤ 131072 = pow-le (vm_bits - 8) 17 (omega (arith, v2)) in
    let least : 256 ≤ real = pow-le 8 (rm_bits - 8) (omega (arith, r1)) in
    let fits : real ≤ vp_size = pow-le (rm_bits - 8) (vm_bits - 8) (omega (arith, r2)) in
    let wide : 4096 ≤ vp_size = pow-le 12 (vm_bits - 8) (omega (arith, v1)) in
    (
      ground (arith, most, least, fits, wide),
      record {
        small = most;
        real = λ vp lt.
            rw
              (boot_maps_lem vp_size rp_size io vp s.maps hio (ground (arith, least)) (ground arith)
                lt)
              (ground (arith, least, hio));
        entries = λ i. record { vpno_zero = refl; not_fetched = refl; not_stored = refl };
      },
    )
