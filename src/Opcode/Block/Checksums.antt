-- ===== src/Opcode/Block/Checksums.antt =====
-- The checksum of src/opcode/Opcode_block.cpp on the words of one page, as a number modulo 65,535.
use mesa_emulator_unix.Common.{
  ℕ, zero, suc, ◌+◌, ◌*◌, ◌%◌, ◌≤◌, ◌<◌, ◌≡◌, refl, arith, ap, subst, sym, ◌∙◌,
}
use mesa_emulator_unix.Machine.Access.{load}
use mesa_emulator_unix.Machine.Flat.Pointers.{Moves, place, load-Moves, pure-Moves, Moves-then}
use mesa_emulator_unix.Opcode.Block.Compare.{checksum, cksum_loop}
use mesa_emulator_unix.Opcode.Block.Copies.{Span, Span-rest, Span-first, place-suc}

checksum-mod : (c w : ℕ) → c < 65536 → w < 65536 → checksum c w % 65535 ≡ (2 * (c + w)) % 65535
unfolding checksum
checksum-mod c w hc hw = ground (arith, hc, hw)

checksum-lt : (c w : ℕ) → c < 65536 → w < 65536 → checksum c w < 65536
unfolding checksum
checksum-lt c w hc hw = ground (arith, hc, hw)

-- Checksum of `n` words from `s` up, one after the other.
abbrev pub checksums : (ℕ → ℕ) → ℕ → ℕ → ℕ → ℕ
checksums f zero s c = c
checksums f (suc n) s c = checksums f n (s + 1) (checksum c (f s))

-- The same number with no wrap-around: each word is added, and the sum is doubled.
abbrev pub doubled_sum : (ℕ → ℕ) → ℕ → ℕ → ℕ → ℕ
doubled_sum f zero s c = c
doubled_sum f (suc n) s c = doubled_sum f n (s + 1) (2 * (c + f s))

doubled_sum-mod :
    (f : ℕ → ℕ) (n s c d : ℕ)
    → c % 65535 ≡ d % 65535
    → doubled_sum f n s c % 65535 ≡ doubled_sum f n s d % 65535
doubled_sum-mod f zero s c d e = e
doubled_sum-mod f (suc n) s c d e = doubled_sum-mod f n (s + 1) _ _ (omega (arith, e))

-- Words from `s` up.
abbrev pub WordsFrom : (ℕ → ℕ) → ℕ → ℕ → Type 0
WordsFrom f n s = Span (λ va. f va < 65536) s n

checksums-doubled_sum :
    (f : ℕ → ℕ) (n s c : ℕ)
    → WordsFrom f n s
    → c < 65536
    → checksums f n s c % 65535 ≡ doubled_sum f n s c % 65535
checksums-doubled_sum f zero s c words h = refl
checksums-doubled_sum f (suc n) s c words h =
    let word = Span-first (λ va. f va < 65536) s (suc n) words (omega arith) in
    let rest = Span-rest (λ va. f va < 65536) s 1 n (suc n) (omega arith) words in
    checksums-doubled_sum f n (s + 1) (checksum c (f s)) rest (checksum-lt c (f s) h word)
    ∙ doubled_sum-mod f n (s + 1) _ _ (checksum-mod c (f s) h word)

module _ {D : ℕ → Type 0} {mds : ℕ} {rp f : ℕ → ℕ} {n : ℕ} where
  cksum_loop-Moves :
      (k s p c : ℕ)
      → s % 256 + k ≤ 256
      → Span D s k
      → (0 < k → p ≡ place rp s)
      → Moves D mds rp n n f f (checksums f k s c) (cksum_loop k p c)
  unfolding cksum_loop
  cksum_loop-Moves zero s p c page ins at_p = pure-Moves c
  cksum_loop-Moves (suc k) s p c page ins at_p =
      let next_p : 0 < k → p + 1 ≡ place rp (s + 1) =
        λ h. ap (λ x. x + 1) (at_p (omega arith)) ∙ place-suc rp s (omega (arith, h, page)) in
      Moves-then _
        (subst (λ x. Moves D mds rp n n f f (f s) (load x)) (sym (at_p (omega arith)))
          (load-Moves s (Span-first D s (suc k) ins (omega arith))))
        (cksum_loop-Moves k (s + 1) (p + 1) (checksum c (f s)) (omega (arith, page))
          (Span-rest D s 1 k (suc k) (omega arith) ins) next_p)

  -- The loop of CKSUM over words of one page, from the pointer that Fetch gives for the first of them,
  -- reads each of them once, changes nothing, and gives their checksum. Modulo 65,535 that is the sum in
  -- which each word is added and the sum doubled: the carries that it adds back lose nothing.
  pub cksum_loop_lem :
      (k s c : ℕ)
      → s % 256 + k ≤ 256
      → Span D s k
      → WordsFrom f k s
      → c < 65536
      → Moves D mds rp n n f f (checksums f k s c) (cksum_loop k (place rp s) c)
        × (checksums f k s c % 65535 ≡ doubled_sum f k s c % 65535)
  cksum_loop_lem k s c page ins words h = (
    cksum_loop-Moves k s (place rp s) c page ins (λ _. refl),
    checksums-doubled_sum f k s c words h,
  )
