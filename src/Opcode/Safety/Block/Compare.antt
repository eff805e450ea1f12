-- ===== src/Opcode/Safety/Block/Compare.antt =====
-- The comparisons and the byte transfers of Opcode/Block/Compare keep the invariant of the machine.
use mesa_emulator_unix.Common.{
  ℕ, zero, suc, ◌+◌, ◌-◌, ◌*◌, ◌%◌, ◌≤◌, ◌==◌, u16, u32, sub16, arith, [], ◌∷◌, All,
}
use mesa_emulator_unix.Action.{diverges}
use mesa_emulator_unix.Machine.Safe.{Safe, Step-bind}
use mesa_emulator_unix.Machine.Safe.Pointers.{fetch-Step, load-Step}
use mesa_emulator_unix.Machine.Safe.Rules.{
  instruction, Safe-pop, Safe-pop_long, Safe-if, Safe-skip, Safe-fetch_byte, Safe-store_byte,
  Safe-push_long, Safe-push,
}
use mesa_emulator_unix.Machine.Safe.Stays.{
  Stays, Stays-then, Safe-then, Safe-end, pure-Stays, if-Stays, raise-Stays,
}
use mesa_emulator_unix.Opcode.{Instruction}
use mesa_emulator_unix.Opcode.Block.{
  run_of, save_long, save_code, e_blt, e_bltl, e_bltc, e_bltcl, e_bltlr,
}
use mesa_emulator_unix.Opcode.Block.Compare.{
  same_words, ble, ble_loop, e_blel, e_blecl, bytblt_loop, e_bytblt, bytbltr_loop, e_bytbltr,
}
use mesa_emulator_unix.Opcode.Safety.Block.{
  e_blt-Safe, e_bltl-Safe, e_bltc-Safe, e_bltcl-Safe, e_bltlr-Safe, run_of-le, save_long-Stays,
  save_code-Stays,
}

module _ {size n : ℕ} where
  same_words-Stays :
      (run ap bp : ℕ)
      → ap + run ≤ size * 256
      → bp + run ≤ size * 256
      → Stays size n (same_words run ap bp)
  unfolding same_words
  same_words-Stays zero ap bp h k = pure-Stays 1
  same_words-Stays (suc run) ap bp h k = Step-bind (load-Step ap (omega (arith, h))) _ (λ x _.
      Step-bind (load-Step bp (omega (arith, k))) _ (λ y _.
        if-Stays (x == y)
          (same_words-Stays run (ap + 1) (bp + 1) (omega (arith, h)) (omega (arith, k)))
          (pure-Stays 0)))

  ble-Stays : (a b c : ℕ) → Stays size n (ble a b c)
  unfolding ble
  ble-Stays a b c =
      let le = run_of-le (256 - a % 256) (256 - b % 256) c in
      Step-bind (fetch-Step a) _ (λ ap h. Step-bind (fetch-Step b) _ (λ bp k.
        Step-bind
          (same_words-Stays (run_of (256 - a % 256) (256 - b % 256) c) ap bp
            (omega (arith, h.0, h.1, le.0)) (omega (arith, k.0, k.1, le.1)))
          _ (λ result _. pure-Stays (run_of (256 - a % 256) (256 - b % 256) c, result))))

  ble_loop-Stays :
      (save : ℕ → ℕ → ℕ → Instruction) (cast : ℕ → ℕ)
      → ((x y z : ℕ) → Stays size n (save x y z))
      → (fuel q count ptr a b c : ℕ) → Stays size n (ble_loop save cast fuel q count ptr a b c)
  unfolding ble_loop
  ble_loop-Stays save cast kept zero q count ptr a b c = raise-Stays diverges tt
  ble_loop-Stays save cast kept (suc fuel) q count ptr a b c = Stays-then _ (ble-Stays a b c) (λ o.
      if-Stays (o.1 == 0) (pure-Stays 0) (
        if-Stays (c - o.0 == 0) (pure-Stays o.1) (
          Stays-then _ (kept (cast (q + o.0)) (sub16 count o.0) (u32 (ptr + o.0))) (λ _.
            ble_loop-Stays save cast kept fuel (cast (q + o.0)) (sub16 count o.0) (u32 (ptr + o.0))
              (u32 (a + o.0)) (u32 (b + o.0)) (c - o.0)))))

  long_compare-Stays :
      (fuel q count ptr a b c : ℕ) → Stays size n (ble_loop save_long u32 fuel q count ptr a b c)
  long_compare-Stays = ble_loop-Stays save_long u32 save_long-Stays

  code_compare-Stays :
      (fuel q count ptr a b c : ℕ) → Stays size n (ble_loop save_code u16 fuel q count ptr a b c)
  code_compare-Stays = ble_loop-Stays save_code u16 save_code-Stays

module _ {size : ℕ} where
  pub e_blel-Safe : Safe size 0 e_blel
  unfolding e_blel
  e_blel-Safe = search (instruction, Safe-then, long_compare-Stays) depth 15

  pub e_blecl-Safe : Safe size 0 e_blecl
  unfolding e_blecl
  e_blecl-Safe = search (instruction, Safe-then, code_compare-Stays) depth 15

  -- Seven words are popped, and seven pushed.
  bytblt_loop-Safe : (fuel : ℕ) → Safe size 0 (bytblt_loop fuel)
  unfolding bytblt_loop
  bytblt_loop-Safe zero = Safe-end (raise-Stays diverges tt)
  bytblt_loop-Safe (suc fuel) = Safe-pop _ (λ o. Safe-pop_long _ (λ b. Safe-pop _ (λ c.
      Safe-pop _ (λ p. Safe-pop_long _ (λ d. Safe-if (c == 0) Safe-skip (
        Safe-fetch_byte b o _ (λ byte. Safe-store_byte d p byte _ (λ _. Safe-push_long d _ (λ _.
          Safe-push (p + 1) _ (λ _. Safe-push (c - 1) _ (λ _.
            Safe-push_long b _ (λ _. Safe-push (o + 1) _ (λ _. bytblt_loop-Safe fuel)))))))))))))

  bytbltr_loop-Safe : (fuel : ℕ) → Safe size 0 (bytbltr_loop fuel)
  unfolding bytbltr_loop
  bytbltr_loop-Safe zero = Safe-end (raise-Stays diverges tt)
  bytbltr_loop-Safe (suc fuel) = Safe-pop _ (λ o. Safe-pop_long _ (λ b. Safe-pop _ (λ c.
      Safe-pop _ (λ p. Safe-pop_long _ (λ d. Safe-if (c == 0) Safe-skip (
        Safe-fetch_byte b (o + c - 1) _ (λ byte. Safe-store_byte d (p + c - 1) byte _ (λ _.
          Safe-push_long d _ (λ _. Safe-push p _ (λ _.
            Safe-push (c - 1) _
              (λ _. Safe-push_long b _ (λ _. Safe-push o _ (λ _. bytbltr_loop-Safe fuel)))))))))))))

  pub e_bytblt-Safe : Safe size 0 e_bytblt
  unfolding e_bytblt
  e_bytblt-Safe = bytblt_loop-Safe 65536

  pub e_bytbltr-Safe : Safe size 0 e_bytbltr
  unfolding e_bytbltr
  e_bytbltr-Safe = bytbltr_loop-Safe 65536

-- The block transfers BLT, BLTL, BLTC, BLTCL and BLTLR, the comparisons BLEL and BLECL, and the byte
-- transfers BYTBLT and BYTBLTR keep the invariant of the machine, with any operands on the stack: no
-- run leaves the real pages of its two addresses, and the stack of each round is written inside the
-- array. Each ends in a machine with the invariant, or stops in one, by a fault or else, or meets a null
-- page.
pub block_codes-Safe :
    (size : ℕ)
    → All
        (Safe size 0)
        (e_blt ∷ e_bltl ∷ e_bltc ∷ e_bltcl ∷ e_bltlr ∷ e_blel ∷ e_blecl ∷ e_bytblt ∷ e_bytbltr ∷ [])
block_codes-Safe size =
    search
      (
        e_blt-Safe, e_bltl-Safe, e_bltc-Safe, e_bltcl-Safe, e_bltlr-Safe, e_blel-Safe, e_blecl-Safe,
        e_bytblt-Safe, e_bytbltr-Safe,
      )
      depth 40
