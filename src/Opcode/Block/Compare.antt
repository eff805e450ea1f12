-- ===== src/Opcode/Block/Compare.antt =====
-- The block comparisons, the checksum and the byte transfers of src/opcode/Opcode_block.cpp: BLEL, BLECL,
-- CKSUM, BYTBLT and BYTBLTR. BLEL, BLECL and CKSUM are as they are built with USE_FAST_BLT.
use mesa_emulator_unix.Common.{
  ℕ, zero, suc, ◌+◌, ◌-◌, ◌*◌, ◌%◌, ltb, leb, ◌==◌, if◌then◌else◌, u16, u32, sub16,
}
use mesa_emulator_unix.Action.{Action, ◌>>=◌, ◌>>◌, pure, gets, raise, skip, diverges}
use mesa_emulator_unix.Machine.{Machine, push, pop, push_long, pop_long}
use mesa_emulator_unix.Machine.Access.{fetch, load, fetch_byte, store_byte}
use mesa_emulator_unix.Opcode.{Instruction}
use mesa_emulator_unix.Opcode.Block.{run_of, save_long, save_code}

-- `while(run--) { if (*ap++ != *bp++) return 0; } return 1;`
unfoldable pub same_words : ℕ → ℕ → ℕ → Action Machine ℕ
same_words zero ap bp = pure 1
same_words (suc run) ap bp = do
  x ← load ap
  y ← load bp
  let rest = same_words run (ap + 1) (bp + 1)
  (if x == y then rest else pure 0)

-- BLE: the length of the run, and the result.
unfoldable pub ble : ℕ → ℕ → ℕ → Action Machine (ℕ × ℕ)
ble a b c = do
  ap ← fetch a
  bp ← fetch b
  let run = run_of (256 - a % 256) (256 - b % 256) c
  result ← same_words run ap bp
  pure (run, result)

-- The loop around BLE; `save` writes the stack, with `q` for BLEL's second pointer or BLECL's offset.
unfoldable pub ble_loop :
    (ℕ → ℕ → ℕ → Instruction) → (ℕ → ℕ) → ℕ → ℕ → ℕ → ℕ → ℕ → ℕ → ℕ → Action Machine ℕ
ble_loop save cast zero q count ptr a b c = raise diverges
ble_loop save cast (suc fuel) q count ptr a b c = do
  (r, result) ← ble a b c
  let rest =
      ble_loop save cast fuel (cast (q + r)) (sub16 count r) (u32 (ptr + r)) (u32 (a + r))
        (u32 (b + r)) (c - r)
  (if result == 0
      then pure 0
      else (if c - r == 0
          then pure result
          else (do save (cast (q + r)) (sub16 count r) (u32 (ptr + r)); rest)))

unfoldable pub e_blel : Instruction
e_blel = do
  ptr1 ← pop_long
  count ← pop
  ptr2 ← pop_long
  (if count == 0
      then push 1
      else (do result ← ble_loop save_long u32 count ptr2 count ptr1 ptr1 ptr2 count; push result))

unfoldable pub e_blecl : Instruction
e_blecl = do
  ptr ← pop_long
  count ← pop
  offset ← pop
  (if count == 0 then push 1 else (do
    cb ← gets (λ s. s.cb)
    result ← ble_loop save_code u16 count offset count ptr ptr (u32 (cb + offset)) count
    push result))

-- Checksum: `temp` is a CARDINAL.
unfoldable pub checksum : ℕ → ℕ → ℕ
checksum cksum word =
    let sum = u16 (cksum + word) in
    let temp = if ltb sum cksum then u16 (sum + 1) else sum in
    if leb 32768 temp then u16 (temp * 2 + 1) else u16 (temp * 2)

unfoldable pub cksum_loop : ℕ → ℕ → ℕ → Action Machine ℕ
cksum_loop zero p cksum = pure cksum
cksum_loop (suc c) p cksum = do word ← load p; cksum_loop c (p + 1) (checksum cksum word)

unfoldable pub e_cksum : Instruction
e_cksum = do
  source ← pop_long
  count ← pop
  cksum ← pop
  p ← fetch source
  result ← cksum_loop count p cksum
  push (if result == 65535 then 0 else result)

-- The loops of BYTBLT and BYTBLTR take their operands from the stack in each round, with a count that
-- is one less each time, so 65,536 rounds are enough.
unfoldable pub bytblt_loop : ℕ → Instruction
bytblt_loop zero = raise diverges
bytblt_loop (suc fuel) = do
  source_offset ← pop
  source_base ← pop_long
  count ← pop
  dest_offset ← pop
  dest_base ← pop_long
  let rest = bytblt_loop fuel
  (if count == 0 then skip else (do
    byte ← fetch_byte source_base source_offset
    store_byte dest_base dest_offset byte
    push_long dest_base
    push (dest_offset + 1)
    push (count - 1)
    push_long source_base
    push (source_offset + 1)
    rest))

unfoldable pub e_bytblt : Instruction
e_bytblt = bytblt_loop 65536

unfoldable pub bytbltr_loop : ℕ → Instruction
bytbltr_loop zero = raise diverges
bytbltr_loop (suc fuel) = do
  source_offset ← pop
  source_base ← pop_long
  count ← pop
  dest_offset ← pop
  dest_base ← pop_long
  let rest = bytbltr_loop fuel
  (if count == 0 then skip else (do
    byte ← fetch_byte source_base (source_offset + count - 1)
    store_byte dest_base (dest_offset + count - 1) byte
    push_long dest_base
    push dest_offset
    push (count - 1)
    push_long source_base
    push source_offset
    rest))

unfoldable pub e_bytbltr : Instruction
e_bytbltr = bytbltr_loop 65536
