-- ===== src/Examples/Flat.antt =====
-- Concrete runs on the words of virtual memory: frames, rings and process words.
use mesa_emulator_unix.Common.{
  if◌then◌else◌, ◌+◌, ◌==◌, ℕ, ◌+◌, ◌*◌, ◌%◌, ◌≤◌, ◌<◌, ◌≡◌, refl, arith, true, update, u16, All,
  [], ◌∷◌,
}
use mesa_emulator_unix.Action.{◌>>◌}
use mesa_emulator_unix.Types.{clear, low_byte, byte_pair}
use mesa_emulator_unix.Memory.{Memory, empty_entry}
use mesa_emulator_unix.Memory.Init.{clear_display}
use mesa_emulator_unix.Memory.Coherent.{IsCoherent}
use mesa_emulator_unix.Machine.{Machine}
use mesa_emulator_unix.Machine.Access.{lengthen}
use mesa_emulator_unix.Machine.Words.{read, write, lengthen_pda_ptr}
use mesa_emulator_unix.Machine.Safe.{Safe}
use mesa_emulator_unix.Machine.Flat.{Holds, EndsIn, read-Does, write-Does}
use mesa_emulator_unix.Opcode.Control.Frames.{alloc, free}
use mesa_emulator_unix.Opcode.Control.FrameLists.{Leads, here, onto, alloc_lem, free-alloc}
use mesa_emulator_unix.Opcode.Process.{psb_field, with_psb, priority, link_of}
use mesa_emulator_unix.Opcode.Process.Queues.{enqueue, dequeue}
use mesa_emulator_unix.Opcode.Process.Rings.{enqueue-dequeue}
use mesa_emulator_unix.Opcode.Process.Insertion.{insert}
use mesa_emulator_unix.Opcode.Process.Removal.{Dequeues, dequeue_lem}
use mesa_emulator_unix.Opcode.Process.Enqueue.{Rings, enqueue_lem}
use mesa_emulator_unix.Opcode.EscRegisters.{register_codes}
use mesa_emulator_unix.Opcode.Safety.EscMore.{extended_codes-Safe}
use mesa_emulator_unix.Opcode.EscMore.{more_codes}
use mesa_emulator_unix.Opcode.Esc.{esc_codes}
use mesa_emulator_unix.Opcode.Block.Checksums.{checksums, doubled_sum, cksum_loop_lem}
use mesa_emulator_unix.Opcode.Block.Compare.{cksum_loop}
use mesa_emulator_unix.Machine.Flat.Pointers.{Moves, place}
use mesa_emulator_unix.Opcode.Block.{e_blt, e_bltl, e_bltc, e_bltcl, e_bltlr}
use mesa_emulator_unix.Opcode.Block.Copies.{copied, Span}
use mesa_emulator_unix.Opcode.Block.Transfers.{
  CopiesTo, e_bltl-CopiesTo, e_blt-CopiesTo, e_bltc-CopiesTo, e_bltcl-CopiesTo,
}
use mesa_emulator_unix.Opcode.Block.Compare.{e_blel, e_blecl, e_bytblt, e_bytbltr}
use mesa_emulator_unix.Opcode.Safety.Block.Compare.{block_codes-Safe}
use mesa_emulator_unix.Opcode.BitBlt.Process.{e_bitblt, e_colorblt}
use mesa_emulator_unix.Opcode.Safety.BitBlt.{bitblt_codes-Safe}

-- Every page of 512 is in the real page of its own number.
abbrev flat_memory : Memory
flat_memory = record {
  vp_size = 512;
  rp_size = 512;
  display = clear_display;
  maps = λ vp. record { mf = clear; rp = vp };
  words = λ p. p * 3 % 65536;
  entry = λ _. empty_entry;
}

abbrev triple : ℕ → ℕ
triple va = va * 3 % 65536

-- The addresses outside page 0.
abbrev In : ℕ → Type 0
In va = (256 ≤ va) × (va < 131072)

flat_memory-IsCoherent : IsCoherent flat_memory
flat_memory-IsCoherent = record {
  small = omega arith;
  real = λ vp h. h;
  entries = λ i. record { vpno_zero = refl; not_fetched = refl; not_stored = refl };
}

abbrev flat_machine : Machine
flat_machine = record {
  memory = flat_memory;
  storage = λ _. 0;
  sp = 0;
  pc = 8;
  lf = 1024;
  gf = 2048;
  cb = 4096;
  mds = 0;
  gfi = 0;
  psb = 5;
  mp = 0;
  wp = 0;
  wdc = 0;
  ptc = 1;
  xts = 0;
  break_byte = 0;
  saved_pc = 8;
  saved_sp = 0;
  running = true;
  timeout_time = 0;
}

flat_machine-Holds : Holds In 0 triple flat_machine
flat_machine-Holds = record {
  flat = record { coherent = flat_memory-IsCoherent; apart = λ u v h g e. e };
  open_at = λ va d. record { in_map = omega arith; not_zero = λ e. omega arith; open_page = refl };
  address = λ va d. omega arith;
  sees = λ va d. omega arith;
  base = refl;
}

read-Does_example : EndsIn In 0 triple (triple 777) flat_machine (read 777 flat_machine)
read-Does_example =
    (read-Does {D = In} {mds = 0} {f = triple} 777 (omega arith, omega arith)).at flat_machine
      flat_machine-Holds

write-Does_example :
    EndsIn In 0 (update triple 777 (u16 70000)) tt flat_machine (write 777 70000 flat_machine)
write-Does_example =
    (write-Does {D = In} {mds = 0} {f = triple} 777 70000 (omega arith, omega arith)).at
      flat_machine flat_machine-Holds

vector-In : (slot : ℕ) → slot < 256 → In (lengthen 0 (256 + slot))
vector-In slot h = (omega arith, omega arith)

-- Size 6 has an indirect item, to slot 196, which has frame 1356.
size_6-Leads : Leads triple 0 1 6 196
size_6-Leads = onto 0 6 196 refl (omega arith) (here 196 (λ e. omega (arith, e)))

alloc_lem_example :
    EndsIn In 0
      (update triple (lengthen 0 452) (u16 (triple (lengthen 0 1356))))
      1356
      flat_machine
      (alloc 6 flat_machine)
alloc_lem_example =
    (alloc_lem {D = In} {mds = 0} triple vector-In 6 1 196 (omega arith) (omega arith) (omega arith)
        size_6-Leads refl (omega arith, omega arith)).at
      flat_machine flat_machine-Holds

free-alloc_example :
    EndsIn In 0 (update triple 1028 768) 1028 flat_machine ((free 1028 >> alloc 0) flat_machine)
unfolding low_byte byte_pair
free-alloc_example =
    (free-alloc {D = In} {mds = 0} triple 1028 vector-In (omega arith, omega arith)
        (omega arith, omega arith) (omega arith) refl (λ e. omega (arith, e)) (omega arith)).at
      flat_machine flat_machine-Holds

links-In : (psb : ℕ) → psb < 1024 → In (lengthen_pda_ptr (link_of psb))
links-In psb h = (omega arith, omega arith)

enqueue-dequeue_example :
    EndsIn In 0
      (update triple (lengthen_pda_ptr (link_of 5)) (with_psb 120 5))
      tt
      flat_machine
      ((enqueue 65536 5 >> dequeue 65536 5) flat_machine)
unfolding psb_field
enqueue-dequeue_example =
    (enqueue-dequeue {D = In} {mds = 0} triple 65536 5 (omega arith, omega arith)
        (omega arith, omega arith) (λ e. omega (arith, e)) (omega arith) refl (omega arith)
        (omega arith) (λ e. omega (arith, e))).at
      flat_machine flat_machine-Holds

-- The queue at 512 has the blocks 1, of priority 5, and 2, of priority 1; block 3 has priority 3.
abbrev ring_words : ℕ → ℕ
ring_words = update (update (update (update triple 512 16) 65544 40976) 65552 8200) 65560 24576

enqueue_lem_example : Rings In 0 ring_words 512 3 2 (1 ∷ 3 ∷ [])
unfolding psb_field priority insert
enqueue_lem_example =
    enqueue_lem {D = In} {mds = 0} ring_words 512 3 (1 ∷ []) (omega arith, omega arith) links-In
      (λ b h e. omega arith) (λ e. omega (arith, e)) (omega arith)
      ((λ e. omega (arith, e)), ((λ e. omega (arith, e)), tt))
      (((λ e. omega (arith, e)), tt), (tt, tt)) (omega arith) (refl, refl)

extended_codes-Safe_example :
    All (Safe 256 0) esc_codes × All (Safe 256 0) (register_codes 100) × All (Safe 256 0) more_codes
extended_codes-Safe_example = extended_codes-Safe 256 100

block_codes-Safe_example :
    All
      (Safe 256 0)
      (e_blt ∷ e_bltl ∷ e_bltc ∷ e_bltcl ∷ e_bltlr ∷ e_blel ∷ e_blecl ∷ e_bytblt ∷ e_bytbltr ∷ [])
block_codes-Safe_example = block_codes-Safe 256

bitblt_codes-Safe_example : All (Safe 256 0) (e_bitblt ∷ e_colorblt ∷ [])
bitblt_codes-Safe_example = bitblt_codes-Safe 256

-- A machine with other words on the stack sees the same words in memory.
abbrev with_stack : (ℕ → ℕ) → ℕ → Machine
with_stack storage sp = record flat_machine { storage = storage; sp = sp }

with_stack-Holds : (storage : ℕ → ℕ) (sp : ℕ) → Holds In 0 triple (with_stack storage sp)
with_stack-Holds storage sp = record {
  flat = flat_machine-Holds.flat;
  open_at = flat_machine-Holds.open_at;
  address = flat_machine-Holds.address;
  sees = flat_machine-Holds.sees;
  base = flat_machine-Holds.base;
}

In-Span : (s c : ℕ) → 256 ≤ s → s + c ≤ 131072 → Span In s c
In-Span s c low high i h = (omega (arith, low), omega (arith, high, h))

-- 500 words from 300, which lie in four pages, to 400; the source and the target overlap.
abbrev long_operands : ℕ → ℕ
long_operands i = if i == 0 then 300 else (if i == 2 then 500 else (if i == 3 then 400 else 0))

e_bltl-CopiesTo_example :
    CopiesTo In 0
      (copied triple 500 300 400)
      0
      (with_stack long_operands 5)
      (e_bltl (with_stack long_operands 5))
e_bltl-CopiesTo_example =
    e_bltl-CopiesTo {D = In} {mds = 0} triple (with_stack long_operands 5) 0
      (with_stack-Holds long_operands 5) (omega arith) refl
      (In-Span 300 500 (omega arith) (omega arith)) (In-Span 400 500 (omega arith) (omega arith))

abbrev short_operands : ℕ → ℕ
short_operands i = if i == 0 then 300 else (if i == 1 then 500 else 400)

e_blt-CopiesTo_example :
    CopiesTo In 0
      (copied triple 500 300 400)
      0
      (with_stack short_operands 3)
      (e_blt (with_stack short_operands 3))
e_blt-CopiesTo_example =
    e_blt-CopiesTo {D = In} {mds = 0} triple (with_stack short_operands 3) 0
      (with_stack-Holds short_operands 3) (omega arith) refl
      (In-Span 300 500 (omega arith) (omega arith)) (In-Span 400 500 (omega arith) (omega arith))

-- 100 words of one page.
cksum_loop_lem_example :
    Moves In 0
      (λ vp. vp)
      0
      0
      triple
      triple
      (checksums triple 100 512 7)
      (cksum_loop 100 (place (λ vp. vp) 512) 7)
    × (checksums triple 100 512 7 % 65535 ≡ doubled_sum triple 100 512 7 % 65535)
cksum_loop_lem_example =
    cksum_loop_lem {D = In} {mds = 0} {rp = λ vp. vp} {f = triple} {n = 0} 100 512 7 (omega arith)
      (In-Span 512 100 (omega arith) (omega arith)) (λ i h. omega arith) (omega arith)

e_bltc-CopiesTo_example :
    CopiesTo In 0
      (copied triple 500 4396 400)
      0
      (with_stack short_operands 3)
      (e_bltc (with_stack short_operands 3))
e_bltc-CopiesTo_example =
    e_bltc-CopiesTo {D = In} {mds = 0} triple (with_stack short_operands 3) 0
      (with_stack-Holds short_operands 3) (omega arith) refl
      (In-Span 4396 500 (omega arith) (omega arith)) (In-Span 400 500 (omega arith) (omega arith))

-- 500 words from 300 in the code segment, which is 4396, to 4096 + 700.
abbrev code_operands : ℕ → ℕ
code_operands i = if i == 0 then 300 else (if i == 1 then 500 else (if i == 2 then 4796 else 0))

e_bltcl-CopiesTo_example :
    CopiesTo In 0
      (copied triple 500 4396 4796)
      0
      (with_stack code_operands 4)
      (e_bltcl (with_stack code_operands 4))
e_bltcl-CopiesTo_example =
    e_bltcl-CopiesTo {D = In} {mds = 0} triple (with_stack code_operands 4) 0
      (with_stack-Holds code_operands 4) (omega arith) refl
      (In-Span 4396 500 (omega arith) (omega arith)) (In-Span 4796 500 (omega arith) (omega arith))

-- The queue at 512 has the blocks 1, 3 and 2, of which 2 is the tail.
abbrev three_words : ℕ → ℕ
three_words = update (update ring_words 65544 40984) 65560 24592

dequeue_lem_example : Dequeues In 0 three_words 512 3 2 (1 ∷ [])
unfolding psb_field
dequeue_lem_example =
    dequeue_lem {D = In} {mds = 0} three_words 512 3 (1 ∷ []) [] (omega arith, omega arith) links-In
      (λ b h e. omega arith) (λ e. omega (arith, e)) (omega arith)
      (
        ((λ e. omega (arith, e)), ((λ e. omega (arith, e)), tt)),
        (((λ e. omega (arith, e)), tt), (tt, tt)),
      )
      (omega arith) (refl, (refl, refl))
