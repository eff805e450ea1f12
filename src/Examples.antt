-- ===== src/Examples.antt =====
-- Concrete runs of the memory and of the instructions, at which the theorems' conditions hold.
pub mod Flat
pub mod Buffers
use mesa_emulator_unix.Common.{
  if◌then◌else◌, ◌==◌, ◌+◌, ◌*◌, ◌%◌, ◌^◌, ◌<◌, ◌≢◌, ◌≡◌, refl, arith, true, false, some, update,
  u16, sub16, All, ◌∷◌, [],
}
use mesa_emulator_unix.Action.{
  ok, stop, fault, write_protect_fault, ◌>>=◌, gets, modify, raise_if, pure,
}
use mesa_emulator_unix.Types.{clear, field_spec, MapFlags, is_vacant}
use mesa_emulator_unix.Types.Fields.{read_field, write_field, field_shift}
use mesa_emulator_unix.Types.Fields.Laws.{write_field_lem, read_field-write_field, above, below}
use mesa_emulator_unix.Memory.{
  Memory, empty_entry, hash, set_map, mark_referenced, fetch_page, check_vp, real_page,
}
use mesa_emulator_unix.Memory.Cache.{fetch, store, filled, set_entry, fetch_setup, page_offset}
use mesa_emulator_unix.Memory.Init.{initialize, boot_maps, clear_display}
use mesa_emulator_unix.Memory.Init.Boot.{boot_maps_lem}
use mesa_emulator_unix.Memory.Init.Coherence.{initialize-IsCoherent, started}
use mesa_emulator_unix.Memory.Coherent.{
  IsCoherent, fetch_direct, store_direct, visible, AccessOk, forget,
}
use mesa_emulator_unix.Memory.Coherent.Protection.{dirtied, store-after_fetch}
use mesa_emulator_unix.Opcode.EscMore.{size_of16, is_negative16, quotient16, remainder16, e_sdiv}
use mesa_emulator_unix.Opcode.EscMore.Signed.{quotient16_lem, e_sdiv_lem}
use mesa_emulator_unix.Memory.Coherent.Fetches.{fetch-fetch_direct, store-store_direct}
use mesa_emulator_unix.Memory.Coherent.Access.{fetch-AccessOk, store-AccessOk}
use mesa_emulator_unix.Machine.{Machine, push, pop, push_long, pop_long}
use mesa_emulator_unix.Machine.Safe.{Room, Safe}
use mesa_emulator_unix.Machine.Stack.{
  Leaves, Pops, PopsLong, push-stack_of, pop-stack_of, push_long-stack_of, pop_long-stack_of,
}
use mesa_emulator_unix.Opcode.Mop0.{mop0_table}
use mesa_emulator_unix.Opcode.Mop1.{mop1_table}
use mesa_emulator_unix.Opcode.Mop2.{jump_codes, arith_codes}
use mesa_emulator_unix.Opcode.Arith.{e_neg, e_inc, e_dec, e_dbl, e_trpl}
use mesa_emulator_unix.Opcode.Arith.{e_dinc}
use mesa_emulator_unix.Opcode.Arith.Dinc.{by_pop_long, e_dinc-by_pop_long}
use mesa_emulator_unix.Opcode.Arith.InPlace.{by_pop, in_place_lem}
use mesa_emulator_unix.Opcode.Esc.{esc_codes, e_udiv}
use mesa_emulator_unix.Opcode.Esc.Division.{divided, replaced, e_udiv_lem}
use mesa_emulator_unix.Memory.{write_map}
use mesa_emulator_unix.Memory.Coherent.Maps.{remapped, write_map-IsCoherent}
use mesa_emulator_unix.Opcode.Safety.Tables.{mop0_table-Safe, mop1_table-Safe, mop2_codes-Safe}

abbrev small_memory : Memory
small_memory = record {
  vp_size = 4096;
  rp_size = 256;
  display = clear_display;
  maps = λ vp. record { mf = clear; rp = vp % 256 };
  words = λ p. p % 65536;
  entry = λ _. empty_entry;
}

small_memory-IsCoherent : IsCoherent small_memory
small_memory-IsCoherent = record {
  small = omega arith;
  real = λ vp h. omega arith;
  entries = λ i. record { vpno_zero = refl; not_fetched = refl; not_stored = refl };
}

fetch-fetch_direct_example :
    visible (fetch 777 small_memory) ≡ visible (fetch_direct 777 small_memory)
fetch-fetch_direct_example =
    fetch-fetch_direct small_memory 777 small_memory-IsCoherent (omega arith)

store-store_direct_example :
    visible (store 777 small_memory) ≡ visible (store_direct 777 small_memory)
store-store_direct_example =
    store-store_direct small_memory 777 small_memory-IsCoherent (omega arith) refl

fetch-AccessOk_example : AccessOk small_memory 777 (fetch 777 small_memory)
fetch-AccessOk_example = fetch-AccessOk small_memory 777 small_memory-IsCoherent

store-AccessOk_example : AccessOk small_memory 777 (store 777 small_memory)
store-AccessOk_example = store-AccessOk small_memory 777 small_memory-IsCoherent

-- Every page is protected, referenced, and in the real page of its number modulo 256.
abbrev read_only : MapFlags
read_only = record { referenced = true; dirty = false; protect = true; reserved = 0 }

abbrev read_only_memory : Memory
read_only_memory = record small_memory { maps = λ vp. record { mf = read_only; rp = vp % 256 } }

read_only_memory-IsCoherent : IsCoherent read_only_memory
read_only_memory-IsCoherent = record {
  small = omega arith;
  real = λ vp h. omega arith;
  entries = λ i. record { vpno_zero = refl; not_fetched = refl; not_stored = refl };
}

-- The state behind a fetch of address 777.
abbrev fetched_memory : Memory
fetched_memory =
    set_entry (hash 3) (filled 3 false 3)
      (set_map 3 (record { mf = mark_referenced read_only; rp = 3 }) read_only_memory)

fetched : fetch 777 read_only_memory ≡ ok 777 fetched_memory
unfolding fetch fetch_setup fetch_page ◌>>=◌ gets modify raise_if check_vp real_page page_offset
    pure hash is_vacant mark_referenced
fetched = refl

store-after_fetch_example :
    (visible (store 777 fetched_memory) ≡ ok 777 (forget (dirtied 3 fetched_memory)))
    × (store_direct 777 fetched_memory ≡ stop (fault (write_protect_fault 768)) fetched_memory)
store-after_fetch_example =
    store-after_fetch read_only_memory fetched_memory 777 777 read_only_memory-IsCoherent
      (omega arith) refl fetched

abbrev stopped_memory : Memory
stopped_memory = record small_memory { vp_size = 0 }

initialize-IsCoherent_example :
    (initialize 22 20 128 stopped_memory ≡ ok tt (started 22 20 128 stopped_memory))
    × IsCoherent (started 22 20 128 stopped_memory)
initialize-IsCoherent_example =
    initialize-IsCoherent 22 20 128 stopped_memory refl (omega arith) (omega arith) (omega arith)
      (omega arith) (omega arith)

boot_maps_lem_example :
    boot_maps 16384 4096 128 small_memory.maps 200 ≡ record { mf = clear; rp = 72 }
boot_maps_lem_example =
    boot_maps_lem 16384 4096 128 200 small_memory.maps (omega arith) (omega arith) (omega arith)
      (omega arith)

write_field_lem_example :
    write_field 43981 67 5 ≡ some ((above 8 4 43981 * 2 ^ 4 + 5 % 2 ^ 4) * 2 ^ 8 + below 8 43981)
unfolding field_spec field_shift
write_field_lem_example = write_field_lem 43981 67 5 (omega arith) (omega arith)

abbrev small_machine : Machine
small_machine = record {
  memory = small_memory;
  storage = λ i. i;
  sp = 3;
  pc = 40;
  lf = 512;
  gf = 1024;
  cb = 2048;
  mds = 65536;
  gfi = 4;
  psb = 0;
  mp = 0;
  wp = 0;
  wdc = 0;
  ptc = 0;
  xts = 0;
  break_byte = 0;
  saved_pc = 40;
  saved_sp = 3;
  running = true;
  timeout_time = 0;
}

written : write_field 43981 67 5 ≡ some 42445
unfolding write_field
written = refl

read_field-write_field_example : read_field 42445 67 ≡ some (5 % 2 ^ 4)
unfolding field_spec
read_field-write_field_example =
    read_field-write_field 43981 67 5 (omega arith) (omega arith) written

push_long-stack_of_example : Leaves (push_long 65541 small_machine) (1 ∷ 5 ∷ 2 ∷ 1 ∷ 0 ∷ [])
push_long-stack_of_example = push_long-stack_of 65541 small_machine (omega arith)

abbrev word_machine : Machine
word_machine = record small_machine { storage = λ i. u16 i }

pop_long-stack_of_example : PopsLong (pop_long word_machine) (2 ∷ 1 ∷ 0 ∷ [])
pop_long-stack_of_example =
    pop_long-stack_of word_machine (omega arith) (omega arith) (λ i. omega arith)

in_place_lem_example :
    (e_inc small_machine ≡ by_pop (λ u. u + 1) small_machine)
    × (e_dec small_machine ≡ by_pop (λ u. sub16 u 1) small_machine)
    × (e_neg small_machine ≡ by_pop (λ u. sub16 0 u) small_machine)
    × (e_dbl small_machine ≡ by_pop (λ u. u * 2) small_machine)
    × (e_trpl small_machine ≡ by_pop (λ u. u * 3) small_machine)
in_place_lem_example = in_place_lem small_machine (omega arith)

e_dinc-by_pop_long_example : e_dinc word_machine ≡ by_pop_long word_machine
e_dinc-by_pop_long_example =
    e_dinc-by_pop_long word_machine (omega arith) (omega arith) (λ i. omega arith)

mop0_table-Safe_example : All (Safe 256 0) mop0_table
mop0_table-Safe_example = mop0_table-Safe 256

mop1_table-Safe_example : All (Safe 256 0) mop1_table
mop1_table-Safe_example = mop1_table-Safe 256

mop2_codes-Safe_example : All (Safe 256 0) jump_codes × All (Safe 256 0) arith_codes
mop2_codes-Safe_example = mop2_codes-Safe 256

write_map-IsCoherent_example :
    (write_map 5 (record { mf = clear; rp = 9 }) small_memory
      ≡ ok tt (remapped 5 (record { mf = clear; rp = 9 }) small_memory))
    × IsCoherent (remapped 5 (record { mf = clear; rp = 9 }) small_memory)
write_map-IsCoherent_example =
    write_map-IsCoherent small_memory 5 (record { mf = clear; rp = 9 }) small_memory-IsCoherent
      (omega arith) (omega arith)

e_udiv_lem_example : e_udiv small_machine ≡ ok tt (divided 1 2 small_machine)
e_udiv_lem_example = e_udiv_lem small_machine (omega arith) (omega arith)

-- The invariant holds of the machine above, so the theorems on instructions speak of its runs.
word_machine-Room : Room 256 0 word_machine
word_machine-Room = record {
  fine = record {
    coherent = small_memory-IsCoherent;
    real_size = refl;
    memory_words = λ p. omega arith;
    stack_words = λ i. omega arith;
    sp_bound = omega arith;
    pc_word = omega arith;
    saved_pc_word = omega arith;
    saved_sp_bound = omega arith;
    mds_aligned = refl;
  };
  spare = omega arith;
}

push-stack_of_example : Leaves (push 70000 small_machine) (4464 ∷ 2 ∷ 1 ∷ 0 ∷ [])
push-stack_of_example = push-stack_of 70000 small_machine (omega arith)

pop-stack_of_example : Pops (pop small_machine) (2 ∷ 1 ∷ 0 ∷ [])
pop-stack_of_example = pop-stack_of small_machine (omega arith) (omega arith)

-- -7 divided by 2 is -3, and -1 is left.
quotient16_lem_example :
    (size_of16 2 * size_of16 (quotient16 65529 2) + size_of16 (remainder16 65529 2) ≡ 7)
    × (size_of16 (remainder16 65529 2) < 2)
    × (is_negative16 (remainder16 65529 2) ≡ (if remainder16 65529 2 == 0 then false else true))
    × (is_negative16 (quotient16 65529 2) ≡ (
        if quotient16 65529 2 == 0
        then false
        else (if quotient16 65529 2 == 32768 then true else true)))
quotient16_lem_example = quotient16_lem 65529 2 (omega arith) (omega arith) (λ e. omega (arith, e))

e_sdiv_lem_example :
    e_sdiv small_machine ≡ ok tt (replaced (quotient16 1 2) (remainder16 1 2) small_machine)
e_sdiv_lem_example = e_sdiv_lem small_machine (omega arith) (omega arith)
