-- ===== src/Opcode/Mop2.antt =====
-- src/opcode/OpcodeMop2xx.cpp: the instructions of codes 0200 to 0276, in order.
use mesa_emulator_unix.Common.{◌+◌, List, [], ◌∷◌}
use mesa_emulator_unix.Types.{sign_extend}
use mesa_emulator_unix.Machine.{recover, discard}
use mesa_emulator_unix.Opcode.Jumps.{
  e_catch, e_j, e_jue, e_jeb, e_june, e_jne, e_jl, e_jge, e_jg, e_jle, e_jul, e_juge, e_jug, e_jule,
  e_jz, e_jnz, e_jde, e_jdne, e_jib, e_jiw,
}
use mesa_emulator_unix.Opcode.Arith.{
  e_rec2, e_dis2, e_exch, e_dexch, e_dup, e_ddup, e_exdis, e_neg, e_inc, e_dec, e_dinc, e_dbl,
  e_ddbl, e_trpl, e_and, e_ior, e_adds, e_add, e_sub, e_dadd, e_dsub, e_adc, e_acd, e_al0i, e_mul,
  e_dcmp, e_udcmp,
}
use mesa_emulator_unix.Opcode.{Instruction, with_byte, with_word, with_pair}

unfoldable pub jump_codes : List Instruction
jump_codes =
    with_byte e_catch
    ∷ e_j 2
    ∷ e_j 3
    ∷ e_j 4
    ∷ e_j 5
    ∷ e_j 6
    ∷ e_j 7
    ∷ e_j 8
    ∷ with_byte (λ arg. e_j (sign_extend arg))
    ∷ with_word e_j
    ∷ with_pair (λ left right. e_jue left (sign_extend (right + 4)))
    ∷ with_byte (λ arg. e_jeb (sign_extend arg))
    ∷ with_byte (λ arg0. with_byte (λ arg1. e_jue arg0 (sign_extend arg1)))
    ∷ with_pair (λ left right. e_june left (sign_extend (right + 4)))
    ∷ with_byte (λ arg. e_jne (sign_extend arg))
    ∷ with_byte (λ arg0. with_byte (λ arg1. e_june arg0 (sign_extend arg1)))
    ∷ with_byte (λ arg. e_jl (sign_extend arg))
    ∷ with_byte (λ arg. e_jge (sign_extend arg))
    ∷ with_byte (λ arg. e_jg (sign_extend arg))
    ∷ with_byte (λ arg. e_jle (sign_extend arg))
    ∷ with_byte (λ arg. e_jul (sign_extend arg))
    ∷ with_byte (λ arg. e_juge (sign_extend arg))
    ∷ with_byte (λ arg. e_jug (sign_extend arg))
    ∷ with_byte (λ arg. e_jule (sign_extend arg))
    ∷ e_jz 3
    ∷ e_jz 4
    ∷ with_byte (λ arg. e_jz (sign_extend arg))
    ∷ e_jnz 3
    ∷ e_jnz 4
    ∷ with_byte (λ arg. e_jnz (sign_extend arg))
    ∷ with_byte (λ arg. e_jde (sign_extend arg))
    ∷ with_byte (λ arg. e_jdne (sign_extend arg))
    ∷ with_word e_jib
    ∷ with_word e_jiw
    ∷ []

unfoldable pub arith_codes : List Instruction
arith_codes =
    recover
    ∷ e_rec2
    ∷ discard
    ∷ e_dis2
    ∷ e_exch
    ∷ e_dexch
    ∷ e_dup
    ∷ e_ddup
    ∷ e_exdis
    ∷ e_neg
    ∷ e_inc
    ∷ e_dec
    ∷ e_dinc
    ∷ e_dbl
    ∷ e_ddbl
    ∷ e_trpl
    ∷ e_and
    ∷ e_ior
    ∷ with_byte (λ arg. e_adds (sign_extend arg))
    ∷ e_add
    ∷ e_sub
    ∷ e_dadd
    ∷ e_dsub
    ∷ e_adc
    ∷ e_acd
    ∷ with_byte e_al0i
    ∷ e_mul
    ∷ e_dcmp
    ∷ e_udcmp
    ∷ []
