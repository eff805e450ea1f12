-- ===== src/Opcode/Control/FrameLists.antt =====
-- The lists of free frames of src/opcode/Opcode_control.cpp, on the words of virtual memory.
use mesa_emulator_unix.Common.{
  ℕ, zero, suc, ◌%◌, ◌<◌, ◌≡◌, ◌≢◌, arith, ◌==◌, not, leb, subst, update, u16, fun_ext,
}
use mesa_emulator_unix.Action.{◌>>=◌, ◌>>◌, raise_if, fault, frame_fault}
use mesa_emulator_unix.Types.{low_byte, byte_pair}
use mesa_emulator_unix.Machine.Access.{lengthen}
use mesa_emulator_unix.Machine.Words.{read_mds, write_mds}
use mesa_emulator_unix.Machine.Flat.{
  Does, Does-then, read_mds-Does, write_mds-Does, pure-Does, raise_if-Does, if-Does-true,
  if-Does-false,
}
use mesa_emulator_unix.Opcode.Control.{lo_offset, lo_word, av_slot, av_tag, av_data}
use mesa_emulator_unix.Opcode.Control.Frames.{av_frame, alloc_slot, alloc, free, slots}

-- The item of a slot of the allocation vector.
abbrev pub item_at : (ℕ → ℕ) → ℕ → ℕ → ℕ
item_at f mds slot = f (lengthen mds (av_slot slot))

-- `k` indirect items lead from a slot to the last one.
pub data Leads (f : ℕ → ℕ) (mds : ℕ) : ℕ → ℕ → ℕ → Type 0 where
  here : (slot : ℕ) → av_tag (item_at f mds slot) ≢ 2 → Leads f mds zero slot slot
  onto :
      (k slot end : ℕ)
      → av_tag (item_at f mds slot) ≡ 2
      → av_data (item_at f mds slot) < 256
      → Leads f mds k (av_data (item_at f mds slot)) end
      → Leads f mds (suc k) slot end

module _ {D : ℕ → Type 0} {mds : ℕ} (f : ℕ → ℕ)
    (av : (slot : ℕ) → slot < 256 → D (lengthen mds (av_slot slot))) where
  -- The walk of Alloc ends where the indirect items lead to, in at most as many rounds as its fuel.
  pub alloc_slot-Does :
      (fuel k slot end : ℕ)
      → Leads f mds k slot end
      → slot < 256
      → k < fuel
      → Does D mds f f (end, item_at f mds end) (alloc_slot fuel slot)
  unfolding alloc_slot
  alloc_slot-Does zero k slot end l h lt = absurd (omega (arith, lt))
  alloc_slot-Does (suc fuel) zero slot end (here _ other) h lt =
      Does-then _ (read_mds-Does (av_slot slot) (av slot h)) (
        if-Does-true (not (av_tag (item_at f mds slot) == 2)) _ (ground (arith, other))
          (pure-Does _))
  alloc_slot-Does (suc fuel) (suc k) slot end (onto _ _ _ tag small l) h lt =
      Does-then _ (read_mds-Does (av_slot slot) (av slot h)) (
        if-Does-false (not (av_tag (item_at f mds slot) == 2)) _ (ground (arith, tag)) (
          if-Does-false (leb 256 (av_data (item_at f mds slot))) _ (ground (arith, small)) (
            alloc_slot-Does fuel k (av_data (item_at f mds slot)) end l small (omega (arith, lt)))))

av_frame-Does :
    {D : ℕ → Type 0} {mds : ℕ} {f : ℕ → ℕ} (u : ℕ) → u % 4 ≡ 0 → Does D mds f f u (av_frame u)
unfolding av_frame
av_frame-Does u e = if-Does-false (not (av_tag u == 0)) _ (ground (arith, e)) (pure-Does u)

-- What Alloc does at the end of the walk, at a slot with the frame `block` in it.
module _ {D : ℕ → Type 0} {mds : ℕ} (f : ℕ → ℕ) (slot block : ℕ) where
  unlist-Does :
      (fsi : ℕ)
      → block % 4 ≡ 0
      → D (lengthen mds block)
      → D (lengthen mds (av_slot slot))
      → Does D mds f
          (update f (lengthen mds (av_slot slot)) (u16 (f (lengthen mds block))))
          block
          (do
            raise_if (av_tag block == 1) (fault (frame_fault fsi))
            link ← av_frame block
            next ← read_mds link
            write_mds (av_slot slot) next
            av_frame block)
  unlist-Does fsi aligned d e =
      Does-then _ (raise_if-Does (av_tag block == 1) _ (ground (arith, aligned))) (
        Does-then _ (av_frame-Does block aligned) (
          Does-then _ (read_mds-Does block d)
            (Does-then _ (write_mds-Does (av_slot slot) _ e) (av_frame-Does block aligned))))

-- Alloc of a frame size whose indirect items, at most 256 of them, lead to a slot with a frame in it
-- ends, and gives that frame; the slot then has what the first word of the frame held, and no other
-- word of the main data space changes.
pub alloc_lem :
    {D : ℕ → Type 0} {mds : ℕ} (f : ℕ → ℕ)
    → ((slot : ℕ) → slot < 256 → D (lengthen mds (av_slot slot)))
    → (fsi k slot : ℕ) → fsi < 256
    → slot < 256
    → k < 257
    → Leads f mds k fsi slot
    → item_at f mds slot % 4 ≡ 0
    → D (lengthen mds (item_at f mds slot))
    → Does D mds f
        (update f (lengthen mds (av_slot slot)) (u16 (f (lengthen mds (item_at f mds slot)))))
        (item_at f mds slot)
        (alloc fsi)
unfolding alloc
alloc_lem f av fsi k slot small last enough leads aligned d =
    Does-then _ (alloc_slot-Does f av slots k fsi slot leads small enough)
      (unlist-Does f slot (item_at f _ slot) fsi aligned d (av slot last))

low_byte-lt : (u : ℕ) → low_byte u < 256
unfolding low_byte byte_pair
low_byte-lt u = omega arith

-- The slot of a frame's size, which is the low byte of its overhead word, and where it lies.
abbrev pub size_of : ℕ → (ℕ → ℕ) → ℕ → ℕ
size_of mds f block = low_byte (f (lengthen mds (lo_offset block lo_word)))

abbrev pub slot_of : ℕ → (ℕ → ℕ) → ℕ → ℕ
slot_of mds f block = lengthen mds (av_slot (size_of mds f block))

-- The words behind Free.
abbrev pub freed : ℕ → (ℕ → ℕ) → ℕ → ℕ → ℕ
freed mds f block =
    update (update f (lengthen mds block) (u16 (f (slot_of mds f block)))) (slot_of mds f block)
      (u16 block)

module _ (mds : ℕ) (f : ℕ → ℕ) (block : ℕ) where
  freed-slot : block < 65536 → freed mds f block (slot_of mds f block) ≡ block
  freed-slot word = ground (arith, word)

  refilled :
      lengthen mds block ≢ slot_of mds f block
      → f (slot_of mds f block) < 65536
      → update
          (freed mds f block)
          (slot_of mds f block)
          (u16 (freed mds f block (lengthen mds block)))
        ≡ update f (lengthen mds block) (f (slot_of mds f block))
  refilled apart word = fun_ext λ u. ground (arith, apart, word)

module _ {D : ℕ → Type 0} {mds : ℕ} (f : ℕ → ℕ) (block : ℕ) where
  free-Does :
      D (lengthen mds (lo_offset block lo_word))
      → D (lengthen mds block)
      → D (slot_of mds f block)
      → Does D mds f (freed mds f block) tt (free block)
  unfolding free
  free-Does d e h = Does-then _ (read_mds-Does (lo_offset block lo_word) d) (
      Does-then _ (read_mds-Does (av_slot (size_of mds f block)) h) (
        Does-then _ (write_mds-Does block _ e)
          (write_mds-Does (av_slot (size_of mds f block)) block h)))

-- A frame that is freed is what the next Alloc of its size gives, and the list of that size is then as
-- it was: of the main data space only the first word of the frame changes, to the old head of the list.
-- The frame is aligned, its first word is not the slot itself, and the slot holds a word.
pub free-alloc :
    {D : ℕ → Type 0} {mds : ℕ} (f : ℕ → ℕ) (block : ℕ)
    → ((slot : ℕ) → slot < 256 → D (lengthen mds (av_slot slot)))
    → D (lengthen mds (lo_offset block lo_word))
    → D (lengthen mds block)
    → block < 65536
    → block % 4 ≡ 0
    → lengthen mds block ≢ slot_of mds f block
    → f (slot_of mds f block) < 65536
    → Does D mds f
        (update f (lengthen mds block) (f (slot_of mds f block)))
        block
        (free block >> alloc (size_of mds f block))
free-alloc {D} {mds} f block av d e small aligned apart word =
    let size = size_of mds f block in
    let byte : size < 256 = low_byte-lt _ in
    let at = freed-slot mds f block small in
    let first : Leads (freed mds f block) mds 0 size size =
      here size (rw at (ground (arith, aligned))) in
    let given =
      alloc_lem {D = D} {mds = mds} (freed mds f block) av size 0 size byte byte (omega arith) first
        (rw at aligned) (rw at e) in
    let given_block =
      subst
        (λ b.
          Does D mds (freed mds f block)
            (update (freed mds f block) (slot_of mds f block)
              (u16 (freed mds f block (lengthen mds b))))
            b (alloc size))
        at given in
    Does-then _ (free-Does f block d e (av size byte)) (
      subst (λ g. Does D mds (freed mds f block) g block (alloc size))
        (refilled mds f block apart word) given_block)
