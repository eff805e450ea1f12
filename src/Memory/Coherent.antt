-- ===== src/Memory/Coherent.antt =====
-- The page cache against the map (src/mesa/memory.cpp): what an entry promises, and that the cached
-- accesses do what `FetchPage` and `StorePage` do.
pub mod Entries
pub mod Fetches
pub mod Keeps
pub mod Access
pub mod Maps
pub mod Protection
use mesa_emulator_unix.Common.{
  ℕ, ◌+◌, ◌*◌, ◌/◌, ◌%◌, ◌≤◌, ◌<◌, ◌≡◌, true, false, Option, none, some,
}
use mesa_emulator_unix.Action.{
  Action, Stop, undefined, null_page, index_out_of_range, bad_shift, Outcome, ok, stop, ◌>>=◌, pure,
}
use mesa_emulator_unix.Memory.{Memory, Map, Entry, hash, fetch_page, store_page, empty_entry}

pub record IsEmpty (e : Entry) : Type 0 where
  pub vpno_zero : e.vpno ≡ 0
  pub not_fetched : e.flag_fetch ≡ false
  pub not_stored : e.flag_store ≡ false

-- A filled entry holds the real page of its virtual page, and its flags say no more than the map.
pub record IsLinked (size : ℕ) (maps : ℕ → Map) (i : ℕ) (e : Entry) (rp : ℕ) : Type 0 where
  pub at_hash : e.vpno % 65536 ≡ i
  pub in_map : e.vpno < size
  pub same_page : (maps e.vpno).rp ≡ rp
  pub fetched : e.flag_fetch ≡ true
  pub referenced : (maps e.vpno).mf.referenced ≡ true
  pub stored : e.flag_store ≡ true → (maps e.vpno).mf.dirty ≡ true

abbrev pub PageOk : ℕ → (ℕ → Map) → ℕ → Entry → Option ℕ → Type 0
PageOk size maps i e none = IsEmpty e
PageOk size maps i e (some rp) = IsLinked size maps i e rp

pub record IsCoherent (s : Memory) : Type 0 where
  pub small : s.vp_size ≤ 131072
  pub real : (vp : ℕ) → vp < s.vp_size → (s.maps vp).rp < s.rp_size
  pub entries : (i : ℕ) → PageOk s.vp_size s.maps i (s.entry i) (s.entry i).page

-- The accesses with no cache in front of the map.
unfoldable pub fetch_direct : ℕ → Action Memory ℕ
fetch_direct va = do page ← fetch_page (va / 256); pure (page * 256 + va % 256)

unfoldable pub store_direct : ℕ → Action Memory ℕ
store_direct va = do page ← store_page (va / 256); pure (page * 256 + va % 256)

-- What the program can see of the memory: all but the cache.
abbrev pub forget : Memory → Memory
forget s = record s { entry = λ _. empty_entry }

abbrev pub visible : {A : Type 0} → Outcome Memory A → Outcome Memory A
visible (ok a s) = ok a (forget s)
visible (stop c s) = stop c (forget s)

-- Leaving by an exception, and not by an index outside an array.
abbrev pub IsTame : Stop → Type 0
IsTame (undefined index_out_of_range) = ⊥
IsTame (undefined bad_shift) = ⊥
IsTame c = Unit

-- `t` has the words and the sizes of `s`; flags and cache may differ.
pub record Kept (s t : Memory) : Type 0 where
  pub coherent : IsCoherent t
  pub words : t.words ≡ s.words
  pub rp_size : t.rp_size ≡ s.rp_size
  pub vp_size : t.vp_size ≡ s.vp_size

-- Of a null page nothing is promised.
abbrev pub KeptBy : Memory → Stop → Memory → Type 0
KeptBy s (undefined null_page) t = Unit
KeptBy s c t = IsTame c × Kept s t

-- A pointer to the word of a virtual address, inside the array of real memory.
pub record IsPointer (s : Memory) (va p : ℕ) : Type 0 where
  pub inside : p < s.rp_size * 256
  pub aligned : p % 256 ≡ va % 256

abbrev pub AccessOk : Memory → ℕ → Outcome Memory ℕ → Type 0
AccessOk s va (ok p t) = IsPointer s va p × Kept s t
AccessOk s va (stop c t) = KeptBy s c t
