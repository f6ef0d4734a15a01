-- ===== src/Readers/Dispatch.antt =====
-- src/rfid_reader.c: the table of readers, and in utils/common.c the choice of a reader. Which readers are
-- in the table is decided by the build, so the table is an argument; an entry is a reader's `open`.
use librfid.Prelude.{
  ℕ, ℤ, pos, minus_one, leb, length, get_elem?, Option, none, some, List, if◌then◌else◌,
}
use librfid.Control.{M, pure, ◌>>=◌}

abbrev Table : Type 0 → Type 0 → Type 0 → Type 0
Table D H W = List (Option (D → M W (Option H)))

abbrev open_entry : {D H W : Type 0} → Option (Option (D → M W (Option H))) → D → M W (Option H)
open_entry none data_ptr = pure none
open_entry (some none) data_ptr = pure none
open_entry (some (some p)) data_ptr = p data_ptr

-- `rfid_reader_open`: a handle, or `none` for a null pointer
unfoldable pub open_reader : {D H W : Type 0} → Table D H W → D → ℕ → M W (Option H)
open_reader readers data_ptr id =
    if leb (length readers) id then pure none else open_entry (get_elem? readers id) data_ptr

abbrev pub reader_cm5121 : ℕ
reader_cm5121 = 0

abbrev pub reader_openpcd : ℕ
reader_openpcd = 2

-- `reader_init` of utils/common.c, with `data` the null pointer: its result and the handle
unfoldable pub reader_init : {D H W : Type 0} → Table D H W → D → M W (ℤ × Option H)
unfolding open_reader
reader_init readers data_ptr = do
  first ← open_reader readers data_ptr reader_openpcd
  elim first [
    | some rh ↦ pure (pos 0, some rh)
    | none ↦ (do
      second ← open_reader readers data_ptr reader_cm5121
      elim second [ some rh ↦ pure (pos 0, some rh) | none ↦ pure (minus_one, none) ])
  ]
