-- ===== src/FrameSize.antt =====
-- src/rfid_iso14443_common.c: the table of ISO 14443 frame sizes and the code numbers of its rows.
pub mod Laws
use librfid.Prelude.{
  ℕ, zero, suc, ◌+◌, ◌≡◌, Option, none, some, List, [], ◌∷◌, length, get_elem?, get_or, ltb, leb,
  ◌==◌, if◌then◌else◌,
}

abbrev pub fsdi_table : List ℕ
fsdi_table = 16 ∷ 24 ∷ 32 ∷ 40 ∷ 48 ∷ 64 ∷ 96 ∷ 128 ∷ 256 ∷ []

-- What a conversion returns: the value stored through the pointer, -1 with nothing stored, or a
-- read past the end of the table.
pub data Coded : Type 0 where
  stored : ℕ → Coded
  refused past_end : Coded

abbrev pub of_read : Option ℕ → Coded
of_read none = past_end
of_read (some v) = stored v

-- `iso14443_fsdi_to_fsd`
unfoldable pub fsdi_to_fsd : ℕ → Coded
fsdi_to_fsd fsdi =
    if ltb (length fsdi_table) fsdi then refused else of_read (get_elem? fsdi_table fsdi)

-- The loop of `iso14443_fsd_to_fsdi` over the rows from row `i` on.
unfoldable pub find_row : List ℕ → ℕ → ℕ → Coded
find_row [] i fsd = refused
find_row (row ∷ rows) i fsd = if row == fsd then stored i else find_row rows (i + 1) fsd

-- `iso14443_fsd_to_fsdi`
unfoldable pub fsd_to_fsdi : ℕ → Coded
unfolding find_row
fsd_to_fsdi fsd = find_row fsdi_table 0 fsd

-- The loop of `iso14443_fsd_approx`, with `n` rows left: it looks at row `n - 1` next.
unfoldable pub approx_from : ℕ → ℕ → ℕ
approx_from zero fsd = get_or fsdi_table 0 0
approx_from (suc i) fsd =
    let row = get_or fsdi_table i 0 in if leb row fsd then row else approx_from i fsd

-- `iso14443_fsd_approx`
unfoldable pub fsd_approx : ℕ → ℕ
unfolding approx_from
fsd_approx fsd = approx_from (length fsdi_table) fsd
