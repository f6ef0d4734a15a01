-- ===== src/Scan/Laws.antt =====
-- What a scan of src/rfid_scan.c finds.
use librfid.Prelude.{
  ℕ, zero, suc, ℤ, pos, is_neg, ◌+◌, ◌^◌, ◌<◌, ◌≡◌, ◌⊎◌, refl, Bool, true, false, test, arith,
}
use librfid.Control.{Run, ok, returned, fault, out_of_fuel}
use librfid.Reader.{Reader}
use librfid.Layer2.Handle.{Layer2Handle}
use librfid.Layer2.Dispatch as Layer2
use librfid.Layer2.Dispatch.{Bounds}
use librfid.Scan.{layer2_scan1, layer2_scan_from, layer2_scan}

-- The state and the result that a run leaves, with the first state where it leaves none.
abbrev state_after : {S A : Type 0} → Run S A → S → S
state_after (ok a s) s0 = s
state_after (returned r s) s0 = s
state_after _ s0 = s0

abbrev result_of : {S : Type 0} → Run S ℤ → ℤ
result_of (ok r s) = r
result_of (returned r s) = r
result_of _ = pos 0

module _ {W : Type 0} (rdr : Reader W) (n : Bounds) (allocated : ℕ → Bool) where
  -- The handle of the layer with this number was made, and opened without an error.
  abbrev pub IsOpened : ℕ → Layer2Handle W → Layer2Handle W → Type 0
  IsOpened i h h' =
      (test rdr.l2_supported (2 ^ i) ≡ true)
      × (made : Layer2Handle W) × (Layer2.init rdr i (allocated i) h ≡ ok true made)
      × (r : ℤ) × (is_neg r ≡ false)
      × ((Layer2.open_l2 rdr n made ≡ ok r h') ⊎ (Layer2.open_l2 rdr n made ≡ returned r h'))

  scan1-IsOpened :
      (i : ℕ) (h h' : Layer2Handle W)
      → layer2_scan1 rdr n allocated i h ≡ ok true h'
      → IsOpened i h h'
  unfolding layer2_scan1
  scan1-IsOpened i h h' e =
      let made = state_after (Layer2.init rdr i (allocated i) h) h in
      (
        ground arith,
        made,
        ground arith,
        result_of (Layer2.open_l2 rdr n made),
        ground arith,
        ground arith,
      )

  -- A handle that some layer below a number has opened.
  abbrev pub IsFound : ℕ → Layer2Handle W → Type 0
  IsFound bound h' = (j : ℕ) × (j < bound) × (before : Layer2Handle W) × IsOpened j before h'

  one_more :
      (rounds i : ℕ) (h h' : Layer2Handle W) (first : Run (Layer2Handle W) Bool)
      → layer2_scan1 rdr n allocated i h ≡ first
      → layer2_scan_from rdr n allocated (suc rounds) i h ≡ ok true h'
      → ((h1 : Layer2Handle W)
          → layer2_scan_from rdr n allocated rounds (i + 1) h1 ≡ ok true h'
          → IsFound (i + 1 + rounds) h')
      → IsFound (i + suc rounds) h'
  unfolding layer2_scan_from
  one_more rounds i h h' (ok true h1) q e later =
      (i, omega arith, h, scan1-IsOpened i h h' (ground arith))
  one_more rounds i h h' (ok false h1) q e later =
      let (j, small, before, found) = later h1 (ground arith) in (j, omega arith, before, found)
  one_more rounds i h h' (returned r h1) q e later = absurd (ground arith)
  one_more rounds i h h' fault q e later = absurd (ground arith)
  one_more rounds i h h' out_of_fuel q e later = absurd (ground arith)

  scan_from-IsFound :
      (rounds i : ℕ) (h h' : Layer2Handle W)
      → layer2_scan_from rdr n allocated rounds i h ≡ ok true h'
      → IsFound (i + rounds) h'
  unfolding layer2_scan_from
  scan_from-IsFound zero i h h' e = absurd (ground arith)
  scan_from-IsFound (suc rounds) i h h' e =
      one_more rounds i h h' (layer2_scan1 rdr n allocated i h) refl e
        (λ h1 e'. scan_from-IsFound rounds (i + 1) h1 h' e')

  -- If a scan of the second layers finds a card, then one of the sixteen layers, which the reader
  -- supports, made a handle and opened it with a result that is not negative, and the handle found is
  -- the one it left.
  pub layer2_scan-IsFound :
      (h h' : Layer2Handle W) → layer2_scan rdr n allocated h ≡ ok true h' → IsFound 16 h'
  unfolding layer2_scan
  layer2_scan-IsFound h h' e = scan_from-IsFound 16 0 h h' e
