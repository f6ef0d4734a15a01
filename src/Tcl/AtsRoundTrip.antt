-- ===== src/Tcl/AtsRoundTrip.antt =====
-- `tcl_parse_ats` reads an answer to select as it was coded.
use librfid.Prelude.{
  ℕ, pos, ◌+◌, ◌<◌, ◌≤◌, ◌≡◌, refl, ap, ◌∙◌, List, [], ◌∷◌, ◌++◌, ltb, test, bit_and, length,
  length-append, arith, if◌then◌else◌,
}
use librfid.Control.{ok}
use librfid.Reader.{Reader}
use librfid.FrameSize.{stored, fsdi_to_fsd}
use librfid.Tcl.Handle.{ProtocolHandle}
use librfid.Tcl.Ats.{parse_ats}
use librfid.Tcl.AtsCoding.{Ats, text_of, tb_bytes, tc_bytes, there, t0_of, t0_parts}
use librfid.Tcl.AtsParsing.{
  count, places, parsed_historical, parsed_ta, parsed_tb, parsed_tc, parsed_fsc, parse_ats-done,
  done,
}
use librfid.Tcl.AtsFields.{
  Fits, Parsed, Stored, rest_of, behind_rest, rest_length, ta_read, stored_by, tb-Times, flags_read,
}

module _ {W : Type 0} (rdr : Reader W) where
  parse_stored :
      (tl t0 fsd : ℕ) (rest : List ℕ) (h : ProtocolHandle W)
      → 3 ≤ length rest
      → 2 + places t0 ≤ tl
      → tl < 256
      → fsdi_to_fsd (bit_and t0 0x0f) ≡ stored fsd
      → (h' : ProtocolHandle W) × (parse_ats rdr (tl ∷ t0 ∷ rest) tl h ≡ ok (pos 0) h')
        × (h'.th.fsc ≡ (if ltb rdr.mtu fsd then rdr.mtu else fsd))
        × Stored rdr.fc tl (test t0 0x10) (test t0 0x20) (test t0 0x40) rest h.th h'.th
  parse_stored tl t0 fsd [] h full long byte size = absurd (omega arith)
  parse_stored tl t0 fsd (x ∷ []) h full long byte size = absurd (omega arith)
  parse_stored tl t0 fsd (x ∷ y ∷ []) h full long byte size = absurd (omega arith)
  parse_stored tl t0 fsd (x ∷ y ∷ z ∷ more) h full long byte size =
      let (h', e) =
        done (parse_ats rdr (tl ∷ t0 ∷ x ∷ y ∷ z ∷ more) tl h)
          (parse_ats-done rdr tl t0 x y z fsd more h (omega arith) size) in
      (
        h',
        e,
        parsed_fsc rdr tl t0 x y z more h h' long byte e fsd size,
        (
          parsed_ta rdr tl t0 x y z more h h' long byte e,
          parsed_tb rdr tl t0 x y z more h h' long byte e _ refl,
          parsed_tc rdr tl t0 x y z more h h' long byte e _ refl,
          parsed_historical rdr tl t0 x y z more h h' long byte e,
        ),
      )

  -- Let an answer to select be coded by ISO 14443-4, with a size of the frames that the table has, the
  -- times and options in their range, and at most 255 bytes, in a buffer with three bytes or more behind
  -- it. Then parsing it succeeds, and what is stored is what was coded: the size of the frames up to
  -- the limit of the reader, TA or 0, the two times of TB, of which the start-up time is cut to a byte,
  -- and the options of TC, where there are such bytes and what was there before where not, and the
  -- place and number of the historical bytes.
  pub parse_ats-text_of :
      (a : Ats) (fsd : ℕ) (pad : List ℕ) (h : ProtocolHandle W)
      → Fits a
      → fsdi_to_fsd a.fsci ≡ stored fsd
      → 3 ≤ length pad
      → (h' : ProtocolHandle W) × (parse_ats rdr (text_of a ++ pad) (length (text_of a)) h
          ≡ ok (pos 0) h')
        × Parsed rdr.fc rdr.mtu fsd a h.th h'.th
  parse_ats-text_of a fsd pad h (small, tb_fits, byte) size padded =
      let rest = rest_of a.ta a.tb a.tc a.historical in
      let t0 = t0_of a.fsci (there a.ta) (there a.tb) (there a.tc) in
      let parts = t0_parts a.fsci (there a.ta) (there a.tb) (there a.tc) small in
      let all = rest_length a.ta a.tb a.tc a.historical in
      let places_are : places t0 ≡ count (there a.ta) + count (there a.tb) + count (there a.tc) =
        rw (parts.1, parts.2, parts.3) refl in
      let (h', e, fsc, stored_bytes) =
        parse_stored (length (text_of a)) t0 fsd (rest ++ pad) h
          (omega (arith, length-append rest pad)) (omega (arith, places_are, all)) byte
          (ap fsdi_to_fsd (parts.0) ∙ size) in
      let (ta, tb, tc, (place, number)) =
        stored_by rdr.fc (length (text_of a)) (rest ++ pad) h.th h'.th (test t0 0x10) (test t0 0x20)
          (test t0 0x40) (there a.ta) (there a.tb) (there a.tc) (parts.1) (parts.2) (parts.3)
          stored_bytes in
      (
        h',
        e,
        (
          fsc,
          ta ∙ ta_read a.ta (tb_bytes a.tb ++ (tc_bytes a.tc ++ a.historical)) pad,
          tb-Times rdr.fc h.th h'.th a.ta a.tb (tc_bytes a.tc ++ a.historical) pad tb_fits tb,
          flags_read h.th.flags h'.th.flags a.ta a.tb a.tc a.historical pad tc,
          (
            2 + (count (there a.ta) + count (there a.tb) + count (there a.tc)),
            place,
            behind_rest (length (text_of a)) t0 a.ta a.tb a.tc a.historical,
          ),
          number ∙ omega (arith, all),
        ),
      )
