-- ===== src/Tcl/AtsParsing.antt =====
-- What `tcl_parse_ats` makes of the bytes of an answer.
use librfid.Prelude.{
  ℕ, zero, suc, ℤ, pos, negsuc, ◌+◌, ◌-◌, ◌<◌, ◌≤◌, ◌≡◌, refl, some, List, ◌∷◌, Bool, true, false,
  ltb, test, bit_and, bit_or, u8, get_or, ◌>>>◌, arith, if◌then◌else◌,
}
use librfid.Control.{Run, ok, returned, fault, out_of_fuel}
use librfid.Reader.{Reader}
use librfid.FrameSize.{stored, fsdi_to_fsd}
use librfid.Tcl.Handle.{ProtocolHandle, nad_supported, cid_supported}
use librfid.Tcl.Ats.{set_fsc, fwi_to_fwt, parse_interface, parse_ats}

abbrev pub count : Bool → ℕ
count true = 1
count false = 0

-- The place in `rest`, behind T0, of each interface byte, where the bits of T0 say which are there
abbrev pub place_tb : ℕ → ℕ
place_tb t0 = count (test t0 0x10)

abbrev pub place_tc : ℕ → ℕ
place_tc t0 = count (test t0 0x10) + count (test t0 0x20)

abbrev pub places : ℕ → ℕ
places t0 = count (test t0 0x10) + count (test t0 0x20) + count (test t0 0x40)

abbrev is_done : {S : Type 0} → Run S ℤ → Bool
is_done (ok (pos zero) s) = true
is_done _ = false

pub done : {S : Type 0} (m : Run S ℤ) → is_done m ≡ true → (s : S) × (m ≡ ok (pos 0) s)
done (ok (pos zero) s) e = (s, refl)
done (ok (pos (suc n)) s) e = absurd (ground arith)
done (ok (negsuc n) s) e = absurd (ground arith)
done (returned r s) e = absurd (ground arith)
done fault e = absurd (ground arith)
done out_of_fuel e = absurd (ground arith)

pub parse_ats-done :
    {W : Type 0} (rdr : Reader W) (tl t0 x y z fsd : ℕ) (more : List ℕ) (h : ProtocolHandle W)
    → 2 ≤ tl
    → fsdi_to_fsd (bit_and t0 0x0f) ≡ stored fsd
    → is_done (parse_ats rdr (tl ∷ t0 ∷ x ∷ y ∷ z ∷ more) tl h) ≡ true
unfolding parse_ats parse_interface set_fsc
parse_ats-done rdr tl t0 x y z fsd more h long e = ground arith

module _ {W : Type 0} (rdr : Reader W) (tl t0 x y z : ℕ) (more : List ℕ) (h h' : ProtocolHandle W)
    (long : 2 + places t0 ≤ tl) (byte : tl < 256)
    (e : parse_ats rdr (tl ∷ t0 ∷ x ∷ y ∷ z ∷ more) tl h ≡ ok (pos 0) h') where
  pub parsed_historical :
      (h'.th.historical_bytes ≡ some (2 + places t0))
      × (h'.th.historical_len ≡ tl - (2 + places t0))
  unfolding parse_ats parse_interface
  parsed_historical = ground arith

  pub parsed_ta : h'.th.ta ≡ (if test t0 0x10 then x else 0)
  unfolding parse_ats parse_interface set_fsc
  parsed_ta = ground arith

  pub parsed_tb :
      (byte_b : ℕ)
      → get_or (x ∷ y ∷ z ∷ more) (place_tb t0) 0 ≡ byte_b
      → (h'.th.sfgt
          ≡ (if test t0 0x20 then u8 (fwi_to_fwt rdr.fc (bit_and byte_b 0x0f)) else h.th.sfgt))
        × (h'.th.fwt
            ≡ (if test t0 0x20 then fwi_to_fwt rdr.fc (bit_and byte_b 0xf0 >>> 4) else h.th.fwt))
  unfolding parse_ats parse_interface set_fsc
  parsed_tb byte_b at = ground arith

  pub parsed_tc :
      (byte_c : ℕ)
      → get_or (x ∷ y ∷ z ∷ more) (place_tc t0) 0 ≡ byte_c
      → h'.th.flags ≡ (
          if test t0 0x40
          then (let flags =
                if test byte_c 0x01 then bit_or h.th.flags nad_supported else h.th.flags in
              if test byte_c 0x02 then bit_or flags cid_supported else flags)
          else h.th.flags)
  unfolding parse_ats parse_interface set_fsc
  parsed_tc byte_c at = ground arith

  pub parsed_fsc :
      (fsd : ℕ)
      → fsdi_to_fsd (bit_and t0 0x0f) ≡ stored fsd
      → h'.th.fsc ≡ (if ltb rdr.mtu fsd then rdr.mtu else fsd)
  unfolding parse_ats parse_interface set_fsc
  parsed_fsc fsd s = ground arith
