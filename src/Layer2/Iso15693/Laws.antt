-- ===== src/Layer2/Iso15693/Laws.antt =====
-- Frames, options and blocks of ISO 15693.
use librfid.Prelude.{
  ℕ, pos, neg_einval, ◌+◌, ◌-◌, ◌≤◌, ◌<◌, ◌≡◌, ◌⊎◌, refl, some, none, List, [], ◌∷◌, Option, Bool,
  arith, length, drop, length-take, length-drop, test, if◌then◌else◌, ◌==◌,
}
use librfid.Control.{ok, fault, Run, returned, out_of_fuel, ◌>>◌}
use librfid.Reader.{Reader, Reply, frame_15693}
use librfid.Layer2.Handle.{Layer2Handle}
use librfid.Layer2.Options.{got, uint}
use librfid.Layer2.Iso15693.Frames.{build_acf, f5_afi_pres}
use librfid.Layer2.Iso15693.Blocks.{copied, finish_read}
use librfid.Layer2.Iso15693.Session.{
  setopt, getopt, select, opt_mod_depth, opt_vcd_coding, opt_vicc_subc, opt_vicc_speed,
}

-- An inventory frame carries at most one byte of its mask, whatever the mask's length: with a mask
-- of at least one byte, the frame has three bytes, one more if the AFI is present, and one more if
-- the number of mask bits is not 0.
pub length-build_acf :
    (flags afi mask_len : ℕ) (mask : List ℕ)
    → 0 < length mask
    → length (build_acf flags afi mask_len mask)
      ≡ 3 + (if test flags f5_afi_pres then 1 else 0) + (if mask_len == 0 then 0 else 1)
unfolding build_acf
length-build_acf flags afi mask_len [] h = absurd (omega arith)
length-build_acf flags afi mask_len (m ∷ mask) h = ground arith

-- What a run returns when it falls through.
pub value : {S A : Type 0} → Run S A → Option A
value (ok a s) = some a
value (returned r s) = none
value fault = none
value out_of_fuel = none

module _ {W : Type 0} (rdr : Reader W) where
  -- The options that say how the reader sends and what it expects keep the value 1 or 2 that is
  -- set: setting it succeeds, and a query that follows with room for four bytes gives it back.
  pub getopt-setopt_two :
      (optname val optlen : ℕ) (h : Layer2Handle W)
      → (optname ≡ opt_mod_depth) ⊎ (optname ≡ opt_vcd_coding) ⊎ (optname ≡ opt_vicc_subc)
      → (val ≡ 1) ⊎ (val ≡ 2)
      → 4 ≤ optlen
      → (value (setopt rdr optname (some (val ∷ [])) 1 h) ≡ some (pos 0))
        × (value ((setopt rdr optname (some (val ∷ [])) 1 >> getopt rdr optname optlen) h)
            ≡ some (got (pos 0) (uint val) 4))
  unfolding setopt getopt value
  getopt-setopt_two optname val optlen h which two room = ground arith

  -- Setting the fast bit rate takes effect and reports -EINVAL: the case runs on into the one of
  -- the number of slots, which knows no value 2.
  pub setopt_speed_fast :
      (h : Layer2Handle W)
      → setopt rdr opt_vicc_speed (some (2 ∷ [])) 1 h
        ≡ ok neg_einval (record h { v = record (h.v) { vicc_fast = 1 } })
  unfolding setopt
  setopt_speed_fast h = refl

  -- With a reader that stores no byte for any selection, selecting reads an answer that was never
  -- received.
  pub select_silent :
      (h : Layer2Handle W)
      → ((tx : List ℕ) (timeout : ℕ) (w : W)
          → (rdr.transceive frame_15693 tx 4 timeout 0 w).0.bytes ≡ [])
      → select rdr h ≡ fault
  unfolding select
  select_silent h silent = rw (silent (_) (_) (_))

  -- If the length reported is the number of bytes received, a read of a block that succeeds gives
  -- as many bytes as it says, no more than the caller has room for, and leaves the handle alone.
  pub finish_read_bounded :
      (with_sec : Bool) (len n : ℕ) (r : Reply) (content : List ℕ) (h h' : Layer2Handle W)
      → length r.bytes ≡ r.rx_len
      → finish_read rdr with_sec len r h ≡ ok (copied n content) h'
      → (length content ≡ n) × (n ≤ len) × (h' ≡ h)
  unfolding finish_read
  finish_read_bounded with_sec len n r content h h' whole e = ground (
    arith,
    length-take (r.rx_len - 1) (drop 1 r.bytes),
    length-take (r.rx_len - 2) (drop 2 r.bytes),
    length-drop 1 r.bytes,
    length-drop 2 r.bytes,
  )
