-- ===== src/Tcl/Pps.antt =====
-- `tcl_do_pps`: the choice of a bit rate.
use librfid.Prelude.{
  ℕ, ℤ, pos, minus_one, some, List, [], ◌∷◌, Bool, true, false, ◌&&◌, not, ◌==◌, bit_and, bit_or,
  ◌<<<◌, ◌>>>◌, test, if◌then◌else◌,
}
use librfid.Control.{M, ◌>>=◌, ◌>>◌, pure, leave, leave_if, leave_neg, get, call, read}
use librfid.Reader.{Reader, frame_14443a_regular}
use librfid.Layer2.Dispatch as Layer2
use librfid.Layer2.Iso14443a.Session.{opt_speed_rx, opt_speed_tx}
use librfid.Tcl.Handle.{TclState, ats_rcvd, ProtocolHandle, on_l2}

-- `RFID_14443A_SPEED_*` and `PPS_DIV_*`
abbrev pub speed_106k : ℕ
speed_106k = 0x01

abbrev pub speed_212k : ℕ
speed_212k = 0x02

abbrev pub speed_424k : ℕ
speed_424k = 0x04

abbrev pub speed_848k : ℕ
speed_848k = 0x08

-- The divisors of `tcl_do_pps` out of TA: `0x70 >> 4` binds tighter than `&`.
unfoldable pub divisor_rx : ℕ → ℕ
divisor_rx ta = bit_and ta 0x07

unfoldable pub divisor_tx : ℕ → ℕ
divisor_tx ta = bit_and ta (0x70 >>> 4)

-- `d_to_di`, at the speeds of the reader
unfoldable pub d_to_di : ℕ → ℕ → ℕ
d_to_di speed d =
    if test d 4 && test speed speed_848k
    then 3
    else if test d 2 && test speed speed_424k
    then 2
    else if test d 1 && test speed speed_212k
    then 1
    else 0

-- `di_to_speed`, of the numbers that `d_to_di` gives
unfoldable pub di_to_speed : ℕ → ℕ
di_to_speed di =
    if di == 3
    then speed_848k
    else if di == 2
    then speed_424k
    else if di == 1
    then speed_212k
    else speed_106k

abbrev is_ats_rcvd : TclState → Bool
is_ats_rcvd ats_rcvd = true
is_ats_rcvd _ = false

-- The three bytes of the request
unfoldable pub ppss : ℕ → ℕ → ℕ → List ℕ
unfolding d_to_di divisor_rx divisor_tx
ppss cid speed ta =
    bit_or 0xd0 (bit_and cid 0x0f)
    ∷ 0x11
    ∷ bit_or (d_to_di speed (divisor_rx ta)) (d_to_di speed (divisor_tx ta) <<< 2)
    ∷ []

module _ {W : Type 0} (rdr : Reader W) where
  -- `tcl_do_pps`
  unfoldable pub do_pps : M (ProtocolHandle W) ℤ
  unfolding ppss di_to_speed
  do_pps = call (do
    h ← get
    if is_ats_rcvd h.th.state then pure tt else leave minus_one
    leave_if (not (divisor_rx h.th.ta == divisor_tx h.th.ta) && not (test h.th.ta 0x80)) minus_one
    r ←
        on_l2 (
          Layer2.transceive rdr frame_14443a_regular (ppss h.th.cid rdr.speed h.th.ta) 1 h.th.fwt 1)
    leave_neg r.ret
    answer ← read r.bytes 0
    leave_if (not (answer == bit_or 0xd0 (bit_and h.th.cid 0x0f))) minus_one
    let speed = di_to_speed (d_to_di rdr.speed (divisor_rx h.th.ta)) ∷ 0 ∷ 0 ∷ 0 ∷ []
    ret ← on_l2 (Layer2.setopt rdr opt_speed_rx (some speed) 4)
    leave_neg ret
    ret' ← on_l2 (Layer2.setopt rdr opt_speed_tx (some speed) 4)
    leave_neg ret'
    pure (pos 0))
