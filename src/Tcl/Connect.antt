-- ===== src/Tcl/Connect.antt =====
-- `tcl_connect`, `tcl_deselect`, `tcl_init` and `tcl_getopt`.
use librfid.Prelude.{
  ℕ, ℤ, pos, minus_one, neg_einval, neg_e2big, none, some, List, take, replicate, overlay, Bool,
  true, false, not, ltb, ◌==◌, bit_and, bit_or, test, if◌then◌else◌,
}
use librfid.Control.{M, ◌>>=◌, ◌>>◌, pure, leave, leave_if, leave_neg, get, modify, call}
use librfid.Reader.{Reader, frame_14443a_regular}
use librfid.FrameSize.{fsd_approx}
use librfid.Layer2.Handle.{Layer2Handle, Layer2Kind, iso14443a, iso14443b, iso15693, BState}
use librfid.Layer2.Dispatch as Layer2
use librfid.Layer2.Options.{nothing, uint8, bytes, GetOpt, got}
use librfid.Layer2.Iso14443b.Atqb as B
use librfid.Tcl.Handle.{
  TclState, initial, rats_sent, ats_rcvd, established, deselected, TclHandle, ProtocolHandle, on_l2,
  modify_th, nad_supported, cid_supported,
}
use librfid.Tcl.Ats.{activation_fwt, request_ats}
use librfid.Tcl.Pps.{do_pps}
use librfid.Tcl.Prologue.{build_prologue_s}

abbrev pub may_connect : TclState → Bool
may_connect deselected = true
may_connect initial = true
may_connect _ = false

-- The `switch` on the state of the type B layer.
abbrev b_state : BState → TclState → TclState
b_state BState.selected s = ats_rcvd
b_state BState.attrib_sent s = rats_sent
b_state _ s = s

-- The case of type B: what the activation of the second layer found.
abbrev pub from_type_b : {W : Type 0} → Layer2Handle W → TclHandle → TclHandle
from_type_b l2h th = record th {
  cid = l2h.b.cid;
  fsc = l2h.b.fsc;
  fsd = l2h.b.fsd;
  fwt = l2h.b.fwt;
  flags =
      (let f =
          if test l2h.b.flags B.cid_supported then bit_or th.flags cid_supported else th.flags in
        if test l2h.b.flags B.nad_supported then bit_or f nad_supported else f);
  state = b_state l2h.b.state th.state;
  ats = overlay (take 4 l2h.uid) th.ats;
  ats_len = 4;
  historical_bytes = some 0;
}

module _ {W : Type 0} (rdr : Reader W) where
  abbrev activate : Layer2Kind → M (ProtocolHandle W) (Unit {0})
  activate iso14443a = do
    ret ← request_ats rdr
    leave_neg ret
    h ← get
    if test h.th.ta 0x77 then (do ret' ← do_pps rdr; leave_neg ret') else pure tt
  activate iso14443b = modify (λ h. record h { th = from_type_b h.l2h h.th })
  activate iso15693 = leave minus_one

  -- `tcl_connect`
  unfoldable pub connect : M (ProtocolHandle W) ℤ
  unfolding request_ats do_pps
  connect = call (do
    h ← get
    leave_if (not (may_connect h.th.state)) minus_one
    activate h.l2h.l2
    modify_th (λ th. record th { state = established })
    pure (pos 0))

  -- `tcl_deselect`; `frame` is what the three bytes on the stack hold before.
  unfoldable pub deselect : List ℕ → M (ProtocolHandle W) ℤ
  unfolding build_prologue_s
  deselect frame = call (do
    h ← get
    let p = build_prologue_s h.th frame
    modify_th (λ _. p.th)
    r ←
        on_l2 (
          Layer2.transceive rdr frame_14443a_regular (take p.len p.buf) 3 (activation_fwt rdr.fc) 1)
    leave_neg r.ret
    modify_th (λ th. record th { state = deselected })
    pure (pos 0))

  -- The handle after the assignments of `tcl_init`.
  unfoldable pub fresh : TclHandle
  fresh = record {
    historical_bytes = none;
    historical_len = 0;
    fsc = 0;
    fsd = fsd_approx rdr.mru;
    fwt = 0;
    ta = 0;
    sfgt = 0;
    cid = 0;
    nad = 0;
    flags = 0;
    state = initial;
    toggle = 1;
    ats_len = rdr.mru;
    ats = replicate 256 0;
  }

  -- `tcl_init`: the state holds the block that `malloc` gave.
  unfoldable pub init : Bool → M (ProtocolHandle W) Bool
  unfolding fresh
  init allocated = if not allocated then pure false else (do modify_th (λ _. fresh); pure true)

-- `tcl_getopt`
unfoldable pub getopt : TclHandle → ℕ → ℕ → GetOpt
getopt th optname optlen =
    if optname == 0x00010001
    then (let n = if ltb th.ats_len optlen then th.ats_len else optlen in
        got (pos 0) (bytes (take n th.ats)) n)
    else if optname == 0x00010002
    then (if ltb optlen 1
        then got neg_e2big nothing optlen
        else got (pos 0) (uint8 (bit_and th.ats_len 0xff)) 1)
    else got neg_einval nothing optlen
