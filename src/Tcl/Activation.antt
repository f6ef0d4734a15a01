-- ===== src/Tcl/Activation.antt =====
-- Activation and deactivation: the answer to select, the protocol parameters, `tcl_connect` and
-- `tcl_deselect`.
use librfid.Prelude.{
  ℕ, zero, suc, pos, minus_one, is_neg, ◌+◌, ◌*◌, ◌/◌, ◌≤◌, ◌≡◌, ◌≢◌, ◌⊎◌, [], ◌∷◌, true, false,
  test, if◌then◌else◌, arith, bit_or, bit_and,
}
use librfid.Control.{ok}
use librfid.Reader.{Reader, frame_14443a_regular}
use librfid.Layer2.Handle.{iso14443a, iso15693}
use librfid.Layer2.Laws.{exchange, transceive-exchange}
use librfid.Tcl.Handle.{ProtocolHandle, cid_used, deselected, initial, established}
use librfid.Tcl.Prologue.{build_prologue_s, build_prologue2}
use librfid.Tcl.Ats.{request_ats, activation_fwt}
use librfid.Tcl.Pps.{d_to_di, di_to_speed, ppss, divisor_rx, divisor_tx}
use librfid.Tcl.Connect.{connect, deselect}

-- If the reader has a rate above 106 kbit/s that the card's divisors allow, then the rate chosen is
-- at least as high, and it is one that the reader has and the divisors allow.
pub d_to_di-highest :
    (speed d n : ℕ)
    → 1 ≤ n
    → n ≤ 3
    → test speed (di_to_speed n) ≡ true
    → test d (di_to_speed n / 2) ≡ true
    → (n ≤ d_to_di speed d)
      × (test speed (di_to_speed (d_to_di speed d)) ≡ true)
      × (test d (di_to_speed (d_to_di speed d) / 2) ≡ true)
unfolding d_to_di di_to_speed
d_to_di-highest speed d zero large small reader card = absurd (omega arith)
d_to_di-highest speed d (suc zero) large small reader card = ground arith
d_to_di-highest speed d (suc (suc zero)) large small reader card = ground arith
d_to_di-highest speed d (suc (suc (suc zero))) large small reader card = ground arith
d_to_di-highest speed d (suc (suc (suc (suc n)))) large small reader card = absurd (omega arith)

-- The PPS request names one rate number, at most 3, for both directions, whatever the card's
-- divisors for sending are: its third byte holds the number once in its lowest two bits and once in
-- the next two.
pub ppss_symmetric :
    (cid speed ta : ℕ)
    → (di : ℕ) × (di ≤ 3)
      × (ppss cid speed ta ≡ bit_or 0xd0 (bit_and cid 0x0f) ∷ 0x11 ∷ (di + 4 * di) ∷ [])
unfolding ppss d_to_di divisor_rx divisor_tx
ppss_symmetric cid speed ta = (d_to_di speed (divisor_rx ta), ground arith, ground arith)

module _ {W : Type 0} (rdr : Reader W) where
  -- A card of type A that was deselected cannot be connected again: the attempt returns -1 at once,
  -- and nothing is sent.
  pub connect_deselected :
      (h : ProtocolHandle W)
      → h.l2h.l2 ≡ iso14443a
      → h.th.state ≡ deselected
      → connect rdr h ≡ ok minus_one h
  unfolding connect request_ats
  connect_deselected h type_a gone = ground arith

  -- If connecting returns a result that is not negative, then the handle is in the state
  -- ESTABLISHED, it was in the state INITIAL or DESELECTED before, and the second layer is not ISO
  -- 15693.
  pub connect_established :
      (n : ℕ) (h h' : ProtocolHandle W)
      → connect rdr h ≡ ok (pos n) h'
      → (h'.th.state ≡ established)
        × (h.l2h.l2 ≢ iso15693)
        × ((h.th.state ≡ initial) ⊎ (h.th.state ≡ deselected))
  unfolding connect
  connect_established n h h' e = ground arith

  -- With no card identifier in use, deselecting sends the one block 0xc2, whatever stood in the
  -- frame before, and leaves the toggle alone. The error of a transmission that fails is returned
  -- with the state unchanged; otherwise the result is 0 and the state DESELECTED.
  pub deselect_lem :
      (a b c : ℕ) (h : ProtocolHandle W)
      → test h.th.flags cid_used ≡ false
      → let (r, w) =
          exchange rdr h.l2h.l2 frame_14443a_regular
            (0xc2 ∷ [])
            3
            (activation_fwt rdr.fc)
            1
            h.l2h.world in
        deselect rdr (a ∷ b ∷ c ∷ []) h ≡ (
          if is_neg r.ret
          then ok r.ret (record h { l2h = record (h.l2h) { world = w } })
          else ok (pos 0) (record h {
            l2h = record (h.l2h) { world = w };
            th = record (h.th) { state = deselected };
          }))
  unfolding deselect build_prologue_s build_prologue2
  deselect_lem a b c h no_cid = ground (
    arith,
    transceive-exchange rdr frame_14443a_regular (0xc2 ∷ []) 3 (activation_fwt rdr.fc) 1 h.l2h,
  )
