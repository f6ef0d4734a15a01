-- ===== src/Layer2/Iso14443b/Atqb.antt =====
-- `fwi_to_fwt`, `parse_atqb` and `send_reqb`.
use librfid.Prelude.{
  ℕ, zero, suc, ℤ, pos, minus_one, is_neg, ◌+◌, ◌-◌, ◌*◌, ◌/◌, ◌^◌, List, [], ◌∷◌, take, drop,
  overlay, store_front, not, ltb, ◌==◌, bit_and, bit_or, ◌<<<◌, ◌>>>◌, test, if◌then◌else◌, u32,
  as_int,
}
use librfid.Control.{
  M, ok, returned, fault, out_of_fuel, ◌>>=◌, ◌>>◌, pure, leave_if, leave_neg, modify, call, read,
}
use librfid.Reader.{Reader, frame_14443b_regular}
use librfid.FrameSize.{stored, refused, past_end, fsdi_to_fsd}
use librfid.Layer2.Handle.{Layer2Handle, BState, modify_b}

abbrev pub cid_supported : ℕ
cid_supported = 0x01

abbrev pub nad_supported : ℕ
nad_supported = 0x02

-- The size of `struct iso14443b_atqb`, and of its part `pupi`
abbrev pub atqb_size : ℕ
atqb_size = 12

module _ {W : Type 0} (rdr : Reader W) where
  -- `fwi_to_fwt`: the value goes back as the result, and `*fwt` is not written.
  unfoldable pub fwi_to_fwt : ℕ → ℤ
  fwi_to_fwt fwi =
      if ltb 14 fwi then minus_one else as_int (u32 (1000000 * 256 * 16 / rdr.asic_fc * 2 ^ fwi))

  -- `iso14443_fsdi_to_fsd(&h->priv.iso14443b.fsc, fsdi)`, its result ignored
  unfoldable pub set_fsc : ℕ → M (Layer2Handle W) (Unit {0})
  set_fsc fsdi h = elim (fsdi_to_fsd fsdi) [
    | stored fsd ↦ modify_b (λ b. record b { fsc = fsd }) h
    | refused ↦ ok tt h
    | past_end ↦ fault
  ]

  -- `parse_atqb`, over the twelve bytes of the answer
  unfoldable pub parse_atqb : List ℕ → M (Layer2Handle W) ℤ
  unfolding fwi_to_fwt set_fsc
  parse_atqb atqb = call (do
    fifty ← read atqb 0
    leave_if (not (fifty == 0x50)) minus_one
    type_size ← read atqb 10
    fo_fwi ← read atqb 11
    modify_b (λ b. record b {
      flags = if test fo_fwi 0x01 then bit_or b.flags cid_supported else b.flags;
    })
    modify_b (λ b. record b {
      flags = if test fo_fwi 0x02 then bit_or b.flags nad_supported else b.flags;
    })
    leave_neg (fwi_to_fwt (fo_fwi >>> 4))
    modify (λ h.
        if bit_and type_size 0xf == 1
        then record h { b = record (h.b) { tcl_capable = 1 }; proto_supported = 1 <<< 1 }
        else record h { b = record (h.b) { tcl_capable = 0 } })
    set_fsc (type_size >>> 4)
    modify (λ h. record h { uid = overlay (take 4 (drop 1 atqb)) h.uid; uid_len = 4 })
    pure (pos 0))

  -- The loop of `send_reqb` from slot number `idx` on, with the rounds that are left.
  unfoldable pub reqb_rounds : ℕ → ℕ → ℕ → ℕ → ℕ → List ℕ → M (Layer2Handle W) ℤ
  unfolding parse_atqb
  reqb_rounds zero idx afi is_wup atqb_len atqb h = ok minus_one h
  reqb_rounds (suc rounds) idx afi is_wup atqb_len atqb h =
      let reqb_2 = if is_wup == 0 then bit_and idx 0x07 else bit_or (bit_and idx 0x07) 0x08 in
      let (r, w) =
        rdr.transceive frame_14443b_regular (0x05 ∷ afi ∷ reqb_2 ∷ []) atqb_len 1 0 h.world in
      let h' = record h { world = w; b = record (h.b) { state = BState.reqb_sent } } in
      let atqb' = store_front r.bytes atqb in
      let rest = reqb_rounds rounds (idx + 1) afi is_wup r.rx_len atqb' in
      if is_neg r.ret
      then rest h'
      else if not (r.rx_len == atqb_size)
      then rest h'
      else elim (parse_atqb atqb' h') [
        | ok ret h'' ↦
            if is_neg ret
            then rest h''
            else ok (pos 0) (record h'' { b = record (h''.b) { state = BState.atqb_rcvd } })
        | returned ret h'' ↦ returned ret h''
        | fault ↦ fault
        | out_of_fuel ↦ out_of_fuel
      ]

  -- `send_reqb`: the loop runs from `num_initial_slots` to 4.
  unfoldable pub send_reqb : ℕ → ℕ → ℕ → M (Layer2Handle W) ℤ
  send_reqb afi is_wup num_initial_slots =
      call (reqb_rounds (5 - num_initial_slots) num_initial_slots afi is_wup atqb_size [])
