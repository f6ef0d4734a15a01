-- ===== src/Layer2/Iso15693/Session.antt =====
-- `iso15693_init`, `iso15693_select`, `iso15693_stay_quiet` and the options of ISO 15693.
use librfid.Prelude.{
  ℕ, ℤ, pos, minus_one, neg_einval, is_neg, ◌+◌, ◌*◌, Option, none, some, List, ◌∷◌, take, Bool,
  false, not, ltb, ◌==◌, bit_or, test, if◌then◌else◌,
}
use librfid.Control.{M, ok, fault, ◌>>=◌, ◌>>◌, pure, leave_if, leave, get, modify, call, read}
use librfid.Reader.{Reader, frame_15693}
use librfid.Layer2.Handle.{
  Layer2Handle, Iso15693Handle, iso15693, layer2_id, modify_v, with_world, reader_transceive,
}
use librfid.Layer2.Options.{nothing, uint8, uint, GetOpt, got, load_uint, load_uint8}
use librfid.Layer2.Iso15693.Frames.{
  rate_flags, f4_address, state_quiet, state_selected, rf_error, timing_t4,
}

abbrev pub opt_mod_depth : ℕ
opt_mod_depth = 0x00010001

abbrev pub opt_vcd_coding : ℕ
opt_vcd_coding = 0x00010002

abbrev pub opt_vicc_subc : ℕ
opt_vicc_subc = 0x00010003

abbrev pub opt_vicc_speed : ℕ
opt_vicc_speed = 0x00010004

abbrev pub opt_vcd_slots : ℕ
opt_vcd_slots = 0x00010005

abbrev pub opt_use_afi : ℕ
opt_use_afi = 0x00010006

abbrev pub opt_afi : ℕ
opt_afi = 0x00010007

-- `*((u_int8_t *) optval)`, `u_int16_t` or `unsigned int`, by the length that is given; for any other
-- length `val` has no value.
abbrev pub load_val : {S : Type 0} → List ℕ → ℕ → M S ℕ
load_val optval optlen =
    if optlen == 1
    then load_uint8 (some optval)
    else if optlen == 2
    then (do b0 ← read optval 0; b1 ← read optval 1; pure (b0 + 256 * b1))
    else if optlen == 4
    then load_uint (some optval)
    else (λ s. fault)

module _ {W : Type 0} (rdr : Reader W) where
  -- A case whose value is one of two, or else -EINVAL.
  abbrev choose : ℕ → ℕ → ℕ → (ℕ → Iso15693Handle → Iso15693Handle) → M (Layer2Handle W) (Unit {0})
  choose val zero_val one_val assign =
      if val == zero_val
      then modify_v (assign 0)
      else if val == one_val
      then modify_v (assign 1)
      else leave neg_einval

  abbrev set_slots : ℕ → M (Layer2Handle W) (Unit {0})
  set_slots val = choose val 16 1 (λ n v. record v { single_slot = n })

  -- `iso15693_setopt`. The case of the speed has no `break` and runs into the one of the slots.
  unfoldable pub setopt : ℕ → Option (List ℕ) → ℕ → M (Layer2Handle W) ℤ
  setopt optname none optlen = pure neg_einval
  setopt optname (some optval) optlen = call (do
    leave_if (optlen == 0) neg_einval
    val ← load_val optval optlen
    if optname == opt_mod_depth
        then choose val 1 2 (λ n v. record v { vcd_ask100 = n })
        else if optname == opt_vcd_coding
        then choose val 2 1 (λ n v. record v { vcd_out256 = n })
        else if optname == opt_vicc_subc
        then choose val 1 2 (λ n v. record v { vicc_two_subc = n })
        else if optname == opt_vicc_speed
        then choose val 1 2 (λ n v. record v { vicc_fast = n }) >> set_slots val
        else if optname == opt_vcd_slots
        then set_slots val
        else if optname == opt_use_afi
        then modify_v (λ v. record v { use_afi = if val == 0 then 0 else 1 })
        else if optname == opt_afi
        then leave_if (ltb 0xff val) neg_einval >> modify_v (λ v. record v { afi = val })
        else leave neg_einval
    pure (pos 0))

  -- `iso15693_getopt`
  unfoldable pub getopt : ℕ → ℕ → M (Layer2Handle W) GetOpt
  getopt optname optlen h =
      ok
        (if ltb optlen 4
          then got neg_einval nothing optlen
          else if optname == opt_mod_depth
          then got (pos 0) (uint (if h.v.vcd_ask100 == 0 then 1 else 2)) 4
          else if optname == opt_vcd_coding
          then got (pos 0) (uint (if h.v.vcd_out256 == 0 then 2 else 1)) 4
          else if optname == opt_vicc_subc
          then got (pos 0) (uint (if h.v.vicc_two_subc == 0 then 1 else 2)) 4
          else if optname == opt_vicc_speed
          then got (pos 0) (uint (if h.v.vicc_fast == 0 then 1 else 2)) 4
          else if optname == opt_vcd_slots
          then got (pos 0) (uint (if h.v.single_slot == 0 then 16 else 1)) 4
          else if optname == opt_use_afi
          then got (pos 0) (uint (if h.v.use_afi == 0 then 0 else 1)) 4
          else if optname == opt_afi
          then got (pos 0) (uint8 h.v.afi) 1
          else got neg_einval nothing 4)
        h

  -- `struct iso15693_request_adressed`
  abbrev addressed : Layer2Handle W → ℕ → List ℕ
  addressed h command = bit_or f4_address (rate_flags h.v) ∷ command ∷ take 8 h.uid

  -- `iso15693_select`: the result of the transmission is not looked at.
  unfoldable pub select : M (Layer2Handle W) ℤ
  select = call (do
    h ← get
    r ← reader_transceive rdr frame_15693 (addressed h 0x25) 4 (timing_t4 h.v) 0
    flags ← read r.bytes 0
    leave_if (test flags rf_error) minus_one
    modify_v (λ v. record v { state = state_selected })
    pure (pos 0))

  -- `iso15693_stay_quiet`; what it reads of the answer is only printed.
  unfoldable pub stay_quiet : M (Layer2Handle W) ℤ
  stay_quiet = do
    h ← get
    r ← reader_transceive rdr frame_15693 (addressed h 0x02) 4 30 0
    modify_v (λ v. record v { state = state_quiet })
    pure (pos 0)

  -- `iso15693_init`: the block that `malloc` gave is not cleared.
  unfoldable pub init : Bool → M (Layer2Handle W) Bool
  init allocated = if not allocated then pure false else (do
    modify (λ h. record h { l2 = iso15693 })
    modify_v (λ v. record v {
      state = 1;
      vcd_ask100 = 1;
      vicc_two_subc = 0;
      vicc_fast = 1;
      single_slot = 1;
      vcd_out256 = 0;
      use_afi = 0;
      afi = 0;
    })
    ret ← with_world (rdr.init (layer2_id iso15693))
    pure (not (is_neg ret)))
