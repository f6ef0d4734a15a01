-- ===== src/Layer2/Iso14443a/Laws.antt =====
-- What the activation of type A comes to: src/rfid_layer2_iso14443a.c.
use librfid.Prelude.{
  ℕ, zero, suc, pos, ◌+◌, ◌-◌, ◌*◌, ◌/◌, ◌%◌, ◌≤◌, ◌<◌, ◌≡◌, ◌≢◌, ◌⊎◌, refl, not, leb, some, none,
  List, length, length-set, get_or-set_other, get_or, Bool, true, false, ◌&&◌, test, ◌==◌, arith,
  holds_below, holds_below_at,
}
use librfid.Control.{Run, ok, returned}
use librfid.Reader.{Reader, AnticolCmd}
use librfid.Layer2.Handle.{Layer2Handle, AState, level_none, RandCtx}
use librfid.Layer2.Iso14443a.Rand.{code_nvb_bits, rnd_toggle_bit_in_field}
use librfid.Layer2.Iso14443a.Anticol.{
  resolve_round, resolve, select_level, cascade_up, cascade, finish_uid, set_selected, request,
  anticol,
}

-- The coding of a number of bits is read back: whole bytes in the upper half, single bits in the lower.
nvb_returns : ℕ → Bool
nvb_returns bits = elim (code_nvb_bits bits) [
  | none ↦ not (leb 16 bits)
  | some nvb ↦ leb 16 bits && (nvb / 16 * 8 + nvb % 16 == bits) && (nvb / 16 * 16 + bits % 8 == nvb)
]

nvb_below : (bits nvb : ℕ) → code_nvb_bits bits ≡ some nvb → (16 ≤ bits) × (bits < 64)
unfolding code_nvb_bits
nvb_below bits nvb e = ground arith

nvb_table : holds_below 64 nvb_returns ≡ true
unfolding holds_below nvb_returns code_nvb_bits
nvb_table = refl

-- A number of bits that is coded is from 16 to 63, and the code gives it back: its upper four bits
-- count whole bytes and its lower four the bits that remain.
pub code_nvb_bits_lem :
    (bits nvb : ℕ)
    → code_nvb_bits bits ≡ some nvb
    → (16 ≤ bits) × (bits < 64) × (nvb / 16 * 8 + nvb % 16 ≡ bits)
unfolding nvb_returns
code_nvb_bits_lem bits nvb e =
    ground (arith, nvb_below bits nvb e, holds_below_at 64 nvb_returns bits nvb_table)

-- Toggling a bit keeps the number of bytes, and each byte but the one that holds the bit.
pub rnd_toggle_bit_in_field_lem :
    (bitfield : List ℕ) (size bit i : ℕ) (c : RandCtx)
    → i ≢ (bit - 1) / 8
    → (length (rnd_toggle_bit_in_field bitfield size bit c).0 ≡ length bitfield)
      × (get_or (rnd_toggle_bit_in_field bitfield size bit c).0 i 0 ≡ get_or bitfield i 0)
unfolding rnd_toggle_bit_in_field
rnd_toggle_bit_in_field_lem bitfield size bit i c other =
    grind (arith, length-set, get_or-set_other, get_or-set_other)

-- A run that does not leave with a result that is not negative.
abbrev NeverLeaves : {S A : Type 0} → Run S A → Type 0
NeverLeaves m = (n : ℕ) (s : _) → m ≢ returned (pos n) s

module _ {W : Type 0} (rdr : Reader W) where
  request_neg : (h : Layer2Handle W) → NeverLeaves (request rdr h)
  unfolding request
  request_neg h n s e = ground arith

  resolve_neg :
      (fuel : ℕ) (acf : AnticolCmd) (bit_of_col : ℕ) (h : Layer2Handle W)
      → NeverLeaves (resolve rdr fuel acf bit_of_col h)
  unfolding resolve resolve_round
  resolve_neg zero acf bit_of_col h n s e = ground arith
  resolve_neg (suc fuel) acf bit_of_col h n s e = grind (arith, resolve_neg fuel)

  select_level_neg :
      (fuel : ℕ) (acf : AnticolCmd) (sak : List ℕ) (h : Layer2Handle W)
      → NeverLeaves (select_level rdr fuel acf sak h)
  unfolding select_level
  select_level_neg fuel acf sak h n s e = grind (arith, resolve_neg fuel)

  cascade_up_neg : (acf : AnticolCmd) (h : Layer2Handle W) → NeverLeaves (cascade_up rdr acf h)
  unfolding cascade_up
  cascade_up_neg acf h n s e = ground arith

  cascade_neg :
      (rounds fuel : ℕ) (acf : AnticolCmd) (sak : List ℕ) (h : Layer2Handle W)
      → NeverLeaves (cascade rdr rounds fuel acf sak h)
  unfolding cascade
  cascade_neg zero fuel acf sak h n s e = ground arith
  cascade_neg (suc rounds) fuel acf sak h n s e =
      grind (arith, cascade_neg rounds fuel, cascade_up_neg, select_level_neg fuel)

  finish_uid_neg : (acf : AnticolCmd) (h : Layer2Handle W) → NeverLeaves (finish_uid rdr acf h)
  unfolding finish_uid
  finish_uid_neg acf h n s e = ground arith

  -- If anticollision returns a result that is not negative, then the state is SELECTED, the level
  -- is reset, the identifier has 4, 7 or 10 bytes, and the card is taken to speak T=CL, and nothing
  -- else, exactly when its SAK has the bit 0x20.
  pub anticol_selected :
      (fuel n : ℕ) (h h' : Layer2Handle W)
      → anticol rdr fuel h ≡ ok (pos n) h'
      → (h'.a.state ≡ AState.selected)
        × (h'.a.level ≡ level_none)
        × ((h'.uid_len ≡ 4) ⊎ (h'.uid_len ≡ 7) ⊎ (h'.uid_len ≡ 10))
        × (((h'.proto_supported ≡ 2) × (h'.a.tcl_capable ≡ 1) × (test h'.a.sak 0x20 ≡ true))
            ⊎ ((h'.proto_supported ≡ 12) × (h'.a.tcl_capable ≡ 0) × (test h'.a.sak 0x20 ≡ false)))
  unfolding anticol set_selected
  anticol_selected fuel n h h' e = grind (arith, request_neg, cascade_neg 3 fuel, finish_uid_neg)
