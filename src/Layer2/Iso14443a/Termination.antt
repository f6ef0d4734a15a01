-- ===== src/Layer2/Iso14443a/Termination.antt =====
-- The loops of `iso14443a_anticol`, src/rfid_layer2_iso14443a.c, end when the reader behaves.
use librfid.Prelude.{
  ℕ, zero, suc, ℤ, is_neg, ◌<◌, ◌≤◌, ◌-◌, ◌≡◌, ◌≢◌, ◌⊎◌, refl, some, List, Bool, true, false, arith,
}
use librfid.Control.{Run, ok, returned, fault, out_of_fuel}
use librfid.Reader.{Reader, AnticolCmd}
use librfid.Layer2.Handle.{Layer2Handle}
use librfid.Layer2.Iso14443a.Rand.{code_nvb_bits, set_nvb, rnd_toggle_bit_in_field}
use librfid.Layer2.Iso14443a.Anticol.{
  bit_of_col_none, sel_cl1, sel_cl2, sel_cl3, transceive_acf, resolve_round, resolve, select_level,
  cascade_up, cascade, finish_uid, set_selected, request, anticol,
}

-- What the standard has of the anticollision: only cards whose identifiers begin with the bits that
-- a command holds answer it. So a command whose NVB codes `bits` fails, meets no collision, or meets the
-- first collision behind these bits, and within the 56 bits of the frame.
abbrev pub CollidesBehind : {W : Type 0} → Reader W → Type 0
CollidesBehind {W} rdr =
    (acf : AnticolCmd) (bits : ℕ) (w : W)
    → code_nvb_bits bits ≡ some acf.nvb
    → (is_neg (rdr.transceive_acf acf w).0.ret ≡ true)
      ⊎ ((rdr.transceive_acf acf w).0.bit_of_col ≡ bit_of_col_none)
      ⊎ ((bits < (rdr.transceive_acf acf w).0.bit_of_col)
          × ((rdr.transceive_acf acf w).0.bit_of_col ≤ 56))

abbrev pub KeepsLevel : {W : Type 0} → Reader W → Type 0
KeepsLevel {W} rdr =
    (acf : AnticolCmd) (w : W) → (rdr.transceive_acf acf w).0.acf.sel_code ≡ acf.sel_code

-- Whether a run comes to an end, with a value or by a `return`.
abbrev ends : {S A : Type 0} → Run S A → Bool
ends (ok a s) = true
ends (returned r s) = true
ends fault = false
ends out_of_fuel = false

settled :
    {S : Type 0} (m : Run S ℤ)
    → ends m ≡ true
    → ((r : ℤ) (s : S) → m ≢ returned r s)
    → (r : ℤ) × (s : S) × (m ≡ ok r s)
settled (ok r s) e never = (r, s, refl)
settled (returned r s) e never = absurd (never r s refl)
settled fault e never = ground arith
settled out_of_fuel e never = ground arith

-- Between 16 and 63, the number of bits is coded.
nvb_coded : (bits nvb : ℕ) → 16 ≤ bits → bits < 64 → code_nvb_bits bits ≡ some (set_nvb bits nvb)
unfolding code_nvb_bits set_nvb
nvb_coded bits nvb low high = ground arith

module _ {W : Type 0} (rdr : Reader W) (fuel : ℕ) (behind : CollidesBehind rdr)
    (keeps : KeepsLevel rdr) (enough_fuel : 40 ≤ fuel) where
  resolve_none :
      (n : ℕ) (acf : AnticolCmd) (h : Layer2Handle W)
      → resolve rdr (suc n) acf bit_of_col_none h ≡ ok acf h
  unfolding resolve
  resolve_none n acf h = refl

  -- Each round moves the collision on, so there are not more rounds than bits behind it.
  resolve_enough :
      (n : ℕ) (acf : AnticolCmd) (bit_of_col : ℕ) (h : Layer2Handle W)
      → 16 ≤ bit_of_col
      → bit_of_col ≤ 56
      → 56 - bit_of_col < n
      → ends (resolve rdr (suc n) acf bit_of_col h) ≡ true
  unfolding resolve resolve_round transceive_acf
  resolve_enough zero acf bit_of_col h low high enough = absurd (omega arith)
  resolve_enough (suc n) acf bit_of_col h low high enough =
      let (bits, rand) = rnd_toggle_bit_in_field acf.uid_bits 5 bit_of_col h.rand in
      let acf' = record acf { nvb = set_nvb bit_of_col acf.nvb; uid_bits = bits } in
      let next = behind acf' bit_of_col h.world (nvb_coded bit_of_col acf.nvb low (omega arith)) in
      grind (arith, resolve_enough n, next, resolve_none n)

  resolve_keeps :
      (n : ℕ) (acf acf' : AnticolCmd) (bit_of_col : ℕ) (h h' : Layer2Handle W)
      → resolve rdr n acf bit_of_col h ≡ ok acf' h'
      → acf'.sel_code ≡ acf.sel_code
  unfolding resolve resolve_round transceive_acf
  resolve_keeps zero acf acf' bit_of_col h h' e = ground arith
  resolve_keeps (suc n) acf acf' bit_of_col h h' e = grind (arith, resolve_keeps n, keeps)

  select_level_enough :
      (acf : AnticolCmd) (sak : List ℕ) (h : Layer2Handle W)
      → ends (select_level rdr (suc fuel) acf sak h) ≡ true
  unfolding select_level transceive_acf
  select_level_enough acf sak h =
      let first =
        behind (record acf { nvb = set_nvb 16 acf.nvb }) 16 h.world
          (nvb_coded 16 acf.nvb (omega arith) (omega arith)) in
      grind (arith, resolve_enough fuel, resolve_none fuel, first)

  select_level_keeps :
      (acf acf' : AnticolCmd) (sak sak' : List ℕ) (h h' : Layer2Handle W)
      → select_level rdr (suc fuel) acf sak h ≡ ok (acf', sak') h'
      → acf'.sel_code ≡ acf.sel_code
  unfolding select_level transceive_acf
  select_level_keeps acf acf' sak sak' h h' e = grind (arith, resolve_keeps (suc fuel), keeps)

  cascade_last :
      (acf : AnticolCmd) (sak : List ℕ) (h : Layer2Handle W)
      → acf.sel_code ≡ sel_cl3
      → ends (cascade rdr 1 (suc fuel) acf sak h) ≡ true
  unfolding cascade cascade_up
  cascade_last acf sak h level = grind (arith, select_level_enough, select_level_keeps)

  cascade_second :
      (acf : AnticolCmd) (sak : List ℕ) (h : Layer2Handle W)
      → acf.sel_code ≡ sel_cl2
      → ends (cascade rdr 2 (suc fuel) acf sak h) ≡ true
  unfolding cascade cascade_up
  cascade_second acf sak h level =
      grind (arith, select_level_enough, select_level_keeps, cascade_last)

  cascade_first :
      (acf : AnticolCmd) (sak : List ℕ) (h : Layer2Handle W)
      → acf.sel_code ≡ sel_cl1
      → ends (cascade rdr 3 (suc fuel) acf sak h) ≡ true
  unfolding cascade cascade_up
  cascade_first acf sak h level =
      grind (arith, select_level_enough, select_level_keeps, cascade_second)

  request-ends : (h : Layer2Handle W) → ends (request rdr h) ≡ true
  unfolding request
  request-ends h = ground arith

  finish_uid-ends : (acf : AnticolCmd) (h : Layer2Handle W) → ends (finish_uid rdr acf h) ≡ true
  unfolding finish_uid
  finish_uid-ends acf h = ground arith

  anticol-ends : (h : Layer2Handle W) → ends (anticol rdr (suc fuel) h) ≡ true
  unfolding anticol set_selected
  anticol-ends h = grind (arith, request-ends, cascade_first, finish_uid-ends)

  anticol_never_returned :
      (h : Layer2Handle W) (r : ℤ) (h' : Layer2Handle W) → anticol rdr (suc fuel) h ≢ returned r h'
  unfolding anticol
  anticol_never_returned h r h' e = ground arith

  -- Let each anticollision command that holds certain bits of an identifier fail, meet no collision, or
  -- meet its first collision behind these bits and within the frame, and let the reader leave the code
  -- of the level alone. Then 41 rounds or more are enough for each loop, whatever bits are drawn at random:
  -- anticollision ends with a result and is never undefined.
  pub anticol_ends :
      (h : Layer2Handle W) → (r : ℤ) × (h' : Layer2Handle W) × (anticol rdr (suc fuel) h ≡ ok r h')
  anticol_ends h = settled (anticol rdr (suc fuel) h) (anticol-ends h) (anticol_never_returned h)
