-- ===== src/Layer2/Iso15693/Anticol.antt =====
-- `iso15693_anticol` and `iso15693_transceive_acf`.
use librfid.Prelude.{
  ℕ, zero, suc, ℤ, pos, minus_one, is_neg, ◌+◌, ◌-◌, Option, none, some, List, [], ◌∷◌, ◌++◌, take,
  overlay, replicate, ltb, ◌==◌, if◌then◌else◌, u8,
}
use librfid.Control.{M, ok, out_of_fuel}
use librfid.Reader.{Reader, AcReply}
use librfid.Layer2.Handle.{Layer2Handle}
use librfid.Layer2.Iso15693.Frames.{build_acf, inventory_flags}

-- A row of `uuid_list_valid` and `uuid_list`: nothing heard (0), or a collision (the bit, negated)
-- with the identifier as far as it was received.
pub data Slot : Type 0 where
  silent : Slot
  collision : ℕ → List ℕ → Slot

-- What one pass over the slots comes to: a card's identifier, or the rows with the last answer.
pub data Pass (W : Type 0) : Type 0 where
  found : List ℕ → W → Pass W
  rows : List Slot → List ℕ → W → Pass W

-- The first collision of the second loop: `uuid_list_valid[i] < 0`.
unfoldable pub first_collision : List Slot → Option (ℕ × List ℕ)
first_collision [] = none
first_collision (silent ∷ slots) = first_collision slots
first_collision (collision boc uuid ∷ slots) = some (boc, uuid)

-- `if (boc > 16) boc = boc - 16;`
abbrev pub uid_bit : ℕ → ℕ
uid_bit boc = if ltb 16 boc then boc - 16 else boc

module _ {W : Type 0} (rdr : Reader W) where
  -- `iso15693_transceive_acf`
  unfoldable pub transceive_acf : List ℕ → W → AcReply × W
  transceive_acf acf w = elim rdr.transceive_ac [
    | none ↦ (record { ret = minus_one; uuid = replicate 8 0; boc = 0 }, w)
    | some f ↦ f acf w
  ]

  -- The loop over the slots, with those left, the rows so far and the last answer's identifier.
  unfoldable pub slots_from : ℕ → List ℕ → List Slot → List ℕ → W → Pass W
  unfolding transceive_acf
  slots_from zero acf slots uuid w = rows slots uuid w
  slots_from (suc left) acf slots uuid w =
      let (r, w') = transceive_acf acf w in
      let boc = u8 r.boc in
      let row = if is_neg r.ret then silent else collision boc (take 8 r.uuid) in
      let rest = slots_from left acf (slots ++ (row ∷ [])) r.uuid w' in
      if is_neg r.ret then rest else if boc == 0 then found (take 8 r.uuid) w' else rest

  -- `memcpy(handle->uid, uuid, 8); handle->uid_len = 8;`
  abbrev pub store_uid : List ℕ → Layer2Handle W → Layer2Handle W
  store_uid uuid h = record h { uid = overlay (take 8 uuid) h.uid; uid_len = 8 }

  -- From the label `start_of_ac_loop`, with the passes left.
  unfoldable pub passes : ℕ → ℕ → List ℕ → M (Layer2Handle W) ℤ
  unfolding slots_from first_collision
  passes zero num_slots acf h = out_of_fuel
  passes (suc fuel) num_slots acf h = elim (slots_from num_slots acf [] [] h.world) [
    | found uuid w ↦ ok (pos 1) (record (store_uid uuid h) { world = w })
    | rows slots last w ↦ elim (first_collision slots) [
      | none ↦ ok minus_one (record h { world = w })
      | some (boc, uuid) ↦
          let again =
            passes fuel num_slots (build_acf (inventory_flags h.v) h.v.afi (uid_bit boc + 1) last)
              (record h { world = w }) in
          if ltb (uid_bit boc) 65
          then again
          else ok (pos 1) (record (store_uid uuid h) { world = w })
    ]
  ]

  -- `iso15693_anticol`
  unfoldable pub anticol : ℕ → M (Layer2Handle W) ℤ
  unfolding passes
  anticol fuel h =
      passes fuel (if h.v.single_slot == 0 then 16 else 1)
        (build_acf (inventory_flags h.v) h.v.afi 0 []) h
