-- ===== src/Layer2/Iso14443a/Session.antt =====
-- `iso14443a_init`, `iso14443a_hlta` and the options of type A.
use librfid.Prelude.{
  ℕ, ℤ, pos, minus_one, neg_einval, neg_enotsup, is_neg, ◌-◌, Option, none, some, List, [], ◌∷◌,
  Bool, false, ◌==◌, not, bit_and, bit_or, test, if◌then◌else◌,
}
use librfid.Control.{M, ok, returned, ◌>>=◌, ◌>>◌, pure, modify, call}
use librfid.Reader.{Reader, frame_14443a_regular}
use librfid.Layer2.Handle.{
  Layer2Handle, AState, level_none, iso14443a, layer2_id, zeroed, modify_a, with_world,
}
use librfid.Layer2.Options.{nothing, uint8, uint, bytes, GetOpt, got, load_uint}
use librfid.Layer2.Iso14443a.Rand.{random_bits}
use librfid.Layer2.Iso14443a.Anticol.{transceive, opt_layer2_wup}

abbrev pub opt_speed_rx : ℕ
opt_speed_rx = 0x00010001

abbrev pub opt_speed_tx : ℕ
opt_speed_tx = 0x00010002

abbrev pub opt_atqa : ℕ
opt_atqa = 0x00010003

abbrev pub opt_wupa : ℕ
opt_wupa = 0x00010004

abbrev pub opt_sak : ℕ
opt_sak = 0x00010005

-- `flags & ~mask`
abbrev clear : ℕ → ℕ → ℕ
clear flags mask = flags - bit_and flags mask

module _ {W : Type 0} (rdr : Reader W) where
  -- `iso14443a_hlta`: a card that answers has not understood.
  unfoldable pub hlta : M (Layer2Handle W) ℤ
  unfolding transceive
  hlta = call (do
    r ← transceive rdr frame_14443a_regular (0x50 ∷ 0x00 ∷ []) 10 1000 0
    if is_neg r.ret then pure (pos 0) else pure minus_one)

  abbrev set_speed : ℕ → Option (List ℕ) → M (Layer2Handle W) ℤ
  set_speed tx optval h = elim rdr.set_speed [
    | none ↦ returned neg_enotsup h
    | some f ↦ (do speed ← load_uint optval; with_world (f tx speed)) h
  ]

  -- `iso14443a_setopt`. The option WUPA looks at the pointer, not at the value behind it.
  unfoldable pub setopt : ℕ → Option (List ℕ) → M (Layer2Handle W) ℤ
  setopt optname optval = call (
      if optname == opt_speed_rx
      then set_speed 0 optval
      else if optname == opt_speed_tx
      then set_speed 1 optval
      else if optname == opt_wupa
      then (do
        modify (λ h. record h {
          flags = elim optval [
            | some _ ↦ bit_or h.flags opt_layer2_wup
            | none ↦ clear h.flags opt_layer2_wup
          ];
        })
        pure (pos 0))
      else pure neg_einval)

  -- `iso14443a_getopt`. The option SAK stores the byte and leaves `ret` at -EINVAL.
  unfoldable pub getopt : ℕ → ℕ → M (Layer2Handle W) GetOpt
  getopt optname optlen h =
      ok
        (if optname == opt_sak
          then got neg_einval (uint8 h.a.sak) 1
          else if optname == opt_atqa
          then got (pos 0) (bytes (h.a.atqa.byte_0 ∷ h.a.atqa.byte_1 ∷ [])) 2
          else if optname == opt_wupa
          then got (pos 0) (uint (if test h.flags opt_layer2_wup then 1 else 0)) 4
          else got neg_einval nothing optlen)
        h

  -- `iso14443a_init`: the state holds the block that `malloc` gave, whatever is in it, and the result
  -- says whether a handle is returned.
  unfoldable pub init : Bool → M (Layer2Handle W) Bool
  init allocated = if not allocated then pure false else (do
    modify (λ h. record (zeroed h) { rand = random_bits 23 h.rand })
    modify (λ h. record h { l2 = iso14443a })
    modify_a (λ a. record a { state = AState.none_yet; level = level_none })
    ret ← with_world (rdr.init (layer2_id iso14443a))
    pure (not (is_neg ret)))
