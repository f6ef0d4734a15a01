-- ===== src/Layer2/Iso14443b/Session.antt =====
-- `iso14443b_init`, `iso14443b_transceive` and the options of type B.
use librfid.Prelude.{
  ℕ, ℤ, pos, neg_einval, is_neg, Option, List, Bool, false, ◌==◌, not, bit_and, if◌then◌else◌,
}
use librfid.Control.{M, ok, ◌>>=◌, ◌>>◌, pure, modify}
use librfid.Reader.{Reader, Reply, FrameType}
use librfid.FrameSize.{fsd_approx}
use librfid.Layer2.Handle.{
  Layer2Handle, BState, iso14443b, layer2_id, modify_b, with_world, reader_transceive,
}
use librfid.Layer2.Options.{nothing, uint, GetOpt, got, load_uint}

abbrev pub opt_cid : ℕ
opt_cid = 0x00010001

module _ {W : Type 0} (rdr : Reader W) where
  -- `iso14443b_init`: the block that `malloc` gave is not cleared. `tr0` and `tr1` are products with
  -- a quotient of integers that is 0, as a carrier is faster than 256 Hz.
  unfoldable pub init : Bool → M (Layer2Handle W) Bool
  init allocated = if not allocated then pure false else (do
    modify (λ h. record h { l2 = iso14443b })
    modify_b (λ b. record b { state = BState.none_yet; cid = 0; fsd = fsd_approx rdr.mru })
    modify_b (λ b. record b { tr0 = 0; tr1 = 0 })
    ret ← with_world (rdr.init (layer2_id iso14443b))
    pure (not (is_neg ret)))

  -- `iso14443b_transceive`
  unfoldable pub transceive : FrameType → List ℕ → ℕ → ℕ → ℕ → M (Layer2Handle W) Reply
  transceive frametype tx rx_len timeout flags =
      reader_transceive rdr frametype tx rx_len timeout flags

  -- `iso14443b_getopt`
  unfoldable pub getopt : ℕ → ℕ → M (Layer2Handle W) GetOpt
  getopt optname optlen h =
      ok
        (if optname == opt_cid
          then got (pos 0) (uint h.b.cid) optlen
          else if optname == 0x00010002
          then got (pos 0) (uint h.b.fsc) optlen
          else if optname == 0x00010003
          then got (pos 0) (uint h.b.fsd) optlen
          else if optname == 0x00010004
          then got (pos 0) (uint h.b.fwt) optlen
          else if optname == 0x00010005
          then got (pos 0) (uint h.b.tr0) optlen
          else if optname == 0x00010006
          then got (pos 0) (uint h.b.tr1) optlen
          else got neg_einval nothing optlen)
        h

  -- `iso14443b_setopt`. The label `defaukt` is not the `default` of the switch, so an unknown option
  -- is accepted and nothing is done.
  unfoldable pub setopt : ℕ → Option (List ℕ) → M (Layer2Handle W) ℤ
  setopt optname optval =
      if optname == opt_cid
      then (do
        cid ← load_uint optval
        modify_b (λ b. record b { cid = bit_and cid 0xf })
        pure (pos 0))
      else pure (pos 0)
