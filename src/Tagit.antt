-- ===== src/Tagit.antt =====
-- src/rfid_proto_tagit.c: the recognition of Tag-it cards; reading and writing are not implemented there.
use librfid.Prelude.{ℕ, ℤ, pos, neg_einval, List, [], Bool, false, not, ◌||◌, ◌==◌, if◌then◌else◌}
use librfid.Control.{M, ok, ◌>>=◌, pure, read}
use librfid.Reader.{Reader}
use librfid.Layer2.Handle.{layer2_id}
use librfid.Layer2.Dispatch as Layer2
use librfid.Layer2.Options.{nothing, uint, GetOpt, got}
use librfid.Tcl.Handle.{ProtocolHandle, on_l2}
use librfid.MifareClassic.Pages.{PageRead, no_page, stored_bytes, opt_size}

module _ {W : Type 0} (rdr : Reader W) where
  -- `tagit_read`
  unfoldable pub read_page : ℕ → ℕ → M (ProtocolHandle W) PageRead
  read_page page rx_len = pure (no_page neg_einval rx_len)

  -- `tagit_write`
  unfoldable pub write_page : ℕ → List ℕ → ℕ → M (ProtocolHandle W) ℤ
  write_page page tx tx_len = pure neg_einval

  -- `tagit_getopt`
  unfoldable pub getopt : ℕ → ℕ → M (ProtocolHandle W) GetOpt
  getopt optname optlen = pure (
      if optname == opt_size
      then got (pos 0) (uint 12345) optlen
      else got neg_einval nothing optlen)

  -- `tagit_init`
  unfoldable pub init : Bool → M (ProtocolHandle W) Bool
  init allocated h =
      if not (layer2_id h.l2h.l2 == 3)
      then ok false h
      else (do
        u ← on_l2 (Layer2.getopt rdr Layer2.opt_uid 6)
        uid_5 ← read (stored_bytes u.stored []) 5
        uid_4 ← read (stored_bytes u.stored []) 4
        if not (uid_5 == 0xe0) || not (uid_4 == 0x07)
            then pure false
            else (λ h'. ok (if not (h'.l2h.uid_len == 6) then false else allocated) h'))
          h
