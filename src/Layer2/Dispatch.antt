-- ===== src/Layer2/Dispatch.antt =====
-- src/rfid_layer2.c: the functions that call the implementation of a handle's layer.
use librfid.Prelude.{
  ℕ, ℤ, pos, neg_einval, neg_eio, Option, none, some, List, [], ◌∷◌, take, overlay, Bool, false,
  not, ◌&&◌, ltb, leb, ◌==◌, ◌>>>◌, if◌then◌else◌, get_elem?,
}
use librfid.Control.{M, ok, fault, pure}
use librfid.Reader.{Reader, Reply, FrameType}
use librfid.Layer2.Handle.{Layer2Handle, Layer2Kind, iso14443a, iso14443b, iso15693}
use librfid.Layer2.Options.{nothing, bytes, GetOpt, got}
use librfid.Layer2.Iso14443a.Anticol
use librfid.Layer2.Iso14443a.Session
use librfid.Layer2.Iso14443b.Select
use librfid.Layer2.Iso14443b.Session as BSession
use librfid.Layer2.Iso15693.Anticol as VAnticol
use librfid.Layer2.Iso15693.Session as VSession

-- `rfid_layer2s`; the row of RFID_LAYER2_NONE is a null pointer
abbrev pub layer2s : List (Option Layer2Kind)
layer2s = none ∷ some iso14443a ∷ some iso14443b ∷ some iso15693 ∷ []

-- `RFID_OPT_LAYER2_UID`
abbrev pub opt_uid : ℕ
opt_uid = 0x0001

-- `sizeof(ph->uid)`
abbrev pub uid_size : ℕ
uid_size = 10

-- What the loops of the library need besides the arguments of the C functions: the fuel of the loops
-- that resolve collisions, and the address that `transceive_attrib` tests.
pub record Bounds : Type 0 where
  pub fuel : ℕ
  pub address : ℕ

module _ {W : Type 0} (rdr : Reader W) where
  abbrev pub init_of : Layer2Kind → Bool → M (Layer2Handle W) Bool
  init_of iso14443a = Session.init rdr
  init_of iso14443b = BSession.init rdr
  init_of iso15693 = VSession.init rdr

  -- `rfid_layer2_init`
  unfoldable pub init : ℕ → Bool → M (Layer2Handle W) Bool
  init id allocated h = elim (get_elem? layer2s id) [
    | none ↦ ok false h
    | some none ↦ fault
    | some (some kind) ↦ init_of kind allocated h
  ]

  abbrev pub open_of : Layer2Kind → Bounds → M (Layer2Handle W) ℤ
  open_of iso14443a n = Anticol.anticol rdr n.fuel
  open_of iso14443b n = Select.anticol rdr n.address
  open_of iso15693 n = VAnticol.anticol rdr n.fuel

  -- `rfid_layer2_open`
  unfoldable pub open_l2 : Bounds → M (Layer2Handle W) ℤ
  open_l2 n h = open_of h.l2 n h

  abbrev pub transceive_of : Layer2Kind → FrameType → List ℕ → ℕ → ℕ → ℕ → M (Layer2Handle W) Reply
  transceive_of iso14443a = Anticol.transceive rdr
  transceive_of iso14443b = BSession.transceive rdr
  transceive_of iso15693 = λ frametype tx rx_len timeout flags.
      pure (record { ret = neg_eio; bytes = []; rx_len = rx_len })

  -- `rfid_layer2_transceive`; ISO 15693 has no such function
  unfoldable pub transceive : FrameType → List ℕ → ℕ → ℕ → ℕ → M (Layer2Handle W) Reply
  transceive frametype tx rx_len timeout flags h =
      transceive_of h.l2 frametype tx rx_len timeout flags h

  -- `rfid_layer2_fini`: each implementation frees the handle and returns 0
  unfoldable pub fini : M (Layer2Handle W) ℤ
  fini = pure (pos 0)

  abbrev pub close_of : Layer2Kind → M (Layer2Handle W) ℤ
  close_of iso14443a = Session.hlta rdr
  close_of iso14443b = Select.hltb rdr
  close_of iso15693 = VSession.stay_quiet rdr

  -- `rfid_layer2_close`
  unfoldable pub close : M (Layer2Handle W) ℤ
  close h = close_of h.l2 h

  abbrev pub getopt_of : Layer2Kind → ℕ → ℕ → M (Layer2Handle W) GetOpt
  getopt_of iso14443a = Session.getopt rdr
  getopt_of iso14443b = BSession.getopt rdr
  getopt_of iso15693 = VSession.getopt rdr

  -- `rfid_layer2_getopt`
  unfoldable pub getopt : ℕ → ℕ → M (Layer2Handle W) GetOpt
  getopt optname optlen h =
      if optname >>> 16 == 0
      then (let n = if ltb h.uid_len optlen then h.uid_len else optlen in
          if optname == opt_uid
          then ok (got (pos 0) (bytes (take n h.uid)) n) h
          else ok (got neg_einval nothing optlen) h)
      else getopt_of h.l2 optname optlen h

  abbrev pub setopt_of : Layer2Kind → ℕ → Option (List ℕ) → ℕ → M (Layer2Handle W) ℤ
  setopt_of iso14443a optname optval optlen = Session.setopt rdr optname optval
  setopt_of iso14443b optname optval optlen = BSession.setopt rdr optname optval
  setopt_of iso15693 optname optval optlen = VSession.setopt rdr optname optval optlen

  -- `rfid_layer2_setopt`
  unfoldable pub setopt : ℕ → Option (List ℕ) → ℕ → M (Layer2Handle W) ℤ
  setopt optname optval optlen h =
      if optname >>> 16 == 0
      then (if not (optname == opt_uid)
          then ok neg_einval h
          else if ltb h.uid_len uid_size && leb optlen uid_size
          then elim optval [
            | none ↦ if optlen == 0 then ok (pos 0) (record h { uid_len = 0 }) else fault
            | some v ↦
                ok (pos 0) (record h { uid_len = optlen; uid = overlay (take optlen v) h.uid })
          ]
          else ok neg_einval h)
      else setopt_of h.l2 optname optval optlen h
