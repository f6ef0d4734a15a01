-- ===== src/Layer2/Laws.antt =====
-- What the functions of src/rfid_layer2.c promise of every layer.
use librfid.Prelude.{
  ℕ, pos, neg_eio, [], take-length, take-overlay, ◌≤◌, ◌<◌, ◌≡◌, refl, some, List, length, take,
  overlay, arith,
}
use librfid.Control.{ok}
use librfid.Reader.{Reader, Reply, FrameType}
use librfid.Layer2.Handle.{Layer2Handle, iso14443a, iso14443b, iso15693, Layer2Kind}
use librfid.Layer2.Options.{got, bytes}
use librfid.Layer2.Dispatch.{transceive, transceive_of, setopt, getopt, opt_uid, uid_size}
use librfid.Layer2.Iso14443a.Anticol
use librfid.Layer2.Iso14443b.Session

-- An answer that keeps to the room that was given.
abbrev pub IsWithin : ℕ → Reply → Type 0
IsWithin room r = (r.rx_len ≤ room) × (length r.bytes ≤ room)

-- The documented behaviour of a reader's `transceive`: `*rx_len` says how much room there is.
abbrev pub IsBounded : {W : Type 0} → Reader W → Type 0
IsBounded {W} rdr =
    (frametype : FrameType) (tx : List ℕ) (room timeout flags : ℕ) (w : W)
    → IsWithin room (rdr.transceive frametype tx room timeout flags w).0

-- What a transmission through a layer is: the reader's, or a refusal by ISO 15693.
abbrev pub exchange :
    {W : Type 0} → Reader W → Layer2Kind → FrameType → List ℕ → ℕ → ℕ → ℕ → W → Reply × W
exchange rdr iso14443a = rdr.transceive
exchange rdr iso14443b = rdr.transceive
exchange rdr iso15693 =
    λ frametype tx room timeout flags w. (record { ret = neg_eio; bytes = []; rx_len = room }, w)

module _ {W : Type 0} (rdr : Reader W) where
  transceive_of-exchange :
      (kind : Layer2Kind) (frametype : FrameType) (tx : List ℕ) (room timeout flags : ℕ)
      (h : Layer2Handle W)
      → transceive_of rdr kind frametype tx room timeout flags h ≡ (
          let (r, w) = exchange rdr kind frametype tx room timeout flags h.world in
          ok r (record h { world = w }))
  unfolding Anticol.transceive Session.transceive
  transceive_of-exchange iso14443a frametype tx room timeout flags h = refl
  transceive_of-exchange iso14443b frametype tx room timeout flags h = refl
  transceive_of-exchange iso15693 frametype tx room timeout flags h = refl

  pub transceive-exchange :
      (frametype : FrameType) (tx : List ℕ) (room timeout flags : ℕ) (h : Layer2Handle W)
      → transceive rdr frametype tx room timeout flags h ≡ (
          let (r, w) = exchange rdr h.l2 frametype tx room timeout flags h.world in
          ok r (record h { world = w }))
  unfolding transceive
  transceive-exchange frametype tx room timeout flags h =
      transceive_of-exchange h.l2 frametype tx room timeout flags h

  pub exchange-IsWithin :
      (kind : Layer2Kind) (frametype : FrameType) (tx : List ℕ) (room timeout flags : ℕ) (w : W)
      → IsBounded rdr
      → IsWithin room (exchange rdr kind frametype tx room timeout flags w).0
  exchange-IsWithin iso14443a frametype tx room timeout flags w b =
      b frametype tx room timeout flags w
  exchange-IsWithin iso14443b frametype tx room timeout flags w b =
      b frametype tx room timeout flags w
  exchange-IsWithin iso15693 frametype tx room timeout flags w b = omega arith

  -- Let the handle's identifier be shorter than ten bytes and its array have ten. Then setting an
  -- identifier of at most ten bytes succeeds, and a query with enough room gives it back with its
  -- length.
  pub getopt-setopt_uid :
      (uid : List ℕ) (optlen : ℕ) (h : Layer2Handle W)
      → h.uid_len < uid_size
      → length uid ≤ uid_size
      → length h.uid ≡ uid_size
      → length uid ≤ optlen
      → (h' : Layer2Handle W) × (setopt rdr opt_uid (some uid) (length uid) h ≡ ok (pos 0) h')
        × (getopt rdr opt_uid optlen h' ≡ ok (got (pos 0) (bytes uid) (length uid)) h')
  unfolding setopt getopt
  getopt-setopt_uid uid optlen h short fits ten room = (
    record h { uid_len = length uid; uid = overlay (take (length uid) uid) h.uid },
    ground arith,
    ground (arith, take-length uid, take-overlay uid h.uid),
  )
