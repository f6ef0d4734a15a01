-- ===== src/MifareClassic/Pages.antt =====
-- `mfcl_init`, `mfcl_read`, `mfcl_write`, `mfcl_getopt` and the functions for keys.
use librfid.Prelude.{
  ℕ, ℤ, pos, neg_einval, neg_eperm, neg_eio, neg_enodev, is_neg, ◌+◌, ◌*◌, Option, none, some, List,
  [], ◌∷◌, take, store_front, Bool, false, not, ◌&&◌, ltb, ◌==◌, bit_and, if◌then◌else◌, get_or,
}
use librfid.Control.{M, ok, fault, ◌>>=◌, ◌>>◌, pure, leave_if, leave_neg, call, read}
use librfid.Reader.{Reader, Reply, frame_mifare}
use librfid.Layer2.Handle.{layer2_id, with_world}
use librfid.Layer2.Dispatch as Layer2
use librfid.Layer2.Options.{Stored, nothing, uint8, uint, bytes, GetOpt, got}
use librfid.Layer2.Iso14443a.Session.{opt_atqa, opt_sak}
use librfid.Tcl.Handle.{ProtocolHandle, on_l2}

abbrev pub page_max : ℕ
page_max = 0xff

-- `RFID_OPT_PROTO_SIZE`
abbrev pub opt_size : ℕ
opt_size = 0x10000001

abbrev pub resp_ack : ℕ
resp_ack = 0x0a

-- What a read returns: `ret`, the bytes copied to `rx_data` and the value of `*rx_len`.
pub record PageRead : Type 0 where
  pub ret : ℤ
  pub rx_data : List ℕ
  pub rx_len : ℕ

abbrev pub no_page : ℤ → ℕ → PageRead
no_page ret rx_len = record { ret = ret; rx_data = []; rx_len = rx_len }

-- The bytes that a `getopt` stored in an array that held `was` before.
abbrev pub stored_bytes : Stored → List ℕ → List ℕ
stored_bytes (bytes v) was = store_front v was
stored_bytes (uint8 v) was = store_front (v ∷ []) was
stored_bytes _ was = was

-- `mfcl_read`, after the transmission: one byte 4 means that the key was wrong.
unfoldable pub finish_read : Reply → ℕ → Option PageRead
finish_read r rx_len =
    let n = if ltb r.rx_len rx_len then r.rx_len else rx_len in
    if is_neg r.ret
    then some (no_page r.ret rx_len)
    else if r.rx_len == 1 && get_or r.bytes 0 0 == 0x04
    then some (no_page neg_eperm rx_len)
    else if ltb 16 n
    then none
    else some (record { ret = r.ret; rx_data = take n r.bytes; rx_len = n })

-- The size of the card by its ATQA and SAK, in bytes.
unfoldable pub size_of : ℕ → ℕ → ℕ → Option ℕ
size_of atqa_0 atqa_1 sak =
    if atqa_0 == 0x04 && atqa_1 == 0x00
    then some (if sak == 0x09 then 320 else 1024)
    else if atqa_0 == 0x02 && atqa_1 == 0x00
    then some 4096
    else none

module _ {W : Type 0} (rdr : Reader W) where
  -- `mfcl_read`; a copy of more than the 16 bytes of `rx_buf` is a fault.
  unfoldable pub read_page : ℕ → ℕ → M (ProtocolHandle W) PageRead
  unfolding finish_read
  read_page page rx_len h =
      if ltb page_max page
      then ok (no_page neg_einval rx_len) h
      else (do
        r ← on_l2 (Layer2.transceive rdr frame_mifare (0x30 ∷ bit_and page 0xff ∷ []) 16 250 0)
        elim (finish_read r rx_len) [ none ↦ (λ s. fault) | some p ↦ pure p ])
          h

  -- `mfcl_write`
  unfoldable pub write_page : ℕ → List ℕ → ℕ → M (ProtocolHandle W) ℤ
  write_page page tx tx_len = call (do
    leave_if (ltb page_max page) neg_einval
    leave_if (not (tx_len == 16)) neg_einval
    r ← on_l2 (Layer2.transceive rdr frame_mifare (0xa0 ∷ bit_and page 0xff ∷ []) 1 600 0)
    leave_neg r.ret
    r' ← on_l2 (Layer2.transceive rdr frame_mifare (take tx_len tx) r.rx_len 600 0)
    leave_neg r'.ret
    answer ← read (store_front r'.bytes r.bytes) 0
    leave_if (not (answer == resp_ack)) neg_eio
    pure r'.ret)

  -- `mfcl_getopt`; `unsigned int` has four bytes.
  unfoldable pub getopt : ℕ → ℕ → M (ProtocolHandle W) GetOpt
  unfolding size_of
  getopt optname optlen =
      if not (optname == opt_size)
      then pure (got neg_einval nothing optlen)
      else if ltb optlen 4
      then pure (got neg_einval nothing optlen)
      else (do
        q ← on_l2 (Layer2.getopt rdr opt_atqa 2)
        s ← on_l2 (Layer2.getopt rdr opt_sak 1)
        atqa_0 ← read (stored_bytes q.stored []) 0
        atqa_1 ← read (stored_bytes q.stored []) 1
        sak ← read (stored_bytes s.stored []) 0
        elim (size_of atqa_0 atqa_1 sak) [
          | none ↦ pure (got neg_eio nothing 4)
          | some n ↦ pure (got (pos 0) (uint n) 4)
        ])

  -- `mfcl_init`
  unfoldable pub init : Bool → M (ProtocolHandle W) Bool
  init allocated h =
      if not (layer2_id h.l2h.l2 == 1)
      then ok false h
      else if not (h.l2h.uid_len == 4)
      then ok false h
      else ok allocated h

  -- A function of the reader that it may lack.
  abbrev with_reader : {A : Type 0} → Option A → (A → W → ℤ × W) → M (ProtocolHandle W) ℤ
  with_reader none use_it = pure neg_enodev
  with_reader (some f) use_it = on_l2 (with_world (use_it f))

  -- `mfcl_set_key`
  unfoldable pub set_key : List ℕ → M (ProtocolHandle W) ℤ
  set_key key = with_reader rdr.setkey (λ f. f key)

  -- `mfcl_set_key_ee`
  unfoldable pub set_key_ee : ℕ → M (ProtocolHandle W) ℤ
  set_key_ee addr = with_reader rdr.setkey_ee (λ f. f addr)

  -- `mfcl_auth`; the serial number is the first four bytes of the identifier, little-endian.
  unfoldable pub auth : ℕ → ℕ → M (ProtocolHandle W) ℤ
  auth cmd block h =
      let uid = λ (i : ℕ). get_or h.l2h.uid i 0 in
      let serno = uid 0 + 256 * uid 1 + 65536 * uid 2 + 16777216 * uid 3 in
      with_reader rdr.auth (λ f. f cmd serno block) h
