-- ===== src/MifareUltralight.antt =====
-- src/rfid_proto_mifare_ul.c: pages and locks of a Mifare Ultralight card.
pub mod Laws
use librfid.Prelude.{
  ℕ, ℤ, pos, neg_einval, neg_eio, is_neg, ◌+◌, ◌-◌, ◌*◌, ◌/◌, ◌^◌, ◌%◌, Option, none, some, List,
  [], ◌∷◌, ◌++◌, take, length, Bool, true, false, not, ◌&&◌, ◌||◌, ltb, ◌==◌, bit_and,
  if◌then◌else◌, get_elem?, get_or, u8, u32, set,
}
use librfid.Control.{
  M, Run, ok, returned, fault, ◌>>=◌, ◌>>◌, pure, leave_if, leave_neg, get, call, read,
}
use librfid.Reader.{Reader, Reply, frame_14443a_regular}
use librfid.Layer2.Handle.{Layer2Kind, iso14443a, iso14443b, iso15693, layer2_id}
use librfid.Layer2.Dispatch as Layer2
use librfid.Layer2.Options.{Stored, nothing, uint, bytes, GetOpt, got}
use librfid.Layer2.Iso14443a.Session.{opt_atqa}
use librfid.Tcl.Handle.{ProtocolHandle, ProtocolKind, tcl, mifare_ul, mifare_classic, tagit, on_l2}
use librfid.MifareClassic.Pages.{PageRead, no_page, stored_bytes, opt_size, resp_ack}

abbrev pub page_max : ℕ
page_max = 15

-- `MIFARE_UL_PAGE_LOCK` and `MIFARE_UL_PAGE_OTP`
abbrev pub page_lock : ℕ
page_lock = 2

abbrev pub page_otp : ℕ
page_otp = 3

-- `mful_read`, after the transmission; a copy of more than the 16 bytes of `rx_buf` is a fault.
unfoldable pub finish_read : Reply → ℕ → Option PageRead
finish_read r rx_len =
    let n = if ltb r.rx_len rx_len then r.rx_len else rx_len in
    if is_neg r.ret
    then some (no_page r.ret rx_len)
    else if ltb 16 n
    then none
    else some (record { ret = r.ret; rx_data = take n r.bytes; rx_len = n })

-- The four bytes that `rfid_mful_lock_page` writes to the page of the lock bits. `1 << page` is cut
-- to a byte when it is stored; `none` is a shift by a number that is negative, or a large unsigned one.
unfoldable pub lock_bytes : ℕ → Option (List ℕ)
lock_bytes page =
    if ltb 8 page
    then some (0 ∷ 0 ∷ u8 (2 ^ page) ∷ 0 ∷ [])
    else if ltb page 8
    then none
    else some (0 ∷ 0 ∷ 0 ∷ u8 (2 ^ (page - 8)) ∷ [])

module _ {W : Type 0} (rdr : Reader W) where
  -- `mful_read`
  unfoldable pub read_page : ℕ → ℕ → M (ProtocolHandle W) PageRead
  unfolding finish_read
  read_page page rx_len h =
      if ltb page_max page
      then ok (no_page neg_einval rx_len) h
      else (do
        r ←
            on_l2
              (Layer2.transceive rdr frame_14443a_regular (0x30 ∷ bit_and page 0xff ∷ []) 16 100 0)
        elim (finish_read r rx_len) [ none ↦ (λ s. fault) | some p ↦ pure p ])
          h

  -- `mful_write`
  unfoldable pub write_page : ℕ → List ℕ → ℕ → M (ProtocolHandle W) ℤ
  write_page page tx tx_len = call (do
    leave_if (not (tx_len == 4) || ltb page_max page) neg_einval
    r ←
        on_l2 (
          Layer2.transceive rdr frame_14443a_regular (0xa2 ∷ bit_and page 0xff ∷ take 4 tx) 10 100
            0)
    leave_neg r.ret
    answer ← read r.bytes 0
    leave_if (not (answer == resp_ack)) neg_eio
    pure r.ret)

  -- `mful_getopt`
  unfoldable pub getopt : ℕ → ℕ → M (ProtocolHandle W) GetOpt
  getopt optname optlen = pure (
      if optname == opt_size
      then got (pos 0) (uint (512 / 8)) optlen
      else got neg_einval nothing optlen)

  -- `mful_init`
  unfoldable pub init : Bool → M (ProtocolHandle W) Bool
  init allocated h =
      if not (layer2_id h.l2h.l2 == 1)
      then ok false h
      else (do
        q ← on_l2 (Layer2.getopt rdr opt_atqa 2)
        atqa_0 ← read (stored_bytes q.stored []) 0
        atqa_1 ← read (stored_bytes q.stored []) 1
        if not (atqa_0 == 0x44) || not (atqa_1 == 0x00)
            then pure false
            else (λ h'. ok (if not (h'.l2h.uid_len == 7) then false else allocated) h'))
          h

  abbrev is_mful : ProtocolKind → Bool
  is_mful mifare_ul = true
  is_mful tcl = false
  is_mful mifare_classic = false
  is_mful tagit = false

  -- `rfid_mful_lock_page`
  unfoldable pub lock_page : ℕ → M (ProtocolHandle W) ℤ
  unfolding write_page lock_bytes
  lock_page page = call (do
    h ← get
    leave_if (not (is_mful h.proto)) neg_einval
    leave_if (ltb page 3 || ltb 15 page) neg_einval
    elim (lock_bytes page) [ none ↦ (λ s. fault) | some buf ↦ write_page page_lock buf 4 ])

  -- `rfid_mful_lock_otp`
  unfoldable pub lock_otp : M (ProtocolHandle W) ℤ
  unfolding lock_page
  lock_otp = lock_page page_otp
