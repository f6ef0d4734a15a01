-- ===== src/Rc632/Iso14443a.antt =====
-- The frames of ISO 14443 and of ISO 15693 through the chip, src/rfid_asic_rc632.c.
use librfid.Prelude.{
  ℕ, ℤ, pos, minus_one, neg_einval, is_neg, ◌+◌, ◌-◌, ◌*◌, Option, none, some, List, [], ◌∷◌, not,
  ◌||◌, ◌==◌, ltb, length, take, drop, get_or, set, overlay_at, store_front, replicate, bit_and,
  bit_or, test, u8, ◌<<<◌, ◌>>>◌, if◌then◌else◌,
}
use librfid.Control.{M, ◌>>=◌, ◌>>◌, pure, undefined, leave_if, leave_neg, call}
use librfid.Reader.{
  Reply, FrameType, frame_14443a_regular, frame_14443b_regular, frame_mifare, frame_15693,
  frame_15693_icode1, Atqa, AnticolCmd, SfReply, AcfReply,
}
use librfid.Layer2.Iso14443a.Anticol.{no_atqa, bit_of_col_none, acf_bytes}
use librfid.Rc632.Reg
use librfid.Rc632.Bit
use librfid.Rc632.Scripts.{bits}
use librfid.Rc632.Transport.{Transport, check, check_read, load, value, when}
use librfid.Rc632.Registers.{clear_bits}
use librfid.Rc632.Fifo.{transceive}

-- `ISO14443A_FDT_ANTICOL_LAST1`
abbrev pub fdt_anticol_last1 : ℕ
fdt_anticol_last1 = 92

-- The two bytes at `atqa`, after `memset` and after bytes were received over them.
abbrev pub atqa_of : List ℕ → Atqa
atqa_of bytes = record { byte_0 = get_or bytes 0 0; byte_1 = get_or bytes 1 0 }

-- The value of CHANNEL_REDUNDANCY for a frame, `none` for the frames that are not implemented.
unfoldable pub channel_red : FrameType → Option ℕ
channel_red frame_14443a_regular = some (
    bits
      (Bit.cr_rx_crc_enable ∷ Bit.cr_tx_crc_enable ∷ Bit.cr_parity_enable ∷ Bit.cr_parity_odd ∷ []))
channel_red frame_mifare = some (
    bits
      (Bit.cr_rx_crc_enable ∷ Bit.cr_tx_crc_enable ∷ Bit.cr_parity_enable ∷ Bit.cr_parity_odd ∷ []))
channel_red frame_14443b_regular =
    some (bits (Bit.cr_rx_crc_enable ∷ Bit.cr_tx_crc_enable ∷ Bit.cr_crc3309 ∷ []))
channel_red frame_15693 =
    some (bits (Bit.cr_crc3309 ∷ Bit.cr_rx_crc_enable ∷ Bit.cr_tx_crc_enable ∷ []))
channel_red frame_15693_icode1 = none

-- `tx_bytes`, `tx_last_bits` and `tx_bytes_total` of an anticollision frame
abbrev pub tx_bytes : ℕ → ℕ
tx_bytes nvb = bit_and (nvb >>> 4) 0x07

abbrev pub tx_last_bits : ℕ → ℕ
tx_last_bits nvb = bit_and nvb 0x07

abbrev pub tx_bytes_total : ℕ → ℕ
tx_bytes_total nvb = if tx_last_bits nvb == 0 then tx_bytes nvb else tx_bytes nvb + 1

-- The identifier with the received bytes: the halves of the split byte are put together, and the
-- rest is copied behind. `none` where the code leaves the arrays.
unfoldable pub merge_uid : ℕ → List ℕ → ℕ → List ℕ → Option (List ℕ)
merge_uid nvb rx rx_len uid =
    if ltb (tx_bytes nvb) 2
      || ltb 6 (tx_bytes nvb)
      || ltb 64 (length rx)
      || ltb 5 (tx_bytes nvb - 1 + (rx_len - 1))
    then none
    else let at = tx_bytes nvb - 2 in
      let split =
        bit_or (bit_and (get_or uid at 0) (0xff >>> (8 - tx_last_bits nvb))) (get_or rx 0 0) in
      some (
        overlay_at (at + 1) (take (rx_len - 1) (drop 1 (store_front rx (replicate 64 0))))
          (set uid at split))

module _ {W : Type 0} (t : Transport W) where
  -- `rc632_iso14443a_transceive_sf`
  unfoldable pub transceive_sf : ℕ → ℕ → M W SfReply
  unfolding clear_bits transceive
  transceive_sf fuel cmd = do
    ready ← call (do
      check (t.reg_write Reg.bit_framing 0x07)
      check (clear_bits t Reg.control Bit.control_crypto1_on)
      check (clear_bits t Reg.channel_redundancy (bit_or Bit.cr_rx_crc_enable Bit.cr_tx_crc_enable))
      pure (pos 0))
    if is_neg ready then pure (record { ret = ready; atqa = no_atqa }) else (do
      r ← transceive t fuel (cmd ∷ []) 1 2 fdt_anticol_last1
      if ltb 2 (length r.bytes) then undefined else (do
        ret ← call (do
          leave_neg r.ret
          check (t.reg_write Reg.bit_framing 0x00)
          flags ← load t Reg.error_flag
          when (test flags Bit.err_flag_col_err) (check_read t Reg.coll_pos)
          leave_if (not (r.rx_len == 2)) minus_one
          pure (pos 0))
        pure (record { ret = ret; atqa = atqa_of r.bytes })))

  -- `rc632_iso14443ab_transceive`, from the write of CHANNEL_REDUNDANCY on
  unfoldable pub ab_frame : ℕ → ℕ → List ℕ → ℕ → ℕ → M W Reply
  unfolding transceive
  ab_frame fuel red tx room timeout = do
    ret ← t.reg_write Reg.channel_redundancy red
    if is_neg ret then pure (record { ret = ret; bytes = replicate room 0; rx_len = room }) else (do
      r ← transceive t fuel tx (u8 (length tx)) (if ltb 0xff room then 0xff else room) timeout
      pure (record {
        ret = if is_neg r.ret then r.ret else pos 0;
        bytes = store_front r.bytes (replicate room 0);
        rx_len = r.rx_len;
      }))

  -- `rc632_iso14443ab_transceive`: the buffer is cleared first, and `tx_len` is cut to a byte.
  unfoldable pub ab_transceive : ℕ → FrameType → List ℕ → ℕ → ℕ → M W Reply
  unfolding channel_red ab_frame
  ab_transceive fuel frametype tx room timeout = elim (channel_red frametype) [
    | none ↦ pure (record { ret = neg_einval; bytes = replicate room 0; rx_len = room })
    | some red ↦ ab_frame fuel red tx room timeout
  ]

  -- `rc632_iso14443a_transceive_acf`, before the frame
  unfoldable pub prepare_acf : ℕ → M W ℤ
  unfolding clear_bits
  prepare_acf nvb = call (do
    check (clear_bits t Reg.control Bit.control_crypto1_on)
    check (clear_bits t Reg.channel_redundancy (bit_or Bit.cr_tx_crc_enable Bit.cr_tx_crc_enable))
    check (t.reg_write Reg.bit_framing (bit_or (tx_last_bits nvb <<< 4) (tx_last_bits nvb)))
    pure (pos 0))

  -- What is made of the collision, once the answer is in the command.
  unfoldable pub finish_acf : AnticolCmd → M W AcfReply
  finish_acf acf = do
    r ← t.reg_read Reg.error_flag
    if is_neg r.ret
        then pure (record { ret = r.ret; acf = acf; bit_of_col = bit_of_col_none })
        else (do
          flags ← value r.val
          if not (test flags Bit.err_flag_col_err)
              then pure (record { ret = pos 0; acf = acf; bit_of_col = bit_of_col_none })
              else (do
                c ← t.reg_read Reg.coll_pos
                if is_neg c.ret
                    then pure (record { ret = c.ret; acf = acf; bit_of_col = bit_of_col_none })
                    else (do
                      boc ← value c.val
                      pure (record { ret = pos 0; acf = acf; bit_of_col = 2 * 8 + boc }))))

  -- `rc632_iso14443a_transceive_acf`
  unfoldable pub transceive_acf : ℕ → AnticolCmd → M W AcfReply
  unfolding prepare_acf transceive merge_uid finish_acf
  transceive_acf fuel acf = do
    ready ← prepare_acf acf.nvb
    if is_neg ready
        then pure (record { ret = ready; acf = acf; bit_of_col = bit_of_col_none })
        else (do
          r ← transceive t fuel (acf_bytes acf) (tx_bytes_total acf.nvb) 64 0x32
          if is_neg r.ret
              then pure (record { ret = r.ret; acf = acf; bit_of_col = bit_of_col_none })
              else (do
                uid ← value (merge_uid acf.nvb r.bytes r.rx_len acf.uid_bits)
                finish_acf (record acf { uid_bits = uid })))
