-- ===== src/Rc632/Mifare.antt =====
-- The functions of src/rfid_asic_rc632.c for Mifare Classic cards and for ISO 15693 collisions.
use librfid.Prelude.{
  ℕ, ℤ, pos, neg_einval, neg_eio, neg_eacces, is_neg, ◌-◌, ◌^◌, List, [], ◌∷◌, not, ◌&&◌, ◌==◌, ltb,
  length, replicate, store_front, bit_and, bit_or, test, u8, ◌<<<◌, ◌>>>◌, if◌then◌else◌,
}
use librfid.Control.{M, ◌>>=◌, ◌>>◌, pure, leave_if, call}
use librfid.Reader.{Reply}
use librfid.Rc632.Reg
use librfid.Rc632.Bit
use librfid.Rc632.Transport.{Transport, check, load}
use librfid.Rc632.Registers.{clear_bits}
use librfid.Rc632.Timer.{timer_set, wait_idle_timer}
use librfid.Rc632.Fifo.{transceive}

-- `RC632_TMO_AUTH1`
abbrev pub tmo_auth1 : ℕ
tmo_auth1 = 140

abbrev pub key_coded_len : ℕ
key_coded_len = 12

abbrev pub cmd_auth1a : ℕ
cmd_auth1a = 0x60

abbrev pub cmd_auth1b : ℕ
cmd_auth1b = 0x61

-- `(~n << 4) | n`, stored in a byte
abbrev pub coded_nibble : ℕ → ℕ
coded_nibble n = u8 (bit_or ((2 ^ 32 - 1 - n) <<< 4) n)

-- `rc632_mifare_transform_key`, of the bytes of the key in order
unfoldable pub transform_key : List ℕ → List ℕ
transform_key [] = []
transform_key (b ∷ key) = coded_nibble (b >>> 4) ∷ coded_nibble (bit_and b 0x0f) ∷ transform_key key

-- `struct mifare_authcmd`, in memory
abbrev pub authcmd : ℕ → ℕ → ℕ → List ℕ
authcmd cmd block serno =
    cmd ∷ block ∷ u8 serno ∷ u8 (serno >>> 8) ∷ u8 (serno >>> 16) ∷ u8 (serno >>> 24) ∷ []

module _ {W : Type 0} (t : Transport W) (fuel : ℕ) where
  -- The end of `rc632_mifare_set_key` and of `rc632_mifare_set_key_ee`
  unfoldable pub load_key : ℕ → List ℕ → M W ℤ
  unfolding timer_set wait_idle_timer
  load_key cmd bytes = call (do
    check (t.reg_write Reg.command Bit.cmd_idle)
    check (t.fifo_write bytes 3)
    check (t.reg_write Reg.command cmd)
    check (timer_set t tmo_auth1)
    check (wait_idle_timer t fuel)
    reg ← load t Reg.error_flag
    leave_if (test reg Bit.err_flag_key_err) neg_einval
    pure (pos 0))

  -- `rc632_mifare_set_key`, of the six bytes of a key
  unfoldable pub set_key : List ℕ → M W ℤ
  unfolding transform_key load_key
  set_key key = load_key Bit.cmd_load_key (transform_key key)

  -- `rc632_mifare_set_key_ee`
  unfoldable pub set_key_ee : ℕ → M W ℤ
  unfolding load_key
  set_key_ee addr =
      if ltb (0xffff - key_coded_len) addr
      then pure neg_einval
      else load_key Bit.cmd_load_key_e2 (bit_and addr 0xff ∷ bit_and (addr >>> 8) 0xff ∷ [])

  -- `rc632_mifare_auth`
  unfoldable pub auth : ℕ → ℕ → ℕ → M W ℤ
  unfolding clear_bits timer_set wait_idle_timer
  auth cmd serno block = call (do
    leave_if (not (cmd == cmd_auth1a) && not (cmd == cmd_auth1b)) neg_einval
    check (clear_bits t Reg.channel_redundancy Bit.cr_rx_crc_enable)
    check (t.fifo_write (authcmd cmd block serno) 3)
    check (t.reg_write Reg.command Bit.cmd_authent1)
    check (timer_set t tmo_auth1)
    check (wait_idle_timer t fuel)
    status ← load t Reg.secondary_status
    leave_if (test status 0x07) neg_eio
    check (clear_bits t Reg.channel_redundancy Bit.cr_tx_crc_enable)
    check (timer_set t tmo_auth1)
    check (t.reg_write Reg.command Bit.cmd_authent2)
    check (wait_idle_timer t fuel)
    control ← load t Reg.control
    leave_if (not (test control Bit.control_crypto1_on)) neg_eacces
    pure (pos 0))

  -- `rc632_mifare_transceive`, which nothing calls
  unfoldable pub mifare_transceive : List ℕ → ℕ → M W Reply
  unfolding transceive
  mifare_transceive tx room = do
    ret ← t.reg_write Reg.channel_redundancy (
        bit_or (bit_or (bit_or Bit.cr_parity_enable Bit.cr_parity_odd) Bit.cr_tx_crc_enable)
          Bit.cr_rx_crc_enable)
    if is_neg ret then pure (record { ret = ret; bytes = replicate room 0; rx_len = room }) else (do
      r ← transceive t fuel tx (u8 (length tx)) (bit_and room 0xff) 0x32
      pure (record {
        ret = if is_neg r.ret then r.ret else pos 0;
        bytes = store_front r.bytes (replicate room 0);
        rx_len = r.rx_len;
      }))
