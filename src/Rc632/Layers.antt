-- ===== src/Rc632/Layers.antt =====
-- The anticollision command of ISO 15693 in src/rfid_asic_rc632.c, and
-- src/rfid_reader_rc632_common.c: the functions through which a reader uses the chip. Those that only
-- pass their arguments on are the driver's functions themselves.
use librfid.Prelude.{
  ℕ, ℤ, pos, negsuc, neg_einval, neg_eio, is_neg, Option, none, some, List, Bool, true, false, ◌||◌,
  ◌==◌, ltb, length, get_or, test, u8, if◌then◌else◌,
}
use librfid.Control.{M, ◌>>=◌, pure}
use librfid.Rc632.Reg
use librfid.Rc632.Bit
use librfid.Rc632.Transport.{Transport, value}
use librfid.Rc632.Registers.{rf_power}
use librfid.Rc632.Fifo.{transceive}
use librfid.Rc632.Speed

-- `iso15693_timing[rate][ISO15693_T1]`, by the flag for the high rate
abbrev pub timing_t1 : ℕ → ℕ
timing_t1 flags = if test flags 0x02 then 304 else 1216

abbrev pub is_lost : ℤ → Bool
is_lost (pos n) = false
is_lost (negsuc n) = n == 109 || n == 4

-- What `rc632_iso15693_transceive_ac` leaves behind: its result, the bytes stored from the start of
-- `resp` on, and the value of `*bit_of_col`, which an early return does not set.
pub record AcAnswer : Type 0 where
  pub ret : ℤ
  pub bytes : List ℕ
  pub bit_of_col : Option ℕ

-- `RFID_OPT_RDR_RF_KILL`
abbrev pub opt_rf_kill : ℕ
opt_rf_kill = 0x0002

module _ {W : Type 0} (t : Transport W) where
  -- The end of `rc632_iso15693_transceive_ac`, from the read of the error flags on.
  unfoldable pub finish_ac : List ℕ → M W AcAnswer
  finish_ac bytes = do
    r ← t.reg_read Reg.error_flag
    if is_neg r.ret then pure (record { ret = r.ret; bytes = bytes; bit_of_col = none }) else (do
      flags ← value r.val
      if test flags Bit.err_flag_col_err
          then (do
            c ← t.reg_read Reg.coll_pos
            if is_neg c.ret
                then pure (record { ret = c.ret; bytes = bytes; bit_of_col = none })
                else (do
                  boc ← value c.val
                  pure (record { ret = pos 0; bytes = bytes; bit_of_col = some boc })))
          else pure (record {
            ret = if test flags Bit.err_flag_crc_err then neg_eio else pos 0;
            bytes = bytes;
            bit_of_col = some 0;
          }))

  -- `rc632_iso15693_transceive_ac`: the command's bytes, of which the first are the flags, and the
  -- room for the answer. Of the errors of the exchange two are returned.
  unfoldable pub transceive_ac : ℕ → List ℕ → ℕ → M W AcAnswer
  unfolding transceive finish_ac
  transceive_ac fuel acf room = do
    r ← transceive t fuel acf (u8 (length acf)) (u8 room) (timing_t1 (get_or acf 0 0))
    if is_lost r.ret
        then pure (record { ret = r.ret; bytes = r.bytes; bit_of_col = none })
        else finish_ac r.bytes

  -- `_rdr_rc632_14443a_set_speed`
  unfoldable pub set_speed : ℕ → ℕ → M W ℤ
  unfolding Speed.set_speed
  set_speed tx speed =
      if speed == 1
      then Speed.set_speed t tx 0x00
      else if speed == 2
      then Speed.set_speed t tx 0x01
      else if speed == 4
      then Speed.set_speed t tx 0x02
      else if speed == 8
      then Speed.set_speed t tx 0x03
      else pure neg_einval

  -- `_rdr_rc632_getopt`
  unfoldable pub getopt : ℕ → M W ℤ
  getopt optname = pure neg_einval

  -- `_rdr_rc632_setopt`, of a value of four bytes or of none
  unfoldable pub setopt : ℕ → Option ℕ → ℕ → M W ℤ
  unfolding rf_power
  setopt optname none optlen = pure neg_einval
  setopt optname (some val) optlen =
      if ltb optlen 4
      then pure neg_einval
      else if optname == opt_rf_kill
      then (if val == 0 then rf_power t true else rf_power t false)
      else pure neg_einval
