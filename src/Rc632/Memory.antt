-- ===== src/Rc632/Memory.antt =====
-- The EEPROM of the chip, its CRC unit and its power: the rest of the functions of
-- src/rfid_asic_rc632.c that no layer calls by itself.
use librfid.Prelude.{
  ℕ, zero, suc, ℤ, pos, neg_einval, neg_eperm, is_neg, List, [], ◌∷◌, Bool, true, false, ltb,
  Option, bit_and, test, ◌>>>◌, if◌then◌else◌,
}
use librfid.Control.{M, out_of_fuel, ◌>>=◌, ◌>>◌, pure, leave_if, leave_neg, call}
use librfid.Rc632.Reg
use librfid.Rc632.Bit
use librfid.Rc632.Transport.{Transport, FifoRead, check, load, slice}
use librfid.Rc632.Registers.{power, rf_power}
use librfid.Rc632.Timer.{int_or}

-- `MAX_WRITE_LEN`
abbrev pub max_write_len : ℕ
max_write_len = 16

-- What `rc632_register_dump` leaves behind: its result and what it stored in the bytes of `buf`.
pub record Dump : Type 0 where
  pub ret : ℤ
  pub regs : List (Option ℕ)

module _ {W : Type 0} (t : Transport W) where
  -- The loop of `rc632_write_eeprom` that waits for the EEPROM.
  unfoldable pub poll_eeprom : ℕ → M W ℤ
  poll_eeprom zero w = out_of_fuel
  poll_eeprom (suc fuel) w =
      (do
        reg ← load t Reg.secondary_status
        elim (test reg Bit.sec_st_e2_ready) [
          | true ↦ t.reg_write Reg.command Bit.cmd_idle
          | false ↦ poll_eeprom fuel
        ])
        w

  -- `rc632_write_eeprom`
  unfoldable pub write_eeprom : ℕ → ℕ → List ℕ → ℕ → M W ℤ
  unfolding poll_eeprom
  write_eeprom fuel addr content len = call (do
    leave_if (ltb max_write_len len) neg_einval
    leave_if (ltb addr 0x10) neg_eperm
    leave_if (ltb 0x1ff addr) neg_einval
    bytes ← slice content 0 len
    check (t.fifo_write (bit_and addr 0x00ff ∷ addr >>> 8 ∷ bytes) 3)
    check (t.reg_write Reg.command Bit.cmd_write_e2)
    reg ← load t Reg.error_flag
    leave_if (test reg Bit.err_flag_access_err) neg_eperm
    poll_eeprom fuel)

  -- `rc632_read_eeprom`
  unfoldable pub read_eeprom : ℕ → ℕ → M W FifoRead
  read_eeprom addr len = do
    ret ← call (do
      check (t.fifo_write (bit_and addr 0xff ∷ addr >>> 8 ∷ len ∷ []) 3)
      check (t.reg_write Reg.command Bit.cmd_read_e2)
      reg ← load t Reg.error_flag
      leave_if (test reg Bit.err_flag_access_err) neg_eperm
      pure (pos 0))
    if is_neg ret then pure (record { ret = ret; bytes = [] }) else t.fifo_read len

  -- `rc632_calc_crc16_from`; a comment that is not closed takes in the reads of the result.
  unfoldable pub calc_crc16_from : M W ℤ
  calc_crc16_from = call (do
    check (t.reg_write Reg.crc_preset_lsb 0x12)
    check (t.reg_write Reg.crc_preset_msb 0xe0)
    check (t.fifo_write (0x01 ∷ 0x02 ∷ []) 3)
    ret ← t.reg_write Reg.command Bit.cmd_calc_crc
    leave_neg ret
    pure ret)

  -- The loop of `rc632_register_dump`: `n` registers from `reg` on.
  unfoldable pub dump_from : ℕ → ℕ → ℤ → M W Dump
  dump_from zero reg ret = pure (record { ret = ret; regs = [] })
  dump_from (suc n) reg ret = do
    r ← t.reg_read reg
    d ← dump_from n (suc reg) (int_or ret r.ret)
    pure (record { ret = d.ret; regs = r.val ∷ d.regs })

  -- `rc632_register_dump`
  unfoldable pub register_dump : M W Dump
  unfolding dump_from
  register_dump = dump_from 0x40 0 (pos 0)

  -- `rc632_init`
  unfoldable pub init : M W ℤ
  unfolding power rf_power
  init = call (do
    check (power t false)
    check (power t true)
    check (t.reg_write 0x00 0x00)
    check (t.reg_write 0x11 0x5b)
    check (rf_power t false)
    check (rf_power t true)
    pure (pos 0))

  -- `rc632_fini`
  unfoldable pub fini : M W ℤ
  unfolding power rf_power
  fini = call (do check (rf_power t false); check (power t false); pure (pos 0))

  -- `rc632_open`, when memory can be allocated: whether there is a handle. Its `mtu` and `mru` are
  -- both 64.
  unfoldable pub open_asic : M W Bool
  unfolding init
  open_asic = do ret ← init; pure (if is_neg ret then false else true)

  -- `rc632_close`
  unfoldable pub close_asic : M W (Unit {0})
  unfolding fini
  close_asic = do fini; pure tt
