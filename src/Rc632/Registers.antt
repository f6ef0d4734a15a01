-- ===== src/Rc632/Registers.antt =====
-- The functions of src/rfid_asic_rc632.c that change bits of one register, and scripts of register
-- writes.
use librfid.Prelude.{
  ℕ, ℤ, pos, minus_one, is_neg, List, [], ◌∷◌, ◌-◌, ◌==◌, bit_and, bit_or, Bool, if◌then◌else◌,
}
use librfid.Control.{M, ◌>>=◌, ◌>>◌, pure, leave_if, call}
use librfid.Rc632.Reg
use librfid.Rc632.Bit
use librfid.Rc632.Transport.{Transport, value, check, load}

-- `struct register_file`
pub record RegisterFile : Type 0 where
  pub reg : ℕ
  pub val : ℕ

-- `x & ~mask`, of bytes
abbrev pub bit_clear : ℕ → ℕ → ℕ
bit_clear x mask = bit_and x (0xff - mask)

module _ {W : Type 0} (t : Transport W) where
  -- `rc632_set_bits`
  unfoldable pub set_bits : ℕ → ℕ → M W ℤ
  set_bits reg val = call (do
    r ← t.reg_read reg
    leave_if (is_neg r.ret) minus_one
    tmp ← value r.val
    leave_if (bit_and tmp val == val) (pos 0)
    t.reg_write reg (bit_and (bit_or tmp val) 0xff))

  -- `rc632_set_bit_mask`
  unfoldable pub set_bit_mask : ℕ → ℕ → ℕ → M W ℤ
  set_bit_mask reg mask val = call (do
    tmp ← load t reg
    leave_if (bit_and tmp mask == val) (pos 0)
    t.reg_write reg (bit_or (bit_clear tmp mask) (bit_and val mask)))

  -- `rc632_clear_bits`
  unfoldable pub clear_bits : ℕ → ℕ → M W ℤ
  clear_bits reg val = call (do
    r ← t.reg_read reg
    leave_if (is_neg r.ret) minus_one
    tmp ← value r.val
    leave_if (bit_and tmp val == 0) (pos 0)
    t.reg_write reg (bit_clear tmp val))

  -- `rc632_clear_irqs`
  unfoldable pub clear_irqs : ℕ → M W ℤ
  clear_irqs bits = t.reg_write Reg.interrupt_rq (bit_clear bits Bit.int_set)

  -- `rc632_rf_power`
  unfoldable pub rf_power : Bool → M W ℤ
  unfolding set_bits clear_bits
  rf_power on =
      if on
      then set_bits Reg.tx_control (bit_or Bit.txctrl_tx1_rf_en Bit.txctrl_tx2_rf_en)
      else clear_bits Reg.tx_control (bit_or Bit.txctrl_tx1_rf_en Bit.txctrl_tx2_rf_en)

  -- `rc632_power`
  unfoldable pub power : Bool → M W ℤ
  unfolding set_bits clear_bits
  power on =
      if on
      then clear_bits Reg.control Bit.control_powerdown
      else set_bits Reg.control Bit.control_powerdown

  -- The loop of `rc632_execute_script`
  unfoldable pub run_script : List RegisterFile → M W ℤ
  run_script [] = pure (pos 0)
  run_script (f ∷ script) = do check (t.reg_write f.reg f.val); run_script script

  -- `rc632_execute_script`
  unfoldable pub execute_script : List RegisterFile → M W ℤ
  unfolding run_script
  execute_script script = call (run_script script)
