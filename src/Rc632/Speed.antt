-- ===== src/Rc632/Speed.antt =====
-- `rc632_iso14443a_set_speed`, src/rfid_asic_rc632.c.
use librfid.Prelude.{
  ℕ, ℤ, pos, neg_einval, none, some, List, [], ◌∷◌, ◌==◌, ltb, length, get_elem?, if◌then◌else◌,
}
use librfid.Control.{M, ◌>>=◌, ◌>>◌, pure, undefined, leave_if, call}
use librfid.Rc632.Reg
use librfid.Rc632.Bit
use librfid.Rc632.Transport.{Transport, check, when}
use librfid.Rc632.Registers.{set_bit_mask}

-- `struct rx_config` and `struct tx_config`
pub record RxConfig : Type 0 where
  pub subc_pulses : ℕ
  pub rx_coding : ℕ
  pub rx_threshold : ℕ
  pub bpsk_dem_ctrl : ℕ

pub record TxConfig : Type 0 where
  pub rate : ℕ
  pub mod_width : ℕ

-- A row of `rx_configs` in BPSK coding
abbrev bpsk : ℕ → RxConfig
bpsk pulses = record {
  subc_pulses = pulses;
  rx_coding = Bit.decctrl_bpsk;
  rx_threshold = 0x50;
  bpsk_dem_ctrl = 0x0c;
}

-- The row of `rx_configs` for 106 kbit/s
abbrev pub manchester : RxConfig
manchester = record {
  subc_pulses = Bit.rxctrl1_subcp_8;
  rx_coding = Bit.decctrl_manchester;
  rx_threshold = 0x88;
  bpsk_dem_ctrl = 0x00;
}

abbrev pub rx_configs : List RxConfig
rx_configs =
    manchester ∷ bpsk Bit.rxctrl1_subcp_4 ∷ bpsk Bit.rxctrl1_subcp_2 ∷ bpsk Bit.rxctrl1_subcp_1 ∷ []

abbrev pub tx_configs : List TxConfig
tx_configs =
    record { rate = Bit.cdrctrl_rate_106k; mod_width = 0x13 }
    ∷ record { rate = Bit.cdrctrl_rate_212k; mod_width = 0x07 }
    ∷ record { rate = Bit.cdrctrl_rate_424k; mod_width = 0x03 }
    ∷ record { rate = Bit.cdrctrl_rate_848k; mod_width = 0x01 }
    ∷ []

-- A row of a table, read where `row` points: past the end it is a fault.
abbrev row : {S A : Type 0} → List A → ℕ → M S A
row table i s = elim (get_elem? table i) [ none ↦ undefined s | some x ↦ pure x s ]

module _ {W : Type 0} (t : Transport W) where
  -- `rc632_iso14443a_set_speed`; its tests let the number of rows pass.
  unfoldable pub set_speed : ℕ → ℕ → M W ℤ
  unfolding set_bit_mask
  set_speed tx rate =
      if tx == 0
      then call (do
        leave_if (ltb (length rx_configs) rate) neg_einval
        c ← row rx_configs rate
        check (set_bit_mask t Reg.rx_control1 Bit.rxctrl1_subcp_mask c.subc_pulses)
        check (set_bit_mask t Reg.decoder_control Bit.decctrl_bpsk c.rx_coding)
        check (t.reg_write Reg.rx_threshold c.rx_threshold)
        when (c.rx_coding == Bit.decctrl_bpsk)
            (check (t.reg_write Reg.bpsk_dem_control c.bpsk_dem_ctrl))
        pure (pos 0))
      else call (do
        leave_if (ltb (length tx_configs) rate) neg_einval
        c ← row tx_configs rate
        check (set_bit_mask t Reg.coder_control Bit.cdrctrl_rate_mask c.rate)
        check (t.reg_write Reg.mod_width c.mod_width)
        pure (pos 0))
