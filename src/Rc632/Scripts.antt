-- ===== src/Rc632/Scripts.antt =====
-- The settings of the chip for each kind of card, src/rfid_asic_rc632.c.
use librfid.Prelude.{
  ℕ, ℤ, pos, neg_einval, List, [], ◌∷◌, bit_or, bit_and, ◌<<<◌, ◌==◌, if◌then◌else◌,
}
use librfid.Control.{M, ◌>>◌, pure, call}
use librfid.Rc632.Reg
use librfid.Rc632.Bit
use librfid.Rc632.Transport.{Transport, check}
use librfid.Rc632.Registers.{RegisterFile, run_script, execute_script}

-- `a | b | ...`
abbrev pub bits : List ℕ → ℕ
bits [] = 0
bits (a ∷ more) = bit_or a (bits more)

abbrev pub set_to : ℕ → ℕ → RegisterFile
set_to reg val = record { reg = reg; val = val }

-- `iso14443a_script`
abbrev pub iso14443a_script : List RegisterFile
iso14443a_script =
    set_to Reg.tx_control (
      bits (
        Bit.txctrl_mod_src_int ∷ Bit.txctrl_tx2_inv ∷ Bit.txctrl_force_100_ask
        ∷ Bit.txctrl_tx2_rf_en ∷ Bit.txctrl_tx1_rf_en ∷ []))
    ∷ set_to Reg.cw_conductance 0x3f
    ∷ set_to Reg.mod_conductance 0x3f
    ∷ set_to Reg.coder_control (bits (Bit.cdrctrl_txcd_14443a ∷ Bit.cdrctrl_rate_106k ∷ []))
    ∷ set_to Reg.mod_width 0x13
    ∷ set_to Reg.mod_width_sof 0x3f
    ∷ set_to Reg.type_b_framing 0x00
    ∷ set_to Reg.rx_control1
        (bits (Bit.rxctrl1_gain_35db ∷ Bit.rxctrl1_iso14443 ∷ Bit.rxctrl1_subcp_8 ∷ []))
    ∷ set_to Reg.decoder_control (bits (Bit.decctrl_manchester ∷ Bit.decctrl_rxfr_14443a ∷ []))
    ∷ set_to Reg.bit_phase 0xa9
    ∷ set_to Reg.rx_threshold 0xff
    ∷ set_to Reg.bpsk_dem_control 0x00
    ∷ set_to Reg.rx_control2 (bits (Bit.rxctrl2_decsrc_int ∷ Bit.rxctrl2_clk_q ∷ []))
    ∷ set_to Reg.rx_wait 0x06
    ∷ set_to Reg.channel_redundancy (bits (Bit.cr_parity_enable ∷ Bit.cr_parity_odd ∷ []))
    ∷ set_to Reg.crc_preset_lsb 0x63
    ∷ set_to Reg.crc_preset_msb 0x63
    ∷ []

-- `iso15693_fast_script`
abbrev pub iso15693_fast_script : List RegisterFile
iso15693_fast_script =
    set_to Reg.tx_control (
      bits (
        Bit.txctrl_mod_src_int ∷ Bit.txctrl_tx2_inv ∷ Bit.txctrl_tx2_rf_en ∷ Bit.txctrl_tx1_rf_en
        ∷ []))
    ∷ set_to Reg.cw_conductance 0x3f
    ∷ set_to Reg.mod_conductance 0x21
    ∷ set_to Reg.coder_control (bits (Bit.cdrctrl_txcd_15693_fast ∷ Bit.cdrctrl_rate_15693 ∷ []))
    ∷ set_to Reg.mod_width 0x3f
    ∷ set_to Reg.mod_width_sof 0x3f
    ∷ set_to Reg.type_b_framing 0x00
    ∷ set_to Reg.rx_control1
        (bits (Bit.rxctrl1_iso15693 ∷ Bit.rxctrl1_subcp_16 ∷ Bit.rxctrl1_gain_35db ∷ []))
    ∷ set_to Reg.rx_control2 Bit.rxctrl2_decsrc_int
    ∷ set_to Reg.decoder_control (
        bits (
          Bit.decctrl_manchester ∷ Bit.decctrl_rx_invert ∷ Bit.decctrl_zeroaftercol
          ∷ Bit.decctrl_rxfr_15693 ∷ []))
    ∷ set_to Reg.bit_phase 0xd0
    ∷ set_to Reg.rx_threshold 0xed
    ∷ set_to Reg.bpsk_dem_control 0x00
    ∷ set_to Reg.channel_redundancy
        (bits (Bit.cr_rx_crc_enable ∷ Bit.cr_tx_crc_enable ∷ Bit.cr_crc3309 ∷ []))
    ∷ set_to Reg.crc_preset_lsb 0xff
    ∷ set_to Reg.crc_preset_msb 0xff
    ∷ []

-- `icode1_std_script`
abbrev pub icode1_std_script : List RegisterFile
icode1_std_script =
    set_to Reg.tx_control (
      bits (
        Bit.txctrl_mod_src_int ∷ Bit.txctrl_tx2_inv ∷ Bit.txctrl_tx2_rf_en ∷ Bit.txctrl_tx1_rf_en
        ∷ []))
    ∷ set_to Reg.cw_conductance 0x3f
    ∷ set_to Reg.mod_conductance 0x02
    ∷ set_to Reg.coder_control (bits (Bit.cdrctrl_txcd_icode_std ∷ Bit.cdrctrl_rate_15693 ∷ []))
    ∷ set_to Reg.mod_width 0x3f
    ∷ set_to Reg.mod_width_sof 0x3f
    ∷ set_to Reg.type_b_framing 0x00
    ∷ set_to Reg.rx_control1
        (bits (Bit.rxctrl1_iso15693 ∷ Bit.rxctrl1_subcp_16 ∷ Bit.rxctrl1_gain_35db ∷ []))
    ∷ set_to Reg.rx_control2 Bit.rxctrl2_decsrc_int
    ∷ set_to Reg.decoder_control (bits (Bit.decctrl_manchester ∷ Bit.decctrl_rxfr_icode ∷ []))
    ∷ set_to Reg.bit_phase 0x52
    ∷ set_to Reg.rx_threshold 0x66
    ∷ set_to Reg.bpsk_dem_control 0x00
    ∷ set_to Reg.channel_redundancy (bits (Bit.cr_rx_crc_enable ∷ Bit.cr_tx_crc_enable ∷ []))
    ∷ set_to Reg.crc_preset_lsb 0xfe
    ∷ set_to Reg.crc_preset_msb 0xff
    ∷ []

-- The registers that `rc632_iso14443b_init` writes, one after the other.
abbrev pub iso14443b_writes : List RegisterFile
iso14443b_writes =
    set_to Reg.control Bit.control_fifo_flush
    ∷ set_to Reg.tx_control (
        bits (
          Bit.txctrl_tx1_rf_en ∷ Bit.txctrl_tx2_rf_en ∷ Bit.txctrl_tx2_inv ∷ Bit.txctrl_mod_src_int
          ∷ []))
    ∷ set_to Reg.cw_conductance 0x3f
    ∷ set_to Reg.mod_conductance 0x04
    ∷ set_to Reg.coder_control (bits (Bit.cdrctrl_txcd_nrz ∷ Bit.cdrctrl_rate_14443b ∷ []))
    ∷ set_to Reg.mod_width 0x13
    ∷ set_to Reg.mod_width_sof 0x3f
    ∷ set_to Reg.type_b_framing (
        bits
          (Bit.tbframing_sof_11l_3h ∷ 6 <<< Bit.tbframing_space_shift ∷ Bit.tbframing_eof_11 ∷ []))
    ∷ set_to Reg.rx_control1
        (bits (Bit.rxctrl1_gain_35db ∷ Bit.rxctrl1_iso14443 ∷ Bit.rxctrl1_subcp_8 ∷ []))
    ∷ set_to Reg.decoder_control (bits (Bit.decctrl_bpsk ∷ Bit.decctrl_rxfr_14443b ∷ []))
    ∷ set_to Reg.bit_phase 0xad
    ∷ set_to Reg.rx_threshold 0xff
    ∷ set_to Reg.bpsk_dem_control (
        bits (
          bit_and 0x2 Bit.bpskd_taub_mask <<< Bit.bpskd_taub_shift
          ∷ bit_and 0x3 Bit.bpskd_taud_mask <<< Bit.bpskd_taud_shift
          ∷ Bit.bpskd_filter_amp_detect
          ∷ Bit.bpskd_no_rx_eof
          ∷ Bit.bpskd_no_rx_egt
          ∷ []))
    ∷ set_to Reg.rx_control2 (bits (Bit.rxctrl2_auto_pd ∷ Bit.rxctrl2_decsrc_int ∷ []))
    ∷ set_to Reg.rx_wait 0x03
    ∷ set_to Reg.channel_redundancy
        (bits (Bit.cr_tx_crc_enable ∷ Bit.cr_rx_crc_enable ∷ Bit.cr_crc3309 ∷ []))
    ∷ set_to Reg.crc_preset_lsb 0xff
    ∷ set_to Reg.crc_preset_msb 0xff
    ∷ []

-- The registers that `rc632_iso15693_icl_init` writes, one after the other.
abbrev pub icl_writes : List RegisterFile
icl_writes =
    set_to Reg.tx_control (
      bits (
        Bit.txctrl_mod_src_int ∷ Bit.txctrl_tx2_inv ∷ Bit.txctrl_tx2_rf_en ∷ Bit.txctrl_tx1_rf_en
        ∷ []))
    ∷ set_to Reg.cw_conductance 0x3f
    ∷ set_to Reg.mod_conductance 0x11
    ∷ set_to Reg.coder_control
        (bits (Bit.cdrctrl_rate_15693 ∷ Bit.cdrctrl_txcd_icode_std ∷ 0x03 ∷ []))
    ∷ set_to Reg.mod_width 0x3f
    ∷ set_to Reg.mod_width_sof 0x3f
    ∷ set_to Reg.rx_control1
        (bits (Bit.rxctrl1_subcp_16 ∷ Bit.rxctrl1_iso15693 ∷ Bit.rxctrl1_gain_35db ∷ []))
    ∷ set_to Reg.decoder_control (bits (Bit.decctrl_rx_invert ∷ Bit.decctrl_rxfr_15693 ∷ []))
    ∷ set_to Reg.bit_phase 0xbd
    ∷ set_to Reg.rx_threshold 0xff
    ∷ set_to Reg.bpsk_dem_control 0x00
    ∷ set_to Reg.rx_control2 Bit.rxctrl2_decsrc_int
    ∷ set_to Reg.channel_redundancy 0x00
    ∷ set_to Reg.crc_preset_lsb 0x12
    ∷ set_to Reg.crc_preset_msb 0xe0
    ∷ []

module _ {W : Type 0} (t : Transport W) where
  -- `rc632_iso14443a_init`
  unfoldable pub iso14443a_init : M W ℤ
  unfolding execute_script
  iso14443a_init = call (do
    t.reg_write Reg.control Bit.control_fifo_flush
    check (execute_script t iso14443a_script)
    pure (pos 0))

  -- `rc632_iso14443b_init`, whose writes are one script here: each is checked, and the last returns 0.
  unfoldable pub iso14443b_init : M W ℤ
  unfolding run_script
  iso14443b_init = call (run_script t iso14443b_writes)

  -- `rc632_iso15693_init`
  unfoldable pub iso15693_init : M W ℤ
  unfolding execute_script
  iso15693_init = call (do
    check (t.reg_write Reg.control Bit.control_fifo_flush)
    check (execute_script t iso15693_fast_script)
    pure (pos 0))

  -- `rc632_iso15693_icode1_init`
  unfoldable pub icode1_init : M W ℤ
  unfolding execute_script
  icode1_init = call (do check (execute_script t icode1_std_script); pure (pos 0))

  -- `rc632_iso15693_icl_init`, its writes as one script
  unfoldable pub icl_init : M W ℤ
  unfolding run_script
  icl_init = call (run_script t icl_writes)

  -- `rc632_layer2_init`, by the number of the layer
  unfoldable pub layer2_init : ℕ → M W ℤ
  unfolding iso14443a_init iso14443b_init iso15693_init icode1_init
  layer2_init id =
      if id == 1
      then iso14443a_init
      else if id == 2
      then iso14443b_init
      else if id == 3
      then iso15693_init
      else if id == 4
      then icode1_init
      else pure neg_einval
