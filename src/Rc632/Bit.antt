-- ===== src/Rc632/Bit.antt =====
-- The commands of the chip and the bits of its registers, src/rc632.h.
use librfid.Prelude.{ℕ}

abbrev pub stat_err : ℕ
stat_err = 0x04

abbrev pub stat_irq : ℕ
stat_irq = 0x08

abbrev pub cmd_idle : ℕ
cmd_idle = 0x00

abbrev pub cmd_write_e2 : ℕ
cmd_write_e2 = 0x01

abbrev pub cmd_read_e2 : ℕ
cmd_read_e2 = 0x03

abbrev pub cmd_load_key_e2 : ℕ
cmd_load_key_e2 = 0x0b

abbrev pub cmd_authent1 : ℕ
cmd_authent1 = 0x0c

abbrev pub cmd_calc_crc : ℕ
cmd_calc_crc = 0x12

abbrev pub cmd_authent2 : ℕ
cmd_authent2 = 0x14

abbrev pub cmd_receive : ℕ
cmd_receive = 0x16

abbrev pub cmd_load_key : ℕ
cmd_load_key = 0x19

abbrev pub cmd_transmit : ℕ
cmd_transmit = 0x1a

abbrev pub cmd_transceive : ℕ
cmd_transceive = 0x1e

abbrev pub int_set : ℕ
int_set = 0x80

abbrev pub control_fifo_flush : ℕ
control_fifo_flush = 0x01

abbrev pub control_timer_start : ℕ
control_timer_start = 0x02

abbrev pub control_crypto1_on : ℕ
control_crypto1_on = 0x08

abbrev pub control_powerdown : ℕ
control_powerdown = 0x10

abbrev pub err_flag_col_err : ℕ
err_flag_col_err = 0x01

abbrev pub err_flag_parity_err : ℕ
err_flag_parity_err = 0x02

abbrev pub err_flag_framing_err : ℕ
err_flag_framing_err = 0x04

abbrev pub err_flag_crc_err : ℕ
err_flag_crc_err = 0x08

abbrev pub err_flag_access_err : ℕ
err_flag_access_err = 0x20

abbrev pub err_flag_key_err : ℕ
err_flag_key_err = 0x40

abbrev pub txctrl_tx1_rf_en : ℕ
txctrl_tx1_rf_en = 0x01

abbrev pub txctrl_tx2_rf_en : ℕ
txctrl_tx2_rf_en = 0x02

abbrev pub txctrl_tx2_inv : ℕ
txctrl_tx2_inv = 0x08

abbrev pub txctrl_force_100_ask : ℕ
txctrl_force_100_ask = 0x10

abbrev pub txctrl_mod_src_int : ℕ
txctrl_mod_src_int = 0x40

abbrev pub cdrctrl_txcd_nrz : ℕ
cdrctrl_txcd_nrz = 0x00

abbrev pub cdrctrl_txcd_14443a : ℕ
cdrctrl_txcd_14443a = 0x01

abbrev pub cdrctrl_txcd_icode_std : ℕ
cdrctrl_txcd_icode_std = 0x04

abbrev pub cdrctrl_txcd_15693_fast : ℕ
cdrctrl_txcd_15693_fast = 0x07

abbrev pub cdrctrl_rate_mask : ℕ
cdrctrl_rate_mask = 0x38

abbrev pub cdrctrl_rate_848k : ℕ
cdrctrl_rate_848k = 0x00

abbrev pub cdrctrl_rate_424k : ℕ
cdrctrl_rate_424k = 0x08

abbrev pub cdrctrl_rate_212k : ℕ
cdrctrl_rate_212k = 0x10

abbrev pub cdrctrl_rate_106k : ℕ
cdrctrl_rate_106k = 0x18

abbrev pub cdrctrl_rate_14443b : ℕ
cdrctrl_rate_14443b = 0x20

abbrev pub cdrctrl_rate_15693 : ℕ
cdrctrl_rate_15693 = 0x28

abbrev pub tbframing_sof_11l_3h : ℕ
tbframing_sof_11l_3h = 0x03

abbrev pub tbframing_eof_11 : ℕ
tbframing_eof_11 = 0x20

abbrev pub tbframing_space_shift : ℕ
tbframing_space_shift = 2

abbrev pub rxctrl1_gain_35db : ℕ
rxctrl1_gain_35db = 0x03

abbrev pub rxctrl1_iso15693 : ℕ
rxctrl1_iso15693 = 0x08

abbrev pub rxctrl1_iso14443 : ℕ
rxctrl1_iso14443 = 0x10

abbrev pub rxctrl1_subcp_mask : ℕ
rxctrl1_subcp_mask = 0xe0

abbrev pub rxctrl1_subcp_1 : ℕ
rxctrl1_subcp_1 = 0x00

abbrev pub rxctrl1_subcp_2 : ℕ
rxctrl1_subcp_2 = 0x20

abbrev pub rxctrl1_subcp_4 : ℕ
rxctrl1_subcp_4 = 0x40

abbrev pub rxctrl1_subcp_8 : ℕ
rxctrl1_subcp_8 = 0x60

abbrev pub rxctrl1_subcp_16 : ℕ
rxctrl1_subcp_16 = 0x80

abbrev pub decctrl_manchester : ℕ
decctrl_manchester = 0x00

abbrev pub decctrl_bpsk : ℕ
decctrl_bpsk = 0x01

abbrev pub decctrl_rx_invert : ℕ
decctrl_rx_invert = 0x04

abbrev pub decctrl_rxfr_icode : ℕ
decctrl_rxfr_icode = 0x00

abbrev pub decctrl_rxfr_14443a : ℕ
decctrl_rxfr_14443a = 0x08

abbrev pub decctrl_rxfr_15693 : ℕ
decctrl_rxfr_15693 = 0x10

abbrev pub decctrl_rxfr_14443b : ℕ
decctrl_rxfr_14443b = 0x18

abbrev pub decctrl_zeroaftercol : ℕ
decctrl_zeroaftercol = 0x20

abbrev pub bpskd_taub_shift : ℕ
bpskd_taub_shift = 0x00

abbrev pub bpskd_taub_mask : ℕ
bpskd_taub_mask = 0x03

abbrev pub bpskd_taud_shift : ℕ
bpskd_taud_shift = 0x02

abbrev pub bpskd_taud_mask : ℕ
bpskd_taud_mask = 0x03

abbrev pub bpskd_filter_amp_detect : ℕ
bpskd_filter_amp_detect = 0x10

abbrev pub bpskd_no_rx_eof : ℕ
bpskd_no_rx_eof = 0x20

abbrev pub bpskd_no_rx_egt : ℕ
bpskd_no_rx_egt = 0x40

abbrev pub rxctrl2_decsrc_int : ℕ
rxctrl2_decsrc_int = 0x01

abbrev pub rxctrl2_auto_pd : ℕ
rxctrl2_auto_pd = 0x40

abbrev pub rxctrl2_clk_q : ℕ
rxctrl2_clk_q = 0x00

abbrev pub cr_parity_enable : ℕ
cr_parity_enable = 0x01

abbrev pub cr_parity_odd : ℕ
cr_parity_odd = 0x02

abbrev pub cr_tx_crc_enable : ℕ
cr_tx_crc_enable = 0x04

abbrev pub cr_rx_crc_enable : ℕ
cr_rx_crc_enable = 0x08

abbrev pub cr_crc3309 : ℕ
cr_crc3309 = 0x20

abbrev pub tmr_start_tx_end : ℕ
tmr_start_tx_end = 0x02

abbrev pub tmr_stop_rx_begin : ℕ
tmr_stop_rx_begin = 0x04

abbrev pub irq_idle : ℕ
irq_idle = 0x04

abbrev pub irq_rx : ℕ
irq_rx = 0x08

abbrev pub irq_timer : ℕ
irq_timer = 0x20

abbrev pub irq_set : ℕ
irq_set = 0x80

abbrev pub sec_st_e2_ready : ℕ
sec_st_e2_ready = 0x40
