-- ===== src/Rc632/Reg.antt =====
-- The numbers of the chip's registers, `enum rc632_registers` of src/rc632.h.
use librfid.Prelude.{ℕ}

abbrev pub command : ℕ
command = 0x01

abbrev pub primary_status : ℕ
primary_status = 0x03

abbrev pub fifo_length : ℕ
fifo_length = 0x04

abbrev pub secondary_status : ℕ
secondary_status = 0x05

abbrev pub interrupt_en : ℕ
interrupt_en = 0x06

abbrev pub interrupt_rq : ℕ
interrupt_rq = 0x07

abbrev pub control : ℕ
control = 0x09

abbrev pub error_flag : ℕ
error_flag = 0x0a

abbrev pub coll_pos : ℕ
coll_pos = 0x0b

abbrev pub bit_framing : ℕ
bit_framing = 0x0f

abbrev pub tx_control : ℕ
tx_control = 0x11

abbrev pub cw_conductance : ℕ
cw_conductance = 0x12

abbrev pub mod_conductance : ℕ
mod_conductance = 0x13

abbrev pub coder_control : ℕ
coder_control = 0x14

abbrev pub mod_width : ℕ
mod_width = 0x15

abbrev pub mod_width_sof : ℕ
mod_width_sof = 0x16

abbrev pub type_b_framing : ℕ
type_b_framing = 0x17

abbrev pub rx_control1 : ℕ
rx_control1 = 0x19

abbrev pub decoder_control : ℕ
decoder_control = 0x1a

abbrev pub bit_phase : ℕ
bit_phase = 0x1b

abbrev pub rx_threshold : ℕ
rx_threshold = 0x1c

abbrev pub bpsk_dem_control : ℕ
bpsk_dem_control = 0x1d

abbrev pub rx_control2 : ℕ
rx_control2 = 0x1e

abbrev pub rx_wait : ℕ
rx_wait = 0x21

abbrev pub channel_redundancy : ℕ
channel_redundancy = 0x22

abbrev pub crc_preset_lsb : ℕ
crc_preset_lsb = 0x23

abbrev pub crc_preset_msb : ℕ
crc_preset_msb = 0x24

abbrev pub timer_clock : ℕ
timer_clock = 0x2a

abbrev pub timer_control : ℕ
timer_control = 0x2b

abbrev pub timer_reload : ℕ
timer_reload = 0x2c
