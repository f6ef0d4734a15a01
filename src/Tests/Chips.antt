-- ===== src/Tests/Chips.antt =====
-- The driver of the RC632 on chips whose answers are known.
use librfid.Prelude.{
  ℕ, pos, minus_one, neg_eio, ◌+◌, ◌-◌, ◌*◌, ◌/◌, ◌≤◌, ◌≡◌, ◌≢◌, refl, some, List, [], ◌∷◌, Bool,
  true, false, ◌==◌, arith, replicate, take, length, length-take, if◌then◌else◌, ℤ,
}
use librfid.Control.{ok, fault, pure}
use librfid.Control.Outcome.{Outcome}
use librfid.Reader.{Reply, AcfReply, AnticolCmd, frame_mifare}
use librfid.Layer2.Laws.{IsWithin}
use librfid.Control.Post.{Post}
use librfid.Readers.Opening.{
  UsbBus, SpiDevice, Memory, Held, openpcd_open, openpcd_close, cm5121_open, cm5121_close,
  spidev_open, spidev_close,
}
use librfid.Readers.Opening.Blocks.{Nothing, session}
use librfid.Readers.Opening.Sessions.{LeftAt0, sessions_free_all}
use librfid.Rc632.Reg
use librfid.Rc632.Transport.{Transport, FifoRead}
use librfid.Rc632.Search.{setting}
use librfid.Rc632.Mifare.{transform_key}
use librfid.Rc632.Keys.{decoded, all_coded, transform_key_lem}
use librfid.Rc632.Timer.{wait_idle}
use librfid.Rc632.Waiting.{is_out_of_fuel, wait_idle_ends}
use librfid.Rc632.Fifo.{start_transceive, fill_fifo, fifo_size}
use librfid.Rc632.Filling.{
  straight_line, start_transceive_at_once, fill_fifo_over_read, send_at_once,
}
use librfid.Rc632.Iso14443a.{ab_transceive, transceive_acf}
use librfid.Rc632.Room.{ab_transceive-IsWithin}
use librfid.Rc632.Working.{Works}
use librfid.Rc632.Safety.{ab_transceive_safe}
use librfid.Rc632.Collision.{IsKept, IsBehindHeader, transceive_acf_keeps}
use librfid.Rc632.Scripts.{layer2_init}
use librfid.Rc632.Settings.{Applies, settings_of, layer2_init_lem}
use librfid.Readers.Spidev.{Spi, Message, reg_read, reg_write, spidev_spi}
use librfid.Rc632.Layers
use librfid.Rc632.Speed
use librfid.Rc632.Rates.{set_speed_safe}
use librfid.Readers.OpenPcd.{BulkRead, Usb, openpcd_rat, cmd_write_reg, cmd_read_reg, flag_respond}
use librfid.Readers.Firmware.{IsServed}
use librfid.Readers.Cm5121.{Escape, cm5121_ccid}
use librfid.Readers.EscapeFrames.{IsAnswered}
use librfid.Readers.SpiChip.{IsChip, spidev_map, reg_read-reg_write}

-- A chip behind SPI with registers as a map
abbrev spi_chip : List ℕ → Bool → (ℕ → ℕ) → Message × (ℕ → ℕ)
spi_chip (a ∷ b ∷ []) false regs =
    (record { ret = pos 2; bytes = [] }, λ r. if r == a / 2 then b else regs r)
spi_chip (a ∷ b ∷ []) true regs =
    (record { ret = pos 2; bytes = 0 ∷ regs ((a - 128) / 2) ∷ [] }, regs)
spi_chip frame wanted regs = (record { ret = neg_eio; bytes = [] }, regs)

spi_chip-IsChip : IsChip spi_chip
spi_chip-IsChip = (
  λ reg val regs low byte. let e : 2 * reg / 2 ≡ reg = omega arith in rw (e) refl,
  λ reg regs low. let e : (128 + 2 * reg - 128) / 2 ≡ reg = omega arith in (0, rw (e) refl),
)

abbrev powered : Spi (ℕ → ℕ)
powered = record { world = λ r. 0; rcv_buf = replicate 267 0 }

abbrev device : Transport (Spi (ℕ → ℕ))
device = spidev_spi spi_chip

set_up_for_a :
    Applies device
      (spidev_map spi_chip spi_chip-IsChip)
      (layer2_init device 1 powered)
      powered
      (settings_of 1)
unfolding spidev_map spidev_spi
set_up_for_a =
    layer2_init_lem device (spidev_map spi_chip spi_chip-IsChip) 1 powered (omega arith)
      (omega arith) ((λ r. omega arith), omega arith)

read_back :
    (s1 : Spi (ℕ → ℕ)) × (s2 : Spi (ℕ → ℕ)) × (reg_write spi_chip Reg.mod_width 0x13 powered
      ≡ ok (pos 1) s1)
    × (reg_read spi_chip Reg.mod_width s1 ≡ ok (record { ret = pos 1; val = some 0x13 }) s2)
read_back =
    reg_read-reg_write spi_chip spi_chip-IsChip Reg.mod_width 0x13 Reg.mod_width powered
      (omega arith) (omega arith) (omega arith) (omega arith)

default_key :
    (decoded (transform_key (replicate 6 0xff)) ≡ replicate 6 0xff)
    × (all_coded (transform_key (replicate 6 0xff)) ≡ true)
    × (length (transform_key (replicate 6 0xff)) ≡ 12)
default_key =
    transform_key_lem (replicate 6 0xff)
      (omega arith, (omega arith, (omega arith, (omega arith, (omega arith, (omega arith, tt))))))

-- A chip that gives every register the value 4 and nothing from the FIFO
abbrev steady : Transport (Unit {0})
steady = record {
  reg_write = λ reg val. pure (pos 0);
  reg_read = λ reg. pure (record { ret = pos 0; val = some 4 });
  fifo_write = λ bytes flags. pure (pos 0);
  fifo_read = λ n. pure (record { ret = pos 0; bytes = take n (1 ∷ 2 ∷ 3 ∷ 4 ∷ []) });
}

-- A chip that is idle and holds four bytes
abbrev idle : Transport (Unit {0})
idle = record steady {
  reg_read =
      λ reg. pure (record { ret = pos 0; val = some (if reg == Reg.fifo_length then 4 else 0) });
}

given_up : is_out_of_fuel (wait_idle steady 10 92 tt) ≡ false
given_up = wait_idle_ends steady ((λ reg val w. refl), (λ reg w. refl)) 10 92 (omega arith) tt

page_sent :
    start_transceive steady 5 (0x30 ∷ 0x04 ∷ []) 2 250 tt
    ≡ straight_line steady 5 (0x30 ∷ 0x04 ∷ []) 250 tt
page_sent = start_transceive_at_once steady 4 (0x30 ∷ 0x04 ∷ []) 250 tt (omega arith)

kept :
    (n : ℕ) (w : Unit {0})
    → Outcome Unit (λ (r : FifoRead). length r.bytes ≤ n) (idle.fifo_read n w)
unfolding Outcome
kept n w = let four : List ℕ = 1 ∷ 2 ∷ 3 ∷ 4 ∷ [] in omega (arith, length-take n four)

-- Seventy bytes, of which four are still in the FIFO when the next are written
read_past_the_end : fill_fifo steady 2 (replicate 70 0) 70 0 (pos fifo_size) tt ≡ fault
unfolding send_at_once
read_past_the_end =
    fill_fifo_over_read steady 0 (replicate 70 0) 4 tt tt tt (omega arith) (omega arith)
      (omega arith) refl refl

abbrev four_bytes : Reply
four_bytes = record { ret = pos 0; bytes = 1 ∷ 2 ∷ 3 ∷ 4 ∷ replicate 12 0; rx_len = 4 }

four-IsWithin : IsWithin 16 four_bytes
unfolding ab_transceive
four-IsWithin =
    ab_transceive-IsWithin idle kept 5 frame_mifare (0x30 ∷ 0x04 ∷ []) 16 250 tt tt four_bytes refl

abbrev first_level : AnticolCmd
first_level = record { sel_code = 0x93; nvb = 0x20; uid_bits = replicate 5 0 }

abbrev identified : AcfReply
identified = record {
  ret = pos 0;
  acf = record first_level { uid_bits = 1 ∷ 2 ∷ 3 ∷ 4 ∷ 0 ∷ [] };
  bit_of_col = 0xffffffff;
}

level-IsKept : (IsKept first_level identified) × (IsBehindHeader identified)
unfolding transceive_acf
level-IsKept = transceive_acf_keeps idle first_level 5 tt tt identified refl

steady-Works : Works ⊥ steady
unfolding Outcome
steady-Works = ((λ reg val w. tt), (λ reg w. (4, refl)), (λ bytes flags w. tt), (λ n w. tt))

never_out_of_bounds : ab_transceive steady 8 frame_mifare (0x30 ∷ 0x04 ∷ []) 16 250 tt ≢ fault
never_out_of_bounds =
    ab_transceive_safe steady 7 frame_mifare (0x30 ∷ 0x04 ∷ []) 16 250 tt steady-Works (omega arith)
      (omega arith)

widest_rate : (Layers.set_speed steady 1 8 tt ≢ fault) × (Speed.set_speed steady 1 4 tt ≡ fault)
widest_rate = set_speed_safe steady 1 8 tt steady-Works

-- A reader that serves registers over USB, with the answer that it has ready
abbrev Firmware : Type 0
Firmware = (ℕ → ℕ) × List ℕ

abbrev command : List ℕ → Firmware → ℤ × Firmware
command (cmd ∷ flags ∷ reg ∷ val ∷ []) f =
    if cmd == cmd_write_reg
    then (pos 4, ((λ r. if r == reg then val else f.0 r), cmd ∷ flags ∷ reg ∷ val ∷ []))
    else (pos 4, (f.0, cmd ∷ flags ∷ reg ∷ f.0 reg ∷ []))
command frame f = (neg_eio, f)

abbrev answer : Firmware → BulkRead × Firmware
answer f = (record { ret = pos 4; bytes = f.1 }, f)

firmware-IsServed : IsServed command answer (λ f. f.0)
firmware-IsServed = (
  λ reg val f low byte.
      let w : Firmware =
        ((λ r. if r == reg then val else f.0 r), cmd_write_reg ∷ flag_respond ∷ reg ∷ val ∷ []) in
      (w, w, cmd_write_reg, flag_respond, reg, val, refl, refl, (λ r. refl)),
  λ reg f low.
      let w : Firmware = (f.0, cmd_read_reg ∷ flag_respond ∷ reg ∷ f.0 reg ∷ []) in
      (w, w, cmd_read_reg, flag_respond, reg, refl, refl, (λ r. refl)),
)

abbrev plugged : Usb Firmware
plugged = record { world = ((λ r. 7), []); rcv_buf = replicate 270 0 }

abbrev usb_device : Transport (Usb Firmware)
usb_device = openpcd_rat command answer

-- A reader that serves registers in escape frames
abbrev frames : List ℕ → (ℕ → ℕ) → Escape × (ℕ → ℕ)
frames (_ ∷ _ ∷ follow ∷ _ ∷ _ ∷ _ ∷ reg ∷ val ∷ []) regs =
    (record { ret = pos 0; bytes = [] }, λ r. if r == reg then val else regs r)
frames (_ ∷ _ ∷ follow ∷ _ ∷ _ ∷ _ ∷ reg ∷ []) regs =
    (record { ret = pos 0; bytes = 0 ∷ regs reg ∷ [] }, regs)
frames frame regs = (record { ret = neg_eio; bytes = [] }, regs)

frames-IsAnswered : IsAnswered frames (λ regs. regs)
frames-IsAnswered = (
  λ reg val regs low byte. ((λ r. if r == reg then val else regs r), [], refl, (λ r. refl)),
  λ reg regs low. (regs, 0, refl, (λ r. refl)),
)

abbrev omnikey : Transport (ℕ → ℕ)
omnikey = cm5121_ccid frames

-- Readers whose calls fail late: no memory for the chip's handle, and no right to set the SPI device up
abbrev usb_there : UsbBus (Usb (Unit {0}))
usb_there = record {
  find_busses = λ w. (pos 1, w);
  find_devices = λ w. (pos 1, w);
  busses = λ w. [] ∷ (record { vendor = 0x16c0; product = 0x076b } ∷ []) ∷ [];
  open_device = λ d w. (true, w);
  set_configuration = λ w. (pos 0, w);
  claim_interface = λ w. (pos 0, w);
  close_device = λ w. w;
}

abbrev spi_there : SpiDevice (Spi (Unit {0}))
spi_there = record {
  open_device = λ w. (pos 3, w);
  set = λ setting tmp w. (minus_one, w);
  close_device = λ w. w;
}

abbrev no_chip : Memory
no_chip = record { rh = true; rath = true; ah = false }

abbrev nothing_held : {W : Type 0} → W → Held W
nothing_held w = record { world = w; device = false; fd = 0; rh = false; rath = false; ah = false }

abbrev no_answer : Escape
no_answer = record { ret = minus_one; bytes = [] }

all_given_back :
    Post Nothing (
      session
        (openpcd_open usb_there
          (λ bytes w. (pos 4, w))
          (λ w. (record { ret = pos 0; bytes = [] }, w))
          no_chip)
        (openpcd_close usb_there
          (λ bytes w. (pos 4, w))
          (λ w. (record { ret = pos 0; bytes = [] }, w)))
        (nothing_held (record { world = tt; rcv_buf = replicate 64 0 })))
    × Post Nothing (
        session
          (cm5121_open (λ w. (pos 0, w)) (λ frame w. (no_answer, w)) no_chip)
          (cm5121_close (λ w. (pos 0, w)) (λ frame w. (no_answer, w)))
          (nothing_held tt))
    × Post LeftAt0 (
        session
          (spidev_open spi_there
            (λ frame wanted w. (record { ret = minus_one; bytes = [] }, w))
            true
            no_chip)
          (spidev_close spi_there (λ frame wanted w. (record { ret = minus_one; bytes = [] }, w)))
          (nothing_held (record { world = tt; rcv_buf = replicate 64 0 })))
all_given_back =
    sessions_free_all usb_there (λ bytes w. (pos 4, w))
      (λ w. (record { ret = pos 0; bytes = [] }, w)) (λ w. (pos 0, w)) (λ frame w. (no_answer, w))
      spi_there (λ frame wanted w. (record { ret = minus_one; bytes = [] }, w)) no_chip true
      (nothing_held (record { world = tt; rcv_buf = replicate 64 0 })) (nothing_held tt)
      (nothing_held (record { world = tt; rcv_buf = replicate 64 0 })) (refl, refl, refl)
      (refl, refl, refl) (refl, refl, refl) refl
