-- ===== src/Readers/Opening.antt =====
-- The opening and closing of the readers, in src/rfid_reader_openpcd.c, src/rfid_reader_cm5121.c and
-- src/rfid_reader_spidev.c: what is allocated on the way, and what is given back. The calls of libusb,
-- of the system and of the CCID driver are parameters.
pub mod Blocks
pub mod UsbReaders
pub mod Sessions
use librfid.Prelude.{
  ℕ, zero, suc, ℤ, pos, negsuc, is_neg, ◌==◌, ◌&&◌, ◌||◌, not, Option, some, none, List, [], ◌∷◌,
  Bool, true, false, if◌then◌else◌,
}
use librfid.Control.{M, ok, get, put_back, modify, get, pure, ◌>>=◌, ◌>>◌}
use librfid.Rc632.Transport.{Transport}
use librfid.Rc632.Memory.{open_asic, close_asic}
use librfid.Readers.Spidev.{Message, Spi, spidev_spi}
use librfid.Readers.OpenPcd.{BulkRead, Usb, openpcd_rat}
use librfid.Readers.Cm5121.{Escape, cm5121_ccid, enable_rc632}

-- What the process holds: the open device, its number if it was opened as a file (`spidev_fd`), and the blocks for the handles of the reader, of the
-- transport and of the chip.
pub record Held (W : Type 0) : Type 0 where
  pub world : W
  pub device : Bool
  pub fd : ℕ
  pub rh : Bool
  pub rath : Bool
  pub ah : Bool

-- Which of the three calls of `malloc` find memory
pub record Memory : Type 0 where
  pub rh : Bool
  pub rath : Bool
  pub ah : Bool

abbrev on_world : {W A : Type 0} → M W A → M (Held W) A
on_world m s = put_back (λ s' w. record s' { world = w }) (m s.world) s

abbrev asks : {W A : Type 0} → (W → A × W) → M (Held W) A
asks f s = let (a, w) = f s.world in ok a (record s { world = w })

-- The labels `out_rh` and `out_rath`, where the function returns a null pointer
abbrev out_rh : {W : Type 0} → M (Held W) Bool
out_rh = do modify (λ s. record s { rh = false }); pure false

abbrev out_rath : {W : Type 0} → M (Held W) Bool
out_rath = do modify (λ s. record s { rath = false }); out_rh

-- `rc632_open`
unfoldable pub open_ah : {W : Type 0} → Transport W → Bool → M (Held W) Bool
open_ah t false = pure false
open_ah t true = do
  modify (λ s. record s { ah = true })
  made ← on_world (open_asic t)
  if made then pure true else (do modify (λ s. record s { ah = false }); pure false)

-- `rc632_close`
unfoldable pub close_ah : {W : Type 0} → Transport W → M (Held W) (Unit {0})
close_ah t = do on_world (close_asic t); modify (λ s. record s { ah = false })

-- The last step of each of the three: the chip
unfoldable pub turn_on : {W : Type 0} → Transport W → Memory → M (Held W) Bool
unfolding open_ah
turn_on t mem = do made ← open_ah t mem.ah; if made then pure true else out_rath

-- The two blocks, with what follows on them
unfoldable pub with_blocks : {W : Type 0} → Memory → M (Held W) Bool → M (Held W) Bool
with_blocks mem rest = if not mem.rh then pure false else (do
  modify (λ s. record s { rh = true })
  if not mem.rath then out_rh else (do modify (λ s. record s { rath = true }); rest))

-- What is freed by each `close`
unfoldable pub free_blocks : {W : Type 0} → M (Held W) (Unit {0})
free_blocks = modify (λ s. record s { rath = false; rh = false })

-- A device on a bus, as far as it is looked at
pub record Device : Type 0 where
  pub vendor : ℕ
  pub product : ℕ

-- The ids of OpenPCD
abbrev is_opcd : Device → Bool
is_opcd d =
    (d.vendor == 0x2342 && d.product == 0x0001) || (d.vendor == 0x16c0 && d.product == 0x076b)

unfoldable pub find_on_bus : List Device → Option Device
find_on_bus [] = none
find_on_bus (d ∷ devices) = if is_opcd d then some d else find_on_bus devices

-- `find_opcd_device`
unfoldable pub find_opcd_device : List (List Device) → Option Device
unfolding find_on_bus
find_opcd_device [] = none
find_opcd_device (bus ∷ busses) = elim (find_on_bus bus) [
  | some d ↦ some d
  | none ↦ find_opcd_device busses
]

-- The functions of libusb
pub record UsbBus (W : Type 0) : Type 0 where
  pub find_busses : W → ℤ × W
  pub find_devices : W → ℤ × W
  pub busses : W → List (List Device)
  pub open_device : Device → W → Bool × W
  pub set_configuration : W → ℤ × W
  pub claim_interface : W → ℤ × W
  pub close_device : W → W

module _ {W : Type 0} (usb : UsbBus (Usb W)) (bulk_write : List ℕ → W → ℤ × W)
    (bulk_read : W → BulkRead × W) where
  -- `usb_close(hdl)`
  abbrev close_usb : M (Held (Usb W)) (Unit {0})
  close_usb = modify (λ s. record s { world = usb.close_device s.world; device = false })

  -- `openpcd_open`, with the result of `usb_claim_interface`
  unfoldable pub after_claim : Memory → ℤ → M (Held (Usb W)) Bool
  unfolding with_blocks turn_on
  after_claim mem ret =
      if is_neg ret
      then (do close_usb; pure false)
      else with_blocks mem (turn_on (openpcd_rat bulk_write bulk_read) mem)

  -- `openpcd_open`, with the result of `usb_set_configuration`
  unfoldable pub after_configuration : Memory → ℤ → M (Held (Usb W)) Bool
  unfolding after_claim
  after_configuration mem ret =
      if is_neg ret
      then (do close_usb; pure false)
      else (asks (usb.claim_interface) >>= after_claim mem)

  -- `openpcd_open`, with the result of `usb_open`
  unfoldable pub after_open : Memory → Bool → M (Held (Usb W)) Bool
  unfolding after_configuration
  after_open mem false = pure false
  after_open mem true = do
    modify (λ s. record s { device = true })
    ret ← asks (usb.set_configuration)
    after_configuration mem ret

  -- `openpcd_open`, with the device that was found
  unfoldable pub open_found : Memory → Option Device → M (Held (Usb W)) Bool
  unfolding after_open
  open_found mem none = pure false
  open_found mem (some d) = asks (usb.open_device d) >>= after_open mem

  -- `openpcd_open`
  unfoldable pub openpcd_open : Memory → M (Held (Usb W)) Bool
  unfolding open_found find_opcd_device
  openpcd_open mem = do
    ret ← asks (usb.find_busses)
    if is_neg ret then pure false else (do
      ret ← asks (usb.find_devices)
      if is_neg ret
          then pure false
          else (λ s. open_found mem (find_opcd_device (usb.busses s.world)) s))

  -- `openpcd_close`
  unfoldable pub openpcd_close : M (Held (Usb W)) (Unit {0})
  unfolding close_ah free_blocks
  openpcd_close = do close_ah (openpcd_rat bulk_write bulk_read); free_blocks; close_usb

module _ {W : Type 0} (source_init : W → ℤ × W) (escape : List ℕ → W → Escape × W) where
  -- `cm5121_open`, with the result of `cm5121_enable_rc632`
  unfoldable pub after_enable : Memory → ℤ → M (Held W) Bool
  unfolding turn_on
  after_enable mem ret = if is_neg ret then out_rath else turn_on (cm5121_ccid escape) mem

  -- `cm5121_open`, with the result of `cm5121_source_init`
  unfoldable pub after_source : Memory → ℤ → M (Held W) Bool
  unfolding after_enable
  after_source mem ret =
      if is_neg ret then out_rath else (on_world (enable_rc632 escape) >>= after_enable mem)

  -- `cm5121_open`
  unfoldable pub cm5121_open : Memory → M (Held W) Bool
  unfolding with_blocks after_source
  cm5121_open mem = with_blocks mem (asks source_init >>= after_source mem)

  -- `cm5121_close`
  unfoldable pub cm5121_close : M (Held W) (Unit {0})
  unfolding close_ah free_blocks
  cm5121_close = do close_ah (cm5121_ccid escape); free_blocks

-- The functions of the system on the SPI device, and the four settings of `ioctl`
pub data Setting : Type 0 where
  mode lsb_first bits_per_word max_speed_hz : Setting

pub record SpiDevice (W : Type 0) : Type 0 where
  pub open_device : W → ℤ × W
  pub set : Setting → ℕ → W → ℤ × W
  pub close_device : W → W

module _ {W : Type 0} (spi : SpiDevice (Spi W)) (ioctl : List ℕ → Bool → W → Message × W) where
  -- `close(spidev_fd)`
  abbrev close_spi : M (Held (Spi W)) (Unit {0})
  close_spi = modify (λ s. record s { world = spi.close_device s.world; device = false })

  -- The calls of `ioctl` in turn, and then the rest
  unfoldable pub configure : List (Setting × ℕ) → M (Held (Spi W)) Bool → M (Held (Spi W)) Bool
  configure [] rest = rest
  configure ((setting, tmp) ∷ settings) rest = do
    ret ← asks (spi.set setting tmp)
    elim (is_neg ret) [ true ↦ out_rath | false ↦ configure settings rest ]

  abbrev settings : List (Setting × ℕ)
  settings = (mode, 0) ∷ (lsb_first, 0) ∷ (bits_per_word, 8) ∷ (max_speed_hz, 1000000) ∷ []

  -- The label `out_close_spi`, where the blocks could not be made
  unfoldable pub or_close : Bool → M (Held (Spi W)) Bool
  or_close true = pure true
  or_close false = do close_spi; pure false

  -- `spidev_open`, with the result of `open`
  unfoldable pub after_fd : Memory → ℤ → M (Held (Spi W)) Bool
  unfolding configure with_blocks turn_on or_close
  after_fd mem (negsuc e) = pure false
  after_fd mem (pos fd) = do
    modify (λ s. record s { device = true; fd = fd })
    made ← with_blocks mem (configure settings (turn_on (spidev_spi ioctl) mem))
    or_close made

  -- `spidev_open`; `named` says that there is a name of a device.
  unfoldable pub spidev_open : Bool → Memory → M (Held (Spi W)) Bool
  unfolding after_fd
  spidev_open named mem =
      if not named then pure false else (asks (spi.open_device) >>= after_fd mem)

  -- `if (spidev_fd > 0) close(spidev_fd);`
  unfoldable pub close_above_0 : ℕ → M (Held (Spi W)) (Unit {0})
  close_above_0 zero = pure tt
  close_above_0 (suc n) = close_spi

  -- `spidev_close`
  unfoldable pub spidev_close : M (Held (Spi W)) (Unit {0})
  unfolding close_ah close_above_0 free_blocks
  spidev_close = do close_ah (spidev_spi ioctl); s ← get; close_above_0 s.fd; free_blocks
