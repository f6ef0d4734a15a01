-- ===== src/Readers/Opening/Sessions.antt =====
-- What a session with a reader leaves allocated: src/rfid_reader_openpcd.c, src/rfid_reader_cm5121.c and
-- src/rfid_reader_spidev.c.
use librfid.Prelude.{
  ℕ, zero, suc, ℤ, pos, negsuc, is_neg, ◌≡◌, refl, List, [], ◌∷◌, Bool, true, false,
}
use librfid.Control.{M, ◌>>=◌}
use librfid.Control.Post.{Post, Post-bind}
use librfid.Readers.Spidev.{Message, Spi, spidev_spi}
use librfid.Readers.OpenPcd.{BulkRead, Usb}
use librfid.Readers.Cm5121.{Escape}
use librfid.Readers.Opening.{
  Held, Memory, UsbBus, SpiDevice, Setting, close_ah, turn_on, with_blocks, free_blocks,
  openpcd_open, openpcd_close, cm5121_open, cm5121_close, or_close, after_fd, configure, settings,
  spidev_open, spidev_close, close_above_0, out_rath,
}
use librfid.Readers.Opening.Blocks.{
  Blocks, Nothing, session, AllOrNone, Begun, unwound, turn_on-Post, with_blocks-Post,
  close_ah-Post, session-Post,
}
use librfid.Readers.Opening.UsbReaders.{
  cm5121_open-Post, cm5121_close-Post, Made, openpcd_open-Post, openpcd_close-Post,
}

-- Nothing is allocated, and the device is open only if its number is 0.
abbrev pub LeftAt0 : {W A : Type 0} → A → Held W → Type 0
LeftAt0 a s = Blocks false s × (s.device ≡ true → s.fd ≡ 0)

-- The blocks are there, or they are not and the device is closed.
abbrev Opened : {W : Type 0} → Bool → Held W → Type 0
Opened made s = Blocks made s × (s.device ≡ made)

module _ {W : Type 0} (spi : SpiDevice (Spi W)) (ioctl : List ℕ → Bool → W → Message × W) where
  configure-Post :
      (list : List (Setting × ℕ)) (rest : M (Held (Spi W)) Bool) (s : Held (Spi W))
      → Begun true s
      → ((u : Held (Spi W)) → Begun true u → Post (AllOrNone true) (rest u))
      → Post (AllOrNone true) (configure spi ioctl list rest s)
  unfolding configure
  configure-Post [] rest s begun fine = fine s begun
  configure-Post ((setting, tmp) ∷ list) rest s begun fine =
      let u = record s { world = (spi.set setting tmp s.world).1 } in
      settled (spi.set setting tmp s.world).0 u begun (configure-Post list rest u begun fine)
    where
      settled :
          (ret : ℤ) (u : Held (Spi W))
          → Begun true u
          → Post (AllOrNone true) (configure spi ioctl list rest u)
          → Post (AllOrNone true) (
              (elim (is_neg ret) as (λ _. M (Held (Spi W)) Bool) [
                | true ↦ out_rath
                | false ↦ configure spi ioctl list rest
              ])
                u)
      settled (pos n) u begun more = more
      settled (negsuc n) u begun more = unwound true u begun

  or_close-Post :
      (made : Bool) (s : Held (Spi W))
      → AllOrNone true made s
      → Post Opened (or_close spi ioctl made s)
  unfolding or_close Post
  or_close-Post true s all = all
  or_close-Post false s all = (all.0, refl)

  after_fd-Post :
      (mem : Memory) (fd : ℤ) (s : Held (Spi W))
      → Blocks false s
      → s.device ≡ false
      → Post Opened (after_fd spi ioctl mem fd s)
  unfolding after_fd
  after_fd-Post mem (negsuc n) s none_yet d = unfold Post in (none_yet, d)
  after_fd-Post mem (pos n) s none_yet d =
      let t = spidev_spi ioctl in
      let body = configure spi ioctl (settings spi ioctl) (turn_on t mem) in
      let u = record s { device = true; fd = n } in
      Post-bind (AllOrNone true) Opened (with_blocks mem body u) (or_close spi ioctl)
        (with_blocks-Post true mem body u none_yet refl (λ v begun.
          configure-Post (settings spi ioctl) (turn_on t mem) v begun (turn_on-Post true t mem)))
        or_close-Post

  spidev_open-Post :
      (named : Bool) (mem : Memory) (s : Held (Spi W))
      → Blocks false s
      → s.device ≡ false
      → Post Opened (spidev_open spi ioctl named mem s)
  unfolding spidev_open
  spidev_open-Post false mem s none_yet d = unfold Post in (none_yet, d)
  spidev_open-Post true mem s none_yet d =
      after_fd-Post mem (spi.open_device s.world).0
        (record s { world = (spi.open_device s.world).1 }) none_yet d

  close_above_0-Post :
      (fd : ℕ) (s : Held (Spi W))
      → s.fd ≡ fd
      → s.ah ≡ false
      → Post LeftAt0 ((close_above_0 spi ioctl fd >>= λ _. free_blocks) s)
  unfolding close_above_0 free_blocks Post
  close_above_0-Post zero s e ah = ((refl, refl, ah), λ opened. e)
  close_above_0-Post (suc n) s e ah = ((refl, refl, ah), λ opened. cc)

  spidev_close-Post : (s : Held (Spi W)) → Post LeftAt0 (spidev_close spi ioctl s)
  unfolding spidev_close
  spidev_close-Post s =
      Post-bind (λ _ u. u.ah ≡ false) LeftAt0 (close_ah (spidev_spi ioctl) s) _
        (close_ah-Post (spidev_spi ioctl) s) (λ _ u closed. close_above_0-Post u.fd u refl closed)

-- Let nothing be allocated before. Then a session with any of the three readers, in which it is opened
-- and, if that succeeded, closed, leaves nothing allocated when it ends, whatever fails on the way: a
-- call of libusb or of the system, an allocation, or the chip. The SPI device, if it is closed before,
-- is then closed again, unless its number is 0.
pub sessions_free_all :
    {U V W : Type 0} (usb : UsbBus (Usb U)) (bulk_write : List ℕ → U → ℤ × U)
    (bulk_read : U → BulkRead × U) (source_init : V → ℤ × V) (escape : List ℕ → V → Escape × V)
    (spi : SpiDevice (Spi W)) (ioctl : List ℕ → Bool → W → Message × W) (mem : Memory)
    (named : Bool) (s : Held (Usb U)) (s' : Held V) (s'' : Held (Spi W))
    → Blocks false s
    → Blocks false s'
    → Blocks false s''
    → s''.device ≡ false
    → Post Nothing (
        session
          (openpcd_open usb bulk_write bulk_read mem)
          (openpcd_close usb bulk_write bulk_read)
          s)
      × Post Nothing
          (session (cm5121_open source_init escape mem) (cm5121_close source_init escape) s')
      × Post LeftAt0 (session (spidev_open spi ioctl named mem) (spidev_close spi ioctl) s'')
sessions_free_all usb bulk_write bulk_read source_init escape spi ioctl mem named s s' s'' none_yet
      none_yet' none_yet'' d =
    (
      session-Post Made Nothing (openpcd_open usb bulk_write bulk_read mem)
          (openpcd_close usb bulk_write bulk_read) s (λ u q. q)
          (openpcd_open-Post usb bulk_write bulk_read mem s none_yet)
          (openpcd_close-Post usb bulk_write bulk_read),
      session-Post (AllOrNone s'.device) Nothing (cm5121_open source_init escape mem)
          (cm5121_close source_init escape) s' (λ u q. q.0)
          (cm5121_open-Post source_init escape mem s' none_yet')
          (cm5121_close-Post source_init escape),
      session-Post Opened LeftAt0 (spidev_open spi ioctl named mem) (spidev_close spi ioctl) s''
          (λ u q. (q.0, λ opened. cc (q.1))) (spidev_open-Post spi ioctl named mem s'' none_yet'' d)
          (spidev_close-Post spi ioctl),
    )
