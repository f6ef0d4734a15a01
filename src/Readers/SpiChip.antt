-- ===== src/Readers/SpiChip.antt =====
-- src/rfid_reader_spidev.c in front of a chip that takes SPI frames as the RC632 does.
use librfid.Prelude.{
  ℕ, pos, ◌+◌, ◌*◌, ◌<◌, ◌≡◌, refl, ap, some, List, [], ◌∷◌, Bool, true, false, ◌==◌, ◌&&◌, length,
  overlay, bit_and, bit_or, u8, ◌<<<◌, arith, holds_below, holds_below_at, if◌then◌else◌, ◌≤◌,
  length-overlay,
}
use librfid.Control.{ok}
use librfid.Rc632.Transport.{slice}
use librfid.Rc632.RegisterMap.{RegisterMap, stays_byte}
use librfid.Readers.Spidev.{Spi, Message, transfer, read, write, reg_read, reg_write, spidev_spi}

-- The first byte of a frame: the register in the bits 1 to 6, and the bit 7 for a read.
frame_table :
    holds_below 64
      (λ reg. u8 (bit_or (reg <<< 1) 0x80) == 128 + 2 * reg && bit_and (reg <<< 1) 0x7e == 2 * reg)
    ≡ true
unfolding holds_below
frame_table = refl

read_byte : (reg : ℕ) → reg < 64 → u8 (bit_or (reg <<< 1) 0x80) ≡ 128 + 2 * reg
read_byte reg low = ground (arith, holds_below_at 64 _ reg frame_table low)

write_byte : (reg : ℕ) → reg < 64 → bit_and (reg <<< 1) 0x7e ≡ 2 * reg
write_byte reg low = ground (arith, holds_below_at 64 _ reg frame_table low)

-- What the chip documents of frames for one register, whose registers are a map: a write stores the
-- byte, and the answer to a read has the register behind one byte that counts for nothing.
abbrev pub IsChip : (List ℕ → Bool → (ℕ → ℕ) → Message × (ℕ → ℕ)) → Type 0
IsChip ioctl =
    ((reg val : ℕ) (regs : ℕ → ℕ)
      → reg < 64
      → val < 256
      → ioctl ((2 * reg) ∷ val ∷ []) false regs
        ≡ (record { ret = pos 2; bytes = [] }, λ r. if r == reg then val else regs r))
    × ((reg : ℕ) (regs : ℕ → ℕ)
        → reg < 64
        → (junk : ℕ) × (ioctl ((128 + 2 * reg) ∷ 0 ∷ []) true regs
            ≡ (record { ret = pos 2; bytes = junk ∷ regs reg ∷ [] }, regs)))

-- The registers hold bytes, and the buffer has room for a frame.
abbrev pub IsReady : Spi (ℕ → ℕ) → Type 0
IsReady s = ((r : ℕ) → s.world r < 256) × (2 ≤ length s.rcv_buf)

answer_behind :
    {S : Type 0} (a b : ℕ) (buf : List ℕ) (s : S)
    → 2 ≤ length buf
    → slice (overlay (a ∷ b ∷ []) buf) 1 1 s ≡ ok (b ∷ []) s
answer_behind a b [] s room = absurd (omega arith)
answer_behind a b (x ∷ []) s room = absurd (omega arith)
answer_behind a b (x ∷ y ∷ buf) s room = ground arith

module _ (ioctl : List ℕ → Bool → (ℕ → ℕ) → Message × (ℕ → ℕ)) (chip : IsChip ioctl) where
  pub reg_write_lem :
      (reg val : ℕ) (s : Spi (ℕ → ℕ))
      → reg < 64
      → val < 256
      → reg_write ioctl reg val s
        ≡ ok (pos 1) (record s { world = λ r. if r == reg then val else s.world r })
  unfolding reg_write write transfer
  reg_write_lem reg val s low byte = rw (write_byte reg low, chip.0 reg val s.world low byte) refl

  pub reg_read_lem :
      (reg : ℕ) (s : Spi (ℕ → ℕ))
      → reg < 64
      → 2 ≤ length s.rcv_buf
      → (s' : Spi (ℕ → ℕ)) × (reg_read ioctl reg s
          ≡ ok (record { ret = pos 1; val = some (s.world reg) }) s')
        × (s'.world ≡ s.world)
        × (length s'.rcv_buf ≡ length s.rcv_buf)
  unfolding reg_read read transfer
  reg_read_lem reg s low room =
      let (junk, e) = chip.1 reg s.world low in
      (
        record s { rcv_buf = overlay (junk ∷ s.world reg ∷ []) s.rcv_buf },
        rw (read_byte reg low, e) (rw (answer_behind junk (s.world reg) s.rcv_buf _ room) refl),
        refl,
        length-overlay (junk ∷ s.world reg ∷ []) s.rcv_buf,
      )

  -- A byte that is written to a register through the device is read back from it, and from every
  -- other register the byte that it had.
  pub reg_read-reg_write :
      (reg val r : ℕ) (s : Spi (ℕ → ℕ))
      → reg < 64
      → val < 256
      → r < 64
      → 2 ≤ length s.rcv_buf
      → (s1 : Spi (ℕ → ℕ)) × (s2 : Spi (ℕ → ℕ)) × (reg_write ioctl reg val s ≡ ok (pos 1) s1)
        × (reg_read ioctl r s1
            ≡ ok (record { ret = pos 1; val = some (if r == reg then val else s.world r) }) s2)
  reg_read-reg_write reg val r s low byte low' room =
      let s1 = record s { world = λ q. if q == reg then val else s.world q } in
      let (s2, e, _, _) = reg_read_lem r s1 low' room in
      (s1, s2, reg_write_lem reg val s low byte, e)

  -- The device makes the registers of such a chip a map.
  unfoldable pub spidev_map : RegisterMap (Spi (ℕ → ℕ)) (spidev_spi ioctl)
  unfolding spidev_spi
  spidev_map = record {
    view = λ s. s.world;
    IsReady = IsReady;
    byte = λ s reg ready. ready.0 reg;
    read_lem = λ reg s low ready.
        let (s', e, same, size) = reg_read_lem reg s low ready.1 in
        (1, s', e, ((λ r. rw (same) (ready.0 r)), omega (arith, size)), λ r. ap (λ f. f r) same);
    write_lem = λ reg val s low byte ready.
        let s1 = record s { world = λ r. if r == reg then val else s.world r } in
        (
          1,
          s1,
          reg_write_lem reg val s low byte,
          ((λ r. stays_byte reg val (s.world r) r byte (ready.0 r)), ready.1),
          λ r. refl,
        );
  }
