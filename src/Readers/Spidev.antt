-- ===== src/Readers/Spidev.antt =====
-- src/rfid_reader_spidev.c: the chip behind an SPI device of the kernel.
use librfid.Prelude.{
  ℕ, ℤ, pos, negsuc, neg_einval, is_neg, ◌-◌, List, [], ◌∷◌, ◌++◌, Bool, true, false, not, ◌==◌,
  length, get_elem?, replicate, overlay, bit_and, bit_or, u8, ◌<<<◌, if◌then◌else◌,
}
use librfid.Control.{M, ◌>>=◌, ◌>>◌, pure, leave_if, leave_neg, get, put, call}
use librfid.Rc632.Transport.{Transport, RegRead, FifoRead, slice}

-- What `ioctl` leaves behind: its result and the bytes that it stored in `rcv_buf`.
pub record Message : Type 0 where
  pub ret : ℤ
  pub bytes : List ℕ

-- The state: what stands behind the device, and the static buffer `rcv_buf`.
pub record Spi (W : Type 0) : Type 0 where
  pub world : W
  pub rcv_buf : List ℕ

-- Whether a result is the number `n`
abbrev pub is_count : ℤ → ℕ → Bool
is_count (pos r) n = r == n
is_count (negsuc r) n = false

-- `ioctl` on the device is a parameter: it takes the bytes to send and says whether an answer is
-- wanted.
module _ {W : Type 0} (ioctl : List ℕ → Bool → W → Message × W) where
  -- `ret = ioctl(...)` and the tests of its result
  unfoldable pub transfer : List ℕ → Bool → M (Spi W) ℤ
  transfer frame wanted = call (do
    s ← get
    let (m, w) = ioctl frame wanted s.world
    put (record { world = w; rcv_buf = overlay m.bytes s.rcv_buf })
    leave_neg m.ret
    leave_if (not (is_count m.ret (length frame))) neg_einval
    pure m.ret)

  -- `spidev_read`
  unfoldable pub read : ℕ → ℕ → M (Spi W) FifoRead
  unfolding transfer
  read reg len = if len == 0 then pure (record { ret = neg_einval; bytes = [] }) else (do
    ret ←
        transfer (u8 (bit_or (reg <<< 1) 0x80) ∷ replicate (len - 1) (u8 (reg <<< 1)) ++ 0 ∷ [])
          true
    if is_neg ret then pure (record { ret = ret; bytes = [] }) else (do
      s ← get
      bytes ← slice s.rcv_buf 1 len
      pure (record { ret = pos len; bytes = bytes })))

  -- `spidev_write`
  unfoldable pub write : ℕ → List ℕ → M (Spi W) ℤ
  unfolding transfer
  write reg buf =
      if length buf == 0
      then pure neg_einval
      else call (do
        ret ← transfer (bit_and (reg <<< 1) 0x7e ∷ buf) false
        leave_neg ret
        pure (pos (length buf)))

  -- `spidev_reg_read`
  unfoldable pub reg_read : ℕ → M (Spi W) RegRead
  unfolding read
  reg_read reg = do
    r ← read reg 1
    pure (record { ret = if is_neg r.ret then r.ret else pos 1; val = get_elem? r.bytes 0 })

  -- `spidev_reg_write`
  unfoldable pub reg_write : ℕ → ℕ → M (Spi W) ℤ
  unfolding write
  reg_write reg value = do ret ← write reg (value ∷ []); pure (if is_neg ret then ret else pos 1)

  -- `spidev_fifo_read`
  unfoldable pub fifo_read : ℕ → M (Spi W) FifoRead
  unfolding read
  fifo_read len = do
    r ← read 2 len
    pure (record { ret = if is_neg r.ret then r.ret else pos len; bytes = r.bytes })

  -- `spidev_fifo_write`
  unfoldable pub fifo_write : List ℕ → ℕ → M (Spi W) ℤ
  unfolding write
  fifo_write buf flags = do ret ← write 2 buf; pure (if is_neg ret then ret else pos (length buf))

  -- `spidev_spi`
  unfoldable pub spidev_spi : Transport (Spi W)
  unfolding reg_write reg_read fifo_write fifo_read
  spidev_spi = record {
    reg_write = reg_write;
    reg_read = reg_read;
    fifo_write = fifo_write;
    fifo_read = fifo_read;
  }
