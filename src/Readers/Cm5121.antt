-- ===== src/Readers/Cm5121.antt =====
-- src/rfid_reader_cm5121.c: the chip behind the Omnikey CardMan 5121, in escape frames of CCID.
use librfid.Prelude.{
  ℕ, ℤ, pos, negsuc, minus_one, ◌+◌, none, List, [], ◌∷◌, Bool, false, ltb, ◌==◌, take, drop,
  length, get_elem?, u8, if◌then◌else◌,
}
use librfid.Control.{M, ok, ◌>>=◌, ◌>>◌, pure, undefined}
use librfid.Rc632.Transport.{Transport, RegRead, FifoRead}

-- What `PC_to_RDR_Escape` leaves behind: its result and the bytes that it stored.
pub record Escape : Type 0 where
  pub ret : ℤ
  pub bytes : List ℕ

-- The room for the answer to FIFO commands
abbrev pub fifo_room : ℕ
fifo_room = 0x7f

abbrev pub is_zero : ℤ → Bool
is_zero (pos n) = n == 0
is_zero (negsuc n) = false

-- The header of a frame: how many bytes follow, how many are wanted, the flags and the register
abbrev pub header : ℕ → ℕ → ℕ → ℕ → List ℕ → List ℕ
header follow wanted flags reg more = 0x20 ∷ 0x00 ∷ follow ∷ 0x00 ∷ wanted ∷ flags ∷ reg ∷ more

-- `PC_to_RDR_Escape` is a parameter.
module _ {W : Type 0} (escape : List ℕ → W → Escape × W) where
  -- A call of `PC_to_RDR_Escape`
  unfoldable pub send : List ℕ → M W Escape
  send frame w = let (e, w') = escape frame w in ok e w'

  -- `Write1ByteToReg`
  unfoldable pub reg_write : ℕ → ℕ → M W ℤ
  unfolding send
  reg_write reg value = do
    e ← send (header 1 0 0 reg (value ∷ []))
    pure (if is_zero e.ret then pos 0 else minus_one)

  -- `Read1ByteFromReg`
  unfoldable pub reg_read : ℕ → M W RegRead
  unfolding send
  reg_read reg = do
    e ← send (header 0 1 0 reg [])
    pure (
        if is_zero e.ret
        then record { ret = pos 0; val = get_elem? e.bytes 1 }
        else record { ret = minus_one; val = none })

  -- `ReadNBytesFromFIFO`, which copies from a buffer of 0x7f bytes as many as were asked for
  unfoldable pub fifo_read : ℕ → M W FifoRead
  unfolding send
  fifo_read num_bytes = do
    e ← send (header 0 num_bytes 0 0x02 [])
    if is_zero e.ret
        then (if ltb fifo_room (num_bytes + 1)
            then undefined
            else pure (record { ret = pos 0; bytes = take num_bytes (drop 1 e.bytes) }))
        else pure (record { ret = minus_one; bytes = [] })

  -- `WriteNBytesToFIFO`
  unfoldable pub fifo_write : List ℕ → ℕ → M W ℤ
  unfolding send
  fifo_write bytes flags = do
    e ← send (header (u8 (length bytes)) 0 flags 0x02 bytes)
    pure (if is_zero e.ret then pos 0 else minus_one)

  -- `cm5121_ccid`
  unfoldable pub cm5121_ccid : Transport W
  unfolding reg_write reg_read fifo_write fifo_read
  cm5121_ccid = record {
    reg_write = reg_write;
    reg_read = reg_read;
    fifo_write = fifo_write;
    fifo_read = fifo_read;
  }

  -- `cm5121_enable_rc632`
  unfoldable pub enable_rc632 : M W ℤ
  unfolding send
  enable_rc632 = do send (0x01 ∷ []); pure (pos 0)
