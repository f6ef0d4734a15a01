-- ===== src/Readers/OpenPcd.antt =====
-- src/rfid_reader_openpcd.c: the chip behind the OpenPCD reader, over USB.
use librfid.Prelude.{
  ℕ, ℤ, pos, negsuc, neg_einval, is_neg, ◌-◌, none, some, List, [], ◌∷◌, Bool, false, ltb, ◌==◌,
  get_elem?, set, overlay, if◌then◌else◌,
}
use librfid.Control.{M, ◌>>=◌, ◌>>◌, pure, undefined, leave_if, leave_neg, get, put, modify, call}
use librfid.Rc632.Transport.{Transport, RegRead, FifoRead, slice}

-- What `usb_bulk_read` leaves behind: its result and the bytes that it stored in `rcv_buf`.
pub record BulkRead : Type 0 where
  pub ret : ℤ
  pub bytes : List ℕ

-- The state: what stands behind the bus, and the static buffer `rcv_buf`.
pub record Usb (W : Type 0) : Type 0 where
  pub world : W
  pub rcv_buf : List ℕ

abbrev pub cmd_get_api_version : ℕ
cmd_get_api_version = 0x04

abbrev pub cmd_get_environment : ℕ
cmd_get_environment = 0x05

abbrev pub cmd_set_environment : ℕ
cmd_set_environment = 0x06

abbrev pub cmd_reset : ℕ
cmd_reset = 0x07

abbrev pub cmd_write_reg : ℕ
cmd_write_reg = 0x11

abbrev pub cmd_write_fifo : ℕ
cmd_write_fifo = 0x12

abbrev pub cmd_read_reg : ℕ
cmd_read_reg = 0x16

abbrev pub cmd_read_fifo : ℕ
cmd_read_fifo = 0x17

-- `OPENPCD_FLAG_RESPOND`
abbrev pub flag_respond : ℕ
flag_respond = 0x01

-- `sizeof(struct openpcd_hdr)`
abbrev pub hdr_size : ℕ
hdr_size = 4

-- `ret < sizeof(struct openpcd_hdr)`, a comparison of unsigned numbers
abbrev pub is_short : ℤ → Bool
is_short (pos n) = ltb n hdr_size
is_short (negsuc n) = false

-- `RFID_OPT_RDR_FW_VERSION`
abbrev pub opt_fw_version : ℕ
opt_fw_version = 0x0001

-- The functions of libusb are parameters.
module _ {W : Type 0} (bulk_write : List ℕ → W → ℤ × W) (bulk_read : W → BulkRead × W) where
  -- `openpcd_send_command`: the header and the data
  unfoldable pub send_command : ℕ → ℕ → ℕ → List ℕ → M (Usb W) ℤ
  send_command cmd reg val bytes = do
    s ← get
    let (ret, w) = bulk_write (cmd ∷ flag_respond ∷ reg ∷ val ∷ bytes) s.world
    put (record s { world = w })
    pure ret

  -- `openpcd_recv_reply`
  unfoldable pub recv_reply : M (Usb W) ℤ
  recv_reply = do
    s ← get
    let (r, w) = bulk_read s.world
    put (record { world = w; rcv_buf = overlay r.bytes s.rcv_buf })
    pure r.ret

  -- `openpcd_xcv`
  unfoldable pub xcv : ℕ → ℕ → ℕ → List ℕ → M (Usb W) ℤ
  unfolding send_command recv_reply
  xcv cmd reg val bytes = call (do
    ret ← send_command cmd reg val bytes
    leave_neg ret
    leave_if (is_short ret) neg_einval
    recv_reply)

  -- `openpcd_reg_write`
  unfoldable pub reg_write : ℕ → ℕ → M (Usb W) ℤ
  unfolding xcv
  reg_write reg value = xcv cmd_write_reg reg value []

  -- `openpcd_reg_read`
  unfoldable pub reg_read : ℕ → M (Usb W) RegRead
  unfolding xcv
  reg_read reg = do
    ret ← xcv cmd_read_reg reg 0 []
    s ← get
    pure (record {
      ret = ret;
      val = if is_neg ret then none else if is_short ret then none else get_elem? s.rcv_buf 3;
    })

  -- `openpcd_fifo_read` and `openpcd_get_environment`, by their commands: what is copied is what
  -- the reader sent, and an answer shorter than a header makes the length of the copy wrap around.
  unfoldable pub read_data : ℕ → ℕ → M (Usb W) FifoRead
  unfolding xcv
  read_data cmd num_bytes = do
    ret ← xcv cmd 0x00 num_bytes []
    elim ret [
      | negsuc n ↦ pure (record { ret = negsuc n; bytes = [] })
      | pos n ↦ if ltb n hdr_size then undefined else (do
        s ← get
        bytes ← slice s.rcv_buf hdr_size (n - hdr_size)
        pure (record { ret = pos n; bytes = bytes }))
    ]

  -- `openpcd_fifo_read`
  unfoldable pub fifo_read : ℕ → M (Usb W) FifoRead
  unfolding read_data
  fifo_read num_bytes = read_data cmd_read_fifo num_bytes

  -- `openpcd_fifo_write`
  unfoldable pub fifo_write : List ℕ → ℕ → M (Usb W) ℤ
  unfolding xcv
  fifo_write bytes flags = xcv cmd_write_fifo 0 0 bytes

  -- `openpcd_rat`
  unfoldable pub openpcd_rat : Transport (Usb W)
  unfolding reg_write reg_read fifo_write fifo_read
  openpcd_rat = record {
    reg_write = reg_write;
    reg_read = reg_read;
    fifo_write = fifo_write;
    fifo_read = fifo_read;
  }

  -- `openpcd_get_api_version`: the result and the version, if one was stored
  unfoldable pub get_api_version : M (Usb W) RegRead
  unfolding xcv
  get_api_version = do
    modify (λ s. record s { rcv_buf = set s.rcv_buf 3 0 })
    ret ← xcv cmd_get_api_version 0 0 []
    s ← get
    pure (
        if is_neg ret
        then record { ret = ret; val = none }
        else if is_short ret
        then record { ret = neg_einval; val = none }
        else record { ret = ret; val = get_elem? s.rcv_buf 3 })

  -- `openpcd_get_environment`
  unfoldable pub get_environment : ℕ → M (Usb W) FifoRead
  unfolding read_data
  get_environment num_bytes = read_data cmd_get_environment num_bytes

  -- `openpcd_set_environment`
  unfoldable pub set_environment : List ℕ → M (Usb W) ℤ
  unfolding xcv
  set_environment bytes = call (do
    ret ← xcv cmd_set_environment 0 0 bytes
    leave_neg ret
    leave_if (is_short ret) neg_einval
    s ← get
    elim (get_elem? s.rcv_buf 3) [ none ↦ undefined | some val ↦ pure (pos val) ])

  -- `openpcd_reset`
  unfoldable pub reset : M (Usb W) ℤ
  unfolding xcv
  reset = xcv cmd_reset 0 0 []

  -- `openpcd_getopt`
  unfoldable pub getopt : ℕ → M (Usb W) RegRead
  unfolding get_api_version
  getopt optname =
      if optname == opt_fw_version
      then get_api_version
      else pure (record { ret = neg_einval; val = none })
