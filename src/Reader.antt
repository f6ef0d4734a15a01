-- ===== src/Reader.antt =====
-- The reader, as the layers above see it: `struct rfid_reader` of include/librfid/rfid_reader.h and
-- the numbers of its `struct rfid_asic_handle`. The functions behind the pointers talk to hardware,
-- so a reader is a parameter of the development; `W` is the state of the world behind it (the
-- reader's chips, the field and the transponders).
use librfid.Prelude.{ℕ, ℤ, Option, List}

-- `enum rfid_frametype`
pub data FrameType : Type 0 where
  frame_14443a_regular frame_14443b_regular frame_mifare frame_15693 frame_15693_icode1 : FrameType

-- What `transceive` leaves behind: its result, the bytes that it stored from the start of `rx_buf`
-- on, and the value of `*rx_len`.
pub record Reply : Type 0 where
  pub ret : ℤ
  pub bytes : List ℕ
  pub rx_len : ℕ

-- `struct iso14443a_atqa`, its two bytes
pub record Atqa : Type 0 where
  pub byte_0 : ℕ
  pub byte_1 : ℕ

-- `struct iso14443a_anticol_cmd`; `uid_bits` has five bytes
pub record AnticolCmd : Type 0 where
  pub sel_code : ℕ
  pub nvb : ℕ
  pub uid_bits : List ℕ

pub record SfReply : Type 0 where
  pub ret : ℤ
  pub atqa : Atqa

pub record AcfReply : Type 0 where
  pub ret : ℤ
  pub acf : AnticolCmd
  pub bit_of_col : ℕ

-- `struct iso15693_anticol_resp` and what else `transceive_ac` stores
pub record AcReply : Type 0 where
  pub ret : ℤ
  pub uuid : List ℕ
  pub boc : ℕ

-- A function that the reader may lack is a null pointer, `none`.
pub record Reader (W : Type 0) : Type 0 where
  -- `transceive` is called with the frame type, the bytes to send, the room for the answer, the
  -- timeout and the flags.
  pub transceive : FrameType → List ℕ → ℕ → ℕ → ℕ → W → Reply × W
  pub transceive_sf : ℕ → Atqa → W → SfReply × W
  pub transceive_acf : AnticolCmd → W → AcfReply × W
  pub set_speed : Option (ℕ → ℕ → W → ℤ × W)
  pub transceive_ac : Option (List ℕ → W → AcReply × W)
  pub setkey : Option (List ℕ → W → ℤ × W)
  pub setkey_ee : Option (ℕ → W → ℤ × W)
  pub auth : Option (ℕ → ℕ → ℕ → W → ℤ × W)
  pub init : ℕ → W → ℤ × W
  pub l2_supported : ℕ
  pub proto_supported : ℕ
  pub speed : ℕ
  pub fc : ℕ  -- `rh->ah->fc`
  pub asic_fc : ℕ  -- `rh->ah->asic->fc`
  pub mtu : ℕ
  pub mru : ℕ
