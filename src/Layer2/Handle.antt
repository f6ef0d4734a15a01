-- ===== src/Layer2/Handle.antt =====
-- `struct rfid_layer2_handle` and the handles of the three implementations, from the headers
-- include/librfid/rfid_layer2*.h. The `priv` union holds the member of the handle's own layer; the
-- model keeps the three members side by side.
use librfid.Prelude.{replicate, ℕ, List}
use librfid.Control.{M, ok}
use librfid.Reader.{Atqa, Reader, Reply, FrameType}

-- Which `struct rfid_layer2` a handle points to.
pub data Layer2Kind : Type 0 where
  iso14443a iso14443b iso15693 : Layer2Kind

-- `enum rfid_layer2_id`, of those with an implementation
abbrev pub layer2_id : Layer2Kind → ℕ
layer2_id iso14443a = 1
layer2_id iso14443b = 2
layer2_id iso15693 = 3

-- `enum iso14443a_level` and `enum iso14443a_state`
pub data ALevel : Type 0 where
  level_none level_cl1 level_cl2 level_cl3 : ALevel

pub data AState : Type 0 where
  error none_yet reqa_sent atqa_rcvd no_bitframe_anticol anticol_running selected : AState

-- `struct iso14443a_handle`
pub record Iso14443aHandle : Type 0 where
  pub state : AState
  pub level : ALevel
  pub tcl_capable : ℕ
  pub atqa : Atqa
  pub sak : ℕ

pub data BState : Type 0 where
  error none_yet reqb_sent atqb_rcvd attrib_sent selected hltb_sent halted : BState

-- `struct iso14443b_handle`
pub record Iso14443bHandle : Type 0 where
  pub tcl_capable : ℕ
  pub cid : ℕ
  pub fsc : ℕ
  pub fsd : ℕ
  pub fwt : ℕ
  pub mbl : ℕ
  pub tr0 : ℕ
  pub tr1 : ℕ
  pub flags : ℕ
  pub state : BState

-- `struct iso15693_handle`; a bit-field of one bit is a number below 2
pub record Iso15693Handle : Type 0 where
  pub state : ℕ
  pub vcd_ask100 : ℕ
  pub vicc_two_subc : ℕ
  pub vicc_fast : ℕ
  pub single_slot : ℕ
  pub use_afi : ℕ
  pub vcd_out256 : ℕ
  pub afi : ℕ
  pub dsfid : ℕ

-- `randctx`, the state of the generator of rfid_layer2_iso14443a.c
pub record RandCtx : Type 0 where
  pub r0 : ℕ
  pub r1 : ℕ
  pub r2 : ℕ
  pub r3 : ℕ

-- `struct rfid_layer2_handle`, with what its functions reach besides: the generator's state and the
-- world behind the reader. `uid` has ten bytes.
pub record Layer2Handle (W : Type 0) : Type 0 where
  pub l2 : Layer2Kind
  pub uid : List ℕ
  pub uid_len : ℕ
  pub proto_supported : ℕ
  pub flags : ℕ
  pub a : Iso14443aHandle
  pub b : Iso14443bHandle
  pub v : Iso15693Handle
  pub rand : RandCtx
  pub world : W

module _ {W : Type 0} where
  -- A call through one of the reader's pointers.
  abbrev pub with_world : {A : Type 0} → (W → A × W) → M (Layer2Handle W) A
  with_world f h = let (a, w) = f h.world in ok a (record h { world = w })

  abbrev pub modify_a : (Iso14443aHandle → Iso14443aHandle) → M (Layer2Handle W) (Unit {0})
  modify_a f h = ok tt (record h { a = f h.a })

  abbrev pub modify_b : (Iso14443bHandle → Iso14443bHandle) → M (Layer2Handle W) (Unit {0})
  modify_b f h = ok tt (record h { b = f h.b })

  abbrev pub modify_v : (Iso15693Handle → Iso15693Handle) → M (Layer2Handle W) (Unit {0})
  modify_v f h = ok tt (record h { v = f h.v })

-- `rh->reader->transceive`
abbrev pub reader_transceive :
    {W : Type 0} → Reader W → FrameType → List ℕ → ℕ → ℕ → ℕ → M (Layer2Handle W) Reply
reader_transceive rdr frametype tx rx_len timeout flags =
    with_world (rdr.transceive frametype tx rx_len timeout flags)

-- `memset(h, 0, sizeof(*h))`: every number is 0, and so is every state. The pointer `l2` is set by
-- the assignment that follows.
abbrev pub zeroed : {W : Type 0} → Layer2Handle W → Layer2Handle W
zeroed h = record h {
  uid = replicate 10 0;
  uid_len = 0;
  proto_supported = 0;
  flags = 0;
  a = record {
    state = AState.error;
    level = level_none;
    tcl_capable = 0;
    atqa = record { byte_0 = 0; byte_1 = 0 };
    sak = 0;
  };
  b = record {
    tcl_capable = 0;
    cid = 0;
    fsc = 0;
    fsd = 0;
    fwt = 0;
    mbl = 0;
    tr0 = 0;
    tr1 = 0;
    flags = 0;
    state = BState.error;
  };
  v = record {
    state = 0;
    vcd_ask100 = 0;
    vicc_two_subc = 0;
    vicc_fast = 0;
    single_slot = 0;
    use_afi = 0;
    vcd_out256 = 0;
    afi = 0;
    dsfid = 0;
  };
}
