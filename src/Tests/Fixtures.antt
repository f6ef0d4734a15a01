-- ===== src/Tests/Fixtures.antt =====
-- Readers that always give one answer, and handles in a plain state.
use librfid.Prelude.{ℕ, pos, minus_one, none, List, [], ◌∷◌, replicate}
use librfid.Reader.{Reader}
use librfid.Layer2.Handle.{Layer2Handle, Layer2Kind, AState, level_none, BState, Iso14443aHandle}
use librfid.Layer2.Iso14443a.Anticol.{bit_of_col_none}
use librfid.Layer2.Iso14443a.Rand.{randctx}
use librfid.Tcl.Handle.{TclHandle, TclState, ProtocolHandle, ProtocolKind}

abbrev pub World : Type 0
World = Unit {0}

-- A reader that gives each frame the answer `bytes`, whose length is `n`, and finds one card of type
-- A without collisions.
abbrev pub answering : ℕ → List ℕ → Reader World
answering n bytes = record {
  transceive =
      λ frametype tx room timeout flags w. (record { ret = pos 0; bytes = bytes; rx_len = n }, w);
  transceive_sf =
      λ cmd atqa w. (record { ret = pos 0; atqa = record { byte_0 = 4; byte_1 = 0 } }, w);
  transceive_acf = λ acf w. (
    record {
      ret = pos 0;
      acf = record acf { uid_bits = 1 ∷ 2 ∷ 3 ∷ 4 ∷ 4 ∷ [] };
      bit_of_col = bit_of_col_none;
    },
    w,
  );
  set_speed = none;
  transceive_ac = none;
  setkey = none;
  setkey_ee = none;
  auth = none;
  init = λ id w. (pos 0, w);
  l2_supported = 14;
  proto_supported = 46;
  speed = 3;
  fc = 13560000;
  asic_fc = 13560000;
  mtu = 64;
  mru = 64;
}

-- A reader whose field is empty
abbrev pub silent : Reader World
silent = record (answering 0 []) {
  transceive =
      λ frametype tx room timeout flags w. (record { ret = minus_one; bytes = []; rx_len = 0 }, w);
}

abbrev pub a_handle : Iso14443aHandle
a_handle = record {
  state = AState.none_yet;
  level = level_none;
  tcl_capable = 0;
  atqa = record { byte_0 = 0; byte_1 = 0 };
  sak = 0;
}

abbrev pub handle_in : {W : Type 0} → W → Layer2Kind → Layer2Handle W
handle_in w kind = record {
  l2 = kind;
  uid = replicate 10 0;
  uid_len = 0;
  proto_supported = 0;
  flags = 0;
  a = a_handle;
  b = record {
    tcl_capable = 0;
    cid = 0;
    fsc = 0;
    fsd = 64;
    fwt = 7;
    mbl = 0;
    tr0 = 0;
    tr1 = 0;
    flags = 0;
    state = BState.none_yet;
  };
  v = record {
    state = 1;
    vcd_ask100 = 1;
    vicc_two_subc = 0;
    vicc_fast = 1;
    single_slot = 1;
    use_afi = 0;
    vcd_out256 = 0;
    afi = 0;
    dsfid = 0;
  };
  rand = randctx;
  world = w;
}

abbrev pub handle : Layer2Kind → Layer2Handle World
handle = handle_in tt

abbrev pub tcl_handle : TclState → TclHandle
tcl_handle state = record {
  historical_bytes = none;
  historical_len = 0;
  fsc = 64;
  fsd = 64;
  fwt = 4833;
  ta = 0;
  sfgt = 0;
  cid = 0;
  nad = 0;
  flags = 0;
  state = state;
  toggle = 1;
  ats_len = 64;
  ats = replicate 256 0;
}

abbrev pub protocol_handle : Layer2Kind → ProtocolKind → TclState → ProtocolHandle World
protocol_handle kind proto state = record {
  l2h = handle kind;
  proto = proto;
  th = tcl_handle state;
}
