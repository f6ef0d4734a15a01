-- ===== src/Tests/Exchanges.antt =====
-- T=CL exchanges and pages of Mifare Classic cards.
use librfid.Prelude.{
  true, ◌++◌, ℕ, none, pos, minus_one, is_neg, ◌*◌, ◌≤◌, ◌≡◌, ◌≢◌, ◌⊎◌, refl, some, List, [], ◌∷◌,
  take, length, get_elem?, arith, false, replicate, store_front, u32, min, length-take,
}
use librfid.Control.{ok}
use librfid.Reader.{Reader}
use librfid.Layer2.Handle.{iso14443a, iso14443b, iso15693}
use librfid.Layer2.Dispatch
use librfid.Layer2.Iso14443a.Anticol
use librfid.Layer2.Laws.{IsBounded}
use librfid.Tcl.Handle.{TclHandle, TclState, tcl, mifare_classic, ProtocolHandle, cid_used}
use librfid.Tcl.Ats.{parse_ats}
use librfid.FrameSize.{fsdi_to_fsd}
use librfid.Tcl.Connect.{connect}
use librfid.Tcl.Prologue.{prlg_len}
use librfid.Tcl.Exchange.{Io, send, refill_xcvb, on_reply, transceive}
use librfid.Tcl.Chaining.{IsNextFrame, refill_xcvb-IsNextFrame}
use librfid.Tcl.Answers.{transceive_single, on_reply_wtx}
use librfid.Tcl.AtsCoding.{Ats, text_of}
use librfid.Tcl.AtsFields.{Parsed}
use librfid.Tcl.AtsRoundTrip.{parse_ats-text_of}
use librfid.Tcl.Activation.{connect_established}
use librfid.Tcl.Blocks
use librfid.Tcl.Delivery.{transceive_delivers}
use librfid.MifareClassic.Pages.{read_page, write_page}
use librfid.MifareClassic.Laws.{delivered, read_page_lem, write_page_acknowledged}
use librfid.Tests.Fixtures.{World, answering, handle_in, tcl_handle, protocol_handle}

-- A card that answers in one block: the status word 0x9000
abbrev card : Reader World
card = answering 3 (0x02 ∷ 0x90 ∷ 0x00 ∷ [])

abbrev connected : ProtocolHandle World
connected = protocol_handle iso14443a tcl TclState.established

abbrev select_file : List ℕ
select_file = 0x00 ∷ 0xa4 ∷ 0x00 ∷ 0x00 ∷ 0x02 ∷ 0x3f ∷ 0x00 ∷ []

file_selected :
    transceive card 3 (replicate 256 0) select_file 256 connected
    ≡ ok
        (record { ret = pos 0; rx_data = 0x90 ∷ 0x00 ∷ [] })
        (record connected { th = record (connected.th) { toggle = 0 } })
file_selected =
    transceive_single card 0 0 0 (replicate 255 0) select_file (0x90 ∷ 0x00 ∷ []) 256 tt connected
      refl refl (omega arith) (omega arith) (omega arith) refl (omega arith) refl

-- One hundred bytes, of which the first sixty-three are sent
abbrev long_io : Io
long_io = record {
  th = tcl_handle TclState.established;
  tx_data = replicate 256 0;
  tx_frame_len = 0;
  timeout = 4833;
  rx_data = [];
  tx = replicate 100 7;
  next_tx = 0;
  received = [];
  rx_len = 256;
}

first_frame : (io' : Io) × (refill_xcvb long_io ≡ send io') × IsNextFrame long_io io'
unfolding prlg_len
first_frame = refill_xcvb-IsNextFrame long_io (omega arith) (omega arith) (omega arith) refl

more_time :
    (io' : Io) × (on_reply (record { ret = pos 2; bytes = 0xf2 ∷ 3 ∷ []; rx_len = 2 }) long_io
      ≡ send io')
    × (take io'.tx_frame_len io'.tx_data ≡ 0xf2 ∷ 3 ∷ [])
    × (io'.timeout ≡ u32 (4833 * 3))
    × (io'.th ≡ long_io.th)
more_time = on_reply_wtx 2 3 [] (replicate 254 0) 0 0 long_io refl refl (omega arith) (omega arith)

abbrev gone_card : ProtocolHandle World
gone_card = protocol_handle iso14443a tcl TclState.deselected

abbrev fresh_b : ProtocolHandle World
fresh_b = protocol_handle iso14443b tcl TclState.initial

abbrev connected_b : ProtocolHandle World
connected_b = record fresh_b {
  th = record (fresh_b.th) {
    state = TclState.established;
    fsc = 0;
    fwt = 7;
    ats_len = 4;
    historical_bytes = some 0;
  };
}

type_b_connected :
    (connected_b.th.state ≡ TclState.established)
    × (fresh_b.l2h.l2 ≢ iso15693)
    × ((fresh_b.th.state ≡ TclState.initial) ⊎ (fresh_b.th.state ≡ TclState.deselected))
unfolding connect
type_b_connected = connect_established card 0 fresh_b connected_b refl

abbrev fresh_a : ProtocolHandle World
fresh_a = protocol_handle iso14443a tcl TclState.ats_rcvd

-- An answer with TB, TC and one historical byte
abbrev answer : Ats
answer = record {
  fsci = 5;
  ta = none;
  tb = some (4, 1);
  tc = some (true, false);
  historical = 0x80 ∷ [];
}

answer_read :
    (h' : ProtocolHandle World) × (parse_ats card
        (text_of answer ++ replicate 12 0)
        (length (text_of answer))
        fresh_a
      ≡ ok (pos 0) h')
    × Parsed 13560000 64 64 answer fresh_a.th h'.th
unfolding fsdi_to_fsd
answer_read =
    parse_ats-text_of card answer 64 (replicate 12 0) fresh_a
      (omega arith, (omega arith, omega arith), omega arith) refl (omega arith)

abbrev with_cid : TclHandle
with_cid = record (tcl_handle TclState.established) { cid = 9; flags = cid_used }

-- A reader that keeps to the room it is given, with an acknowledgement for every frame
abbrev acknowledging : Reader World
acknowledging = record card {
  transceive = λ frametype tx room timeout flags w.
      (record { ret = pos 0; bytes = take room (0x0a ∷ []); rx_len = min room 1 }, w);
}

keeps_to_room : IsBounded acknowledging
keeps_to_room frametype tx room timeout flags w =
    ground (arith, length-take {A = ℕ} room (0x0a ∷ []))

abbrev classic : ProtocolHandle World
classic = protocol_handle iso14443a mifare_classic TclState.none_yet

page_read :
    (read_page acknowledging 4 16 classic
      ≡ ok (delivered (record { ret = pos 0; bytes = 0x0a ∷ []; rx_len = 1 }) 16) classic)
    × (length (delivered (record { ret = pos 0; bytes = 0x0a ∷ []; rx_len = 1 }) 16).rx_data ≤ 16)
page_read = read_page_lem acknowledging 4 16 classic keeps_to_room (omega arith)

page_written :
    (is_neg (pos 0) ≡ false)
    × (pos 0 ≡ pos 0)
    × (get_elem? (store_front {A = ℕ} (0x0a ∷ []) (0x0a ∷ [])) 0 ≡ some 0x0a)
    × (classic ≡ classic)
unfolding write_page Dispatch.transceive Anticol.transceive
page_written =
    write_page_acknowledged acknowledging 4 (replicate 16 5) 0 classic classic (omega arith) refl
      refl

-- One hundred bytes, in two blocks, to a card that answers with a status word.
abbrev status_word : List ℕ → List ℕ
status_word command = 0x90 ∷ 0x00 ∷ []

abbrev chaining : Reader (List ℕ)
chaining = record {
  transceive = λ frametype tx room timeout flags w. Blocks.card status_word tx w;
  transceive_sf = λ cmd atqa w. (record { ret = minus_one; atqa = atqa }, w);
  transceive_acf = λ acf w. (record { ret = minus_one; acf = acf; bit_of_col = 0 }, w);
  set_speed = none;
  transceive_ac = none;
  setkey = none;
  setkey_ee = none;
  auth = none;
  init = λ id w. (pos 0, w);
  l2_supported = 14;
  proto_supported = 46;
  speed = 3;
  fc = 13560000;
  asic_fc = 13560000;
  mtu = 64;
  mru = 64;
}

abbrev waiting : ProtocolHandle (List ℕ)
waiting = record { l2h = handle_in [] iso14443a; proto = tcl; th = tcl_handle TclState.established }

two_blocks :
    (h' : ProtocolHandle (List ℕ)) × (transceive chaining 200
        (0 ∷ replicate 255 0)
        (replicate 100 7)
        256
        waiting
      ≡ ok (record { ret = pos 0; rx_data = 0x90 ∷ 0x00 ∷ [] }) h')
    × (h'.l2h ≡ waiting.l2h)
two_blocks =
    transceive_delivers status_word chaining 200 0 (replicate 255 0) (replicate 100 7) 256 waiting
      (λ frametype tx timeout got. refl) refl refl refl (omega arith) (omega arith) (omega arith)
      refl (omega arith) (omega arith)
