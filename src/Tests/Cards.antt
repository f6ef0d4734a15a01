-- ===== src/Tests/Cards.antt =====
-- Activation of cards and the options of the second layer.
use librfid.Prelude.{ℕ, pos, ◌≡◌, ◌≢◌, ◌⊎◌, refl, none, List, [], ◌∷◌, arith, true, false, test}
use librfid.Control.{ok}
use librfid.Reader.{Reader, Reply}
use librfid.Layer2.Handle.{Layer2Handle, AState, level_none, iso14443a, iso14443b}
use librfid.Layer2.Dispatch
use librfid.Layer2.Dispatch.{Bounds}
use librfid.Layer2.Handle.{zeroed}
use librfid.Layer2.Iso14443a.Rand.{random_bits, randctx}
use librfid.Layer2.Iso14443a.Session
use librfid.Scan.{layer2_scan}
use librfid.Scan.Laws.{IsFound, layer2_scan-IsFound}
use librfid.Layer2.Dispatch.{opt_uid, uid_size}
use librfid.Layer2.Iso14443a.Anticol
use librfid.Layer2.Iso14443a.Laws.{anticol_selected}
use librfid.Layer2.Iso14443b.Select as BSelect
use librfid.Layer2.Iso14443b.Session as BSession
use librfid.Layer2.Iso14443b.Laws.{anticol_never_selects, setopt_accepts}
use librfid.Tests.Fixtures.{World, answering, silent, handle}

abbrev reader_a : Reader World
reader_a = answering 3 (0x28 ∷ 0 ∷ 0 ∷ [])

-- The handle after the anticollision of a card whose identifier has four bytes
abbrev found : Layer2Handle World
found = record (handle iso14443a) {
  uid = 1 ∷ 2 ∷ 3 ∷ 4 ∷ 0 ∷ 0 ∷ 0 ∷ 0 ∷ 0 ∷ 0 ∷ [];
  uid_len = 4;
  proto_supported = 2;
  a = record {
    state = AState.selected;
    level = level_none;
    tcl_capable = 1;
    atqa = record { byte_0 = 4; byte_1 = 0 };
    sak = 0x28;
  };
}

anticol-found : Anticol.anticol reader_a 1 (handle iso14443a) ≡ ok (pos 0) found
unfolding Anticol.anticol Anticol.request Anticol.cascade Anticol.select_level Anticol.resolve
    Anticol.finish_uid Anticol.set_selected
anticol-found = refl

found_selected :
    (found.a.state ≡ AState.selected)
    × (found.a.level ≡ level_none)
    × ((found.uid_len ≡ 4) ⊎ (found.uid_len ≡ 7) ⊎ (found.uid_len ≡ 10))
    × (((found.proto_supported ≡ 2) × (found.a.tcl_capable ≡ 1) × (test found.a.sak 0x20 ≡ true))
        ⊎ ((found.proto_supported ≡ 12)
            × (found.a.tcl_capable ≡ 0)
            × (test found.a.sak 0x20 ≡ false)))
found_selected = anticol_selected reader_a 1 0 (handle iso14443a) found anticol-found

no_card_of_type_b :
    BSelect.anticol (answering 3 (0x50 ∷ [])) 4096 (handle iso14443b)
    ≢ ok (pos 0) (handle iso14443b)
no_card_of_type_b =
    anticol_never_selects (answering 3 (0x50 ∷ [])) 4096 0 (handle iso14443b) (handle iso14443b)

option_of_type_b : BSession.setopt silent 7 none (handle iso14443b) ≡ ok (pos 0) (handle iso14443b)
option_of_type_b = setopt_accepts silent 7 none (handle iso14443b) (λ e. ground arith)

abbrev block_reply : Reply
block_reply = record { ret = pos 0; bytes = 0 ∷ 7 ∷ 8 ∷ []; rx_len = 3 }

abbrev atqb : List ℕ
atqb = 0x50 ∷ 1 ∷ 2 ∷ 3 ∷ 4 ∷ 0 ∷ 0 ∷ 0 ∷ 0 ∷ 0 ∷ 0x51 ∷ 0x41 ∷ []

-- The handle after a good answer of type B
abbrev parsed : Layer2Handle World
parsed = record (handle iso14443b) {
  b = record ((handle iso14443b).b) { flags = 1; tcl_capable = 1; fsc = 64 };
  proto_supported = 2;
  uid = 1 ∷ 2 ∷ 3 ∷ 4 ∷ 0 ∷ 0 ∷ 0 ∷ 0 ∷ 0 ∷ 0 ∷ [];
  uid_len = 4;
}

-- The same card, found by a scan that makes the handle
abbrev scanned : Layer2Handle World
scanned = record (zeroed found) {
  uid = found.uid;
  uid_len = 4;
  proto_supported = 2;
  a = found.a;
  rand = random_bits 23 randctx;
}

abbrev bounds : Bounds
bounds = record { fuel = 1; address = 4096 }

scan-IsFound : IsFound reader_a bounds (λ i. true) 16 scanned
unfolding layer2_scan random_bits Anticol.anticol Anticol.request Anticol.cascade
    Anticol.select_level Anticol.resolve Anticol.finish_uid Anticol.set_selected Dispatch.init
    Dispatch.open_l2 Session.init
scan-IsFound = layer2_scan-IsFound reader_a bounds (λ i. true) (handle iso14443a) scanned refl
