-- ===== src/Tests/Binding.antt =====
-- The library of python/openpcd.c over a card, and the search for a key.
use librfid.Prelude.{
  ◌≢◌, ℕ, pos, minus_one, ◌≡◌, refl, get_or, ◌&&◌, ltb, ℤ, not, is_neg, if◌then◌else◌, Bool, true,
  false, none, some, List, [], ◌∷◌, replicate,
}
use librfid.Control.{ok}
use librfid.Reader.{Reader}
use librfid.Layer2.Dispatch.{Bounds}
use librfid.Layer2.Dispatch
use librfid.Layer2.Iso14443a.Anticol
use librfid.Layer2.Iso14443a.Session
use librfid.Layer2.Handle.{iso14443a, AState, level_none, zeroed}
use librfid.Layer2.Iso14443a.Rand.{randctx, random_bits}
use librfid.Layer2.Iso14443a.Anticol.{bit_of_col_none}
use librfid.Tcl.Handle.{tcl, mifare_classic, TclState, ProtocolHandle}
use librfid.Protocol
use librfid.MifareClassic.Pages
use librfid.Binding.Shape.{shape, no_card}
use librfid.Binding.{
  PcdState, opened, select_card, choose_key, shared, after_layer2, after_init, make_ph, on_ph,
  on_l2h, null, pcd_error, give_up, deselect_card,
}
use librfid.Binding.Calls.{IsSound}
use librfid.Binding.Reselect.{IsDangling, select_card_again}
use librfid.Protocol.{Stack}
use librfid.Binding.Pointers.{Reach, here, next, select, set_key_to, opened-IsSound}
use librfid.Tools.Mifare.{brute_from}
use librfid.Tools.Mifare.BruteForce.{IsLockedBy, keys_from, leading, brute_from_lem}
use librfid.Tests.Fixtures.{World, answering, handle, handle_in, protocol_handle, tcl_handle}

abbrev card : Reader World
card = answering 3 (0x08 ∷ 0 ∷ 0 ∷ [])

abbrev bounds : Bounds
bounds = record { fuel = 1; address = 4096 }

abbrev block : ProtocolHandle World
block = protocol_handle iso14443a tcl TclState.none_yet

-- The state with a Mifare Classic card chosen
abbrev chosen : PcdState World
chosen = record {
  cl_auth = 0x60;
  l2h = shared;
  ph = some (record block {
    l2h = record (zeroed (handle iso14443a)) {
      uid = 1 ∷ 2 ∷ 3 ∷ 4 ∷ replicate 6 0;
      uid_len = 4;
      proto_supported = 12;
      a = record {
        state = AState.selected;
        level = level_none;
        tcl_capable = 0;
        atqa = record { byte_0 = 4; byte_1 = 0 };
        sak = 0x08;
      };
      rand = random_bits 23 randctx;
    };
    proto = mifare_classic;
  });
  key = replicate 6 0xff;
  world = tt;
}

abbrev with_key : PcdState World
with_key = record chosen { cl_auth = 0x61; key = replicate 6 0 }

select_card-chosen :
    select_card card bounds true true block true (opened card tt) ≡ ok (pos 0) chosen
unfolding Anticol.anticol Anticol.request Anticol.cascade Anticol.select_level Anticol.resolve
    Anticol.finish_uid Anticol.set_selected Dispatch.init Dispatch.open_l2 Session.init select_card
    opened after_layer2 after_init make_ph on_ph on_l2h Protocol.init Protocol.open_protocol
    Pages.init
select_card-chosen = refl

no_card_yet : shape (opened card tt) ≡ no_card
unfolding opened
no_card_yet = refl

key_set : choose_key card true 1 (replicate 6 0) chosen ≡ ok (pos 0) with_key
unfolding choose_key
key_set = refl

-- The card is chosen, then a key is set.
two_calls : Reach card (opened card tt) with_key
two_calls =
    next (next here (select bounds true true true block (pos 0) no_card_yet select_card-chosen))
      (set_key_to true 1 (replicate 6 0) (pos 0) key_set)

both_handles : IsSound with_key
both_handles = opened-IsSound card tt with_key two_calls

-- What a reader knows of a card and its lock: whether the card answers, and the key it was given
abbrev Lock : Type 0
Lock = Bool × List ℕ

abbrev fits : List ℕ → Bool
fits key = ltb (get_or key 5 0) 2

-- A card whose block is opened by the keys that end in 0 or 1, and which drops out at any other
abbrev try_key : Lock → ℤ × Lock
try_key (answers, key) =
    let right = answers && fits key in (if right then pos 0 else minus_one, (right, key))

abbrev locked : Reader Lock
locked = record {
  transceive =
      λ frametype tx room timeout flags w. (record { ret = minus_one; bytes = []; rx_len = 0 }, w);
  transceive_sf =
      λ cmd atqa w. (record { ret = pos 0; atqa = record { byte_0 = 4; byte_1 = 0 } }, w);
  transceive_acf = λ acf w. (record { ret = pos 0; acf = acf; bit_of_col = bit_of_col_none }, w);
  set_speed = none;
  transceive_ac = none;
  setkey = some (λ key w. (pos 0, (w.0, key)));
  setkey_ee = none;
  auth = some (λ cmd serno page w. try_key w);
  init = λ id w. (pos 0, w);
  l2_supported = 2;
  proto_supported = 8;
  speed = 3;
  fc = 13560000;
  asic_fc = 13560000;
  mtu = 64;
  mru = 64;
}

neg_unless : (b : Bool) → is_neg (if b then pos 0 else minus_one) ≡ not b
neg_unless true = refl
neg_unless false = refl

locked-IsLockedBy : IsLockedBy locked 4 fits (λ w. w.0)
locked-IsLockedBy = (
  (λ key w. (pos 0, (w.0, key))),
  (λ cmd serno page w. try_key w),
  refl,
  refl,
  (λ key w. (refl, refl)),
  (λ key serno w. (neg_unless (w.0 && fits key), refl)),
)

abbrev classic : ProtocolHandle Lock
classic = record {
  l2h = handle_in (true, []) iso14443a;
  proto = mifare_classic;
  th = tcl_handle TclState.none_yet;
}

two_keys_found :
    (h' : ProtocolHandle Lock) × (brute_from locked 256 (replicate 6 0xff) 4 0 classic
      ≡ ok (leading fits (keys_from (replicate 6 0xff) 256 0)) h')
two_keys_found =
    brute_from_lem locked 4 fits (λ w. w.0) locked-IsLockedBy (replicate 6 0xff) classic refl

-- The field is empty when the next card is selected.
abbrev no_field : Reader World
no_field = record card {
  transceive_sf =
      λ cmd atqa w. (record { ret = minus_one; atqa = record { byte_0 = 0; byte_1 = 0 } }, w);
}

abbrev left_over : PcdState World
left_over = record chosen { l2h = null }

none_found : select_card no_field bounds true true block true chosen ≡ ok (pcd_error 6) left_over
unfolding Anticol.anticol Anticol.request Anticol.cascade Dispatch.init Dispatch.open_l2
    Dispatch.fini Session.init select_card after_layer2 give_up on_ph on_l2h
none_found = refl

abbrev stack : Stack
stack = record { fuel = 3; junk = replicate 256 0; frame = replicate 256 0 }

dangling :
    IsDangling left_over
    × (deselect_card no_field stack true left_over ≢ ok (pos 0) (opened no_field tt))
dangling =
    select_card_again no_field bounds true true block stack chosen left_over (opened no_field tt)
      (pos 0) refl none_found
