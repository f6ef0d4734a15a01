-- ===== src/Scan.antt =====
-- src/rfid_scan.c: the search for a card, over the layers and protocols that the reader supports.
pub mod Laws
use librfid.Prelude.{
  ℕ, zero, suc, ℤ, pos, is_neg, ◌+◌, ◌^◌, Bool, true, false, ◌&&◌, not, test, if◌then◌else◌,
}
use librfid.Control.{M, ok, returned, fault, out_of_fuel}
use librfid.Reader.{Reader}
use librfid.Layer2.Handle.{Layer2Handle}
use librfid.Layer2.Dispatch as Layer2
use librfid.Layer2.Dispatch.{Bounds}
use librfid.Tcl.Handle.{ProtocolHandle, on_l2}
use librfid.Protocol

module _ {W : Type 0} (rdr : Reader W) where
  -- `init`, and if it gives a handle `open`; the handle is kept if that does not fail.
  abbrev init_open : {S : Type 0} → M S Bool → M S ℤ → M S Bool
  init_open init open' h = elim (init h) [
    | ok true h' ↦ elim (open' h') [
      | ok ret h'' ↦ ok (not (is_neg ret)) h''
      | returned ret h'' ↦ returned ret h''
      | fault ↦ fault
      | out_of_fuel ↦ out_of_fuel
    ]
    | ok false h' ↦ ok false h'
    | returned ret h' ↦ returned ret h'
    | fault ↦ fault
    | out_of_fuel ↦ out_of_fuel
  ]

  -- `rfid_layer2_scan1`; `allocated` says for each number whether `malloc` gives a block.
  unfoldable pub layer2_scan1 : Bounds → (ℕ → Bool) → ℕ → M (Layer2Handle W) Bool
  layer2_scan1 n allocated l2 h =
      if test rdr.l2_supported (2 ^ l2)
      then init_open (Layer2.init rdr l2 (allocated l2)) (Layer2.open_l2 rdr n) h
      else ok false h

  -- The loop of `rfid_layer2_scan` from number `i` on, with the rounds left.
  unfoldable pub layer2_scan_from : Bounds → (ℕ → Bool) → ℕ → ℕ → M (Layer2Handle W) Bool
  unfolding layer2_scan1
  layer2_scan_from n allocated zero i h = ok false h
  layer2_scan_from n allocated (suc rounds) i h = elim (layer2_scan1 n allocated i h) [
    | ok true h' ↦ ok true h'
    | ok false h' ↦ layer2_scan_from n allocated rounds (i + 1) h'
    | returned ret h' ↦ returned ret h'
    | fault ↦ fault
    | out_of_fuel ↦ out_of_fuel
  ]

  -- `rfid_layer2_scan`; `RFID_LAYER2_MAX` is 16
  unfoldable pub layer2_scan : Bounds → (ℕ → Bool) → M (Layer2Handle W) Bool
  unfolding layer2_scan_from
  layer2_scan n allocated = layer2_scan_from n allocated 16 0

  -- `rfid_protocol_scan1`
  unfoldable pub protocol_scan1 : (ℕ → Bool) → ℕ → M (ProtocolHandle W) Bool
  protocol_scan1 allocated proto h =
      if test rdr.proto_supported (2 ^ proto) && test h.l2h.proto_supported (2 ^ proto)
      then init_open (Protocol.init rdr proto (allocated proto)) (Protocol.open_protocol rdr) h
      else ok false h

  -- The loop of `rfid_protocol_scan` from number `i` on, with the rounds left.
  unfoldable pub protocol_scan_from : (ℕ → Bool) → ℕ → ℕ → M (ProtocolHandle W) Bool
  unfolding protocol_scan1
  protocol_scan_from allocated zero i h = ok false h
  protocol_scan_from allocated (suc rounds) i h = elim (protocol_scan1 allocated i h) [
    | ok true h' ↦ ok true h'
    | ok false h' ↦ protocol_scan_from allocated rounds (i + 1) h'
    | returned ret h' ↦ returned ret h'
    | fault ↦ fault
    | out_of_fuel ↦ out_of_fuel
  ]

  -- `rfid_protocol_scan`; `RFID_PROTOCOL_MAX` is 16
  unfoldable pub protocol_scan : (ℕ → Bool) → M (ProtocolHandle W) Bool
  unfolding protocol_scan_from
  protocol_scan allocated = protocol_scan_from allocated 16 0

  -- `rfid_scan`
  unfoldable pub scan : Bounds → (ℕ → Bool) → (ℕ → Bool) → M (ProtocolHandle W) ℤ
  unfolding layer2_scan protocol_scan
  scan n allocated allocated' h = elim (on_l2 (layer2_scan n allocated) h) [
    | ok false h' ↦ ok (pos 0) h'
    | ok true h' ↦ elim (protocol_scan allocated' h') [
      | ok false h'' ↦ ok (pos 2) h''
      | ok true h'' ↦ ok (pos 3) h''
      | returned ret h'' ↦ returned ret h''
      | fault ↦ fault
      | out_of_fuel ↦ out_of_fuel
    ]
    | returned ret h' ↦ returned ret h'
    | fault ↦ fault
    | out_of_fuel ↦ out_of_fuel
  ]
