-- ===== src/Protocol.antt =====
-- src/rfid_protocol.c: the functions that call the implementation of a handle's protocol.
use librfid.Prelude.{
  ℕ, ℤ, pos, neg_einval, Option, none, some, List, [], ◌∷◌, Bool, true, false, ◌==◌, ◌>>>◌,
  if◌then◌else◌, get_elem?,
}
use librfid.Control.{M, ok, returned, fault, out_of_fuel, pure}
use librfid.Reader.{Reader}
use librfid.Layer2.Options.{nothing, GetOpt, got}
use librfid.Tcl.Handle.{ProtocolHandle, ProtocolKind, tcl, mifare_ul, mifare_classic, tagit}
use librfid.Tcl.Connect
use librfid.Tcl.Exchange
use librfid.Tcl.Exchange.{Answer}
use librfid.MifareClassic.Pages
use librfid.MifareClassic.Pages.{PageRead, no_page}
use librfid.MifareUltralight
use librfid.Tagit

-- `rfid_protocols`; a row without an initialiser is a null pointer
abbrev pub protocols : List (Option ProtocolKind)
protocols = none ∷ some tcl ∷ some mifare_ul ∷ some mifare_classic ∷ none ∷ some tagit ∷ []

-- What the loop of a T=CL exchange needs besides the arguments: its fuel, and what the bytes on the
-- stack hold.
pub record Stack : Type 0 where
  pub fuel : ℕ
  pub junk : List ℕ
  pub frame : List ℕ

module _ {W : Type 0} (rdr : Reader W) where
  abbrev pub init_of : ProtocolKind → Bool → M (ProtocolHandle W) Bool
  init_of tcl = Connect.init rdr
  init_of mifare_ul = MifareUltralight.init rdr
  init_of mifare_classic = Pages.init rdr
  init_of tagit = Tagit.init rdr

  -- `ph->proto = p;` if there is a handle
  abbrev set_proto : ProtocolKind → Bool → M (ProtocolHandle W) Bool
  set_proto kind true h = ok true (record h { proto = kind })
  set_proto kind false h = ok false h

  -- `rfid_protocol_init`
  unfoldable pub init : ℕ → Bool → M (ProtocolHandle W) Bool
  init id allocated h = elim (get_elem? protocols id) [
    | none ↦ ok false h
    | some none ↦ fault
    | some (some kind) ↦ elim (init_of kind allocated h) [
      | ok made h' ↦ set_proto kind made h'
      | returned r h' ↦ returned r h'
      | fault ↦ fault
      | out_of_fuel ↦ out_of_fuel
    ]
  ]

  abbrev pub open_of : ProtocolKind → M (ProtocolHandle W) ℤ
  open_of tcl = Connect.connect rdr
  open_of mifare_ul = pure (pos 0)
  open_of mifare_classic = pure (pos 0)
  open_of tagit = pure (pos 0)

  -- `rfid_protocol_open`
  unfoldable pub open_protocol : M (ProtocolHandle W) ℤ
  open_protocol h = open_of h.proto h

  abbrev pub transceive_of : ProtocolKind → Stack → List ℕ → ℕ → M (ProtocolHandle W) Answer
  transceive_of tcl s tx rx_len = Exchange.transceive rdr s.fuel s.junk tx rx_len
  transceive_of mifare_ul s tx rx_len = λ h. fault
  transceive_of mifare_classic s tx rx_len = λ h. fault
  transceive_of tagit s tx rx_len = λ h. fault

  -- `rfid_protocol_transceive`, which does not ask whether the protocol has such a function
  unfoldable pub transceive : Stack → List ℕ → ℕ → M (ProtocolHandle W) Answer
  transceive s tx rx_len h = transceive_of h.proto s tx rx_len h

  abbrev read_of : ProtocolKind → ℕ → ℕ → M (ProtocolHandle W) PageRead
  read_of tcl page rx_len = pure (no_page neg_einval rx_len)
  read_of mifare_ul page rx_len = MifareUltralight.read_page rdr page rx_len
  read_of mifare_classic page rx_len = Pages.read_page rdr page rx_len
  read_of tagit page rx_len = Tagit.read_page rdr page rx_len

  -- `rfid_protocol_read`
  unfoldable pub read_page : ℕ → ℕ → M (ProtocolHandle W) PageRead
  read_page page rx_len h = read_of h.proto page rx_len h

  abbrev write_of : ProtocolKind → ℕ → List ℕ → ℕ → M (ProtocolHandle W) ℤ
  write_of tcl page tx tx_len = pure neg_einval
  write_of mifare_ul page tx tx_len = MifareUltralight.write_page rdr page tx tx_len
  write_of mifare_classic page tx tx_len = Pages.write_page rdr page tx tx_len
  write_of tagit page tx tx_len = Tagit.write_page rdr page tx tx_len

  -- `rfid_protocol_write`
  unfoldable pub write_page : ℕ → List ℕ → ℕ → M (ProtocolHandle W) ℤ
  write_page page tx tx_len h = write_of h.proto page tx tx_len h

  -- `rfid_protocol_fini`: each implementation frees the handle and returns 0
  unfoldable pub fini : M (ProtocolHandle W) ℤ
  fini = pure (pos 0)

  abbrev pub close_of : ProtocolKind → List ℕ → M (ProtocolHandle W) ℤ
  close_of tcl frame = Connect.deselect rdr frame
  close_of mifare_ul frame = pure (pos 0)
  close_of mifare_classic frame = pure (pos 0)
  close_of tagit frame = pure (pos 0)

  -- `rfid_protocol_close`
  unfoldable pub close : Stack → M (ProtocolHandle W) ℤ
  close s h = close_of h.proto s.frame h

  abbrev pub getopt_of : ProtocolKind → ℕ → ℕ → M (ProtocolHandle W) GetOpt
  getopt_of tcl optname optlen = λ h. ok (Connect.getopt h.th optname optlen) h
  getopt_of mifare_ul optname optlen = MifareUltralight.getopt rdr optname optlen
  getopt_of mifare_classic optname optlen = Pages.getopt rdr optname optlen
  getopt_of tagit optname optlen = Tagit.getopt rdr optname optlen

  -- `rfid_protocol_getopt`
  unfoldable pub getopt : ℕ → ℕ → M (ProtocolHandle W) GetOpt
  getopt optname optlen h =
      if optname >>> 16 == 0
      then ok (got neg_einval nothing optlen) h
      else getopt_of h.proto optname optlen h

  -- `rfid_protocol_setopt`: T=CL's `tcl_setopt` knows no option, and the others have none.
  unfoldable pub setopt : ℕ → M (ProtocolHandle W) ℤ
  setopt optname = pure neg_einval
