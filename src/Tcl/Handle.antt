-- ===== src/Tcl/Handle.antt =====
-- `struct tcl_handle` and the part of `struct rfid_protocol_handle` that T=CL uses, from the headers
-- include/librfid/rfid_protocol_tcl.h and include/librfid/rfid_protocol.h.
use librfid.Prelude.{ℕ, List, Option}
use librfid.Control.{M, ok, put_back}
use librfid.Layer2.Handle.{Layer2Handle}

-- `enum tcl_pcd_state`
pub data TclState : Type 0 where
  none_yet initial rats_sent ats_rcvd pps_sent established deselect_sent deselected : TclState

-- `struct tcl_handle`. `historical_bytes`, a pointer into `ats`, is the index that it points to.
-- `ats` has 256 bytes.
pub record TclHandle : Type 0 where
  pub historical_bytes : Option ℕ
  pub historical_len : ℕ
  pub fsc : ℕ
  pub fsd : ℕ
  pub fwt : ℕ
  pub ta : ℕ
  pub sfgt : ℕ
  pub cid : ℕ
  pub nad : ℕ
  pub flags : ℕ
  pub state : TclState
  pub toggle : ℕ
  pub ats_len : ℕ
  pub ats : List ℕ

-- Which `struct rfid_protocol` a handle points to.
pub data ProtocolKind : Type 0 where
  tcl mifare_ul mifare_classic tagit : ProtocolKind

-- `struct rfid_protocol_handle`; the handle of the second layer is reached through it alone.
pub record ProtocolHandle (W : Type 0) : Type 0 where
  pub l2h : Layer2Handle W
  pub proto : ProtocolKind
  pub th : TclHandle

module _ {W : Type 0} where
  -- A call of the second layer.
  abbrev pub on_l2 : {A : Type 0} → M (Layer2Handle W) A → M (ProtocolHandle W) A
  on_l2 m h = put_back (λ h' l2h. record h' { l2h = l2h }) (m h.l2h) h

  abbrev pub modify_th : (TclHandle → TclHandle) → M (ProtocolHandle W) (Unit {0})
  modify_th f h = ok tt (record h { th = f h.th })

-- `enum tcl_handle_flags`
abbrev pub nad_supported : ℕ
nad_supported = 0x0001

abbrev pub cid_supported : ℕ
cid_supported = 0x0002

abbrev pub nad_used : ℕ
nad_used = 0x0010

abbrev pub cid_used : ℕ
cid_used = 0x0020

-- `enum tcl_pcb_bits`
abbrev pub cid_following : ℕ
cid_following = 0x08

abbrev pub nad_following : ℕ
nad_following = 0x04
