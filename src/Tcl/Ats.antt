-- ===== src/Tcl/Ats.antt =====
-- `tcl_parse_ats`, `tcl_request_ats` and the waiting times.
use librfid.Prelude.{
  ℕ, ℤ, pos, minus_one, is_neg, ◌+◌, ◌-◌, ◌*◌, ◌/◌, ◌^◌, Option, none, some, List, [], ◌∷◌, overlay,
  Bool, true, false, ◌||◌, ltb, ◌==◌, bit_and, bit_or, ◌<<<◌, ◌>>>◌, test, if◌then◌else◌, u8, u32,
}
use librfid.Control.{M, fault, ◌>>=◌, ◌>>◌, pure, leave, leave_if, leave_neg, get, call, read}
use librfid.Reader.{Reader, frame_14443a_regular}
use librfid.FrameSize.{stored, refused, past_end, fsdi_to_fsd, fsd_to_fsdi}
use librfid.Layer2.Handle.{Layer2Kind, iso14443a, iso14443b, iso15693}
use librfid.Layer2.Dispatch as Layer2
use librfid.Tcl.Handle.{
  TclState, initial, rats_sent, ats_rcvd, TclHandle, ProtocolHandle, on_l2, modify_th,
  nad_supported, cid_supported,
}

-- `sfgi_to_sfgt` and `fwi_to_fwt`, which have one text, at the carrier frequency `fc`
unfoldable pub fwi_to_fwt : ℕ → ℕ → ℕ
fwi_to_fwt fc fwi = u32 (1000000 * 256 * 16 / fc * 2 ^ (if ltb 14 fwi then 14 else fwi))

-- `activation_fwt`
abbrev pub activation_fwt : ℕ → ℕ
activation_fwt fc = 1000000 * 65536 / fc

abbrev pub is_type_a : Layer2Kind → Bool
is_type_a iso14443a = true
is_type_a iso14443b = false
is_type_a iso15693 = false

-- The defaults for an answer of one byte. `sfgt` is an `unsigned char`.
abbrev pub default_ats : ℕ → Bool → TclHandle → TclHandle
default_ats fc type_a th = record th {
  fsc = 32;
  ta = 0x80;
  sfgt = u8 (fwi_to_fwt fc 0);
  fwt = if type_a then fwi_to_fwt fc 4 else th.fwt;
}

-- The interface bytes TA, TB and TC in turn: each is at the index `cur` if its bit of T0 is set, and
-- `cur` goes on by one.
abbrev pub after : ℕ → ℕ → ℕ → ℕ
after t0 mask cur = if test t0 mask then cur + 1 else cur

abbrev pub parse_ta : ℕ → ℕ → TclHandle → TclHandle
parse_ta t0 byte th = if test t0 0x10 then record th { ta = byte } else th

abbrev pub parse_tb : ℕ → ℕ → ℕ → TclHandle → TclHandle
parse_tb fc t0 byte th =
    if test t0 0x20
    then record th {
      sfgt = u8 (fwi_to_fwt fc (bit_and byte 0x0f));
      fwt = fwi_to_fwt fc (bit_and byte 0xf0 >>> 4);
    }
    else th

abbrev pub parse_tc : ℕ → ℕ → TclHandle → TclHandle
parse_tc t0 byte th =
    if test t0 0x40
    then (let flags = if test byte 0x01 then bit_or th.flags nad_supported else th.flags in
        record th { flags = if test byte 0x02 then bit_or flags cid_supported else flags })
    else th

-- The index behind the interface bytes.
abbrev pub behind_interface : ℕ → ℕ
behind_interface t0 = after t0 0x40 (after t0 0x20 (after t0 0x10 2))

-- `iso14443_fsdi_to_fsd(&h->priv.tcl.fsc, t0 & 0x0f)`, its result ignored, and the cut to `mtu`
unfoldable pub set_fsc : ℕ → ℕ → TclHandle → Option TclHandle
set_fsc mtu t0 th = elim (fsdi_to_fsd (bit_and t0 0x0f)) [
  | stored fsd ↦ some (record th { fsc = if ltb mtu fsd then mtu else fsd })
  | refused ↦ some (record th { fsc = if ltb mtu th.fsc then mtu else th.fsc })
  | past_end ↦ none
]

module _ {W : Type 0} (rdr : Reader W) where
  -- The interface bytes are read ahead, within the 256 bytes of `ats`.
  -- What `tcl_parse_ats` does with an answer of at least two bytes, of which `len` count.
  unfoldable pub parse_interface : List ℕ → ℕ → M (ProtocolHandle W) ℤ
  unfolding set_fsc
  parse_interface ats len = do
    t0 ← read ats 1
    ta ← read ats 2
    tb ← read ats (after t0 0x10 2)
    tc ← read ats (after t0 0x20 (after t0 0x10 2))
    h ← get
    elim (set_fsc rdr.mtu t0 h.th) [
      | none ↦ (λ s. fault)
      | some th ↦ modify_th (λ _. parse_tc t0 tc (parse_tb rdr.fc t0 tb (parse_ta t0 ta th)))
    ]
    modify_th (λ th. record th {
      historical_len = u32 (len + 2 ^ 32 - behind_interface t0);
      historical_bytes = some (behind_interface t0);
    })
    pure (pos 0)

  -- `tcl_parse_ats`
  unfoldable pub parse_ats : List ℕ → ℕ → M (ProtocolHandle W) ℤ
  unfolding parse_interface
  parse_ats ats size = call (do
    ats_0 ← read ats 0
    leave_if (ats_0 == 0 || size == 0) minus_one
    let len = if ltb size ats_0 then u8 size else ats_0
    modify_th (λ th. record th { ta = 0 })
    h ← get
    if len == 1
        then modify_th (default_ats rdr.fc (is_type_a h.l2h.l2)) >> pure (pos 0)
        else parse_interface ats len)

  abbrev is_initial : TclState → Bool
  is_initial initial = true
  is_initial _ = false

  -- `tcl_request_ats`
  unfoldable pub request_ats : M (ProtocolHandle W) ℤ
  unfolding parse_ats
  request_ats = call (do
    h ← get
    if is_initial h.th.state then pure tt else leave minus_one
    fsdi ← elim (fsd_to_fsdi h.th.fsd) [ stored i ↦ pure i | _ ↦ leave minus_one ]
    let rats = 0xe0 ∷ bit_or (bit_and h.th.cid 0x0f) (bit_and (fsdi <<< 4) 0xf0) ∷ []
    r ←
        on_l2
          (Layer2.transceive rdr frame_14443a_regular rats h.th.ats_len (activation_fwt rdr.fc) 1)
    modify_th (λ th. record th {
      ats = overlay r.bytes th.ats;
      ats_len = r.rx_len;
      state = if is_neg r.ret then rats_sent else ats_rcvd;
    })
    leave_neg r.ret
    h' ← get
    ret ← parse_ats h'.th.ats h'.th.ats_len
    leave_neg ret
    pure (pos 0))
