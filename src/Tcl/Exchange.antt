-- ===== src/Tcl/Exchange.antt =====
-- `tcl_transceive`: the exchange of blocks, as a machine that takes one step for each pass over one of
-- the labels `tx_refill` and `do_tx`.
use librfid.Prelude.{
  ℕ, zero, suc, ℤ, minus_one, is_neg, ◌+◌, ◌-◌, ◌*◌, ◌^◌, Option, none, some, List, [], ◌++◌,
  length, take, drop, get_elem?, get_or, set, overlay_at, store_front, Bool, true, false, ◌||◌,
  ◌&&◌, not, ltb, leb, ◌==◌, bit_and, bit_or, test, if◌then◌else◌, u32,
}
use librfid.Control.{M, Run, ok, returned, fault, out_of_fuel}
use librfid.Reader.{Reader, Reply, FrameType, frame_14443a_regular, frame_14443b_regular}
use librfid.Layer2.Handle.{Layer2Handle, Layer2Kind, iso14443a, iso14443b, iso15693}
use librfid.Layer2.Dispatch as Layer2
use librfid.Tcl.Handle.{TclHandle, ProtocolHandle, cid_following, nad_following}
use librfid.Tcl.Prologue.{
  build_prologue_i, build_prologue_r, build_prologue_s, prlg_len, is_r_block, is_s_block,
  is_i_block,
}

-- `l2_to_frame`
abbrev pub l2_to_frame : Layer2Kind → FrameType
l2_to_frame iso14443a = frame_14443a_regular
l2_to_frame iso14443b = frame_14443b_regular
l2_to_frame iso15693 = frame_14443a_regular

-- `RFID_MAX_FRAMELEN`
abbrev pub max_framelen : ℕ
max_framelen = 256

-- `struct rfid_xcvb` and `struct tcl_tx_context`, with the handle. `tx` is the caller's data and
-- `next_tx` the index of `next_tx_byte`; `received` is what stands before `next_rx_byte`, in a
-- buffer of `rx_len` bytes. `rx_data` is the initialised part of the buffer.
pub record Io : Type 0 where
  pub th : TclHandle
  pub tx_data : List ℕ
  pub tx_frame_len : ℕ
  pub timeout : ℕ
  pub rx_data : List ℕ
  pub tx : List ℕ
  pub next_tx : ℕ
  pub received : List ℕ
  pub rx_len : ℕ

-- Where the code goes next: to the label `out` with the value of `ret`, to `tx_refill`, to `do_tx`;
-- or it is undefined.
pub data Next : Type 0 where
  out : ℤ → Io → Next
  refill : Io → Next
  send : Io → Next
  undefined : Next

-- The number of bytes of the next frame's payload, in `unsigned int` arithmetic.
unfoldable pub payload_len : TclHandle → ℕ → ℕ → ℕ
payload_len th hdr_len todo =
    if ltb (u32 (th.fsc + 2 ^ 32 - hdr_len)) todo then u32 (th.fsc + 2 ^ 32 - prlg_len th) else todo

-- `tcl_refill_xcvb`, with the `goto out` that follows its failure. A payload that does not fit the
-- buffer is written behind its end.
unfoldable pub refill_xcvb : Io → Next
unfolding build_prologue_i payload_len prlg_len
refill_xcvb io =
    if leb (length io.tx) io.next_tx
    then out minus_one io
    else (let p = build_prologue_i io.th io.tx_data in
        let n = payload_len p.th p.len (length io.tx - io.next_tx) in
        let filled = overlay_at p.len (take n (drop io.next_tx io.tx)) p.buf in
        let next = io.next_tx + n in
        let chained =
          if ltb next (length io.tx)
          then set filled 0 (bit_or (get_or filled 0 0) 0x10)
          else filled in
        if ltb max_framelen (p.len + n)
        then undefined
        else send (record io {
          th = p.th;
          tx_data = chained;
          tx_frame_len = n + p.len;
          next_tx = next;
          timeout = p.th.fwt;
        }))

-- `fill_xcvb_wtxm`
unfoldable pub fill_xcvb_wtxm : ℕ → Io → Io
unfolding build_prologue_s
fill_xcvb_wtxm inf io =
    let p = build_prologue_s io.th io.tx_data in
    record io {
      th = p.th;
      tx_data = set (set p.buf 0 (bit_or (get_or p.buf 0 0) 0x30)) p.len inf;
      tx_frame_len = p.len + 1;
      timeout = u32 (p.th.fwt * inf);
    }

-- `check_cid`; `none` is a read of a byte that was never received.
unfoldable pub check_cid : Io → ℕ → Option Bool
check_cid io pcb =
    if test pcb cid_following
    then elim (get_elem? io.rx_data 1) [ none ↦ none | some cid ↦ some (cid == io.th.cid) ]
    else some true

-- The case of an R-block.
unfoldable pub on_r_block : ℤ → ℕ → Io → Next
unfolding check_cid
on_r_block ret pcb io =
    if not (bit_and pcb 0x01 == io.th.toggle) then out ret io else elim (check_cid io pcb) [
      | none ↦ undefined
      | some same ↦ if same then refill io else out ret io
    ]

-- The case of an S-block: only a request for more time is answered. `n` is the length received.
unfoldable pub on_s_block : ℤ → ℕ → ℕ → Io → Next
unfolding check_cid fill_xcvb_wtxm
on_s_block ret pcb n io = elim (check_cid io pcb) [
  | none ↦ undefined
  | some false ↦ out ret io
  | some true ↦
      if test pcb cid_following && ltb n 3
      then out minus_one io
      else elim (get_elem? io.rx_data (if test pcb cid_following then 2 else 1)) [
        | none ↦ undefined
        | some byte ↦
            let inf = bit_and byte 0x3f in
            if not (bit_and pcb 0x30 == 0x30)
            then out minus_one io
            else if inf == 0 || leb 60 inf
            then out minus_one io
            else send (fill_xcvb_wtxm inf io)
      ]
]

-- The length of the header of a received I-block.
abbrev pub rx_hdr_len : ℕ → ℕ
rx_hdr_len pcb =
    1 + (if test pcb cid_following then 1 else 0) + (if test pcb nad_following then 1 else 0)

-- The acknowledgement of a chained block.
unfoldable pub acknowledge : Io → Io
unfolding build_prologue_r
acknowledge io =
    let p = build_prologue_r io.th io.tx_data 0 in
    record io { th = p.th; tx_data = p.buf; tx_frame_len = p.len; timeout = p.th.fwt }

-- The case of an I-block. A payload of negative length, or one that does not fit the caller's buffer,
-- is copied over other memory.
unfoldable pub on_i_block : ℤ → ℕ → ℕ → Io → Next
unfolding check_cid acknowledge
on_i_block ret pcb n io =
    if not (bit_and pcb 0x01 == io.th.toggle) then out ret io else elim (check_cid io pcb) [
      | none ↦ undefined
      | some false ↦ out ret io
      | some true ↦
          if ltb n (rx_hdr_len pcb) || ltb io.rx_len (length io.received + (n - rx_hdr_len pcb))
          then undefined
          else (let io' = record io {
            received = io.received ++ take (n - rx_hdr_len pcb) (drop (rx_hdr_len pcb) io.rx_data);
          } in
              if test pcb 0x10 then send (acknowledge io') else out ret io')
    ]

-- What follows the transmission: the dispatch on the kind of the block.
unfoldable pub on_reply : Reply → Io → Next
unfolding on_r_block on_s_block on_i_block
on_reply r io =
    let io' = record io { rx_data = store_front r.bytes io.rx_data } in
    if is_neg r.ret then out r.ret io' else elim (get_elem? io'.rx_data 0) [
      | none ↦ undefined
      | some pcb ↦
          if is_r_block pcb
          then on_r_block r.ret pcb io'
          else if is_s_block pcb
          then on_s_block r.ret pcb r.rx_len io'
          else if is_i_block pcb
          then on_i_block r.ret pcb r.rx_len io'
          else out r.ret io'
    ]

-- What `tcl_transceive` gives back: its result and the bytes in the caller's buffer, whose number is
-- stored in `*rx_len`.
pub record Answer : Type 0 where
  pub ret : ℤ
  pub rx_data : List ℕ

module _ {W : Type 0} (rdr : Reader W) where
  -- One transmission, from the label `do_tx` on.
  unfoldable pub transmit : Io → Layer2Handle W → Run (Layer2Handle W) Reply
  transmit io l2h =
      Layer2.transceive rdr (l2_to_frame l2h.l2) (take io.tx_frame_len io.tx_data) max_framelen
        io.timeout 0 l2h

  -- The machine, for `fuel` steps.
  unfoldable pub run : ℕ → Next → Layer2Handle W → Run (Layer2Handle W) (ℤ × Io)
  run zero (out ret io) l2h = ok (ret, io) l2h
  run zero undefined l2h = fault
  run zero _ l2h = out_of_fuel
  run (suc fuel) (out ret io) l2h = ok (ret, io) l2h
  run (suc fuel) undefined l2h = fault
  run (suc fuel) (refill io) l2h = run fuel (refill_xcvb io) l2h
  run (suc fuel) (send io) l2h = elim (transmit io l2h) [
    | ok r l2h' ↦ run fuel (on_reply r io) l2h'
    | returned ret l2h' ↦ returned ret l2h'
    | fault ↦ fault
    | out_of_fuel ↦ out_of_fuel
  ]

  -- The start of `tcl_transceive`; `junk` is what the 256 bytes of `xcvb.tx.data` hold.
  unfoldable pub start : TclHandle → List ℕ → List ℕ → ℕ → Io
  start th junk tx rx_len = record {
    th = th;
    tx_data = junk;
    tx_frame_len = 0;
    timeout = th.fwt;
    rx_data = [];
    tx = tx;
    next_tx = 0;
    received = [];
    rx_len = rx_len;
  }

  -- `tcl_transceive`
  unfoldable pub transceive : ℕ → List ℕ → List ℕ → ℕ → M (ProtocolHandle W) Answer
  unfolding run start
  transceive fuel junk tx rx_len h = elim (run fuel (refill (start h.th junk tx rx_len)) h.l2h) [
    | ok (ret, io) l2h ↦
        ok (record { ret = ret; rx_data = io.received }) (record h { l2h = l2h; th = io.th })
    | returned ret l2h ↦ returned ret (record h { l2h = l2h })
    | fault ↦ fault
    | out_of_fuel ↦ out_of_fuel
  ]
