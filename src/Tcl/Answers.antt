-- ===== src/Tcl/Answers.antt =====
-- What `tcl_transceive` makes of the card's answers.
use librfid.Layer2.Dispatch as Layer2
use librfid.Prelude.{
  ap, ◌∙◌, ℕ, suc, pos, ◌+◌, ◌*◌, ◌≤◌, ◌<◌, ◌≡◌, refl, List, [], ◌∷◌, ◌++◌, take, drop, length,
  true, false, test, if◌then◌else◌, ◌==◌, arith, ◌⊎◌, u32, take-length, take-append, holds_below,
  holds_below_at, overlay, take-overlay, bit_and, store_front,
}
use librfid.Control.{ok}
use librfid.Reader.{Reader}
use librfid.Layer2.Handle.{Layer2Handle}
use librfid.Layer2.Laws.{exchange, transceive-exchange}
use librfid.Tcl.Handle.{TclHandle, ProtocolHandle, cid_used, nad_used}
use librfid.Tcl.Prologue.{build_prologue2, build_prologue_i, build_prologue_s, prlg_len}
use librfid.Tcl.Exchange.{
  Io, out, send, payload_len, refill_xcvb, fill_xcvb_wtxm, on_reply, on_i_block, on_s_block, run,
  start, transmit, transceive, max_framelen, l2_to_frame,
}

inf_table : holds_below 60 (λ x. bit_and x 0x3f == x) ≡ true
unfolding holds_below
inf_table = refl

bit_and_inf : (inf : ℕ) → inf < 60 → bit_and inf 0x3f ≡ inf
bit_and_inf inf h = ground (arith, holds_below_at 60 _ inf inf_table h)

-- With no card identifier in use, a request for more time by a factor from 1 to 59 is answered with
-- a block that repeats the factor. The next answer is awaited for the factor times the frame
-- waiting time, in 32 bits, and the handle with its toggle stays as it is.
pub on_reply_wtx :
    (n inf : ℕ) (rest junk : List ℕ) (a b : ℕ) (io : Io)
    → test io.th.flags cid_used ≡ false
    → io.tx_data ≡ a ∷ b ∷ junk
    → 0 < inf
    → inf < 60
    → (io' : Io) × (on_reply (record { ret = pos n; bytes = 0xf2 ∷ inf ∷ rest; rx_len = 2 }) io
        ≡ send io')
      × (take io'.tx_frame_len io'.tx_data ≡ 0xf2 ∷ inf ∷ [])
      × (io'.timeout ≡ u32 (io.th.fwt * inf))
      × (io'.th ≡ io.th)
unfolding on_reply on_s_block fill_xcvb_wtxm build_prologue_s build_prologue2
on_reply_wtx n inf rest junk a b io no_cid whole some_time bounded = (
  fill_xcvb_wtxm inf (record io { rx_data = store_front (0xf2 ∷ inf ∷ rest) io.rx_data }),
  ground (arith, bit_and_inf inf bounded),
  ground arith,
  ground arith,
  ground arith,
)

-- The first byte of an I-block that neither ends nor begins a chain, for a toggle
abbrev pub i_block : ℕ → ℕ
i_block toggle = if toggle == 0 then 0x02 else 0x03

abbrev pub flip : ℕ → ℕ
flip toggle = if toggle == 0 then 1 else 0

pub flip_binary : (toggle : ℕ) → (flip toggle ≡ 0) ⊎ (flip toggle ≡ 1)
flip_binary toggle = ground arith

-- For a toggle of 0 or 1, an I-block that bears the other one ends the exchange with the result of
-- the transmission, which is not negative, and delivers none of its bytes.
pub on_reply_stale :
    (n rx_len : ℕ) (payload : List ℕ) (io : Io)
    → (io.th.toggle ≡ 0) ⊎ (io.th.toggle ≡ 1)
    → (io' : Io) × (on_reply
          (record { ret = pos n; bytes = i_block (flip io.th.toggle) ∷ payload; rx_len = rx_len })
          io
        ≡ out (pos n) io')
      × (io'.received ≡ io.received)
unfolding on_reply on_i_block
on_reply_stale n rx_len payload io binary = (
  record io { rx_data = store_front (i_block (flip io.th.toggle) ∷ payload) io.rx_data },
  ground arith,
  refl,
)

-- The buffers after an answer in one block.
abbrev pub delivered : List ℕ → Io → Io
delivered payload io = record io {
  rx_data = store_front (i_block io.th.toggle ∷ payload) io.rx_data;
  received = io.received ++ payload;
}

-- What an answer in one block with the reader's toggle does.
pub on_reply_last :
    (n : ℕ) (payload : List ℕ) (io : Io)
    → (io.th.toggle ≡ 0) ⊎ (io.th.toggle ≡ 1)
    → length io.received + length payload ≤ io.rx_len
    → on_reply
        (record {
          ret = pos n;
          bytes = i_block io.th.toggle ∷ payload;
          rx_len = suc (length payload);
        })
        io
      ≡ out (pos n) (delivered payload io)
unfolding on_reply on_i_block
on_reply_last n payload io binary fits =
    ground (arith, take-append payload (drop (suc (length payload)) io.rx_data))

-- The context after the first frame, which holds all the data, has been filled.
abbrev sent : TclHandle → List ℕ → List ℕ → ℕ → Io
sent th junk tx rx_len = record {
  th = record th { toggle = flip th.toggle };
  tx_data = i_block (flip th.toggle) ∷ overlay tx junk;
  tx_frame_len = suc (length tx);
  timeout = th.fwt;
  rx_data = [];
  tx = tx;
  next_tx = length tx;
  received = [];
  rx_len = rx_len;
}

module _ {W : Type 0} (rdr : Reader W) where
  refill_start :
      (th : TclHandle) (a : ℕ) (junk tx : List ℕ) (rx_len : ℕ)
      → test th.flags cid_used ≡ false
      → test th.flags nad_used ≡ false
      → 0 < length tx
      → length tx < th.fsc
      → th.fsc ≤ max_framelen
      → refill_xcvb (start rdr th (a ∷ junk) tx rx_len) ≡ send (sent th junk tx rx_len)
  unfolding refill_xcvb start build_prologue_i build_prologue2 payload_len prlg_len
  refill_start th a junk tx rx_len no_cid no_nad some_data short small =
      ground (arith, take-length tx)

  transmit-sent :
      (th : TclHandle) (junk tx : List ℕ) (rx_len : ℕ) (l2h : Layer2Handle W)
      → length tx ≤ length junk
      → transmit rdr (sent th junk tx rx_len) l2h ≡ (
          let (r, w) =
            exchange rdr l2h.l2
              (l2_to_frame l2h.l2)
              (i_block (flip th.toggle) ∷ tx)
              max_framelen
              th.fwt
              0
              l2h.world in
          ok r (record l2h { world = w }))
  unfolding transmit
  transmit-sent th junk tx rx_len l2h fits =
      ap
        (λ d.
          Layer2.transceive rdr (l2_to_frame l2h.l2) (i_block (flip th.toggle) ∷ d) max_framelen
            th.fwt 0 l2h)
        (take-overlay tx junk fits)
      ∙ transceive-exchange rdr (l2_to_frame l2h.l2) (i_block (flip th.toggle) ∷ tx) max_framelen
          th.fwt 0 l2h

  -- Data of at least one byte that fits one frame of at most 256 bytes, with neither a card
  -- identifier nor a node address in use, is sent in one block with the changed toggle. If the card
  -- answers it with a block of the same PCB whose payload fits the caller's buffer, then three
  -- steps of the machine are enough: the call returns the result of the transmission and the
  -- payload, and leaves the toggle changed.
  pub transceive_single :
      (fuel n : ℕ) (a : ℕ) (junk tx payload : List ℕ) (rx_len : ℕ) (w : W) (h : ProtocolHandle W)
      → test h.th.flags cid_used ≡ false
      → test h.th.flags nad_used ≡ false
      → 0 < length tx
      → length tx < h.th.fsc
      → h.th.fsc ≤ max_framelen
      → length junk ≡ 255
      → length payload ≤ rx_len
      → exchange rdr h.l2h.l2
          (l2_to_frame h.l2h.l2)
          (i_block (flip h.th.toggle) ∷ tx)
          max_framelen
          h.th.fwt
          0
          h.l2h.world
        ≡ (
          record {
            ret = pos n;
            bytes = i_block (flip h.th.toggle) ∷ payload;
            rx_len = suc (length payload);
          },
          w,
        )
      → transceive rdr (suc (suc (suc fuel))) (a ∷ junk) tx rx_len h
        ≡ ok
            (record { ret = pos n; rx_data = payload })
            (record h {
              l2h = record (h.l2h) { world = w };
              th = record (h.th) { toggle = flip h.th.toggle };
            })
  unfolding transceive run
  transceive_single fuel n a junk tx payload rx_len w h no_cid no_nad some_data short small whole
        fits answer =
      rw (
        transceive,
        run,
        refill_start h.th a junk tx rx_len no_cid no_nad some_data short small,
        transmit-sent h.th junk tx rx_len h.l2h (omega arith),
        answer,
        on_reply_last n payload (sent h.th junk tx rx_len) (flip_binary h.th.toggle) (omega arith),
      )
