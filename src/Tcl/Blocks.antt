-- ===== src/Tcl/Blocks.antt =====
-- The blocks that `tcl_transceive` cuts data into, and a card that takes them as ISO 14443-4 asks.
use librfid.Prelude.{
  ℕ, suc, pos, minus_one, ◌+◌, ◌-◌, ◌≤◌, ◌<◌, ◌≡◌, ◌⊎◌, refl, sym, ap, ◌∙◌, List, [], ◌∷◌, ◌++◌,
  take, drop, length, length-take, length-drop, take-length, take-append-drop, overlay, store_front,
  min, false, test, if◌then◌else◌, ◌==◌, arith, bit_and, bit_or, append_assoc, drop-drop,
}
use librfid.Reader.{Reply}
use librfid.Tcl.Handle.{cid_used, nad_used}
use librfid.Tcl.Prologue.{build_prologue2, build_prologue_i, prlg_len}
use librfid.Tcl.Exchange.{
  Io, refill, send, payload_len, refill_xcvb, on_reply, on_r_block, max_framelen,
}
use librfid.Tcl.Answers.{i_block, flip}

-- A card that keeps what it has received of a command. It acknowledges a block of a chain, with the
-- block's toggle, and answers the last block of a command with what it makes of the whole.
abbrev pub card : (List ℕ → List ℕ) → List ℕ → List ℕ → Reply × List ℕ
card respond [] got = (record { ret = minus_one; bytes = []; rx_len = 0 }, got)
card respond (pcb ∷ block) got =
    if test pcb 0x10
    then (
      record { ret = pos 0; bytes = bit_or 0xa2 (bit_and pcb 0x01) ∷ []; rx_len = 1 },
      got ++ block,
    )
    else (
      record {
        ret = pos 0;
        bytes = bit_or 0x02 (bit_and pcb 0x01) ∷ respond (got ++ block);
        rx_len = suc (length (respond (got ++ block)));
      },
      [],
    )

-- The first byte of a block of a chain
abbrev pub chained_block : ℕ → ℕ
chained_block toggle = if toggle == 0 then 0x12 else 0x13

-- The number of bytes that the next block takes, and the block's first byte.
abbrev pub room : Io → ℕ
room io = min (io.th.fsc - 1) (length io.tx - io.next_tx)

abbrev pub chunk : Io → List ℕ
chunk io = take (room io) (drop io.next_tx io.tx)

abbrev pub pcb_of : Io → ℕ
pcb_of io =
    if io.next_tx + room io == length io.tx
    then i_block (flip io.th.toggle)
    else chained_block (flip io.th.toggle)

-- The context with the next block in the buffer, of which `junk` is what stands behind the first byte.
abbrev pub filled : List ℕ → Io → Io
filled junk io = record io {
  th = record (io.th) { toggle = flip io.th.toggle };
  tx_data = pcb_of io ∷ overlay (chunk io) junk;
  tx_frame_len = suc (length (chunk io));
  next_tx = io.next_tx + room io;
  timeout = io.th.fwt;
}

pub length-chunk : (io : Io) → length (chunk io) ≡ room io
length-chunk io =
    omega (arith, length-take (room io) (drop io.next_tx io.tx), length-drop io.next_tx io.tx)

-- What has been sent and what is left make up the data, before a block and after it.
pub rejoin :
    (got : List ℕ) (io : Io)
    → (got ++ chunk io) ++ drop (io.next_tx + room io) io.tx ≡ got ++ drop io.next_tx io.tx
rejoin got io =
    append_assoc got (chunk io) (drop (io.next_tx + room io) io.tx)
    ∙ ap (λ d. got ++ d)
        (ap (λ d. chunk io ++ d)
            (sym (drop-drop (room io) io.next_tx (io.next_tx + room io) io.tx refl))
          ∙ take-append-drop (room io) (drop io.next_tx io.tx))

pub chunk_rest : (io : Io) → io.next_tx + room io ≡ length io.tx → chunk io ≡ drop io.next_tx io.tx
chunk_rest io done =
    let e : room io ≡ length (drop io.next_tx io.tx) =
      omega (arith, length-drop io.next_tx io.tx) in
    ap (λ n. take n (drop io.next_tx io.tx)) e ∙ take-length (drop io.next_tx io.tx)

-- What holds whenever a block is about to be filled.
abbrev pub IsSending : Io → Type 0
IsSending io =
    (test io.th.flags cid_used ≡ false)
    × (test io.th.flags nad_used ≡ false)
    × (1 < io.th.fsc)
    × (io.th.fsc ≤ max_framelen)

pub refill-filled :
    (a : ℕ) (junk : List ℕ) (io : Io)
    → IsSending io
    → io.next_tx < length io.tx
    → refill_xcvb (record io { tx_data = a ∷ junk }) ≡ send (filled junk io)
unfolding refill_xcvb build_prologue_i build_prologue2 payload_len prlg_len
refill-filled a junk io (no_cid, no_nad, large, small) left = ground (arith, length-chunk io)

-- The acknowledgement of a block of a chain leads to the next block.
pub on_reply_ack :
    (io : Io)
    → (io.th.toggle ≡ 0) ⊎ (io.th.toggle ≡ 1)
    → on_reply
        (record {
          ret = pos 0;
          bytes = bit_or 0xa2 (bit_and (chained_block io.th.toggle) 0x01) ∷ [];
          rx_len = 1;
        })
        io
      ≡ refill (record io {
        rx_data =
            store_front (bit_or 0xa2 (bit_and (chained_block io.th.toggle) 0x01) ∷ []) io.rx_data;
      })
unfolding on_reply on_r_block
on_reply_ack io binary = ground arith

abbrev pub ack : ℕ → Reply
ack toggle = record {
  ret = pos 0;
  bytes = bit_or 0xa2 (bit_and (chained_block toggle) 0x01) ∷ [];
  rx_len = 1;
}

abbrev pub last_reply : ℕ → List ℕ → Reply
last_reply toggle payload = record {
  ret = pos 0;
  bytes = i_block toggle ∷ payload;
  rx_len = suc (length payload);
}

pub card_chained :
    (respond : List ℕ → List ℕ) (toggle : ℕ) (block got : List ℕ)
    → card respond (chained_block toggle ∷ block) got ≡ (ack toggle, got ++ block)
card_chained respond toggle block got = ground arith

pub card_last :
    (respond : List ℕ → List ℕ) (toggle : ℕ) (block got : List ℕ)
    → card respond (i_block toggle ∷ block) got ≡ (last_reply toggle (respond (got ++ block)), [])
card_last respond toggle block got = ground arith

pub pcb_last :
    (io : Io) → io.next_tx + room io ≡ length io.tx → pcb_of io ≡ i_block (flip io.th.toggle)
pcb_last io e = ground arith

pub pcb_chained :
    (io : Io) → io.next_tx + room io < length io.tx → pcb_of io ≡ chained_block (flip io.th.toggle)
pcb_chained io e = ground arith

-- The context after the acknowledgement of a block of a chain.
abbrev pub acknowledged : List ℕ → Io → Io
acknowledged junk io = record (filled junk io) {
  rx_data = store_front (ack (flip io.th.toggle)).bytes io.rx_data;
}
