-- ===== src/MifareClassic/Laws.antt =====
-- Sectors and blocks, and what reading and writing a page does.
use librfid.Prelude.{
  bit_and_byte, min_of_lt, take-length, store_front, get_elem?, [], ◌∷◌, ◌==◌, ◌&&◌, ℕ, pos,
  neg_einval, neg_eperm, is_neg, ◌+◌, ◌-◌, ◌*◌, ◌≤◌, ◌<◌, ◌≡◌, ◌≢◌, some, List, take, length,
  length-take, get_or, arith, if◌then◌else◌, ltb, false, ◌⊎◌, min,
}
use librfid.Control.{ok}
use librfid.Reader.{Reader, Reply, frame_mifare}
use librfid.Layer2.Laws.{IsWithin, IsBounded, exchange, transceive-exchange, exchange-IsWithin}
use librfid.Tcl.Handle.{ProtocolHandle}
use librfid.MifareClassic.Sectors.{block2sector, sector2block, sector_blocks}
use librfid.MifareClassic.Pages.{
  PageRead, finish_read, read_page, write_page, page_max, no_page, resp_ack,
}

-- For the sectors 0 to 34, a sector's first block and its number of blocks make up the first block
-- of the next sector.
pub sector2block_suc :
    (sector : ℕ)
    → sector < 35
    → (first : ℕ) × (blocks : ℕ) × (sector2block sector ≡ pos first)
      × (sector_blocks sector ≡ pos blocks)
      × (sector2block (sector + 1) ≡ pos (first + blocks))
unfolding sector2block sector_blocks
sector2block_suc sector h = (
  (if ltb sector 32 then sector * 4 else 128 + (sector - 32) * 16),
  (if ltb sector 32 then 4 else 16),
  ground arith,
  ground arith,
  ground arith,
)

-- Every block of the sectors 0 to 31 is found in its sector, and every block of the sectors 32 to
-- 35 is taken to lie in the sector whose number is less by 32.
pub block2sector-sector2block :
    (sector first blocks i : ℕ)
    → sector2block sector ≡ pos first
    → sector_blocks sector ≡ pos blocks
    → i < blocks
    → block2sector (first + i) ≡ (if ltb sector 32 then sector else sector - 32)
unfolding sector2block sector_blocks block2sector
block2sector-sector2block sector first blocks i hf hb hi = ground arith

-- What a read makes of an answer: the error of the transmission, -EPERM for the single byte 4 of a
-- card that the key did not open, or else the answer cut to the room that the caller has.
unfoldable pub delivered : Reply → ℕ → PageRead
delivered r rx_len =
    if is_neg r.ret
    then no_page r.ret rx_len
    else if r.rx_len == 1 && get_or r.bytes 0 0 == 4
    then no_page neg_eperm rx_len
    else record {
      ret = r.ret;
      rx_data = take (min r.rx_len rx_len) r.bytes;
      rx_len = min r.rx_len rx_len;
    }

finish_read-delivered :
    (r : Reply) (rx_len : ℕ) → IsWithin 16 r → finish_read r rx_len ≡ some (delivered r rx_len)
unfolding finish_read delivered
finish_read-delivered r rx_len h = ground (arith, min_of_lt r.rx_len rx_len)

length-delivered : (r : Reply) (rx_len : ℕ) → length (delivered r rx_len).rx_data ≤ rx_len
unfolding delivered
length-delivered r rx_len = ground (arith, length-take (min r.rx_len rx_len) r.bytes)

module _ {W : Type 0} (rdr : Reader W) where
  -- Behind a reader that keeps to the room it is given, reading one of the pages 0 to 255 sends the
  -- read command with the page's number, is never undefined, and gives the caller what the answer
  -- says: its error, -EPERM for the single byte 4, or its bytes cut to the caller's room.
  pub read_page_lem :
      (page rx_len : ℕ) (h : ProtocolHandle W)
      → IsBounded rdr
      → page ≤ page_max
      → let (r, w) = exchange rdr h.l2h.l2 frame_mifare (0x30 ∷ page ∷ []) 16 250 0 h.l2h.world in
        (read_page rdr page rx_len h
          ≡ ok (delivered r rx_len) (record h { l2h = record (h.l2h) { world = w } }))
        × (length (delivered r rx_len).rx_data ≤ rx_len)
  unfolding read_page
  read_page_lem page rx_len h b small =
      let e = exchange rdr h.l2h.l2 frame_mifare (0x30 ∷ page ∷ []) 16 250 0 h.l2h.world in
      let bounded =
        exchange-IsWithin rdr h.l2h.l2 frame_mifare (0x30 ∷ page ∷ []) 16 250 0 h.l2h.world b in
      (
        rw (bit_and_byte page (omega arith), transceive-exchange rdr)
            (ground (arith, finish_read-delivered e.0 rx_len bounded)),
        length-delivered e.0 rx_len,
      )

  -- A page number above 255 or a length other than 16 is refused with -EINVAL before anything is
  -- sent.
  pub write_page_refuses :
      (page : ℕ) (tx : List ℕ) (tx_len : ℕ) (h : ProtocolHandle W)
      → (page_max < page) ⊎ (tx_len ≢ 16)
      → write_page rdr page tx tx_len h ≡ ok neg_einval h
  unfolding write_page
  write_page_refuses page tx tx_len h bad = ground arith

  -- If writing 16 bytes to one of the pages 0 to 255 returns a result that is not negative, then
  -- the command with the page's number and after it the 16 bytes were sent, both transmissions
  -- succeeded, and the first byte of the answer is the acknowledgement.
  pub write_page_acknowledged :
      (page : ℕ) (tx : List ℕ) (n : ℕ) (h h' : ProtocolHandle W)
      → page ≤ page_max
      → length tx ≡ 16
      → write_page rdr page tx 16 h ≡ ok (pos n) h'
      → let (r, w) = exchange rdr h.l2h.l2 frame_mifare (0xa0 ∷ page ∷ []) 1 600 0 h.l2h.world in
        let (r', w') = exchange rdr h.l2h.l2 frame_mifare tx r.rx_len 600 0 w in
        (is_neg r.ret ≡ false)
        × (r'.ret ≡ pos n)
        × (get_elem? (store_front r'.bytes r.bytes) 0 ≡ some resp_ack)
        × (h' ≡ record h { l2h = record (h.l2h) { world = w' } })
  unfolding write_page
  write_page_acknowledged page tx n h h' small sixteen e =
      let (r, w) = exchange rdr h.l2h.l2 frame_mifare (0xa0 ∷ page ∷ []) 1 600 0 h.l2h.world in
      ground (
        arith,
        bit_and_byte page,
        take-length tx,
        transceive-exchange rdr frame_mifare (0xa0 ∷ page ∷ []) 1 600 0 h.l2h,
        transceive-exchange rdr frame_mifare tx r.rx_len 600 0 (record (h.l2h) { world = w }),
      )
