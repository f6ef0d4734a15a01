-- ===== src/Tcl/Delivery.antt =====
-- `tcl_transceive` against a card that takes blocks as ISO 14443-4 asks: the whole exchange, with data
-- of any length cut into chained blocks.
use librfid.Prelude.{
  ℕ, zero, suc, ℤ, pos, ◌+◌, ◌-◌, ◌*◌, ◌≤◌, ◌<◌, ◌≡◌, refl, sym, ap, ◌∙◌, List, [], ◌∷◌, ◌++◌, drop,
  length, take-overlay, overlay, false, test, arith, length-overlay,
}
use native.Mathlib.Decide.{dec_lt}
use librfid.Control.{ok}
use librfid.Reader.{Reader, Reply, FrameType}
use librfid.Layer2.Handle.{Layer2Handle, Layer2Kind}
use librfid.Layer2.Dispatch as Layer2
use librfid.Layer2.Laws.{exchange, transceive-exchange}
use librfid.Tcl.Handle.{ProtocolHandle, cid_used, nad_used}
use librfid.Tcl.Exchange.{
  Io, out, refill, run, start, transmit, transceive, max_framelen, l2_to_frame,
}
use librfid.Tcl.Answers.{i_block, flip, flip_binary, delivered, on_reply_last}
use librfid.Tcl.Blocks.{
  card, chained_block, room, chunk, pcb_of, filled, IsSending, acknowledged, length-chunk, rejoin,
  chunk_rest, refill-filled, on_reply_ack, card_chained, card_last, pcb_last, pcb_chained,
}

module _ (respond : List ℕ → List ℕ) (rdr : Reader (List ℕ)) where
  -- Whatever is sent through the layer, in the field is the card.
  abbrev pub HasCard : Layer2Kind → Type 0
  HasCard kind =
      (frametype : FrameType) (tx : List ℕ) (timeout : ℕ) (got : List ℕ)
      → exchange rdr kind frametype tx max_framelen timeout 0 got ≡ card respond tx got

  transmit-filled :
      (junk : List ℕ) (io : Io) (l2h : Layer2Handle (List ℕ))
      → HasCard l2h.l2
      → length (chunk io) ≤ length junk
      → transmit rdr (filled junk io) l2h ≡ (
          let (r, w) = card respond (pcb_of io ∷ chunk io) l2h.world in
          ok r (record l2h { world = w }))
  unfolding transmit
  transmit-filled junk io l2h has fits =
      ap
        (λ d.
          Layer2.transceive rdr (l2_to_frame l2h.l2) (pcb_of io ∷ d) max_framelen io.th.fwt 0 l2h)
        (take-overlay (chunk io) junk fits)
      ∙ transceive-exchange rdr (l2_to_frame l2h.l2) (pcb_of io ∷ chunk io) max_framelen io.th.fwt 0
          l2h
      ∙ ap (λ (e : Reply × List ℕ). ok e.0 (record l2h { world = e.1 }))
          (has (l2_to_frame l2h.l2) (pcb_of io ∷ chunk io) io.th.fwt l2h.world)

  run_out :
      (fuel : ℕ) (r : ℤ) (io : Io) (l2h : Layer2Handle (List ℕ))
      → run rdr fuel (out r io) l2h ≡ ok (r, io) l2h
  unfolding run
  run_out zero r io l2h = refl
  run_out (suc fuel) r io l2h = refl

  module _ (n a : ℕ) (junk : List ℕ) (io : Io) (l2h : Layer2Handle (List ℕ)) (has : HasCard l2h.l2)
      (sending : IsSending io) (left : io.next_tx < length io.tx)
      (fits : length (chunk io) ≤ length junk) where
    step_chained :
        io.next_tx + room io < length io.tx
        → run rdr (suc (suc n)) (refill (record io { tx_data = a ∷ junk })) l2h
          ≡ run rdr n (refill (acknowledged junk io)) (record l2h { world = l2h.world ++ chunk io })
    unfolding run
    step_chained more =
        rw
          (
            run,
            refill-filled a junk io sending left,
            transmit-filled junk io l2h has fits,
            pcb_chained io more,
            card_chained respond (flip io.th.toggle) (chunk io) l2h.world,
          )
          (ap (λ m. run rdr n m (record l2h { world = l2h.world ++ chunk io }))
            (on_reply_ack
              (record (filled junk io) {
                tx_data = chained_block (flip io.th.toggle) ∷ overlay (chunk io) junk;
              })
              (flip_binary io.th.toggle)))

    step_last :
        io.next_tx + room io ≡ length io.tx
        → length io.received + length (respond (l2h.world ++ chunk io)) ≤ io.rx_len
        → run rdr (suc (suc n)) (refill (record io { tx_data = a ∷ junk })) l2h
          ≡ ok
              (pos 0, delivered (respond (l2h.world ++ chunk io)) (filled junk io))
              (record l2h { world = [] })
    unfolding run
    step_last done whole =
        rw
          (
            run,
            refill-filled a junk io sending left,
            transmit-filled junk io l2h has fits,
            pcb_last io done,
            card_last respond (flip io.th.toggle) (chunk io) l2h.world,
          )
          (ap (λ m. run rdr n m (record l2h { world = [] }))
              (on_reply_last 0 (respond (l2h.world ++ chunk io))
                (record (filled junk io) {
                  tx_data = i_block (flip io.th.toggle) ∷ overlay (chunk io) junk;
                })
                (flip_binary io.th.toggle) whole)
            ∙ run_out n (pos 0) _ (record l2h { world = [] }))

  -- Two steps for each block, and one to end.
  abbrev pub steps : ℕ → ℕ → ℕ
  steps zero extra = extra
  steps (suc blocks) extra = suc (suc (steps blocks extra))

  deliver :
      (blocks extra a : ℕ) (junk : List ℕ) (io : Io) (l2h : Layer2Handle (List ℕ)) (all : List ℕ)
      → HasCard l2h.l2
      → IsSending io
      → io.next_tx < length io.tx
      → length junk ≡ 255
      → length io.tx ≤ io.next_tx + blocks
      → l2h.world ++ drop io.next_tx io.tx ≡ all
      → length io.received + length (respond all) ≤ io.rx_len
      → (io' : Io) × (run rdr (steps blocks extra) (refill (record io { tx_data = a ∷ junk })) l2h
          ≡ ok (pos 0, io') (record l2h { world = [] }))
        × (io'.received ≡ io.received ++ respond all)
  deliver zero extra a junk io l2h all has sending left full enough e whole = absurd (omega arith)
  deliver (suc blocks) extra a junk io l2h all has sending left full enough e whole =
      elim (dec_lt (io.next_tx + room io) (length io.tx)) [
        | yes more ↦
            let (io', ran, got) =
              deliver blocks extra (pcb_of io) (overlay (chunk io) junk) (acknowledged junk io)
                (record l2h { world = l2h.world ++ chunk io }) all has sending more
                (omega (arith, length-overlay (chunk io) junk)) (omega arith)
                (rejoin l2h.world io ∙ e) whole in
            (
              io',
              step_chained (steps blocks extra) a junk io l2h has sending left
                    (omega (arith, length-chunk io)) more
                  ∙ ran,
              got,
            )
        | no last ↦
            let done : io.next_tx + room io ≡ length io.tx = omega arith in
            let q : l2h.world ++ chunk io ≡ all =
              ap (λ d. l2h.world ++ d) (chunk_rest io done) ∙ e in
            (
              delivered (respond all) (filled junk io),
              step_last (steps blocks extra) a junk io l2h has sending left
                    (omega (arith, length-chunk io)) done (rw q whole)
                  ∙ ap
                      (λ d.
                        ok (pos 0, delivered (respond d) (filled junk io))
                          (record l2h { world = [] }))
                      q,
              refl,
            )
      ]

  steps_lem : (blocks fuel : ℕ) → 2 * blocks ≤ fuel → steps blocks (fuel - 2 * blocks) ≡ fuel
  steps_lem zero fuel enough = omega arith
  steps_lem (suc blocks) zero enough = absurd (omega arith)
  steps_lem (suc blocks) (suc zero) enough = absurd (omega arith)
  steps_lem (suc blocks) (suc (suc fuel)) enough =
      let e : suc (suc fuel) - 2 * suc blocks ≡ fuel - 2 * blocks = omega arith in
      ap (λ x. suc (suc (steps blocks x))) e
      ∙ ap (λ x. suc (suc x)) (steps_lem blocks fuel (omega arith))

  transceive_of_run :
      (fuel rx_len : ℕ) (junk tx : List ℕ) (io' : Io) (l2h' : Layer2Handle (List ℕ))
      → (h : ProtocolHandle (List ℕ))
      → run rdr fuel (refill (start rdr h.th junk tx rx_len)) h.l2h ≡ ok (pos 0, io') l2h'
      → transceive rdr fuel junk tx rx_len h
        ≡ ok (record { ret = pos 0; rx_data = io'.received }) (record h { l2h = l2h'; th = io'.th })
  unfolding transceive
  transceive_of_run fuel rx_len junk tx io' l2h' h ran = rw (transceive, ran)

  -- Let a card be in the field that acknowledges the blocks of a chain and answers a command as a
  -- whole, and let it have received nothing yet. Let neither a card identifier nor a node address be
  -- in use, and the card's frames have 2 to 256 bytes. Then data of any length but 0 reaches the card
  -- whole and in order, whatever number of blocks it takes: with fuel for two steps for each byte the
  -- call returns 0 and exactly the card's answer to the data, if that fits the caller's buffer, and
  -- the card is ready for the next command.
  pub transceive_delivers :
      (fuel a : ℕ) (junk tx : List ℕ) (rx_len : ℕ) (h : ProtocolHandle (List ℕ))
      → HasCard h.l2h.l2
      → h.l2h.world ≡ []
      → test h.th.flags cid_used ≡ false
      → test h.th.flags nad_used ≡ false
      → 1 < h.th.fsc
      → h.th.fsc ≤ max_framelen
      → 0 < length tx
      → length junk ≡ 255
      → 2 * length tx ≤ fuel
      → length (respond tx) ≤ rx_len
      → (h' : ProtocolHandle (List ℕ)) × (transceive rdr fuel (a ∷ junk) tx rx_len h
          ≡ ok (record { ret = pos 0; rx_data = respond tx }) h')
        × (h'.l2h ≡ h.l2h)
  unfolding start
  transceive_delivers fuel a junk tx rx_len h has fresh no_cid no_nad large small some_data full
        enough whole =
      let (io', ran, got) =
        deliver (length tx) (fuel - 2 * length tx) a junk (start rdr h.th (a ∷ junk) tx rx_len)
          h.l2h tx has (no_cid, no_nad, large, small) some_data full (omega arith)
          (ap (λ w. w ++ tx) fresh) (omega arith) in
      let ran' =
        ap (λ f. run rdr f (refill (start rdr h.th (a ∷ junk) tx rx_len)) h.l2h)
          (sym (steps_lem (length tx) fuel enough))
        ∙ ran in
      let l2h' = record (h.l2h) { world = [] } in
      (
        record h { l2h = l2h'; th = io'.th },
        transceive_of_run fuel rx_len (a ∷ junk) tx io' l2h' h ran'
            ∙ ap
                (λ d.
                  ok (record { ret = pos 0; rx_data = d }) (record h { l2h = l2h'; th = io'.th }))
                got,
        ap (λ w. record (h.l2h) { world = w }) (sym fresh),
      )
