-- ===== src/Rc632/Room.antt =====
-- What the functions of src/rfid_asic_rc632.c store, against the room that they are given.
use librfid.Prelude.{
  ℕ, zero, suc, ℤ, neg_eio, neg_einval, u8, ◌≤◌, ◌≡◌, Option, none, some, List, length, replicate,
  drop, store_front, arith, ltb, length-append, length-drop, is_neg, ◌==◌, if◌then◌else◌,
}
use librfid.Control.{ok, pure}
use librfid.Control.Outcome.{Ensures, bind_lem, pure_lem, if_lem, then_lem, value_of}
use librfid.Reader.{Reply, FrameType}
use librfid.Layer2.Laws.{IsWithin}
use librfid.Rc632.Reg
use librfid.Rc632.Transport.{Transport, FifoRead, value}
use librfid.Rc632.Fifo.{fetch, start_transceive, transceive}
use librfid.Rc632.Iso14443a.{ab_transceive, ab_frame, channel_red}

-- A transport that stores no more bytes of the FIFO than it is asked for.
abbrev pub KeepsRoom : {W : Type 0} → Transport W → Type 0
KeepsRoom {W} t = (n : ℕ) → Ensures Unit (λ (r : FifoRead). length r.bytes ≤ n) (t.fifo_read n)

length-replicate : (n a : ℕ) → length (replicate n a) ≡ n
length-replicate zero a = omega arith
length-replicate (suc n) a = omega (arith, length-replicate n a)

store_front_within :
    (bytes : List ℕ) (room : ℕ)
    → length bytes ≤ room
    → length (store_front bytes (replicate room 0)) ≤ room
store_front_within bytes room h =
    let zeros : List ℕ = replicate room 0 in
    omega (
      arith,
      length-append bytes (drop (length bytes) zeros),
      length-drop (length bytes) zeros,
      length-replicate room 0,
    )

module _ {W : Type 0} (t : Transport W) (keeps : KeepsRoom t) where
  fetch-IsWithin : (empty : ℤ) (room : ℕ) → Ensures Unit (IsWithin room) (fetch t empty room)
  unfolding fetch
  fetch-IsWithin empty room = then_lem _ (t.reg_read Reg.fifo_length) _ (λ r.
      if_lem Unit _ (is_neg r.ret) _ _ (λ _. pure_lem Unit _ _ (omega arith, omega arith))
        (λ _. then_lem _ (value r.val) _ (λ avail.
          if_lem Unit _ (avail == 0) _ _
            (λ _. then_lem _ (t.reg_read Reg.primary_status) _ (λ _.
              then_lem _ (t.reg_read Reg.error_flag) _ (λ _.
                then_lem _ (t.reg_read Reg.channel_redundancy) _
                  (λ _. pure_lem Unit _ _ (ground arith, omega arith)))))
            (λ _.
              bind_lem Unit
                (λ (f : FifoRead). length f.bytes ≤ (if ltb avail room then avail else room)) _
                (t.fifo_read _) _ (keeps _)
                (λ f short. pure_lem Unit _ _ (ground arith, ground arith))))))

  transceive-IsWithin :
      (fuel : ℕ) (buf : List ℕ) (len room timer : ℕ)
      → Ensures Unit (IsWithin room) (transceive t fuel buf len room timer)
  unfolding transceive
  transceive-IsWithin fuel buf len room timer =
      then_lem _ (start_transceive t fuel buf len timer) _ (λ ret.
        if_lem Unit _ (is_neg ret) _ _ (λ _. pure_lem Unit _ _ (omega arith, omega arith))
          (λ _. fetch-IsWithin neg_eio room))

  cleared-IsWithin :
      (ret : ℤ) (room : ℕ)
      → IsWithin room (record { ret = ret; bytes = replicate room 0; rx_len = room })
  cleared-IsWithin ret room = (omega arith, omega (arith, length-replicate room 0))

  sent-IsWithin :
      (fuel : ℕ) (red : ℕ) (tx : List ℕ) (room timeout : ℕ)
      → Ensures Unit (IsWithin room) (ab_frame t fuel red tx room timeout)
  unfolding ab_frame
  sent-IsWithin fuel red tx room timeout =
      then_lem _ (t.reg_write Reg.channel_redundancy red) _ (λ ret.
        if_lem Unit _ (is_neg ret) _ _ (λ _. pure_lem Unit _ _ (cleared-IsWithin ret room))
          (λ _.
            bind_lem Unit (IsWithin (if ltb 0xff room then 0xff else room)) _ _ _
              (transceive-IsWithin fuel tx (u8 (length tx)) (if ltb 0xff room then 0xff else room)
                timeout)
              (λ (r : Reply) within. pure_lem Unit _ _ (
                ground (arith, within),
                store_front_within r.bytes room (ground (arith, within)),
              ))))

  frame-IsWithin :
      (fuel : ℕ) (red : Option ℕ) (tx : List ℕ) (room timeout : ℕ)
      → Ensures Unit (IsWithin room) (elim red [
        | none ↦ pure {S = W} (record { ret = neg_einval; bytes = replicate room 0; rx_len = room })
        | some red ↦ ab_frame t fuel red tx room timeout
      ])
  frame-IsWithin fuel none tx room timeout = pure_lem Unit _ _ (cleared-IsWithin neg_einval room)
  frame-IsWithin fuel (some red) tx room timeout = sent-IsWithin fuel red tx room timeout

  -- Let the transport store no more bytes of the FIFO than it is asked for. Then a run of the
  -- transmission of a frame that ends, for whatever frame type, data and room, leaves no more than
  -- the room, in the buffer and as the length.
  pub ab_transceive-IsWithin :
      (fuel : ℕ) (frametype : FrameType) (tx : List ℕ) (room timeout : ℕ) (w w' : W) (r : Reply)
      → ab_transceive t fuel frametype tx room timeout w ≡ ok r w'
      → IsWithin room r
  unfolding ab_transceive
  ab_transceive-IsWithin fuel frametype tx room timeout w w' r e =
      value_of Unit (IsWithin room) _ r w' e
        (frame-IsWithin fuel (channel_red frametype) tx room timeout w)
