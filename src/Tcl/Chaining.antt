-- ===== src/Tcl/Chaining.antt =====
-- `tcl_refill_xcvb` cuts the caller's data into frames.
use librfid.Prelude.{
  ap, ◌∙◌, sym, bit_or, ltb, test, Bool, true, false, not, ℕ, zero, suc, min, refl, ◌∷◌,
  take-overlay, ◌+◌, ◌-◌, ◌≤◌, ◌<◌, ◌≡◌, List, take, drop, length, length-take, length-drop,
  length-set, get_or, if◌then◌else◌, ◌==◌, arith, set, overlay_at, [],
}
use librfid.Tcl.Handle.{TclHandle, cid_used, nad_used}
use librfid.Tcl.Prologue.{build_prologue_i, build_prologue2, prlg_len}
use librfid.Tcl.Exchange.{Io, send, payload_len, refill_xcvb, max_framelen}

-- The PCB of an I-block by ISO 14443-4: bit 2 is always set, bits 1, 4, 3 and 5 are the block number, a
-- card identifier that follows, a node address that follows, and chaining.
abbrev pub pcb_of : TclHandle → Bool → ℕ
pcb_of th chaining =
    0x02
    + (if th.toggle == 0 then 0x01 else 0)
    + (if test th.flags cid_used then 0x08 else 0)
    + (if test th.flags nad_used then 0x04 else 0)
    + (if chaining then 0x10 else 0)

prologue_pcb :
    (th : TclHandle) (buf : List ℕ)
    → 0 < length buf
    → get_or (build_prologue_i th buf).buf 0 0 ≡ pcb_of th false
unfolding build_prologue_i build_prologue2
prologue_pcb th [] full = absurd (omega arith)
prologue_pcb th (x ∷ buf) full = ground arith

chained_pcb :
    (th : TclHandle) (pcb : ℕ) (last : Bool)
    → pcb ≡ pcb_of th false
    → (if last then pcb else bit_or pcb 0x10) ≡ pcb_of th (not last)
chained_pcb th pcb true e = e
chained_pcb th pcb false e = rw e (ground arith)

-- The header of an I-block has the length that `tcl_prlg_len` says, which depends on the flags alone.
prologue_len : (th : TclHandle) (buf : List ℕ) → (build_prologue_i th buf).len ≡ prlg_len th
unfolding build_prologue_i prlg_len
prologue_len th buf = ground arith

prologue_prlg_len :
    (th : TclHandle) (buf : List ℕ) → prlg_len (build_prologue_i th buf).th ≡ prlg_len th
unfolding build_prologue_i prlg_len
prologue_prlg_len th buf = ground arith

prologue_fsc : (th : TclHandle) (buf : List ℕ) → (build_prologue_i th buf).th.fsc ≡ th.fsc
unfolding build_prologue_i
prologue_fsc th buf = ground arith

prologue_toggle :
    (th : TclHandle) (buf : List ℕ)
    → (build_prologue_i th buf).th.toggle ≡ (if th.toggle == 0 then 1 else 0)
unfolding build_prologue_i
prologue_toggle th buf = ground arith

prologue_length :
    (th : TclHandle) (buf : List ℕ) → length (build_prologue_i th buf).buf ≡ length buf
unfolding build_prologue_i
prologue_length th buf = grind (arith, length-set)

prlg_len-bounds : (th : TclHandle) → (1 ≤ prlg_len th) × (prlg_len th ≤ 3)
unfolding prlg_len
prlg_len-bounds th = ground arith

drop-overlay_at :
    {A : Type 0} (n : ℕ) (src buf : List A)
    → n + length src ≤ length buf
    → take (length src) (drop n (overlay_at n src buf)) ≡ src
drop-overlay_at zero src buf fits = take-overlay src buf (omega arith)
drop-overlay_at (suc n) src [] fits = absurd (omega arith)
drop-overlay_at (suc n) src (x ∷ buf) fits = drop-overlay_at n src buf (omega arith)

drop-set : {A : Type 0} (n i : ℕ) (v : A) (xs : List A) → i < n → drop n (set xs i v) ≡ drop n xs
drop-set zero i v xs h = absurd (omega arith)
drop-set (suc n) i v [] h = refl
drop-set (suc n) zero v (x ∷ xs) h = refl
drop-set (suc n) (suc i) v (x ∷ xs) h = drop-set n i v xs (omega arith)

-- The number of bytes that `payload_len` takes, when the header is shorter than the card's frames.
payload_len-min :
    (th : TclHandle) (todo : ℕ)
    → prlg_len th < th.fsc
    → th.fsc ≤ 256
    → payload_len th (prlg_len th) todo ≡ min (th.fsc - prlg_len th) todo
unfolding payload_len
payload_len-min th todo room small = ground (arith, prlg_len-bounds th)

-- What `tcl_refill_xcvb` promises when it takes up data that is left: the next frame fits the card's
-- buffer and holds the bytes that follow those sent before, at least one of them; the toggle changes,
-- and the PCB is that of an I-block, with the chaining bit exactly when data is left.
unfoldable pub IsNextFrame : Io → Io → Type 0
IsNextFrame io io' =
    (n : ℕ) × (0 < n)
    × (io'.next_tx ≡ io.next_tx + n)
    × (io'.next_tx ≤ length io.tx)
    × (io'.tx_frame_len ≡ prlg_len io.th + n)
    × (io'.tx_frame_len ≤ io.th.fsc)
    × (take n (drop (prlg_len io.th) io'.tx_data) ≡ take n (drop io.next_tx io.tx))
    × (io'.th.toggle ≡ (if io.th.toggle == 0 then 1 else 0))
    × (get_or io'.tx_data 0 0 ≡ pcb_of io.th (not (io'.next_tx == length io.tx)))

-- The chaining bit is set in the first byte exactly when data is left behind `next`.
abbrev chain : ℕ → ℕ → List ℕ → List ℕ
chain next size buf = if ltb next size then set buf 0 (bit_or (get_or buf 0 0) 0x10) else buf

drop-chain : (n next size : ℕ) (buf : List ℕ) → 0 < n → drop n (chain next size buf) ≡ drop n buf
drop-chain n next size buf h = ground (arith, drop-set n 0 (bit_or (get_or buf 0 0) 0x10) buf h)

first_of :
    (k next size : ℕ) (chunk buf : List ℕ)
    → 0 < k
    → 0 < length buf
    → next ≤ size
    → get_or (chain next size (overlay_at k chunk buf)) 0 0
      ≡ (if next == size then get_or buf 0 0 else bit_or (get_or buf 0 0) 0x10)
first_of zero next size chunk buf pos full below = absurd (omega arith)
first_of (suc k) next size chunk [] pos full below = absurd (omega arith)
first_of (suc k) next size chunk (x ∷ buf) pos full below = ground arith

payload_of :
    (n k next size : ℕ) (chunk buf : List ℕ)
    → length chunk ≡ n
    → 0 < k
    → k + n ≤ length buf
    → take n (drop k (chain next size (overlay_at k chunk buf))) ≡ chunk
payload_of n k next size chunk buf e pos fits =
    ap (take n) (drop-chain k next size (overlay_at k chunk buf) pos)
    ∙ ap (λ m. take m (drop k (overlay_at k chunk buf))) (sym e)
    ∙ drop-overlay_at k chunk buf (omega arith)

abbrev next_len : Io → ℕ
next_len io = min (io.th.fsc - prlg_len io.th) (length io.tx - io.next_tx)

-- The frame that is sent.
abbrev frame : Io → Io
frame io =
    let p = build_prologue_i io.th io.tx_data in
    let n = next_len io in
    record io {
      th = p.th;
      tx_data =
          chain (io.next_tx + n) (length io.tx)
            (overlay_at (prlg_len io.th) (take n (drop io.next_tx io.tx)) p.buf);
      tx_frame_len = n + prlg_len io.th;
      next_tx = io.next_tx + n;
      timeout = p.th.fwt;
    }

module _ (io : Io) (left : io.next_tx < length io.tx) (room : prlg_len io.th < io.th.fsc)
    (small : io.th.fsc ≤ max_framelen) where
  same_len :
      payload_len
        (build_prologue_i io.th io.tx_data).th
        (prlg_len io.th)
        (length io.tx - io.next_tx)
      ≡ next_len io
  unfolding payload_len
  same_len = ground (
    arith,
    prlg_len-bounds io.th,
    prologue_prlg_len io.th io.tx_data,
    prologue_fsc io.th io.tx_data,
  )

  refill_xcvb-frame : refill_xcvb io ≡ send (frame io)
  unfolding refill_xcvb
  refill_xcvb-frame = ground (arith, prologue_len io.th io.tx_data, same_len)

  payload :
      length io.tx_data ≡ max_framelen
      → take (next_len io) (drop (prlg_len io.th) (frame io).tx_data)
        ≡ take (next_len io) (drop io.next_tx io.tx)
  payload whole =
      payload_of (next_len io) (prlg_len io.th) (io.next_tx + next_len io) (length io.tx)
        (take (next_len io) (drop io.next_tx io.tx)) (build_prologue_i io.th io.tx_data).buf
        (omega
          (arith, length-take (next_len io) (drop io.next_tx io.tx), length-drop io.next_tx io.tx))
        (omega (arith, prlg_len-bounds io.th)) (omega (arith, prologue_length io.th io.tx_data))

-- While data is left, with a card whose frames are longer than the header and of at most 256
-- bytes, and a buffer of 256 bytes, a frame is sent that has at least one byte of payload and fits
-- the card's buffer; its payload is the bytes that follow those sent before, the position moves on
-- by their number and not past the end, and the toggle changes. The PCB is 0x02 with the block number
-- in bit 1, which is the toggle before inverted, bit 4 if the card identifier is in use, bit 3 if the
-- node address is, and bit 5, the chaining bit, exactly when data is left after the frame.
pub refill_xcvb-IsNextFrame :
    (io : Io)
    → io.next_tx < length io.tx
    → prlg_len io.th < io.th.fsc
    → io.th.fsc ≤ max_framelen
    → length io.tx_data ≡ max_framelen
    → (io' : Io) × (refill_xcvb io ≡ send io') × IsNextFrame io io'
unfolding IsNextFrame
refill_xcvb-IsNextFrame io left room small whole = (
  frame io,
  refill_xcvb-frame io left room small,
  (
    next_len io,
    omega arith,
    refl,
    omega arith,
    omega arith,
    omega arith,
    payload io left room small whole,
    prologue_toggle io.th io.tx_data,
    first_of (prlg_len io.th) (io.next_tx + next_len io) (length io.tx)
          (take (next_len io) (drop io.next_tx io.tx)) (build_prologue_i io.th io.tx_data).buf
          (omega (arith, prlg_len-bounds io.th)) (omega (arith, prologue_length io.th io.tx_data))
          (omega arith)
        ∙ chained_pcb io.th (get_or (build_prologue_i io.th io.tx_data).buf 0 0)
            (io.next_tx + next_len io == length io.tx)
            (prologue_pcb io.th io.tx_data (omega arith)),
  ),
)
