-- ===== src/Layer2/Iso14443b/Select.antt =====
-- `transceive_attrib`, `iso14443b_anticol` and `iso14443b_hltb`.
use librfid.Prelude.{
  ℕ, ℤ, pos, minus_one, neg_einval, ◌+◌, ◌-◌, ◌*◌, ◌^◌, List, [], ◌∷◌, ◌++◌, take, not, leb, ◌==◌,
  bit_and, bit_xor, ◌>>>◌, if◌then◌else◌, u32,
}
use librfid.Control.{M, ◌>>=◌, ◌>>◌, pure, leave, leave_if, leave_neg, get, call, read}
use librfid.Reader.{Reader, frame_14443b_regular}
use librfid.FrameSize.{stored, refused, past_end, fsd_to_fsdi}
use librfid.Layer2.Handle.{Layer2Handle, BState, modify_b, reader_transceive}
use librfid.Layer2.Iso14443b.Atqb.{send_reqb}

-- `mbli_to_mbl`, in which `^` is the exclusive or
unfoldable pub mbli_to_mbl : ℕ → ℕ → ℕ
mbli_to_mbl fsc mbli = bit_xor (u32 (fsc * 2)) (u32 (mbli + 2 ^ 32 - 1))

module _ {W : Type 0} (rdr : Reader W) where
  -- The frame of `transceive_attrib`, of the fields that are not 0.
  abbrev pub attrib_frame : Layer2Handle W → ℕ → List ℕ → List ℕ
  attrib_frame h fsdi inf =
      0x1d
      ∷ (take 4 h.uid
          ++ (0
              ∷ bit_and fsdi 0xf
              ∷ (if h.b.tcl_capable == 1 then 1 else 0)
              ∷ bit_and h.b.cid 0xf
              ∷ inf))

  -- `transceive_attrib`. `at` is the address of `*rx_len`, whose neighbour the first test computes;
  -- an `unsigned int` has four bytes. `rx_data` is what the caller's buffer holds. The answer, which
  -- the only caller drops, is left out.
  unfoldable pub transceive_attrib : List ℕ → List ℕ → ℕ → ℕ → M (Layer2Handle W) ℤ
  unfolding mbli_to_mbl
  transceive_attrib inf rx_data rx_len at = call (do
    leave_if (leb (at - 4) at) neg_einval
    h ← get
    elim (fsd_to_fsdi h.b.fsd) [
      | refused ↦ leave minus_one
      | past_end ↦ leave minus_one
      | stored fsdi ↦ (do
        r ←
            reader_transceive rdr frame_14443b_regular (attrib_frame h fsdi inf) (u32 (rx_len + 1))
              h.b.fwt 0
        modify_b (λ b. record b { state = BState.attrib_sent })
        leave_neg r.ret
        first ← read r.bytes 0
        leave_if (not (bit_and first 0x0f == h.b.cid)) minus_one
        modify_b (λ b. record b { state = BState.selected })
        mbli ← read rx_data 0
        modify_b (λ b. record b { mbl = mbli_to_mbl b.fsc (bit_and mbli 0xf0 >>> 4) })
        pure r.ret)
    ])

  -- `iso14443b_anticol`
  unfoldable pub anticol : ℕ → M (Layer2Handle W) ℤ
  unfolding transceive_attrib
  anticol at = call (do
    ret ← send_reqb rdr 0 0 0
    leave_neg ret
    ret' ← transceive_attrib [] [] 255 at
    leave_neg ret'
    pure (pos 0))

  -- `iso14443b_hltb`
  unfoldable pub hltb : M (Layer2Handle W) ℤ
  hltb = call (do
    h ← get
    r ← reader_transceive rdr frame_14443b_regular (0x50 ∷ take 4 h.uid) 1 h.b.fwt 0
    modify_b (λ b. record b { state = BState.hltb_sent })
    leave_neg r.ret
    leave_if (not (r.rx_len == 1)) minus_one
    first ← read r.bytes 0
    leave_if (not (first == 0)) minus_one
    modify_b (λ b. record b { state = BState.halted })
    pure (pos 0))
