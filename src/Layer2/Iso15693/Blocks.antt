-- ===== src/Layer2/Iso15693/Blocks.antt =====
-- `iso15693_read_block` and `iso15693_write_block`.
use librfid.Prelude.{
  ℕ, ℤ, pos, minus_one, is_neg, ◌+◌, ◌-◌, List, [], ◌∷◌, ◌++◌, take, drop, get_elem?, none, some,
  Bool, ltb, ◌==◌, bit_or, test, if◌then◌else◌,
}
use librfid.Control.{M, ok, fault, ◌>>=◌, ◌>>◌, pure, leave_if, leave_neg, get, call, read}
use librfid.Reader.{Reader, Reply, frame_15693}
use librfid.Layer2.Handle.{Layer2Handle, reader_transceive}
use librfid.Layer2.Iso15693.Frames.{
  rate_flags, f4_selected, f4_address, f4_custom, state_selected, rf_error, timing_t4,
  timing_t4_write,
}

-- `ISO15693_BLOCK_SIZE_MAX` and `ISO15693_RESP_SIZE_MAX`
abbrev pub block_size_max : ℕ
block_size_max = 32

abbrev pub resp_size_max : ℕ
resp_size_max = 36

-- The head of a request for one block: `struct iso15693_request_block_selected` for a selected card,
-- else `struct iso15693_request_block_addressed`.
unfoldable pub block_request : {W : Type 0} → Layer2Handle W → ℕ → ℕ → ℕ → List ℕ
block_request h command flags blocknr =
    let flags' = bit_or (rate_flags h.v) flags in
    if h.v.state == state_selected
    then bit_or flags' f4_selected ∷ command ∷ blocknr ∷ []
    else bit_or flags' f4_address ∷ command ∷ (take 8 h.uid ++ (blocknr ∷ []))

-- What `iso15693_read_block` returns: an error, or the number of bytes copied to `data` and them.
pub data BlockRead : Type 0 where
  failed : ℤ → BlockRead
  copied : ℕ → List ℕ → BlockRead

module _ {W : Type 0} (rdr : Reader W) where
  -- What follows the transmission: `memcpy` of a length that is negative is a fault, and so is the
  -- flags of an answer with no byte.
  unfoldable pub finish_read : Bool → ℕ → Reply → M (Layer2Handle W) BlockRead
  finish_read with_sec len r h =
      if is_neg r.ret
      then ok (failed r.ret) h
      else if ltb (len + 1) r.rx_len
      then ok (failed minus_one) h
      else elim (get_elem? r.bytes 0) [
        | none ↦ fault
        | some flags ↦
            let head : ℕ = if with_sec then 2 else 1 in
            if test flags rf_error
            then ok (failed minus_one) h
            else if ltb r.rx_len head
            then fault
            else ok (copied (r.rx_len - head) (take (r.rx_len - head) (drop head r.bytes))) h
      ]

  -- `iso15693_read_block`; `with_sec` says that `block_sec_out` is not null.
  unfoldable pub read_block : ℕ → ℕ → Bool → M (Layer2Handle W) BlockRead
  unfolding block_request finish_read
  read_block blocknr len with_sec = do
    h ← get
    r ←
        reader_transceive rdr frame_15693
          (block_request h 0x20 (if with_sec then f4_custom else 0) blocknr) resp_size_max
          (timing_t4 h.v) 0
    finish_read with_sec len r

  -- `iso15693_write_block`
  unfoldable pub write_block : ℕ → List ℕ → ℕ → M (Layer2Handle W) ℤ
  unfolding block_request
  write_block blocknr content len = call (do
    leave_if (ltb block_size_max len) minus_one
    h ← get
    r ←
        reader_transceive rdr frame_15693 (block_request h 0x21 0 blocknr ++ take len content)
          resp_size_max timing_t4_write 0
    leave_neg r.ret
    leave_if (ltb (len + 1) r.rx_len) minus_one
    flags ← read r.bytes 0
    leave_if (test flags rf_error) minus_one
    pure (pos 0))
