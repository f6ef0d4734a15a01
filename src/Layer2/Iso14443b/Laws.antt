-- ===== src/Layer2/Iso14443b/Laws.antt =====
-- What activation and the options of type B come to.
use librfid.Prelude.{ℕ, ℤ, pos, neg_einval, ◌≡◌, ◌≢◌, List, Option, arith}
use librfid.Control.{ok}
use librfid.Reader.{Reader}
use librfid.Layer2.Handle.{Layer2Handle}
use librfid.Layer2.Iso14443b.Atqb.{parse_atqb, send_reqb}
use librfid.Layer2.Iso14443b.Select.{transceive_attrib, anticol}
use librfid.Layer2.Iso14443b.Session.{setopt, opt_cid}

module _ {W : Type 0} (rdr : Reader W) where
  -- The first test of `transceive_attrib` compares the pointer `rx_len` with its own predecessor, so it always leaves with -EINVAL.
  transceive_attrib_refuses :
      (inf rx_data : List ℕ) (rx_len at : ℕ) (h : Layer2Handle W)
      → transceive_attrib rdr inf rx_data rx_len at h ≡ ok neg_einval h
  unfolding transceive_attrib
  transceive_attrib_refuses inf rx_data rx_len at h = ground arith

  -- No card of type B is ever selected: whatever the reader and the card do, and wherever the
  -- length is stored, anticollision does not return a result that is not negative.
  pub anticol_never_selects : (at n : ℕ) (h h' : Layer2Handle W) → anticol rdr at h ≢ ok (pos n) h'
  unfolding anticol send_reqb
  anticol_never_selects at n h h' e = ground arith

  -- The frame waiting time in an answer to a request is checked, and never stored.
  pub parse_atqb-fwt :
      (atqb : List ℕ) (r : ℤ) (h h' : Layer2Handle W)
      → parse_atqb rdr atqb h ≡ ok r h'
      → h'.b.fwt ≡ h.b.fwt
  unfolding parse_atqb
  parse_atqb-fwt atqb r h h' e = ground arith

  -- Every option but the card identifier is accepted, and nothing is done.
  pub setopt_accepts :
      (optname : ℕ) (optval : Option (List ℕ)) (h : Layer2Handle W)
      → optname ≢ opt_cid
      → setopt rdr optname optval h ≡ ok (pos 0) h
  unfolding setopt
  setopt_accepts optname optval h other = ground arith
