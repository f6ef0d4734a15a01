-- ===== src/Tools/Iso7816.antt =====
-- utils/librfid-tool.c: the commands of ISO 7816, and what the program does with a card over T=CL. What
-- is printed of an answer is part of the result.
use librfid.Prelude.{
  ℕ, zero, suc, ℤ, pos, is_neg, List, [], ◌∷◌, ◌++◌, true, false, u8, ◌>>>◌, if◌then◌else◌,
}
use librfid.Control.{M, out_of_fuel, pure, ◌>>=◌}
use librfid.Reader.{Reader}
use librfid.Tcl.Handle.{ProtocolHandle}
use librfid.Protocol
use librfid.Protocol.{Stack}

-- The result of one command or of several, and the answers that are printed
pub record Exchanged : Type 0 where
  pub ret : ℤ
  pub printed : List (List ℕ)

module _ {W : Type 0} (rdr : Reader W) (stack : Stack) where
  -- A command with room for `room` bytes of the answer
  unfoldable pub send_apdu : List ℕ → ℕ → M (ProtocolHandle W) Exchanged
  send_apdu cmd room = do
    a ← Protocol.transceive rdr stack cmd room
    pure (
        if is_neg a.ret
        then record { ret = a.ret; printed = [] }
        else record { ret = pos 0; printed = a.rx_data ∷ [] })

  -- `select_mf`
  unfoldable pub select_mf : M (ProtocolHandle W) Exchanged
  unfolding send_apdu
  select_mf = send_apdu (0x00 ∷ 0xa4 ∷ 0x00 ∷ 0x00 ∷ 0x02 ∷ 0x3f ∷ 0x00 ∷ 0x00 ∷ []) 256

  -- `iso7816_get_challenge`
  unfoldable pub get_challenge : ℕ → M (ProtocolHandle W) Exchanged
  unfolding send_apdu
  get_challenge len = send_apdu (0x00 ∷ 0x84 ∷ 0x00 ∷ 0x00 ∷ u8 len ∷ []) 256

  -- `iso7816_select_application`
  unfoldable pub select_application : M (ProtocolHandle W) Exchanged
  unfolding send_apdu
  select_application =
      send_apdu
        (0x00 ∷ 0xa4 ∷ 0x04 ∷ 0x0c ∷ 0x07 ∷ 0xa0 ∷ 0x00 ∷ 0x00 ∷ 0x02 ∷ 0x47 ∷ 0x10 ∷ 0x01 ∷ []) 7

  -- `iso7816_select_ef`
  unfoldable pub select_ef : ℕ → M (ProtocolHandle W) Exchanged
  unfolding send_apdu
  select_ef fid = send_apdu (0x00 ∷ 0xa4 ∷ 0x02 ∷ 0x0c ∷ 0x02 ∷ u8 (fid >>> 8) ∷ u8 fid ∷ []) 7

  -- `iso7816_read_binary`; nothing is stored for the caller.
  unfoldable pub read_binary : M (ProtocolHandle W) Exchanged
  unfolding send_apdu
  read_binary = send_apdu (0x00 ∷ 0xb0 ∷ 0x00 ∷ 0x00 ∷ 0x00 ∷ []) 256

  -- One call and, unless it failed, the next
  abbrev pub then_do :
      M (ProtocolHandle W) Exchanged
      → M (ProtocolHandle W) Exchanged
      → M (ProtocolHandle W) Exchanged
  then_do first next = do
    a ← first
    elim (is_neg a.ret) [
      | true ↦ pure a
      | false ↦ (do b ← next; pure (record { ret = b.ret; printed = a.printed ++ b.printed }))
    ]

  -- `iso7816_read_ef`
  unfoldable pub read_ef : ℕ → M (ProtocolHandle W) Exchanged
  unfolding select_ef read_binary
  read_ef fid = then_do (select_ef fid) read_binary

  -- The loop of `main` that reads the selected file again and again, until that fails
  unfoldable pub read_on : ℕ → M (ProtocolHandle W) Exchanged
  unfolding read_binary
  read_on zero = λ h. out_of_fuel
  read_on (suc fuel) = then_do read_binary (read_on fuel)

  -- The case of T=CL in `main`
  unfoldable pub read_passport : ℕ → M (ProtocolHandle W) Exchanged
  unfolding select_mf get_challenge select_application select_ef read_on
  read_passport fuel = then_do select_mf (
      then_do (get_challenge 0xff) (
        then_do select_application
          (then_do (select_ef 0x011e) (then_do (select_ef 0x0101) (read_on fuel)))))
