-- ===== src/Tools/Mifare.antt =====
-- utils/mifare-tool.c, and the set-up of a card in utils/common.c. `exit` ends the program: a function
-- that may call it says so in its result.
pub mod BruteForce
use librfid.Prelude.{
  ℕ, zero, suc, ℤ, pos, minus_one, is_neg, ◌+◌, Option, none, some, List, [], ◌∷◌, length, take,
  drop, set, store_front, overlay, Bool, true, false, not, ltb, test, u8, get_or, if◌then◌else◌,
}
use librfid.Control.{M, ok, fault, out_of_fuel, pure, put_back, ◌>>=◌, ◌>>◌}
use librfid.Reader.{Reader}
use librfid.Layer2.Handle.{Layer2Handle}
use librfid.Layer2.Dispatch as Layer2
use librfid.Layer2.Dispatch.{Bounds, opt_uid}
use librfid.Tcl.Handle.{ProtocolHandle, on_l2}
use librfid.MifareClassic.Pages.{PageRead, set_key, auth}
use librfid.Protocol
use librfid.Hex.{hexread}
use librfid.Access.Coding.{AccessSect, Encoded, parse_access}
use librfid.Access.Rights.{AccessExpSect, access_to_exp}
use librfid.Tools.Cards.{auth1a}

module _ {W : Type 0} (rdr : Reader W) where
  -- `l2_init` of utils/common.c
  unfoldable pub l2_init : Bounds → Bool → ℕ → M (Layer2Handle W) ℤ
  l2_init n allocated layer2 = do
    made ← Layer2.init rdr layer2 allocated
    if not made
        then pure minus_one
        else (do rc ← Layer2.open_l2 rdr n; pure (if is_neg rc then rc else pos 0))

  -- `l3_init` of utils/common.c
  unfoldable pub l3_init : Bool → ℕ → M (ProtocolHandle W) ℤ
  l3_init allocated protocol = do
    made ← Protocol.init rdr protocol allocated
    if not made
        then pure minus_one
        else (do rc ← Protocol.open_protocol rdr; pure (if is_neg rc then minus_one else pos 0))

  -- `while (... < 0) ;`
  unfoldable pub until_done : ℕ → M (ProtocolHandle W) ℤ → M (ProtocolHandle W) (Unit {0})
  until_done zero m = λ h. out_of_fuel
  until_done (suc fuel) m = do
    rc ← m
    elim (is_neg rc) [ true ↦ until_done fuel m | false ↦ pure tt ]

  -- `mifare_l3`
  unfoldable pub mifare_l3 : ℕ → Bounds → M (ProtocolHandle W) (Unit {0})
  unfolding until_done l2_init l3_init
  mifare_l3 fuel n = do until_done fuel (on_l2 (l2_init n true 1)); until_done fuel (l3_init true 3)

  -- `mifare_cl_auth`
  unfoldable pub cl_auth : List ℕ → ℕ → M (ProtocolHandle W) ℤ
  cl_auth key page = do
    rc ← set_key rdr key
    if is_neg rc
        then pure rc
        else (do rc ← auth rdr auth1a (u8 page); pure (if is_neg rc then rc else pos 0))

  -- The loop of the option `b` over the last byte of the key from `i` on, with the rounds left: the
  -- keys that are printed.
  unfoldable pub brute_from : ℕ → List ℕ → ℕ → ℕ → M (ProtocolHandle W) (List (List ℕ))
  unfolding cl_auth
  brute_from zero key page i = pure []
  brute_from (suc rounds) key page i = do
    let key' = set key 5 i
    rc ← cl_auth key' page
    keys ← brute_from rounds key' page (i + 1)
    pure (if is_neg rc then keys else key' ∷ keys)

  -- The option `b`
  unfoldable pub brute_force : ℕ → Bounds → List ℕ → ℕ → M (ProtocolHandle W) (List (List ℕ))
  unfolding mifare_l3 brute_from
  brute_force fuel n key page = do mifare_l3 fuel n; brute_from 256 key page 0

  -- The option `r`, from the authentication on, with what the 16 bytes of `buf` hold: `none` where the
  -- program exits; else the result of the read, the bytes, and the conditions of access, which are
  -- shown where `page & (0x3 == 0x3)` is not 0. `none` of these is a read behind a table.
  unfoldable pub read_option :
      List ℕ
      → ℕ
      → List ℕ
      → M (ProtocolHandle W) (Option (ℤ × List ℕ × Option (Option AccessExpSect)))
  unfolding cl_auth
  read_option key page buf = do
    rc ← cl_auth key page
    if is_neg rc then pure none else (do
      _ ← on_l2 (Layer2.getopt rdr opt_uid 4)
      p ← Protocol.read_page rdr page 16
      if is_neg p.ret then pure (some (p.ret, [], none)) else (do
        let buf' = store_front p.rx_data buf
        let access = parse_access (record {
          byte_0 = get_or buf' 6 0;
          byte_1 = get_or buf' 7 0;
          byte_2 = get_or buf' 8 0;
          byte_3 = get_or buf' 9 0;
        })
        pure (
            some (
              p.ret,
              take p.rx_len buf',
              if test page 1 then some (access_to_exp access) else none,
            ))))

  -- The option `w`, once a card is found: `none` where the program exits
  unfoldable pub write_option : List ℕ → ℕ → List ℕ → M (ProtocolHandle W) (Option ℤ)
  unfolding cl_auth
  write_option key page content = do
    rc ← cl_auth key page
    if is_neg rc
        then pure none
        else (do rc ← Protocol.write_page rdr page content (length content); pure (some rc))

-- The option `k`: the bytes of the text are stored in the key, which has six. `none` is a write beyond.
unfoldable pub key_option : List ℕ → List ℕ → Option (List ℕ)
key_option key text = elim (hexread (length text + 1) text (length text)) [
  | none ↦ none
  | some bytes ↦ if ltb 6 (length bytes) then none else some (overlay bytes key)
]
