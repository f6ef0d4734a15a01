-- ===== src/Tools/Tags.antt =====
-- utils/librfid-tool.c: cards of ISO 15693, the search for a card and the listing of all cards. What is
-- printed is the result of a function here, as far as it says something of a card.
use librfid.Prelude.{
  ℕ, zero, suc, ℤ, pos, negsuc, is_neg, ◌+◌, ◌^◌, Option, none, some, List, [], ◌∷◌, Bool, true,
  false, not, ◌||◌, ◌==◌, ltb, leb, test, if◌then◌else◌,
}
use librfid.Control.{M, fault, out_of_fuel, pure, ◌>>=◌, ◌>>◌}
use librfid.Reader.{Reader}
use librfid.Layer2.Handle.{Layer2Handle, with_world}
use librfid.Layer2.Options.{GetOpt, Stored, uint8, uint, bytes}
use librfid.Layer2.Dispatch as Layer2
use librfid.Layer2.Dispatch.{Bounds, opt_uid}
use librfid.Layer2.Iso15693.Blocks.{failed, copied, read_block, write_block}
use librfid.Layer2.Iso15693.Session as VSession
use librfid.Tcl.Handle.{ProtocolHandle, on_l2}
use librfid.MifareClassic.Pages.{opt_size}
use librfid.Protocol
use librfid.Protocol.{Stack}
use librfid.Rc632.Layers.{opt_rf_kill}
use librfid.Scan

-- The bytes that a query stored
abbrev stored_in : Stored → List ℕ
stored_in (bytes v) = v
stored_in _ = []

-- The number that a query stored in an `unsigned int` that was 0
abbrev number_in : Stored → ℕ
number_in (uint n) = n
number_in (uint8 n) = n
number_in _ = 0

abbrev number : ℤ → ℕ
number (pos n) = n
number (negsuc n) = 0

abbrev is_positive : ℤ → Bool
is_positive (pos n) = not (n == 0)
is_positive (negsuc n) = false

-- `sector <= -3`, and the sectors -1 and -3 that stop at the first error
abbrev selects_first : ℤ → Bool
selects_first (pos n) = false
selects_first (negsuc n) = leb 2 n

abbrev stops_on_error : ℤ → Bool
stops_on_error (pos n) = false
stops_on_error (negsuc n) = n == 0 || n == 2

-- A block that is printed: its number and its bytes
pub record Block : Type 0 where
  pub number : ℕ
  pub content : List ℕ

-- What `iso15693_dump` comes to: no handle or no card, or the identifier and the blocks
pub data Report : Type 0 where
  nothing_found : Report
  found : List ℕ → List Block → Report

-- What `do_scan` comes to: the result of `rfid_scan`, and of a card its identifier, size and ATS.
pub record Scanned : Type 0 where
  pub rc : ℤ
  pub uid : Option (List ℕ)
  pub size : Option ℕ
  pub ats : Option (List ℕ)

module _ {W : Type 0} (rdr : Reader W) where
  abbrev uid_of : M (Layer2Handle W) (List ℕ)
  uid_of = do g ← Layer2.getopt rdr opt_uid 16; pure (stored_in g.stored)

  -- The head of `iso15693_dump`, `iso15693_write` and `do_enum`: the reader is asked for the layer, and
  -- a handle is made.
  abbrev made : ℕ → Bool → M (Layer2Handle W) Bool
  made layer2 allocated =
      if test rdr.l2_supported (2 ^ layer2) then Layer2.init rdr layer2 allocated else pure false

  -- The loop of `iso15693_dump` over the blocks from `i` on, with the rounds left.
  unfoldable pub blocks_from : ℕ → Bool → ℕ → M (Layer2Handle W) (List Block)
  blocks_from zero stops i = pure []
  blocks_from (suc rounds) stops i = do
    r ← read_block rdr i 1024 true
    elim r [
      | copied n content ↦ (do
        rest ← blocks_from rounds stops (i + 1)
        pure (record { number = i; content = content } ∷ rest))
      | failed ret ↦ elim stops [ true ↦ pure [] | false ↦ blocks_from rounds false (i + 1) ]
    ]

  -- What `iso15693_dump` reads of a card. The call for a single sector lacks its last argument, the
  -- address for the state of the lock, so that the function reads whatever stands there.
  unfoldable pub dump_blocks : ℤ → M (Layer2Handle W) (List Block)
  unfolding blocks_from
  dump_blocks (pos n) = λ h. fault
  dump_blocks (negsuc n) =
      if selects_first (negsuc n)
      then (do _ ← VSession.select rdr; blocks_from 256 (stops_on_error (negsuc n)) 0)
      else blocks_from 256 (stops_on_error (negsuc n)) 0

  -- `iso15693_dump`
  unfoldable pub dump_15693 : Bounds → Bool → ℕ → ℤ → M (Layer2Handle W) Report
  unfolding dump_blocks
  dump_15693 n allocated layer2 sector = do
    handle ← made layer2 allocated
    if not handle then pure nothing_found else (do
      rc ← Layer2.open_l2 rdr n
      if not (is_positive rc) then pure nothing_found else (do
        uid ← uid_of
        blocks ← dump_blocks sector
        _ ← Layer2.close rdr
        _ ← Layer2.fini rdr
        pure (found uid blocks)))

  -- `iso15693_write`: the identifier of the card that was found and the result of the write
  unfoldable pub write_15693 :
      Bounds → Bool → ℕ → ℕ → List ℕ → ℕ → M (Layer2Handle W) (Option (List ℕ × ℤ))
  write_15693 n allocated layer2 sector content len = do
    handle ← made layer2 allocated
    if not handle then pure none else (do
      rc ← Layer2.open_l2 rdr n
      if not (is_positive rc) then pure none else (do
        uid ← uid_of
        ret ← write_block rdr sector content len
        _ ← Layer2.close rdr
        _ ← Layer2.fini rdr
        pure (some (uid, ret))))

  -- The loop of `do_enum`, with the result of the last `rfid_layer2_open`: the identifiers that are
  -- printed. It ends when no card is found any more.
  unfoldable pub enum_from : ℕ → Bounds → ℤ → M (Layer2Handle W) (List (List ℕ))
  enum_from zero n rc = λ h. out_of_fuel
  enum_from (suc fuel) n (negsuc e) = pure []
  enum_from (suc fuel) n (pos rc) = do
    uid ← uid_of
    _ ← Layer2.close rdr
    rc' ← Layer2.open_l2 rdr n
    rest ← enum_from fuel n rc'
    pure (uid ∷ rest)

  -- `do_enum`
  unfoldable pub do_enum : ℕ → Bounds → Bool → ℕ → M (Layer2Handle W) (List (List ℕ))
  unfolding enum_from
  do_enum fuel n allocated layer2 = do
    handle ← made layer2 allocated
    if not handle then pure [] else (do rc ← Layer2.open_l2 rdr n; enum_from fuel n rc)

  -- A query that returned 0
  abbrev answered : {A : Type 0} → GetOpt → (Stored → A) → Option A
  answered g value = elim g.ret [
    | pos n ↦ if n == 0 then some (value g.stored) else none
    | negsuc n ↦ none
  ]

  -- The field is switched off and on through the option of the reader; its result is dropped.
  abbrev reset_field : (ℕ → ℕ → W → ℤ × W) → M (Layer2Handle W) (Unit {0})
  reset_field setopt = do
    _ ← with_world (setopt opt_rf_kill 1)
    _ ← with_world (setopt opt_rf_kill 0)
    pure tt

  -- What `do_scan` asks of a protocol: the size of the card, the length of the ATS, and with one byte
  -- more the ATS.
  unfoldable pub describe : M (ProtocolHandle W) (Option ℕ × Option (List ℕ))
  describe = do
    s ← Protocol.getopt rdr opt_size 4
    l ← Protocol.getopt rdr 0x00010002 4
    elim (answered l number_in) [
      | none ↦ pure (answered s number_in, none)
      | some len ↦ (do
        a ← Protocol.getopt rdr 0x00010001 (len + 1)
        pure (answered s number_in, answered a stored_in))
    ]

  -- `do_scan`; the reader's `setopt` is an argument.
  unfoldable pub do_scan :
      (ℕ → ℕ → W → ℤ × W) → Bool → Bounds → (ℕ → Bool) → (ℕ → Bool) → M (ProtocolHandle W) Scanned
  unfolding describe
  do_scan setopt first n allocated allocated' = do
    if first then on_l2 (reset_field setopt) else pure tt
    rc ← Scan.scan rdr n allocated allocated'
    if is_neg rc || ltb (number rc) 2
        then pure (record { rc = rc; uid = none; size = none; ats = none })
        else (do
          uid ← on_l2 uid_of
          if ltb (number rc) 3
              then pure (record { rc = rc; uid = some uid; size = none; ats = none })
              else (do
                d ← describe
                pure (record { rc = rc; uid = some uid; size = d.0; ats = d.1 })))
