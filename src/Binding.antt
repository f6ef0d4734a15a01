-- ===== src/Binding.antt =====
-- python/openpcd.c: cards of Mifare Classic behind the calls of a shared library, which keep the handles
-- of the second layer and of the protocol in one state. win32/openpcd.c is nearly the same code.
pub mod Shape
pub mod Select
pub mod Calls
pub mod Pointers
pub mod Reselect
use librfid.Prelude.{
  ℕ, zero, suc, ◌+◌, ℤ, pos, negsuc, is_neg, ◌-◌, Option, none, some, List, [], ◌++◌, length, take,
  drop, replicate, overlay, store_front, Bool, true, false, not, ◌||◌, ◌&&◌, ◌==◌, ltb, u8,
  if◌then◌else◌,
}
use librfid.Control.{M, Run, ok, returned, fault, out_of_fuel, pure, put_back, modify, ◌>>=◌, ◌>>◌}
use librfid.Reader.{Reader}
use librfid.Layer2.Handle.{Layer2Handle}
use librfid.Layer2.Options.{GetOpt, Stored, nothing, uint8, uint, bytes}
use librfid.Layer2.Dispatch as Layer2
use librfid.Layer2.Dispatch.{Bounds, opt_uid}
use librfid.Tcl.Handle.{ProtocolHandle, on_l2}
use librfid.MifareClassic.Pages.{PageRead, set_key, auth}
use librfid.Protocol
use librfid.Protocol.{Stack}

-- The error `PCDERROR_...` with the number -n, of those from 1 on
abbrev pub pcd_error : ℕ → ℤ
pcd_error n = negsuc (n - 1)

abbrev pub invalid_parameter : ℤ
invalid_parameter = pcd_error 1

abbrev pub closed : ℤ
closed = pcd_error 12

-- The pointer `l2h`: to nothing, to a handle of its own, or to the handle that `ph` stands on
pub data Layer2Pointer (W : Type 0) : Type 0 where
  null : Layer2Pointer W
  alone : Layer2Handle W → Layer2Pointer W
  shared : Layer2Pointer W

-- `struct openpcd_state`, with the world behind the reader; `ph` is none where the pointer is null.
pub record PcdState (W : Type 0) : Type 0 where
  pub cl_auth : ℕ
  pub l2h : Layer2Pointer W
  pub ph : Option (ProtocolHandle W)
  pub key : List ℕ
  pub world : W

-- What a call returns that hands out bytes
pub record PcdRead : Type 0 where
  pub ret : ℤ
  pub content : List ℕ

abbrev pub no_bytes : ℤ → PcdRead
no_bytes ret = record { ret = ret; content = [] }

abbrev stored_in : Stored → List ℕ
stored_in (bytes v) = v
stored_in _ = []

abbrev is_zero : ℤ → Bool
is_zero (pos n) = n == 0
is_zero (negsuc n) = false

abbrev is_some : {A : Type 0} → Option A → Bool
is_some none = false
is_some (some a) = true

-- The guards of `openpcd_read` and `openpcd_write`: a page from 0 to 255, and 1 to 16 bytes
abbrev page_of : ℤ → ℤ → Option (ℕ × ℕ)
page_of (pos page) (pos len) =
    if ltb 255 page || len == 0 || ltb 16 len then none else some (page, len)
page_of page len = none

-- `res < 0 && res != -101`
abbrev is_refused : ℤ → Bool
is_refused (pos n) = false
is_refused (negsuc n) = not (n == 100)

module _ {W : Type 0} where
  abbrev with_world_of : W → ProtocolHandle W → ProtocolHandle W
  with_world_of w p = record p { l2h = record (p.l2h) { world = w } }

  abbrev set_ph : PcdState W → ProtocolHandle W → PcdState W
  set_ph s p = record s { ph = some p; world = p.l2h.world }

  abbrev set_alone : PcdState W → Layer2Handle W → PcdState W
  set_alone s h = record s { l2h = alone h; world = h.world }

  -- A call through `state->ph`
  abbrev ph_of :
      {A : Type 0} → M (ProtocolHandle W) A → Option (ProtocolHandle W) → M (PcdState W) A
  ph_of m none s = fault
  ph_of m (some p) s = put_back set_ph (m (with_world_of s.world p)) s

  unfoldable pub on_ph : {A : Type 0} → M (ProtocolHandle W) A → M (PcdState W) A
  on_ph m s = ph_of m s.ph s

  -- A call through `state->l2h`
  abbrev l2h_of : {A : Type 0} → M (Layer2Handle W) A → Layer2Pointer W → M (PcdState W) A
  l2h_of m null s = fault
  l2h_of m (alone h) s = put_back set_alone (m (record h { world = s.world })) s
  l2h_of m shared s = ph_of (on_l2 m) s.ph s

  unfoldable pub on_l2h : {A : Type 0} → M (Layer2Handle W) A → M (PcdState W) A
  on_l2h m s = l2h_of m s.l2h s

  -- `state->l2h = NULL;`
  abbrev pub drop_l2h : M (PcdState W) (Unit {0})
  drop_l2h s = ok tt (record s { l2h = null })

  abbrev unshare : Layer2Pointer W → Option (ProtocolHandle W) → Layer2Pointer W
  unshare shared (some p) = alone p.l2h
  unshare shared none = shared
  unshare null p = null
  unshare (alone h) p = alone h

  -- `state->ph = NULL;`, where the protocol's handle goes and that of the second layer stays
  unfoldable pub drop_ph : M (PcdState W) (Unit {0})
  drop_ph s = ok tt (record s { l2h = unshare s.l2h s.ph; ph = none })

  -- `state->ph = rfid_protocol_init(state->l2h, ...)`, in the memory `block`
  abbrev take_ph : PcdState W → Layer2Handle W → ProtocolHandle W → Bool → PcdState W
  take_ph s h p true = record s { l2h = shared; ph = some p; world = p.l2h.world }
  take_ph s h p false = record s { l2h = alone p.l2h; ph = none; world = p.l2h.world }

  abbrev init_on : Run (ProtocolHandle W) Bool → PcdState W → Layer2Handle W → Run (PcdState W) Bool
  init_on (ok made p) s h = ok made (take_ph s h p made)
  init_on (returned r p) s h = returned r s
  init_on fault s h = fault
  init_on out_of_fuel s h = out_of_fuel

  abbrev make_ph_of :
      M (ProtocolHandle W) Bool → ProtocolHandle W → Layer2Pointer W → M (PcdState W) Bool
  make_ph_of m block null s = fault
  make_ph_of m block shared s = fault
  make_ph_of m block (alone h) s =
      init_on (m (record block { l2h = record h { world = s.world } })) s h

  unfoldable pub make_ph : M (ProtocolHandle W) Bool → ProtocolHandle W → M (PcdState W) Bool
  make_ph m block s = make_ph_of m block s.l2h s

module _ {W : Type 0} (rdr : Reader W) where
  -- The end of `openpcd_select_card` after a failure
  unfoldable pub give_up : ℤ → M (PcdState W) ℤ
  unfolding on_l2h
  give_up res = do _ ← on_l2h (Layer2.fini rdr); drop_l2h; pure res

  -- `openpcd_select_card`, after `rfid_protocol_open` returned a negative result
  unfoldable pub not_opened : M (PcdState W) ℤ
  unfolding on_ph on_l2h drop_ph give_up
  not_opened = do
    _ ← on_ph (Protocol.fini rdr)
    drop_ph
    _ ← on_l2h (Layer2.close rdr)
    give_up (pcd_error 8)

  abbrev pub after_open : ℤ → M (PcdState W) ℤ
  after_open (pos n) = pure (pos 0)
  after_open (negsuc n) = not_opened

  -- `openpcd_select_card`, with what `rfid_protocol_init` gave
  unfoldable pub after_init : Bool → M (PcdState W) ℤ
  unfolding on_ph on_l2h not_opened give_up
  after_init false = do _ ← on_l2h (Layer2.close rdr); give_up (pcd_error 7)
  after_init true = do rc ← on_ph (Protocol.open_protocol rdr); after_open rc

  -- `openpcd_select_card`, with the result of `rfid_layer2_open`
  unfoldable pub after_layer2 : Bool → ProtocolHandle W → ℤ → M (PcdState W) ℤ
  unfolding make_ph after_init give_up
  after_layer2 allocated block (pos n) = do
    made ← make_ph (Protocol.init rdr 3 allocated) block
    after_init made
  after_layer2 allocated block (negsuc n) = give_up (pcd_error 6)

  -- `openpcd_select_card`: `block` is the memory that `malloc` hands out, and `given` says that the
  -- caller's pointer is not null. Without a handle of the second layer `rfid_layer2_fini` is called
  -- with a null pointer.
  unfoldable pub select_card : Bounds → Bool → Bool → ProtocolHandle W → Bool → M (PcdState W) ℤ
  unfolding on_l2h after_layer2
  select_card n allocated allocated' block given = if not given then pure invalid_parameter else (do
    modify (λ s. record s { l2h = alone block.l2h })
    made ← on_l2h (Layer2.init rdr 1 allocated)
    if not made
        then (λ s. fault)
        else (do rc ← on_l2h (Layer2.open_l2 rdr n); after_layer2 allocated' block rc))

  -- `openpcd_deselect_card`, once the protocol's handle is freed
  unfoldable pub release_l2h : M (PcdState W) ℤ
  unfolding on_l2h
  release_l2h = do
    _ ← on_l2h (Layer2.close rdr)
    _ ← on_l2h (Layer2.fini rdr)
    drop_l2h
    pure (pos 0)

  -- `openpcd_deselect_card`
  unfoldable pub deselect_card : Stack → Bool → M (PcdState W) ℤ
  unfolding on_ph drop_ph release_l2h
  deselect_card stack given s =
      if not given
      then ok invalid_parameter s
      else if not (is_some s.ph)
      then ok closed s
      else (do
        _ ← on_ph (Protocol.close rdr stack)
        _ ← on_ph (Protocol.fini rdr)
        drop_ph
        release_l2h)
          s

  -- `openpcd_cl_auth`, of a page that is not negative
  unfoldable pub cl_auth : ℕ → M (PcdState W) ℤ
  unfolding on_ph
  cl_auth page s =
      if page == 0 || ltb 255 page
      then ok invalid_parameter s
      else if not (is_some s.ph)
      then ok closed s
      else (do
        rc ← on_ph (set_key rdr s.key)
        if is_neg rc then pure (pcd_error 2) else (do
          rc ← on_ph (auth rdr (u8 s.cl_auth) page)
          pure (if is_neg rc then pcd_error 3 else pos 0)))
          s

  -- `openpcd_read` behind its guards; `junk` is what the 16 bytes of `buf` hold.
  unfoldable pub read_at : List ℕ → ℕ → ℕ → M (PcdState W) PcdRead
  unfolding cl_auth on_ph
  read_at junk page len = do
    res ← cl_auth page
    if is_neg res then pure (no_bytes res) else (do
      p ← on_ph (Protocol.read_page rdr page 16)
      pure (
          if is_neg p.ret
          then no_bytes (pcd_error 10)
          else record { ret = pos p.rx_len; content = take len (store_front p.rx_data junk) }))

  abbrev pub read_of : List ℕ → Bool → Option (ℕ × ℕ) → M (PcdState W) PcdRead
  read_of junk given none = pure (no_bytes invalid_parameter)
  read_of junk given (some (page, len)) =
      if not given then pure (no_bytes invalid_parameter) else read_at junk page len

  -- `openpcd_read`
  unfoldable pub read : List ℕ → Bool → ℤ → ℤ → M (PcdState W) PcdRead
  unfolding read_at
  read junk given page len = read_of junk given (page_of page len)

  -- `openpcd_write` behind its guards: the bytes are filled up with zeros to the 16 of a page.
  unfoldable pub write_at : List ℕ → ℕ → ℕ → M (PcdState W) ℤ
  unfolding cl_auth on_ph
  write_at content page len = do
    res ← cl_auth page
    if is_neg res then pure res else (do
      res ← on_ph (Protocol.write_page rdr page (take len content ++ replicate (16 - len) 0) 16)
      pure (if is_refused res then pcd_error 11 else pos len))

  abbrev pub write_of : List ℕ → Bool → Option (ℕ × ℕ) → M (PcdState W) ℤ
  write_of content given none = pure invalid_parameter
  write_of content given (some (page, len)) =
      if not given then pure invalid_parameter else write_at content page len

  -- `openpcd_write`
  unfoldable pub write : List ℕ → Bool → ℤ → ℤ → M (PcdState W) ℤ
  unfolding write_at
  write content given page len = write_of content given (page_of page len)

  -- `openpcd_get_card_id`
  unfoldable pub get_card_id : Bool → M (PcdState W) PcdRead
  unfolding on_l2h
  get_card_id given s =
      if not given
      then ok (no_bytes invalid_parameter) s
      else if not (is_some s.ph)
      then ok (no_bytes closed) s
      else (do
        g ← on_l2h (Layer2.getopt rdr opt_uid 4)
        pure (record {
          ret =
              if is_zero g.ret
              then (if g.optlen == 4 then pos 0 else pcd_error 10)
              else invalid_parameter;
          content = stored_in g.stored;
        }))
          s

  -- `openpcd_set_key`, of six bytes
  unfoldable pub choose_key : Bool → ℕ → List ℕ → M (PcdState W) ℤ
  choose_key given key_id key s =
      if not given
      then ok invalid_parameter s
      else if key_id == 0
      then ok (pos 0) (record s { cl_auth = 0x60; key = take 6 key })
      else if key_id == 1
      then ok (pos 0) (record s { cl_auth = 0x61; key = take 6 key })
      else ok invalid_parameter s

  -- The state that `openpcd_open_reader` makes
  unfoldable pub opened : W → PcdState W
  opened w = record { cl_auth = 0x60; l2h = null; ph = none; key = replicate 6 0xff; world = w }

-- The row of the table of messages for an error, `none` for an unknown one: `openpcd_get_error_text`
unfoldable pub error_row : ℤ → Option ℕ
error_row (pos n) = some 0
error_row (negsuc n) = if ltb 14 n then none else some (n + 1)
