-- ===== src/Layer2/Iso14443a/Anticol.antt =====
-- `iso14443a_anticol` and the functions that it calls on the reader.
use librfid.Prelude.{
  ℕ, zero, suc, ℤ, pos, minus_one, is_neg, List, ◌∷◌, get_or, take, drop, overlay, overlay_at,
  replicate, true, false, not, ◌==◌, bit_and, bit_or, ◌*◌, ◌<<<◌, test, if◌then◌else◌,
}
use librfid.Control.{
  M, ok, returned, fault, out_of_fuel, ◌>>=◌, ◌>>◌, pure, leave, leave_if, leave_neg, get, modify,
  call,
}
use librfid.Reader.{Reader, Reply, Atqa, AnticolCmd, AcfReply, FrameType, frame_14443a_regular}
use librfid.Layer2.Handle.{
  Layer2Handle, AState, ALevel, level_none, level_cl1, level_cl2, level_cl3, with_world, modify_a,
  reader_transceive,
}
use librfid.Layer2.Iso14443a.Rand.{rnd_toggle_bit_in_field, set_nvb}

abbrev pub cmd_reqa : ℕ
cmd_reqa = 0x26

abbrev pub cmd_wupa : ℕ
cmd_wupa = 0x52

abbrev pub sel_cl1 : ℕ
sel_cl1 = 0x93

abbrev pub sel_cl2 : ℕ
sel_cl2 = 0x95

abbrev pub sel_cl3 : ℕ
sel_cl3 = 0x97

-- `ISO14443A_BITOFCOL_NONE`
abbrev pub bit_of_col_none : ℕ
bit_of_col_none = 0xffffffff

-- `RFID_OPT_LAYER2_WUP`, which is used as a mask of `flags`
abbrev pub opt_layer2_wup : ℕ
opt_layer2_wup = 0x0003

-- The bit-fields of `struct iso14443a_atqa`
abbrev pub bf_anticol : Atqa → ℕ
bf_anticol q = bit_and q.byte_0 0x1f

abbrev pub no_atqa : Atqa
no_atqa = record { byte_0 = 0; byte_1 = 0 }

abbrev pub no_acf : AnticolCmd
no_acf = record { sel_code = 0; nvb = 0; uid_bits = replicate 5 0 }

-- The bytes of an anticollision command, as they are sent to select the card.
abbrev pub acf_bytes : AnticolCmd → List ℕ
acf_bytes acf = acf.sel_code ∷ acf.nvb ∷ acf.uid_bits

module _ {W : Type 0} (rdr : Reader W) where
  abbrev pub H : Type 0
  H = Layer2Handle W

  -- `iso14443a_transceive_sf`, which stores the answer in the handle
  unfoldable pub transceive_sf : ℕ → M H ℤ
  transceive_sf cmd = do
    h ← get
    r ← with_world (rdr.transceive_sf cmd h.a.atqa)
    modify_a (λ a. record a { atqa = r.atqa })
    pure r.ret

  -- `iso14443a_transceive_acf`
  unfoldable pub transceive_acf : AnticolCmd → M H AcfReply
  transceive_acf acf = with_world (rdr.transceive_acf acf)

  -- `iso14443a_transceive`
  unfoldable pub transceive : FrameType → List ℕ → ℕ → ℕ → ℕ → M H Reply
  transceive frametype tx rx_len timeout flags =
      reader_transceive rdr frametype tx rx_len timeout flags

  -- The body of the loop that resolves collisions.
  unfoldable pub resolve_round : AnticolCmd → ℕ → M H AcfReply
  unfolding transceive_acf
  resolve_round acf bit_of_col = do
    h ← get
    let (bits, rand) = rnd_toggle_bit_in_field acf.uid_bits 5 bit_of_col h.rand
    modify (λ h. record h { rand = rand })
    r ← transceive_acf (record acf { nvb = set_nvb bit_of_col acf.nvb; uid_bits = bits })
    leave_neg r.ret
    pure r

  -- `while (bit_of_col != ISO14443A_BITOFCOL_NONE)`
  unfoldable pub resolve : ℕ → AnticolCmd → ℕ → M H AnticolCmd
  resolve zero acf bit_of_col h = out_of_fuel
  resolve (suc fuel) acf bit_of_col h = elim (bit_of_col == bit_of_col_none) [
    | true ↦ ok acf h
    | false ↦ (do r ← resolve_round acf bit_of_col; resolve fuel r.acf r.bit_of_col) h
  ]

  -- From the label `cascade` to the answer to the selection: the command as the reader left it,
  -- and the bytes of `sak`.
  unfoldable pub select_level : ℕ → AnticolCmd → List ℕ → M H (AnticolCmd × List ℕ)
  unfolding transceive_acf transceive
  select_level fuel acf sak = do
    r ← transceive_acf (record acf { nvb = set_nvb 16 acf.nvb })
    leave_neg r.ret
    acf' ← resolve fuel r.acf r.bit_of_col
    let sel = record acf' { nvb = set_nvb (7 * 8) acf'.nvb }
    s ← transceive frame_14443a_regular (take 7 (acf_bytes sel)) 3 1236 0
    leave_neg s.ret
    pure (sel, overlay s.bytes sak)

  -- `memcpy(&handle->uid[at], &acf.uid_bits[from], n)`
  unfoldable pub copy_uid : ℕ → ℕ → ℕ → AnticolCmd → M H (Unit {0})
  copy_uid at from n acf =
      modify (λ h. record h { uid = overlay_at at (take n (drop from acf.uid_bits)) h.uid })

  -- The `switch` under the test of the cascade bit: the command for the next level.
  unfoldable pub cascade_up : AnticolCmd → M H AnticolCmd
  unfolding copy_uid
  cascade_up acf =
      if acf.sel_code == sel_cl1
      then (do
        leave_if (not (get_or acf.uid_bits 0 0 == 0x88)) minus_one
        copy_uid 0 1 3 acf
        modify_a (λ a. record a { level = level_cl2 })
        pure (record acf { sel_code = sel_cl2 }))
      else if acf.sel_code == sel_cl2
      then (do
        copy_uid 3 1 3 acf
        modify_a (λ a. record a { level = level_cl3 })
        pure (record acf { sel_code = sel_cl3 }))
      else (do modify_a (λ a. record a { state = AState.error }); leave minus_one)

  -- The `switch` after the last level: where the last four bytes go.
  unfoldable pub finish_uid : AnticolCmd → M H (Unit {0})
  unfolding copy_uid
  finish_uid acf =
      if acf.sel_code == sel_cl1
      then copy_uid 0 0 4 acf
      else if acf.sel_code == sel_cl2
      then copy_uid 3 0 4 acf
      else if acf.sel_code == sel_cl3
      then copy_uid 6 0 4 acf
      else pure tt

  -- `goto cascade`, with the rounds that are left; three suffice.
  unfoldable pub cascade : ℕ → ℕ → AnticolCmd → List ℕ → M H (AnticolCmd × List ℕ)
  cascade zero fuel acf sak h = out_of_fuel
  cascade (suc rounds) fuel acf sak h = elim (select_level fuel acf sak h) [
    | ok (acf', sak') h' ↦ elim (test (get_or sak' 0 0) 0x04) [
      | true ↦ elim (cascade_up acf' h') [
        | ok next h'' ↦ cascade rounds fuel next sak' h''
        | returned r h'' ↦ returned r h''
        | fault ↦ fault
        | out_of_fuel ↦ out_of_fuel
      ]
      | false ↦ ok (acf', sak') h'
    ]
    | returned r h' ↦ returned r h'
    | fault ↦ fault
    | out_of_fuel ↦ out_of_fuel
  ]

  abbrev pub uid_len_of : ALevel → ℕ
  uid_len_of level_cl1 = 4
  uid_len_of level_cl2 = 7
  uid_len_of _ = 10

  -- What follows the identifier: its length, and what the answer to the selection says of the card.
  unfoldable pub set_selected : ℕ → M H (Unit {0})
  set_selected sak = modify (λ h. record h {
    uid_len = uid_len_of h.a.level;
    a = record (h.a) {
      level = level_none;
      state = AState.selected;
      sak = sak;
      tcl_capable = if test sak 0x20 then 1 else 0;
    };
    proto_supported = if test sak 0x20 then 1 <<< 1 else bit_or (1 <<< 2) (1 <<< 3);
  })

  -- The start: REQA or WUPA, and the tests of its answer.
  unfoldable pub request : M H (Unit {0})
  unfolding transceive_sf
  request = do
    modify (λ h. record h { uid = replicate 10 0; a = record (h.a) { atqa = no_atqa; sak = 0 } })
    h ← get
    ret ← transceive_sf (if test h.flags opt_layer2_wup then cmd_wupa else cmd_reqa)
    modify_a (λ a. record a { state = if is_neg ret then AState.reqa_sent else AState.atqa_rcvd })
    leave_neg ret
    h' ← get
    modify_a (λ a. record a {
      state = if bf_anticol a.atqa == 0 then AState.no_bitframe_anticol else AState.anticol_running;
    })
    leave_if (bf_anticol h'.a.atqa == 0) minus_one

  -- `iso14443a_anticol`; `fuel` bounds the rounds of each loop that resolves collisions.
  unfoldable pub anticol : ℕ → M H ℤ
  anticol fuel = call (do
    request
    modify_a (λ a. record a { level = level_cl1 })
    (acf, sak) ← cascade 3 fuel (record no_acf { sel_code = sel_cl1 }) (replicate 3 0)
    finish_uid acf
    set_selected (get_or sak 0 0)
    pure (pos 0))
