-- ===== src/Tcl/Deviations.antt =====
-- Where src/rfid_proto_tcl.c leaves ISO 14443-4: the place of the CID and the start-up guard time.
use librfid.Prelude.{
  ℕ, ◌<◌, ◌≡◌, min, List, ◌∷◌, get_elem?, some, true, false, test, bit_and, arith, u8, ltb, refl,
  holds_below, holds_below_at,
}
use librfid.Tcl.Handle.{TclHandle, cid_used, nad_used}
use librfid.Tcl.Prologue.{build_prologue2, build_prologue_i}
use librfid.Tcl.Ats.{fwi_to_fwt}

-- With a card identifier in use and no node address, the header of an I-block is said to have two
-- bytes, but the identifier is stored behind them: the second byte is the one that stood in the
-- buffer before.
pub build_prologue_i_cid :
    (th : TclHandle) (a b c : ℕ) (rest : List ℕ)
    → test th.flags cid_used ≡ true
    → test th.flags nad_used ≡ false
    → ((build_prologue_i th (a ∷ b ∷ c ∷ rest)).len ≡ 2)
      × (get_elem? (build_prologue_i th (a ∷ b ∷ c ∷ rest)).buf 1 ≡ some b)
      × (get_elem? (build_prologue_i th (a ∷ b ∷ c ∷ rest)).buf 2 ≡ some (bit_and th.cid 0x0f))
unfolding build_prologue_i build_prologue2
build_prologue_i_cid th a b c rest cid nad = ground arith

sfgt_table : holds_below 15 (λ n. ltb 255 (fwi_to_fwt 13560000 n)) ≡ true
unfolding holds_below fwi_to_fwt
sfgt_table = refl

large_index : (n : ℕ) → fwi_to_fwt 13560000 n ≡ fwi_to_fwt 13560000 (min n 14)
unfolding fwi_to_fwt
large_index n = ground arith

-- At a carrier of 13.56 MHz every start-up frame guard time is more than the `unsigned char` that
-- keeps it can hold: what is stored is less than what was computed.
pub sfgt_truncated : (n : ℕ) → u8 (fwi_to_fwt 13560000 n) < fwi_to_fwt 13560000 n
sfgt_truncated n = ground (
  arith,
  large_index n,
  holds_below_at 15 (λ n. ltb 255 (fwi_to_fwt 13560000 n)) (min n 14) sfgt_table (omega arith),
)
