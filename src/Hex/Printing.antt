-- ===== src/Hex/Printing.antt =====
-- What `rfid_hexdump`, src/rfid.c, prints.
use librfid.Prelude.{
  ℕ, zero, suc, ◌+◌, ◌*◌, ◌<◌, ◌≡◌, refl, List, [], ◌∷◌, true, false, leb, length, take,
  length-take, bit_and, ◌>>>◌, arith,
}
use librfid.Hex.{space, hex_digit, dump_from, hexdump}

-- Every byte as a space and two digits
abbrev pub all_of : List ℕ → List ℕ
all_of [] = []
all_of (d ∷ bytes) = space ∷ hex_digit (d >>> 4) ∷ hex_digit (bit_and d 0xf) ∷ all_of bytes

dump_from_lem :
    (room i : ℕ) (bytes : List ℕ)
    → i + 3 * room ≡ 1020
    → dump_from i bytes ≡ all_of (take room bytes)
unfolding dump_from
dump_from_lem zero i [] whole = refl
dump_from_lem (suc room) i [] whole = refl
dump_from_lem zero i (d ∷ bytes) whole =
    let full : leb 1020 i ≡ true = ground arith in rw (full) refl
dump_from_lem (suc room) i (d ∷ bytes) whole =
    let fits : leb 1020 i ≡ false = ground arith in
    rw (fits, dump_from_lem room (i + 3) bytes (omega arith)) refl

all_of-length : (bytes : List ℕ) → length (all_of bytes) ≡ 3 * length bytes
all_of-length [] = refl
all_of-length (d ∷ bytes) = let rest = all_of-length bytes in omega arith

-- The dump shows the first 340 bytes, each as a space and two digits, and no more of them, and with
-- the final 0 it stays within its 1024 bytes.
pub hexdump_lem :
    (bytes : List ℕ) → (hexdump bytes ≡ all_of (take 340 bytes)) × (length (hexdump bytes) < 1024)
unfolding hexdump
hexdump_lem bytes =
    let e = dump_from_lem 340 0 bytes refl in
    let room = length-take 340 bytes in
    let whole = all_of-length (take 340 bytes) in (e, rw (e) (omega arith))
