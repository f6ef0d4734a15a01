-- ===== src/Layer2/Options.antt =====
-- Values that pass through the `void *optval` of the option functions.
use librfid.Prelude.{ℕ, ℤ, ◌+◌, ◌*◌, Option, none, some, List}
use librfid.Control.{M, ◌>>=◌, pure, fault, read}

-- What a `getopt` stores through `optval`.
pub data Stored : Type 0 where
  nothing : Stored
  uint8 : ℕ → Stored
  uint : ℕ → Stored
  bytes : List ℕ → Stored

-- The result of a `getopt`, with what it stores through `optval` and leaves in `*optlen`.
pub record GetOpt : Type 0 where
  pub ret : ℤ
  pub stored : Stored
  pub optlen : ℕ

abbrev pub got : ℤ → Stored → ℕ → GetOpt
got r v n = record { ret = r; stored = v; optlen = n }

-- `*(unsigned int *) optval`, on a little-endian machine; `none` is a null pointer.
abbrev pub load_uint : {S : Type 0} → Option (List ℕ) → M S ℕ
load_uint none s = fault
load_uint (some v) s =
    (do
      b0 ← read v 0
      b1 ← read v 1
      b2 ← read v 2
      b3 ← read v 3
      pure (b0 + 256 * b1 + 65536 * b2 + 16777216 * b3))
      s

abbrev pub load_uint8 : {S : Type 0} → Option (List ℕ) → M S ℕ
load_uint8 none s = fault
load_uint8 (some v) s = read v 0 s
