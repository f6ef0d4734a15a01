-- ===== src/Access/Coding/RoundTrip.antt =====
-- Compiling and parsing are inverse, by evaluation of every sector and every encoding.
use librfid.Prelude.{
  ℕ, ◌+◌, ◌-◌, ◌*◌, ◌/◌, ◌%◌, ◌<◌, ◌≡◌, refl, Bool, true, ◌&&◌, ◌==◌, holds_below, holds_below_at,
  arith,
}
use librfid.Access.Coding.{AccessSect, Encoded, compile_access, parse_access}

-- The condition of each block takes three bits.
abbrev pub IsSect : AccessSect → Type 0
IsSect ac = (ac.block_0 < 8) × (ac.block_1 < 8) × (ac.block_2 < 8) × (ac.block_3 < 8)

-- The bytes of an encoding whose inverted copies of the access bits are right.
abbrev pub IsConsistent : Encoded → Type 0
IsConsistent e =
    (e.byte_2 < 256)
    × (e.byte_0 ≡ (15 - e.byte_1 / 16) + 16 * (15 - e.byte_2 % 16))
    × (e.byte_1 % 16 ≡ 15 - e.byte_2 / 16)
    × (e.byte_1 < 256)
    × (e.byte_3 ≡ 0)

abbrev sect : ℕ → ℕ → ℕ → ℕ → AccessSect
sect a b c d = record { block_0 = a; block_1 = b; block_2 = c; block_3 = d }

abbrev same_sect : AccessSect → AccessSect → Bool
same_sect x y =
    x.block_0 == y.block_0
    && x.block_1 == y.block_1
    && x.block_2 == y.block_2
    && x.block_3 == y.block_3

abbrev sect_returns : ℕ → ℕ → ℕ → ℕ → Bool
sect_returns a b c d = same_sect (parse_access (compile_access (sect a b c d))) (sect a b c d)

sect_table :
    holds_below 8
      (λ a. holds_below 8 (λ b. holds_below 8 (λ c. holds_below 8 (sect_returns a b c))))
    ≡ true
unfolding holds_below compile_access parse_access
sect_table = refl

same_sect-eq : (x y : AccessSect) → same_sect x y ≡ true → x ≡ y
same_sect-eq x y h = ground arith

-- Parsing what was compiled from a sector gives back the sector, if the conditions of its four blocks
-- are all below 8.
pub parse_access-compile_access :
    (ac : AccessSect) → IsSect ac → parse_access (compile_access ac) ≡ ac
parse_access-compile_access ac h = same_sect-eq _ ac by_d
  where
    open ac use {block_0, block_1, block_2, block_3}

    by_a : holds_below 8 (λ b. holds_below 8 (λ c. holds_below 8 (sect_returns block_0 b c))) ≡ true
    by_a = holds_below_at 8 _ block_0 sect_table h.0

    by_b : holds_below 8 (λ c. holds_below 8 (sect_returns block_0 block_1 c)) ≡ true
    by_b = holds_below_at 8 _ block_1 by_a h.1

    by_c : holds_below 8 (sect_returns block_0 block_1 block_2) ≡ true
    by_c = holds_below_at 8 _ block_2 by_b h.2

    by_d : sect_returns block_0 block_1 block_2 block_3 ≡ true
    by_d = holds_below_at 8 _ block_3 by_c h.3

-- The consistent encoding of the access bits `c1`, `c2` and `c3`.
abbrev enc : ℕ → ℕ → ℕ → Encoded
enc c1 c2 c3 = record {
  byte_0 = (15 - c1) + 16 * (15 - c2);
  byte_1 = (15 - c3) + 16 * c1;
  byte_2 = c2 + 16 * c3;
  byte_3 = 0;
}

abbrev same_enc : Encoded → Encoded → Bool
same_enc x y =
    x.byte_0 == y.byte_0 && x.byte_1 == y.byte_1 && x.byte_2 == y.byte_2 && x.byte_3 == y.byte_3

abbrev enc_returns : ℕ → ℕ → ℕ → Bool
enc_returns c1 c2 c3 = same_enc (compile_access (parse_access (enc c1 c2 c3))) (enc c1 c2 c3)

enc_table : holds_below 16 (λ c1. holds_below 16 (λ c2. holds_below 16 (enc_returns c1 c2))) ≡ true
unfolding holds_below compile_access parse_access
enc_table = refl

same_enc-eq : (x y : Encoded) → same_enc x y ≡ true → x ≡ y
same_enc-eq x y h = ground arith

enc_lem :
    (c1 c2 c3 : ℕ)
    → c1 < 16
    → c2 < 16
    → c3 < 16
    → compile_access (parse_access (enc c1 c2 c3)) ≡ enc c1 c2 c3
enc_lem c1 c2 c3 h1 h2 h3 = same_enc-eq _ _ (holds_below_at 16 _ c3 by_c2 h3)
  where
    by_c1 : holds_below 16 (λ c. holds_below 16 (enc_returns c1 c)) ≡ true
    by_c1 = holds_below_at 16 _ c1 enc_table h1

    by_c2 : holds_below 16 (enc_returns c1 c2) ≡ true
    by_c2 = holds_below_at 16 _ c2 by_c1 h2

consistent-enc :
    (e : Encoded) → IsConsistent e → e ≡ enc (e.byte_1 / 16) (e.byte_2 % 16) (e.byte_2 / 16)
consistent-enc e h = ground arith

-- Compiling what was parsed from a trailer with right inverted copies and a zero fourth byte gives
-- back the same four bytes.
pub compile_access-parse_access :
    (e : Encoded) → IsConsistent e → compile_access (parse_access e) ≡ e
compile_access-parse_access e h = rw (consistent-enc e h) (
    enc_lem (e.byte_1 / 16) (e.byte_2 % 16) (e.byte_2 / 16) (omega arith) (omega arith)
      (omega arith))
