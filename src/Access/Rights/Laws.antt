-- ===== src/Access/Rights/Laws.antt =====
-- What the tables of rights have in common, for every sector that can be parsed from a trailer.
use librfid.Prelude.{ℕ, ◌<◌, ◌≡◌, ◌⊎◌, some, get_elem?, bit_and, ◌>>>◌, get_elem?-of_lt, arith}
use librfid.Access.Coding.{AccessSect, Encoded, parse_access, spread}
use librfid.Access.Coding.RoundTrip.{IsSect}
use librfid.Access.Rights.{
  never, key_a, key_b, AccessExpBlock, AccessExpAcc, AccessExpSect, exp_data, exp_trailer,
  access_to_exp,
}

-- Every key of `xs` is a key of `ys`.
abbrev pub Subset : ℕ → ℕ → Type 0
Subset xs ys = bit_and xs ys ≡ xs

-- What a sector's data blocks have in common.
abbrev pub IsOrdered : AccessExpBlock → Type 0
IsOrdered b = Subset b.write b.read × Subset b.inc b.write × Subset b.dec b.read

-- What the rights of a sector trailer have in common.
pub record IsTrailer (a : AccessExpAcc) : Type 0 where
  pub key_a_secret : a.key_a_rd ≡ never
  pub bits_readable : Subset key_a a.acc_rd
  pub written_together : a.key_a_wr ≡ a.key_b_wr
  pub readable_key_b : (a.key_b_rd ≡ never) ⊎ (bit_and a.key_a_wr key_b ≡ never)
  pub bits_writable : Subset a.acc_wr a.acc_rd

abbrev pub IsSound : AccessExpSect → Type 0
IsSound x = IsOrdered x.block_0 × IsOrdered x.block_1 × IsOrdered x.block_2 × IsTrailer x.acc

spread_lt : (c1 c2 c3 bit : ℕ) → spread c1 c2 c3 bit < 8
spread_lt c1 c2 c3 bit = ground arith

parse_access-IsSect : (e : Encoded) → IsSect (parse_access e)
unfolding parse_access
parse_access-IsSect e =
    let c1 = e.byte_1 >>> 4 in
    let c2 = bit_and e.byte_2 0xf in
    let c3 = e.byte_2 >>> 4 in
    (spread_lt c1 c2 c3 1, spread_lt c1 c2 c3 2, spread_lt c1 c2 c3 4, spread_lt c1 c2 c3 8)

data_IsOrdered : (x : ℕ) {b : AccessExpBlock} → get_elem? exp_data x ≡ some b → IsOrdered b
data_IsOrdered x h = ground arith

trailer_lem : (x : ℕ) {a : AccessExpAcc} → get_elem? exp_trailer x ≡ some a → IsTrailer a
trailer_lem x h = ground arith

access_to_exp-IsSound :
    (s : AccessSect) → IsSect s → (x : AccessExpSect) × (access_to_exp s ≡ some x) × IsSound x
unfolding access_to_exp
access_to_exp-IsSound s (h0, h1, h2, h3) =
    let (b0, e0) = get_elem?-of_lt exp_data s.block_0 h0 in
    let (b1, e1) = get_elem?-of_lt exp_data s.block_1 h1 in
    let (b2, e2) = get_elem?-of_lt exp_data s.block_2 h2 in
    let (a, e3) = get_elem?-of_lt exp_trailer s.block_3 h3 in
    (
      record { block_0 = b0; block_1 = b1; block_2 = b2; acc = a },
      rw (e0, e1, e2, e3),
      (
        data_IsOrdered s.block_0 e0,
        data_IsOrdered s.block_1 e1,
        data_IsOrdered s.block_2 e2,
        trailer_lem s.block_3 e3,
      ),
    )

-- Whatever four bytes are parsed, the tables are read within their bounds, and the rights found are
-- sound. In a data block a key that may write may read, one that may increment may write, and one
-- that may decrement may read. In the trailer key A is never readable, key A reads the access bits,
-- the two keys are written by the same keys, key B writes the keys only where it cannot be read, and
-- who writes the access bits can read them.
pub access_to_exp-parse_access :
    (e : Encoded) → (x : AccessExpSect) × (access_to_exp (parse_access e) ≡ some x) × IsSound x
access_to_exp-parse_access e = access_to_exp-IsSound (parse_access e) (parse_access-IsSect e)
