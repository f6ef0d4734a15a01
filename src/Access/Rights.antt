-- ===== src/Access/Rights.antt =====
-- The rights that each condition gives: `mfcl_exp_data`, `mfcl_exp_trailer` and `mfcl_access_to_exp`.
pub mod Laws
use librfid.Prelude.{ℕ, ◌+◌, Option, none, some, List, [], ◌∷◌, get_elem?, bit_or}
use librfid.Access.Coding.{AccessSect}

abbrev pub never : ℕ
never = 0

abbrev pub key_a : ℕ
key_a = 1

abbrev pub key_b : ℕ
key_b = 2

abbrev pub both : ℕ
both = bit_or key_a key_b

-- `struct mfcl_access_exp_block`
pub record AccessExpBlock : Type 0 where
  pub read : ℕ
  pub write : ℕ
  pub inc : ℕ
  pub dec : ℕ

-- `struct mfcl_access_exp_acc`
pub record AccessExpAcc : Type 0 where
  pub key_a_rd : ℕ
  pub key_a_wr : ℕ
  pub acc_rd : ℕ
  pub acc_wr : ℕ
  pub key_b_rd : ℕ
  pub key_b_wr : ℕ

-- `struct mfcl_access_exp_sect`
pub record AccessExpSect : Type 0 where
  pub block_0 : AccessExpBlock
  pub block_1 : AccessExpBlock
  pub block_2 : AccessExpBlock
  pub acc : AccessExpAcc

abbrev pub exp_block : ℕ → ℕ → ℕ → ℕ → AccessExpBlock
exp_block r w i d = record { read = r; write = w; inc = i; dec = d }

-- `mfcl_exp_data`, its rows in the order of their numbers
abbrev pub exp_data : List AccessExpBlock
exp_data =
    exp_block both both both both
    ∷ exp_block both key_b never never
    ∷ exp_block both never never never
    ∷ exp_block both key_b key_b both
    ∷ exp_block both never never both
    ∷ exp_block key_b never never never
    ∷ exp_block key_b key_b never never
    ∷ exp_block never never never never
    ∷ []

abbrev pub exp_acc : ℕ → ℕ → ℕ → ℕ → ℕ → ℕ → AccessExpAcc
exp_acc ar aw cr cw br bw = record {
  key_a_rd = ar;
  key_a_wr = aw;
  acc_rd = cr;
  acc_wr = cw;
  key_b_rd = br;
  key_b_wr = bw;
}

-- `mfcl_exp_trailer`, its rows in the order of their numbers
abbrev pub exp_trailer : List AccessExpAcc
exp_trailer =
    exp_acc never key_a key_a never key_a key_a
    ∷ exp_acc never key_b both never never key_b
    ∷ exp_acc never never key_a never key_a never
    ∷ exp_acc never never both never never never
    ∷ exp_acc never key_a key_a key_a key_a key_a
    ∷ exp_acc never never both key_b never never
    ∷ exp_acc never key_b both key_b never key_b
    ∷ exp_acc never never both never never never
    ∷ []

-- `mfcl_access_to_exp`; `none` is a read behind one of the tables.
infixl 5 ◌>>=◌
abbrev ◌>>=◌ {ℓ κ} : {A : Type ℓ} {B : Type κ} → Option A → (A → Option B) → Option B
none >>= f = none
some a >>= f = f a

unfoldable pub access_to_exp : AccessSect → Option AccessExpSect
access_to_exp sect = do
  b0 ← get_elem? exp_data sect.block_0
  b1 ← get_elem? exp_data sect.block_1
  b2 ← get_elem? exp_data sect.block_2
  a ← get_elem? exp_trailer sect.block_3
  some (record { block_0 = b0; block_1 = b1; block_2 = b2; acc = a })
