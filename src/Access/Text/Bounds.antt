-- ===== src/Access/Text/Bounds.antt =====
-- Which printed rights fit the buffer of 80 bytes.
use librfid.Prelude.{
  ℕ, ◌≤◌, ◌≡◌, ◌≢◌, ◌↔◌, none, some, List, ◌∷◌, ◌++◌, length, length-append, get_elem?, arith,
}
use librfid.Access.Rights.{AccessExpBlock, AccessExpAcc, exp_trailer}
use librfid.Access.Text.{
  codes, access_str, block_text, access_exp_stringify, access_exp_acc_stringify,
}

length-access_str : (right : ℕ) → length (access_str right) ≤ 5
unfolding access_str
length-access_str right = ground arith

length-block_text : (exp : AccessExpBlock) → length (block_text exp) ≤ 49
length-block_text exp = omega (
  arith,
  length-append (access_str exp.read) (44 ∷ 32 ∷ 87 ∷ 82 ∷ 73 ∷ 84 ∷ 69 ∷ 58 ∷ 32 ∷ w),
  length-append (access_str exp.write) (44 ∷ 32 ∷ 73 ∷ 78 ∷ 67 ∷ 58 ∷ 32 ∷ i),
  length-append (access_str exp.inc) (44 ∷ 32 ∷ 68 ∷ 69 ∷ 67 ∷ 58 ∷ 32 ∷ access_str exp.dec),
  length-access_str exp.read,
  length-access_str exp.write,
  length-access_str exp.inc,
  length-access_str exp.dec,
)
  where
    i : List ℕ
    i = access_str exp.inc ++ (codes ", DEC: " ++ access_str exp.dec)

    w : List ℕ
    w = access_str exp.write ++ (codes ", INC: " ++ i)

-- Whatever its rights, the text of a data block fits the buffer, and it is what is stored there.
pub access_exp_stringify_fits :
    (exp : AccessExpBlock) → access_exp_stringify exp ≡ some (block_text exp)
unfolding access_exp_stringify
access_exp_stringify_fits exp = ground (arith, length-block_text exp)

-- Of the eight conditions of a sector trailer only number 4 prints into the buffer; the text of each of the others runs over its end.
pub access_exp_acc_stringify_overflow_iff :
    (x : ℕ) (acc : AccessExpAcc)
    → get_elem? exp_trailer x ≡ some acc
    → (access_exp_acc_stringify acc ≡ none) ↔ (x ≢ 4)
unfolding access_exp_acc_stringify access_str
access_exp_acc_stringify_overflow_iff x acc h = ground arith
