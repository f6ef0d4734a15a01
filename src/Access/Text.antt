-- ===== src/Access/Text.antt =====
-- `mfcl_access_exp_stringify` and `mfcl_access_exp_acc_stringify`, which print rights into a static
-- buffer of 80 bytes.
pub mod Bounds
use Prim.Native.Char.{code}
use Prim.Native.String.{String}
use librfid.Prelude.{
  ℕ, ◌+◌, Option, none, some, List, [], ◌∷◌, ◌++◌, length, get_or, leb, if◌then◌else◌,
}
use librfid.Access.Rights.{AccessExpBlock, AccessExpAcc}

-- The bytes of a text that is ASCII, without the terminating 0.
abbrev pub codes : String → List ℕ
codes String.[] = []
codes (String.◌∷◌ c s) = code c ∷ codes s

-- `mfcl_access_str`; a right is a bit-field of two bits, so it is one of the four rows.
unfoldable pub access_str : ℕ → List ℕ
access_str right = get_or (codes "NEVER" ∷ codes "A" ∷ codes "B" ∷ codes "A|B" ∷ []) right []

-- `sprintf(buf, ...)` into `char buf[80]`: `none` if the text and its 0 do not fit.
abbrev pub buf_size : ℕ
buf_size = 80

unfoldable pub sprintf_buf : List ℕ → Option (List ℕ)
sprintf_buf text = if leb (length text + 1) buf_size then some text else none

abbrev pub block_text : AccessExpBlock → List ℕ
block_text exp =
    codes "READ: "
    ++ (access_str exp.read
        ++ (codes ", WRITE: "
            ++ (access_str exp.write
                ++ (codes ", INC: "
                    ++ (access_str exp.inc ++ (codes ", DEC: " ++ access_str exp.dec))))))

-- `mfcl_access_exp_stringify`
unfoldable pub access_exp_stringify : AccessExpBlock → Option (List ℕ)
unfolding sprintf_buf
access_exp_stringify exp = sprintf_buf (block_text exp)

abbrev pub acc_text : AccessExpAcc → List ℕ
acc_text acc =
    codes "KEY_A_RD: "
    ++ (access_str acc.key_a_rd
        ++ (codes ", KEY_A_WR: "
            ++ (access_str acc.key_a_wr
                ++ (codes ", ACC_RD: "
                    ++ (access_str acc.acc_rd
                        ++ (codes ", ACC_WR: "
                            ++ (access_str acc.acc_wr
                                ++ (codes ", KEY_B_RD: "
                                    ++ (access_str acc.key_b_rd
                                        ++ (codes ", KEY_B_WR: "
                                            ++ access_str acc.key_b_wr))))))))))

-- `mfcl_access_exp_acc_stringify`
unfoldable pub access_exp_acc_stringify : AccessExpAcc → Option (List ℕ)
unfolding sprintf_buf
access_exp_acc_stringify acc = sprintf_buf (acc_text acc)
