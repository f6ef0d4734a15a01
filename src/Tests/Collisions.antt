-- ===== src/Tests/Collisions.antt =====
-- Two cards of type A that answer at once.
use librfid.Prelude.{
  ℕ, zero, suc, ℤ, pos, minus_one, is_neg, ◌+◌, ◌-◌, ◌*◌, ◌/◌, ◌%◌, ◌^◌, ◌<◌, ◌≤◌, ◌≡◌, ◌⊎◌, inl,
  inr, refl, Option, some, none, List, [], ◌∷◌, Bool, true, false, ◌&&◌, ◌==◌, leb, test, get_or,
  arith, holds_below, holds_below_at, if◌then◌else◌, ap, sym, ◌∙◌,
}
use mathlib.Core.Path.{subst}
use librfid.Control.{ok}
use librfid.Reader.{Reader, AcfReply, AnticolCmd}
use librfid.Layer2.Handle.{Layer2Handle, iso14443a}
use librfid.Layer2.Iso14443a.Anticol.{anticol, bit_of_col_none}
use librfid.Layer2.Iso14443a.Rand.{code_nvb_bits}
use librfid.Layer2.Iso14443a.Termination.{CollidesBehind, KeepsLevel, anticol_ends}
use librfid.Tests.Fixtures.{World, answering, handle}

-- The bit `i` of an identifier
abbrev bit_at : List ℕ → ℕ → Bool
bit_at uid i = test (get_or uid (i / 8) 0) (2 ^ (i % 8))

abbrev same_bit : List ℕ → List ℕ → ℕ → Bool
same_bit a b i = if bit_at a i then bit_at b i else (if bit_at b i then false else true)

-- Whether two identifiers agree in the first `n` bits
abbrev agrees : List ℕ → List ℕ → ℕ → Bool
agrees a b zero = true
agrees a b (suc n) = agrees a b n && same_bit a b n

-- The first of `n` bits, from `i` on, in which two identifiers differ
abbrev differs : List ℕ → List ℕ → ℕ → ℕ → Option ℕ
differs a b zero i = none
differs a b (suc n) i = if same_bit a b i then differs a b n (i + 1) else some i

differs-bounds : (a b : List ℕ) (n i j : ℕ) → differs a b n i ≡ some j → (i ≤ j) × (j < i + n)
differs-bounds a b zero i j e = cc
differs-bounds a b (suc n) i j e = ground (arith, differs-bounds a b n (i + 1) j)

-- How many bits of the frame a command holds
abbrev bits_of : ℕ → ℕ
bits_of nvb = nvb / 16 * 8 + nvb % 16

abbrev coded_as : ℕ → Option ℕ → Bool
coded_as bits none = true
coded_as bits (some nvb) = (bits_of nvb == bits) && leb 16 bits

abbrev coded : ℕ → Bool
coded bits = coded_as bits (code_nvb_bits bits)

coded_table : holds_below 64 coded ≡ true
unfolding holds_below code_nvb_bits
coded_table = refl

abbrev card_1 : List ℕ
card_1 = 0x04 ∷ 0x11 ∷ 0x22 ∷ 0x33 ∷ 0x04 ∷ []

abbrev card_2 : List ℕ
card_2 = 0x14 ∷ 0x51 ∷ 0x22 ∷ 0xb3 ∷ 0xd4 ∷ []

abbrev one_card : AnticolCmd → List ℕ → AcfReply
one_card acf uid = record {
  ret = pos 0;
  acf = record acf { uid_bits = uid };
  bit_of_col = bit_of_col_none;
}

abbrev both_cards : AnticolCmd → Option ℕ → AcfReply
both_cards acf none = one_card acf card_1
both_cards acf (some i) = record {
  ret = pos 0;
  acf = record acf { uid_bits = card_1 };
  bit_of_col = 17 + i;
}

-- What the reader sees, where each card answers or not
abbrev seen : Bool → Bool → AnticolCmd → ℕ → AcfReply
seen true true acf known = both_cards acf (differs card_1 card_2 (40 - known) known)
seen true false acf known = one_card acf card_1
seen false true acf known = one_card acf card_2
seen false false acf known = record { ret = minus_one; acf = acf; bit_of_col = bit_of_col_none }

-- Each card answers if its identifier begins with the bits of the command.
abbrev answer : AnticolCmd → ℕ → AcfReply
answer acf known =
    seen (agrees acf.uid_bits card_1 known) (agrees acf.uid_bits card_2 known) acf known

abbrev two_cards : Reader World
two_cards = record (answering 3 (0x08 ∷ 0 ∷ 0 ∷ [])) {
  transceive_acf = λ acf w. (answer acf (bits_of acf.nvb - 16), w);
}

abbrev Behind : ℕ → AcfReply → Type 0
Behind bits r =
    (is_neg r.ret ≡ true)
    ⊎ (r.bit_of_col ≡ bit_of_col_none)
    ⊎ ((bits < r.bit_of_col) × (r.bit_of_col ≤ 56))

both-Behind :
    (acf : AnticolCmd) (known : ℕ) (found : Option ℕ)
    → differs card_1 card_2 (40 - known) known ≡ found
    → Behind (16 + known) (both_cards acf found)
both-Behind acf known none e = inr (inl refl)
both-Behind acf known (some i) e =
    let within = differs-bounds card_1 card_2 (40 - known) known i e in
    inr (inr (omega arith, omega arith))

seen-Behind : (m n : Bool) (acf : AnticolCmd) (known : ℕ) → Behind (16 + known) (seen m n acf known)
seen-Behind true true acf known = both-Behind acf known _ refl
seen-Behind true false acf known = inr (inl refl)
seen-Behind false true acf known = inr (inl refl)
seen-Behind false false acf known = inl refl

code-bounds : (bits nvb : ℕ) → code_nvb_bits bits ≡ some nvb → (16 ≤ bits) × (bits < 64)
unfolding code_nvb_bits
code-bounds bits nvb e = ground arith

decoded : (bits nvb : ℕ) → code_nvb_bits bits ≡ some nvb → bits_of nvb ≡ bits
decoded bits nvb e =
    let found : coded bits ≡ true =
      holds_below_at 64 coded bits coded_table (code-bounds bits nvb e).1 in
    let same : (bits_of nvb == bits) && leb 16 bits ≡ true = ap (coded_as bits) (sym e) ∙ found in
    ground arith

two_cards-CollidesBehind : CollidesBehind two_cards
two_cards-CollidesBehind acf bits w e =
    let known = bits_of acf.nvb - 16 in
    let sum : 16 + known ≡ bits =
      omega (arith, decoded bits acf.nvb e, code-bounds bits acf.nvb e) in
    subst (λ b. Behind b (answer acf known)) sum
      (seen-Behind (agrees acf.uid_bits card_1 known) (agrees acf.uid_bits card_2 known) acf known)

abbrev Kept : AnticolCmd → AcfReply → Type 0
Kept acf r = r.acf.sel_code ≡ acf.sel_code

both-Kept : (acf : AnticolCmd) (found : Option ℕ) → Kept acf (both_cards acf found)
both-Kept acf none = refl
both-Kept acf (some i) = refl

seen-Kept : (m n : Bool) (acf : AnticolCmd) (known : ℕ) → Kept acf (seen m n acf known)
seen-Kept true true acf known = both-Kept acf _
seen-Kept true false acf known = refl
seen-Kept false true acf known = refl
seen-Kept false false acf known = refl

two_cards-KeepsLevel : KeepsLevel two_cards
two_cards-KeepsLevel acf w = seen-Kept _ _ acf (bits_of acf.nvb - 16)

-- The first command meets a collision in the fifth bit.
first_collision :
    (answer
      (record { sel_code = 0x93; nvb = 0x20; uid_bits = 0 ∷ 0 ∷ 0 ∷ 0 ∷ 0 ∷ [] })
      0).bit_of_col
    ≡ 21
first_collision = refl

collisions_resolved :
    (r : ℤ) × (h' : Layer2Handle World) × (anticol two_cards 41 (handle iso14443a) ≡ ok r h')
collisions_resolved =
    anticol_ends two_cards 40 two_cards-CollidesBehind two_cards-KeepsLevel (omega arith)
      (handle iso14443a)
