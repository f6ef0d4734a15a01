-- ===== src/Tools/Cards/Sectors.antt =====
-- The sectors of a card and the pages that a dump prints, utils/librfid-tool.c.
use librfid.Prelude.{
  ℕ, zero, suc, pos, neg_einval, ◌+◌, ◌-◌, ◌*◌, ◌≤◌, ◌<◌, ◌≡◌, refl, sym, ap, ◌∙◌, some, List, [],
  ◌∷◌, ◌++◌, false, ◌==◌, ltb, length, take, drop, store_front, arith, length-append, take-append,
  take-length, if◌then◌else◌,
}
use librfid.Control.{ok}
use librfid.Reader.{Reply}
use librfid.MifareClassic.Pages
use librfid.MifareClassic.Pages.{opt_size, PageRead, size_of, set_key, auth}
use librfid.MifareClassic.Sectors.{sector2block, sector_blocks}
use librfid.Tools.Cards.{prefix, Page, num_sectors}

abbrev pub answer : List ℕ → Reply
answer content = record { ret = pos 0; bytes = content; rx_len = 16 }

-- The pages from `first` on, as they are printed
abbrev pub pages_from : (ℕ → List ℕ) → ℕ → ℕ → List Page
pages_from memory first zero = []
pages_from memory first (suc n) =
    record { number = first; content = memory first } ∷ pages_from memory (first + 1) n

-- How many blocks are printed of a card of this size
abbrev pub blocks_of : ℕ → ℕ
blocks_of size = if size == 320 then 20 else if size == 1024 then 64 else 192

take_all : (content : List ℕ) (n : ℕ) → length content ≡ n → take n content ≡ content
take_all content n e = ap (λ k. take k content) (sym e) ∙ take-length content

pub finish_read-answer :
    (content : List ℕ) (len : ℕ)
    → length content ≡ 16
    → 16 ≤ len
    → Pages.finish_read (answer content) len
      ≡ some (record { ret = pos 0; rx_data = content; rx_len = 16 })
unfolding Pages.finish_read
finish_read-answer content len whole room = ground (arith, take_all content 16 whole)

-- Sixteen bytes that were stored in a buffer are its first sixteen bytes.
pub prefix-store_front :
    {S : Type 0} (content buf : List ℕ) (s : S)
    → length content ≡ 16
    → prefix (store_front content buf) 16 s ≡ ok content s
prefix-store_front content buf s whole =
    let rest = drop (length content) buf in
    let long : ltb (length (content ++ rest)) 16 ≡ false =
      ground (arith, length-append content rest) in
    let front : take 16 (content ++ rest) ≡ content =
      ap (λ k. take k (content ++ rest)) (sym whole) ∙ take-append content rest in
    rw (long, front) refl

-- The number of blocks before a sector, of those that the sectors' functions know
unfoldable pub start : ℕ → ℕ
start sector =
    if ltb sector 32 then 4 * sector else if ltb sector 36 then 128 + 16 * (sector - 32) else 192

module _ (sector : ℕ) (known : sector < 36) where
  pub sector2block-start : sector2block sector ≡ pos (start sector)
  unfolding sector2block start
  sector2block-start = ground arith

  pub sector_blocks-start : sector_blocks sector ≡ pos (start (sector + 1) - start sector)
  unfolding sector_blocks start
  sector_blocks-start = ground arith

start-le : (sector n : ℕ) → start sector ≤ start (sector + n)
unfolding start
start-le sector n = ground arith

pub start_mono : (sector : ℕ) → (start sector ≤ start (sector + 1)) × (start (sector + 1) ≤ 192)
unfolding start
start_mono sector = ground arith

module _ (sector : ℕ) (unknown : 36 ≤ sector) where
  pub sector2block-beyond : sector2block sector ≡ neg_einval
  unfolding sector2block
  sector2block-beyond = ground arith

  pub start-beyond : start (sector + 1) - start sector ≡ 0
  unfolding start
  start-beyond = ground arith

pages_from-append :
    (memory : ℕ → List ℕ) (first n k : ℕ)
    → pages_from memory first n ++ pages_from memory (first + n) k ≡ pages_from memory first (n + k)
pages_from-append memory first zero k =
    ap (λ m. pages_from memory m k) (omega arith) ∙ ap (pages_from memory first) (omega arith)
pages_from-append memory first (suc n) k =
    let same : first + suc n ≡ first + 1 + n = omega arith in
    let one : suc n + k ≡ suc (n + k) = omega arith in
    let page : Page = record { number = first; content = memory first } in
    ap (λ a. page ∷ (pages_from memory (first + 1) n ++ pages_from memory a k)) same
    ∙ ap (λ pages. page ∷ pages) (pages_from-append memory (first + 1) n k)
    ∙ ap (pages_from memory first) (sym one)

module _ (memory : ℕ → List ℕ) (sector : ℕ) where
  pub printed-append :
      (n : ℕ)
      → pages_from memory (start sector) (start (sector + 1) - start sector)
          ++ pages_from memory (start (sector + 1)) (start (sector + 1 + n) - start (sector + 1))
        ≡ pages_from memory (start sector) (start (sector + suc n) - start sector)
  printed-append n =
      let same : sector + 1 + n ≡ sector + suc n = omega arith in
      let rising = start-le sector 1 in
      let rising' = start-le (sector + 1) n in
      let k = start (sector + 1) - start sector in
      let l = start (sector + 1 + n) - start (sector + 1) in
      let met : start (sector + 1) ≡ start sector + k = omega arith in
      let sum : k + l ≡ start (sector + suc n) - start sector = omega (arith, ap start same) in
      ap (λ a. pages_from memory (start sector) k ++ pages_from memory a l) met
      ∙ pages_from-append memory (start sector) k l
      ∙ ap (pages_from memory (start sector)) sum

  pub printed-none : pages_from memory (start sector) (start (sector + 0) - start sector) ≡ []
  printed-none =
      let same : sector + 0 ≡ sector = omega arith in
      let none_left : start (sector + 0) - start sector ≡ 0 = omega (arith, ap start same) in
      ap (pages_from memory (start sector)) none_left

-- The size of a card says how many sectors there are.
pub sectors_of_size :
    (atqa_0 atqa_1 sak size : ℕ)
    → size_of atqa_0 atqa_1 sak ≡ some size
    → (n : ℕ) × (num_sectors size ≡ some n) × (start n ≡ blocks_of size)
unfolding size_of num_sectors start
sectors_of_size atqa_0 atqa_1 sak size e =
    ((if size == 320 then 5 else if size == 1024 then 16 else 40), ground arith, ground arith)
