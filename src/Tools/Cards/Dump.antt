-- ===== src/Tools/Cards/Dump.antt =====
-- What `mifare_classic_dump`, utils/librfid-tool.c, prints of a card that the default key opens.
use librfid.Prelude.{
  ℕ, zero, suc, ℤ, pos, neg_einval, is_neg, ◌+◌, ◌-◌, ◌*◌, ◌≤◌, ◌<◌, ◌≡◌, refl, sym, ap, ◌∙◌, some,
  none, List, [], ◌∷◌, ◌++◌, false, ltb, length, store_front, arith, append_assoc, bit_and_byte,
  get_or, Bool-cases, inl, inr,
}
use mathlib.Core.List.{append-nil}
use librfid.Control.{ok}
use librfid.Reader.{Reader, frame_mifare}
use librfid.Layer2.Handle.{iso14443a}
use librfid.Layer2.Dispatch as Layer2
use librfid.Layer2.Iso14443a.Anticol
use librfid.Layer2.Iso14443a.Session
use librfid.Tcl.Handle.{mifare_classic}
use librfid.MifareClassic.Pages
use librfid.MifareClassic.Pages.{opt_size, PageRead, size_of, set_key, auth}
use librfid.Layer2.Options.{uint, got}
use librfid.MifareClassic.Sectors.{sector2block}
use librfid.Protocol
use librfid.Tools.Cards.{
  Page, Program, no_result, classic_read_sector, read_blocks, default_key, auth1a, to_u8,
  dump_sector, dump_from, dump_of, classic_dump, on_ph,
}
use librfid.Tools.Cards.Sectors.{
  answer, pages_from, blocks_of, start, finish_read-answer, prefix-store_front, sector2block-start,
  sector_blocks-start, start_mono, sector2block-beyond, start-beyond, printed-append, printed-none,
  sectors_of_size,
}

-- A card in the field of a reader that can authenticate: each key is taken, and each block is read as
-- the 16 bytes that the memory has there.
abbrev pub IsOpenCard : {W : Type 0} → Reader W → (ℕ → List ℕ) → Type 0
IsOpenCard {W} rdr memory =
    ((block : ℕ) (w : W)
      → (rdr.transceive frame_mifare (0x30 ∷ block ∷ []) 16 250 0 w).0 ≡ answer (memory block))
    × ((block : ℕ) → length (memory block) ≡ 16)
    × ((f : List ℕ → W → ℤ × W) × (rdr.setkey ≡ some f)
        × ((key : List ℕ) (w : W) → is_neg (f key w).0 ≡ false))
    × ((f : ℕ → ℕ → ℕ → W → ℤ × W) × (rdr.auth ≡ some f)
        × ((cmd serno block : ℕ) (w : W) → is_neg (f cmd serno block w).0 ≡ false))

module _ {W : Type 0} (rdr : Reader W) (memory : ℕ → List ℕ) (card : IsOpenCard rdr memory)
    (h : Program W) where
  -- The program with a card of Mifare Classic on type A, with the world and the pages as given
  abbrev with_pages : W → List Page → Program W
  with_pages w pages = record {
    ph = record (h.ph) {
      proto = mifare_classic;
      l2h = record (h.ph.l2h) { l2 = iso14443a; world = w };
    };
    pages = pages;
  }

  abbrev page_read : ℕ → PageRead
  page_read block = record { ret = pos 0; rx_data = memory block; rx_len = 16 }

  abbrev behind : ℕ → W → W
  behind block w = (rdr.transceive frame_mifare (0x30 ∷ block ∷ []) 16 250 0 w).1

  read_page_at :
      (block len : ℕ) (w : W) (pages : List Page)
      → block < 256
      → 16 ≤ len
      → on_ph rdr (Protocol.read_page rdr block len) (with_pages w pages)
        ≡ ok (page_read block) (with_pages (behind block w) pages)
  unfolding Protocol.read_page Pages.read_page Layer2.transceive Anticol.transceive
  read_page_at block len w pages small room = ground (
    arith,
    bit_and_byte block small,
    card.0 block w,
    finish_read-answer (memory block) len (card.1 block) room,
  )

  -- Blocks are read and printed one after the other.
  read_blocks_at :
      (n block len : ℕ) (buf : List ℕ) (w : W) (pages : List Page)
      → block + n ≤ 256
      → 16 ≤ len
      → (w' : W) × (read_blocks rdr n block len buf (with_pages w pages)
          ≡ ok (pos 0) (with_pages w' (pages ++ pages_from memory block n)))
  unfolding read_blocks
  read_blocks_at zero block len buf w pages small room =
      (w, ap (λ p. ok (pos 0) (with_pages w p)) (sym (append-nil pages)))
  read_blocks_at (suc n) block len buf w pages small room =
      let stored = store_front (memory block) buf in
      let page : Page = record { number = block; content = memory block } in
      let (w', rest) =
        read_blocks_at n (block + 1) 16 stored (behind block w) (pages ++ page ∷ []) (omega arith)
          (omega arith) in
      (
        w',
        rw
            (
              read_page_at block len w pages (omega arith) room,
              prefix-store_front (memory block) buf (with_pages (behind block w) pages)
                  (card.1 block),
            )
            (rest
              ∙ ap (λ p. ok (pos 0) (with_pages w' p))
                  (append_assoc pages (page ∷ []) (pages_from memory (block + 1) n))),
      )

  abbrev printed : ℕ → List Page
  printed sector = pages_from memory (start sector) (start (sector + 1) - start sector)

  read_sector_at :
      (sector : ℕ) (w : W) (pages : List Page)
      → (r : ℤ) × (w' : W) × (classic_read_sector rdr sector (with_pages w pages)
          ≡ ok r (with_pages w' (pages ++ printed sector)))
  unfolding classic_read_sector
  read_sector_at sector w pages = elim (Bool-cases (ltb sector 36)) [
    | inl known ↦
        let (w', e) =
          read_blocks_at (start (sector + 1) - start sector) (start sector) 20 [] w pages
            (omega (arith, start_mono sector)) (omega arith) in
        (
          pos 0,
          w',
          rw
              (
                sector2block-start sector (ground arith),
                sector_blocks-start sector (ground arith),
                e,
              )
              refl,
        )
    | inr unknown ↦ (
      neg_einval,
      w,
      rw (sector2block-beyond sector (ground arith), start-beyond sector (ground arith))
          (ap (λ p. ok neg_einval (with_pages w p)) (sym (append-nil pages))),
    )
  ]

  set_key_at :
      (key : List ℕ) (w : W) (pages : List Page)
      → (r : ℤ) × (w' : W) × (is_neg r ≡ false)
        × (on_ph rdr (set_key rdr key) (with_pages w pages) ≡ ok r (with_pages w' pages))
  unfolding set_key
  set_key_at key w pages =
      let (f, e, taken) = card.2 in ((f key w).0, (f key w).1, taken key w, rw e refl)

  auth_at :
      (cmd block : ℕ) (w : W) (pages : List Page)
      → (r : ℤ) × (w' : W) × (is_neg r ≡ false)
        × (on_ph rdr (auth rdr cmd block) (with_pages w pages) ≡ ok r (with_pages w' pages))
  unfolding auth
  auth_at cmd block w pages =
      let (f, e, taken) = card.3 in
      let uid = λ (i : ℕ). get_or h.ph.l2h.uid i 0 in
      let serno = uid 0 + 256 * uid 1 + 65536 * uid 2 + 16777216 * uid 3 in
      ((f cmd serno block w).0, (f cmd serno block w).1, taken cmd serno block w, rw e refl)

  dump_sector_at :
      (sector : ℕ) (w : W) (pages : List Page)
      → (w' : W) × (dump_sector rdr sector (with_pages w pages)
          ≡ ok none (with_pages w' (pages ++ printed sector)))
  unfolding dump_sector
  dump_sector_at sector w pages =
      let (r, w1, good, set) = set_key_at default_key w pages in
      let (r', w2, good', authenticated) = auth_at auth1a (to_u8 (sector2block sector)) w1 pages in
      let (r'', w3, e) = read_sector_at sector w2 pages in
      (w3, rw (set, good, authenticated, good', e) refl)

  dump_from_at :
      (n sector : ℕ) (w : W) (pages : List Page)
      → (w' : W) × (dump_from rdr n sector (with_pages w pages)
          ≡ ok no_result (
              with_pages w'
                (pages ++ pages_from memory (start sector) (start (sector + n) - start sector))))
  unfolding dump_from
  dump_from_at zero sector w pages = (
    w,
    ap (λ p. ok no_result (with_pages w p))
        (sym (append-nil pages) ∙ ap (λ p. pages ++ p) (sym (printed-none memory sector))),
  )
  dump_from_at (suc n) sector w pages =
      let (w1, e) = dump_sector_at sector w pages in
      let (w2, rest) = dump_from_at n (sector + 1) w1 (pages ++ printed sector) in
      (
        w2,
        rw e (
            rest
            ∙ ap (λ p. ok no_result (with_pages w2 p))
                (append_assoc pages (printed sector) _
                  ∙ ap (λ p. pages ++ p) (printed-append memory sector n))),
      )

  size_at :
      (size : ℕ) (w : W) (pages : List Page)
      → size_of h.ph.l2h.a.atqa.byte_0 h.ph.l2h.a.atqa.byte_1 h.ph.l2h.a.sak ≡ some size
      → on_ph rdr (Protocol.getopt rdr opt_size 4) (with_pages w pages)
        ≡ ok (got (pos 0) (uint size) 4) (with_pages w pages)
  unfolding Protocol.getopt Pages.getopt Layer2.getopt Session.getopt
  size_at size w pages e = ground (arith, e)

  classic_dump_at :
      (size : ℕ) (w : W) (pages : List Page)
      → size_of h.ph.l2h.a.atqa.byte_0 h.ph.l2h.a.atqa.byte_1 h.ph.l2h.a.sak ≡ some size
      → (w' : W) × (classic_dump rdr (with_pages w pages)
          ≡ ok no_result (with_pages w' (pages ++ pages_from memory 0 (blocks_of size))))
  unfolding classic_dump
  classic_dump_at size w pages e =
      let (n, sectors, blocks) =
        sectors_of_size h.ph.l2h.a.atqa.byte_0 h.ph.l2h.a.atqa.byte_1 h.ph.l2h.a.sak size e in
      let (w', dumped) = dump_from_at n 0 w pages in
      let from : start 0 ≡ 0 = unfold start in refl in
      let same : 0 + n ≡ n = omega arith in
      let count : start (0 + n) - start 0 ≡ blocks_of size =
        omega (arith, ap start same, blocks, from) in
      (
        w',
        rw (size_at size w pages e) (ap (λ o. dump_of rdr o (with_pages w pages)) sectors ∙ dumped)
            ∙ ap (λ p. ok no_result (with_pages w' (pages ++ p)))
                (ap (λ a. pages_from memory a (start (0 + n) - start 0)) from
                  ∙ ap (pages_from memory 0) count),
      )

  -- Let a card of Mifare Classic be in the field, opened by every key and giving 16 bytes for each
  -- block, and let its ATQA and SAK tell its size. Then the dump ends without leaving the program and
  -- prints the blocks from 0 on, each once, in order and with its content: all 20 of a card with 320
  -- bytes and all 64 of a card with 1024 bytes, but of the 256 of a card with 4096 bytes only the
  -- first 192.
  pub classic_dump_lem :
      (size : ℕ)
      → h.ph.proto ≡ mifare_classic
      → h.ph.l2h.l2 ≡ iso14443a
      → size_of h.ph.l2h.a.atqa.byte_0 h.ph.l2h.a.atqa.byte_1 h.ph.l2h.a.sak ≡ some size
      → (w' : W) × (classic_dump rdr h
          ≡ ok no_result (record h {
            ph = record (h.ph) { l2h = record (h.ph.l2h) { world = w' } };
            pages = h.pages ++ pages_from memory 0 (blocks_of size);
          }))
  classic_dump_lem size classic a e =
      let (w', dumped) = classic_dump_at size h.ph.l2h.world h.pages e in
      let whole : h ≡ with_pages h.ph.l2h.world h.pages = ground arith in
      let same : with_pages w' (h.pages ++ pages_from memory 0 (blocks_of size)) ≡ record h {
        ph = record (h.ph) { l2h = record (h.ph.l2h) { world = w' } };
        pages = h.pages ++ pages_from memory 0 (blocks_of size);
      } =
        ground arith in
      (w', ap (classic_dump rdr) whole ∙ dumped ∙ ap (ok no_result) same)
