-- ===== src/Tests/Tools.antt =====
-- The programs of utils/ on a script and on a card.
use librfid.Prelude.{
  pos, ◌*◌, ◌≤◌, ◌≡◌, ◌≢◌, ◌⊎◌, refl, some, List, [], ◌∷◌, ◌++◌, replicate, length, false, arith,
}
use librfid.Control.{ok, out_of_fuel}
use librfid.Reader.{Reader}
use librfid.Layer2.Handle.{iso14443a}
use librfid.Tcl.Handle.{tcl, mifare_classic, TclState, ProtocolHandle}
use librfid.MifareClassic.Pages.{size_of}
use librfid.Protocol.{Stack}
use librfid.Tools.Script.{Session, command_of, run_script}
use librfid.Tools.Script.Lines.{
  byte, mark, Line, comment, command, script_of, commands_of, command_of_bounded,
}
use librfid.Tools.Script.Reading.{send_all, run_script-script_of}
use librfid.Tools.Script.Ending.{Stuck, run_script_ends}
use librfid.Tools.Cards.{no_result, classic_dump}
use librfid.Tools.Cards.Sectors.{pages_from}
use librfid.Tools.Cards.Dump.{IsOpenCard, classic_dump_lem}
use librfid.Tests.Fixtures.{World, answering, handle, protocol_handle, tcl_handle}

-- A card that answers each command with the status 90 00
abbrev obliging : Reader World
obliging = answering 3 (0x02 ∷ 0x90 ∷ 0x00 ∷ [])

abbrev stack : Stack
stack = record { fuel = 3; junk = replicate 256 0; frame = replicate 256 0 }

-- A session in which the user agrees to everything
abbrev agreed : Session World
agreed = record {
  ph = protocol_handle iso14443a tcl TclState.established;
  doit = false;
  input = 0x61 ∷ 0x0a ∷ [];
}

-- A comment, and the selection of the master file with spaces between the bytes
abbrev two_lines : List Line
two_lines =
    comment (0x20 ∷ 0x4d ∷ 0x46 ∷ [])
    ∷ command (byte 0x00 ∷ mark 0x20 ∷ byte 0xa4 ∷ mark 0x20 ∷ byte 0x00 ∷ byte 0x0c ∷ [])
    ∷ []

two_lines_run :
    run_script obliging stack 3 (script_of two_lines) (pos 0) agreed
    ≡ send_all obliging stack (commands_of two_lines) (pos 0) agreed
two_lines_run =
    run_script-script_of obliging stack 3 two_lines (pos 0) agreed
      (
        (refl, (refl, (refl, tt))),
        (omega arith),
        (
          (
            omega arith,
            (
              (refl, refl, ground arith),
              (omega arith, ((refl, refl, ground arith), (omega arith, (omega arith, tt)))),
            ),
          ),
          omega arith,
          tt,
        ),
      )
      refl (omega arith)

short_script :
    (run_script obliging stack 30 (script_of two_lines) (pos 0) agreed ≢ out_of_fuel)
    ⊎ Stuck obliging stack (script_of two_lines) (pos 0) agreed
short_script = run_script_ends obliging stack 30 (script_of two_lines) (pos 0) agreed (omega arith)

odd_line : 2 * length (command_of (0x61 ∷ 0x0a ∷ 0x62 ∷ 0x63 ∷ [])) ≤ 4
odd_line = command_of_bounded (0x61 ∷ 0x0a ∷ 0x62 ∷ 0x63 ∷ [])

-- A card whose blocks are zero, behind a reader that takes every key
abbrev blank : Reader World
blank = record (answering 16 (replicate 16 0)) {
  setkey = some (λ key w. (pos 0, w));
  auth = some (λ cmd serno block w. (pos 0, w));
}

blank-IsOpenCard : IsOpenCard blank (λ block. replicate 16 0)
blank-IsOpenCard = (
  λ block w. refl,
  λ block. refl,
  ((λ key w. (pos 0, w)), refl, (λ key w. refl)),
  ((λ cmd serno block w. (pos 0, w)), refl, (λ cmd serno block w. refl)),
)

abbrev found_1k : ProtocolHandle World
found_1k = record {
  l2h = record (handle iso14443a) {
    a = record ((handle iso14443a).a) {
      atqa = record { byte_0 = 0x04; byte_1 = 0x00 };
      sak = 0x08;
    };
    uid = 1 ∷ 2 ∷ 3 ∷ 4 ∷ replicate 6 0;
    uid_len = 4;
  };
  proto = mifare_classic;
  th = tcl_handle TclState.none_yet;
}

blank_dumped :
    (w' : World) × (classic_dump blank (record { ph = found_1k; pages = [] })
      ≡ ok no_result (record {
        ph = record found_1k { l2h = record (found_1k.l2h) { world = w' } };
        pages = [] ++ pages_from (λ block. replicate 16 0) 0 64;
      }))
unfolding size_of
blank_dumped =
    classic_dump_lem blank (λ block. replicate 16 0) blank-IsOpenCard
      (record { ph = found_1k; pages = [] }) 1024 refl refl refl
