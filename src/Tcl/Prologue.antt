-- ===== src/Tcl/Prologue.antt =====
-- The prologue of a block: `tcl_build_prologue2` and the functions that call it.
use librfid.Prelude.{
  ℕ, ◌+◌, List, set, Bool, ◌&&◌, ◌==◌, bit_and, bit_or, test, if◌then◌else◌, get_or,
}
use librfid.Tcl.Handle.{TclHandle, nad_used, cid_used, cid_following, nad_following}

-- `is_s_block`, `is_r_block`, `is_i_block`
abbrev pub is_s_block : ℕ → Bool
is_s_block pcb = bit_and pcb 0xc0 == 0xc0

abbrev pub is_r_block : ℕ → Bool
is_r_block pcb = bit_and pcb 0xc0 == 0x80

abbrev pub is_i_block : ℕ → Bool
is_i_block pcb = bit_and pcb 0xc0 == 0x00

-- What `tcl_build_prologue2` changes: the handle, the buffer and `*prlg_len`.
pub record Prologue : Type 0 where
  pub th : TclHandle
  pub buf : List ℕ
  pub len : ℕ

-- The buffer's first byte becomes the PCB; each `*prlg |= mask` is done on it.
abbrev or_first : List ℕ → ℕ → List ℕ
or_first buf mask = set buf 0 (bit_or (get_or buf 0 0) mask)

abbrev pub with_toggle : ℕ → Prologue → Prologue
with_toggle pcb p =
    if is_s_block pcb
    then p
    else if p.th.toggle == 0
    then record p { th = record (p.th) { toggle = 1 }; buf = or_first p.buf 0x01 }
    else record p { th = record (p.th) { toggle = 0 } }

-- The length grows before the identifier is stored, so it goes to index 2.
abbrev pub with_cid : Prologue → Prologue
with_cid p =
    if test p.th.flags cid_used
    then record p {
      buf = set (or_first p.buf cid_following) (p.len + 1) (bit_and p.th.cid 0x0f);
      len = p.len + 1;
    }
    else p

abbrev pub with_nad : ℕ → Prologue → Prologue
with_nad pcb p =
    if test p.th.flags nad_used && is_i_block pcb
    then record p { buf = set (or_first p.buf nad_following) p.len p.th.nad; len = p.len + 1 }
    else p

-- `tcl_build_prologue2`
unfoldable pub build_prologue2 : TclHandle → List ℕ → ℕ → Prologue
build_prologue2 th buf pcb =
    with_nad pcb (with_cid (with_toggle pcb (record { th = th; buf = set buf 0 pcb; len = 1 })))

-- `tcl_build_prologue_i`
unfoldable pub build_prologue_i : TclHandle → List ℕ → Prologue
unfolding build_prologue2
build_prologue_i th buf = build_prologue2 th buf 0x02

-- `tcl_build_prologue_r`
unfoldable pub build_prologue_r : TclHandle → List ℕ → ℕ → Prologue
unfolding build_prologue2
build_prologue_r th buf nak = build_prologue2 th buf (if nak == 0 then 0xa2 else bit_or 0xa2 0x10)

-- `tcl_build_prologue_s`
unfoldable pub build_prologue_s : TclHandle → List ℕ → Prologue
unfolding build_prologue2
build_prologue_s th buf = build_prologue2 th buf 0xc2

-- `tcl_prlg_len`
unfoldable pub prlg_len : TclHandle → ℕ
prlg_len th =
    1 + (if test th.flags cid_used then 1 else 0) + (if test th.flags nad_used then 1 else 0)
