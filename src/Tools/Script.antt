-- ===== src/Tools/Script.antt =====
-- utils/send_script.c: a script of commands in hexadecimal is sent to a card over T=CL. A text is a
-- list of character codes. Memory is taken to be available, and what is printed is left out.
pub mod Lines
pub mod Reading
pub mod Ending
use librfid.Prelude.{
  ℕ, zero, suc, ℤ, pos, negsuc, minus_one, is_neg, ◌+◌, ◌-◌, ◌*◌, Option, none, some, List, [], ◌∷◌,
  Bool, true, false, not, ◌&&◌, ◌||◌, ltb, leb, ◌==◌, u8, length, get_or, replicate, store_front,
  if◌then◌else◌,
}
use librfid.Control.{M, put_back, out_of_fuel, pure, ◌>>=◌, ◌>>◌}
use librfid.Reader.{Reader}
use librfid.Tcl.Handle.{ProtocolHandle}
use librfid.Tcl.Exchange.{Answer}
use librfid.Protocol
use librfid.Protocol.{Stack}

abbrev pub newline : ℕ
newline = 0x0a

abbrev pub slash : ℕ
slash = 0x2f

-- `fgets`, of at most `n` characters: what it reads, and the rest of the file.
unfoldable pub take_line : ℕ → List ℕ → List ℕ × List ℕ
take_line zero text = ([], text)
take_line (suc n) [] = ([], [])
take_line (suc n) (c ∷ text) =
    let (line, rest) = take_line n text in if c == newline then (c ∷ [], text) else (c ∷ line, rest)

-- `nextline`; a buffer of 1024 bytes takes 1023 characters.
unfoldable pub next_line : List ℕ → Option (List ℕ × List ℕ)
next_line [] = none
next_line (c ∷ text) = some (take_line 1023 (c ∷ text))

-- The characters of a buffer up to the first that is 0
unfoldable pub c_string : List ℕ → List ℕ
c_string [] = []
c_string (c ∷ text) = if c == 0 then [] else c ∷ c_string text

-- `isxdigit`, of a character of ASCII
abbrev pub is_xdigit : ℕ → Bool
is_xdigit c = (leb 0x30 c && leb c 0x39) || (leb 0x61 c && leb c 0x66) || (leb 0x41 c && leb c 0x46)

unfoldable pub unhexchar : ℕ → ℤ
unhexchar c =
    if leb 0x30 c && ltb c 0x3a
    then pos (c - 0x30)
    else if leb 0x61 c && ltb c 0x67
    then pos (10 + c - 0x61)
    else if leb 0x41 c && ltb c 0x47
    then pos (10 + c - 0x41)
    else minus_one

-- An integer stored in a `char`, as a byte
abbrev pub as_char : ℤ → ℕ
as_char (pos n) = u8 n
as_char (negsuc n) = 255 - u8 n

-- The loop of `make_command`: two characters from a hexadecimal digit on are a byte.
unfoldable pub command_of : List ℕ → List ℕ
unfolding unhexchar
command_of [] = []
command_of (c ∷ []) = []
command_of (c ∷ d ∷ line) = elim (is_xdigit c) [
  | true ↦ u8 (as_char (unhexchar c) * 16 + as_char (unhexchar d)) ∷ command_of line
  | false ↦ command_of (d ∷ line)
]

-- `strlen(next) >= 2 && strncmp(next, "//", 2) == 0`
unfoldable pub is_comment : List ℕ → Bool
is_comment line = leb 2 (length line) && (get_or line 0 0 == slash) && (get_or line 1 0 == slash)

-- What the user answers: the first character of a line of the input, whose rest is skipped; at the end
-- of the input there is none.
unfoldable pub skip_line : List ℕ → List ℕ
skip_line [] = []
skip_line (c ∷ input) = if c == newline then input else skip_line input

unfoldable pub answer_line : List ℕ → Option ℕ × List ℕ
unfolding skip_line
answer_line [] = (none, [])
answer_line (c ∷ input) = (some c, if c == newline then input else skip_line input)

-- The answers to "Execute?"
pub data Consent : Type 0 where
  once always skipped over : Consent

unfoldable pub consent_of : Option ℕ → Consent
consent_of none = skipped
consent_of (some c) =
    if c == 0x79 || c == 0x59 || c == newline
    then once
    else if c == 0x61 || c == 0x41
    then always
    else if c == 0x65 || c == 0x45
    then over
    else skipped

-- Whether a status other than 90 00 is ignored
unfoldable pub ignores : Option ℕ → Bool
ignores none = false
ignores (some c) = c == 0x69 || c == 0x49 || c == newline

-- The state of the program: the handle, the static flag that no question is asked any more, and what
-- is left of the input.
pub record Session (W : Type 0) : Type 0 where
  pub ph : ProtocolHandle W
  pub doit : Bool
  pub input : List ℕ

-- Whether the answer ends with the status 90 00; the buffer was cleared before.
unfoldable pub succeeded : List ℕ → ℕ → Bool
succeeded rx rlen =
    let rbuf = store_front rx (replicate 1024 0) in
    not (
      ltb rlen 2
      || not (get_or rbuf (rlen - 2) 0 == 0x90)
      || not (get_or rbuf (rlen - 1) 0 == 0x00))

module _ {W : Type 0} (rdr : Reader W) (stack : Stack) where
  abbrev on_ph : {A : Type 0} → M (ProtocolHandle W) A → M (Session W) A
  on_ph m s = put_back (λ s' ph. record s' { ph = ph }) (m s.ph) s

  -- `send_command`, once it is agreed that the command is sent
  unfoldable pub transmit : List ℕ → M (Session W) ℤ
  unfolding succeeded answer_line ignores
  transmit sbuf = do
    a ← on_ph (Protocol.transceive rdr stack sbuf 1024)
    if is_neg a.ret
        then pure a.ret
        else if succeeded a.rx_data (length a.rx_data)
        then pure (pos (length a.rx_data))
        else (λ s.
            let (answer, input) = answer_line s.input in
            pure (if ignores answer then pos (length a.rx_data) else minus_one)
              (record s { input = input }))

  abbrev decided : Consent → List ℕ → M (Session W) ℤ
  decided once sbuf = transmit sbuf
  decided always sbuf = λ s. transmit sbuf (record s { doit = true })
  decided skipped sbuf = pure (pos 0)
  decided over sbuf = pure minus_one

  -- `send_command`
  unfoldable pub send_command : List ℕ → M (Session W) ℤ
  unfolding transmit answer_line consent_of
  send_command sbuf s =
      let (answer, input) = answer_line s.input in
      if s.doit
      then transmit sbuf s
      else decided (consent_of answer) sbuf (record s { input = input })

  -- One round of the loop of `main`, with the value of `retval` before it.
  unfoldable pub send_line : List ℕ → ℤ → M (Session W) ℤ
  unfolding c_string is_comment command_of send_command
  send_line line retval =
      if is_comment (c_string line) then pure retval else send_command (command_of (c_string line))

  -- The loop of `main`, over what is left of the file. Each round reads a character at least, so one
  -- round more than there are characters is enough.
  unfoldable pub run_script : ℕ → List ℕ → ℤ → M (Session W) ℤ
  unfolding next_line take_line send_line
  run_script zero text retval = λ s. out_of_fuel
  run_script (suc fuel) text retval = elim (next_line text) [
    | none ↦ pure retval
    | some (line, rest) ↦ (do
      ret ← send_line line retval
      elim (is_neg ret) [ true ↦ pure ret | false ↦ run_script fuel rest ret ])
  ]
