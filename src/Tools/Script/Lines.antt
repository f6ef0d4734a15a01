-- ===== src/Tools/Script/Lines.antt =====
-- The lines of a script of utils/send_script.c, as they are written and read.
use librfid.Prelude.{
  ℕ, zero, suc, ◌+◌, ◌*◌, ◌<◌, ◌≤◌, ◌≡◌, ◌≢◌, refl, ap, some, List, [], ◌∷◌, ◌++◌, Bool, true,
  false, not, ◌&&◌, ◌==◌, length, bit_and, u8, ◌>>>◌, arith, holds_below, holds_below_at,
  Bool-cases, inl, inr, ◌∙◌,
}
use librfid.Hex.{hex_digit}
use librfid.Tools.Script.{
  newline, slash, take_line, next_line, c_string, is_xdigit, unhexchar, as_char, command_of,
  is_comment,
}

-- A part of a command's line: a byte as two digits, or a character between
pub data Part : Type 0 where
  byte : ℕ → Part
  mark : ℕ → Part

-- A line of a script
pub data Line : Type 0 where
  comment : List ℕ → Line
  command : List Part → Line

abbrev pub text_of : List Part → List ℕ
text_of [] = []
text_of (byte b ∷ parts) = hex_digit (b >>> 4) ∷ hex_digit (bit_and b 0xf) ∷ text_of parts
text_of (mark c ∷ parts) = c ∷ text_of parts

abbrev pub line_of : Line → List ℕ
line_of (comment text) = slash ∷ slash ∷ text
line_of (command parts) = text_of parts

abbrev pub script_of : List Line → List ℕ
script_of [] = []
script_of (line ∷ lines) = line_of line ++ newline ∷ script_of lines

abbrev pub bytes_of : List Part → List ℕ
bytes_of [] = []
bytes_of (byte b ∷ parts) = b ∷ bytes_of parts
bytes_of (mark c ∷ parts) = bytes_of parts

-- The commands of a script
abbrev pub commands_of : List Line → List (List ℕ)
commands_of [] = []
commands_of (comment text ∷ lines) = commands_of lines
commands_of (command parts ∷ lines) = bytes_of parts ∷ commands_of lines

-- A character that may stand within a line
abbrev pub in_line : ℕ → Bool
in_line c = not (c == 0) && not (c == newline)

abbrev pub InLine : List ℕ → Type 0
InLine [] = Unit
InLine (c ∷ text) = (in_line c ≡ true) × InLine text

-- A byte below 256, or a character that may stand within a line and is neither a digit nor a slash
abbrev pub IsPart : Part → Type 0
IsPart (byte b) = b < 256
IsPart (mark c) = (in_line c ≡ true) × (is_xdigit c ≡ false) × (c ≢ slash)

abbrev pub AreParts : List Part → Type 0
AreParts [] = Unit
AreParts (part ∷ parts) = IsPart part × AreParts parts

abbrev pub IsLine : Line → Type 0
IsLine (comment text) = InLine text
IsLine (command parts) = AreParts parts

abbrev pub AreLines : List Line → Type 0
AreLines [] = Unit
AreLines (line ∷ lines) = IsLine line × (length (line_of line) < 1023) × AreLines lines

digit_table :
    holds_below 256 (λ b.
      let hi = hex_digit (b >>> 4) in
      let lo = hex_digit (bit_and b 0xf) in
      (u8 (as_char (unhexchar hi) * 16 + as_char (unhexchar lo)) == b)
      && in_line hi
      && in_line lo
      && is_xdigit hi
      && not (hi == slash))
    ≡ true
unfolding holds_below unhexchar
digit_table = refl

module _ (b : ℕ) (is_byte : b < 256) where
  digits_byte :
      u8 (
        as_char (unhexchar (hex_digit (b >>> 4))) * 16
        + as_char (unhexchar (hex_digit (bit_and b 0xf))))
      ≡ b
  digits_byte = ground (arith, holds_below_at 256 _ b digit_table is_byte)

  high_in_line : in_line (hex_digit (b >>> 4)) ≡ true
  high_in_line = ground (arith, holds_below_at 256 _ b digit_table is_byte)

  low_in_line : in_line (hex_digit (bit_and b 0xf)) ≡ true
  low_in_line = ground (arith, holds_below_at 256 _ b digit_table is_byte)

  high_is_digit : is_xdigit (hex_digit (b >>> 4)) ≡ true
  high_is_digit = ground (arith, holds_below_at 256 _ b digit_table is_byte)

  high_no_slash : hex_digit (b >>> 4) ≢ slash
  high_no_slash = ground (arith, holds_below_at 256 _ b digit_table is_byte)

pub text_of-InLine : (parts : List Part) → AreParts parts → InLine (text_of parts)
text_of-InLine [] parts_are = tt
text_of-InLine (byte b ∷ parts) (is_byte, rest) =
    (high_in_line b is_byte, (low_in_line b is_byte, text_of-InLine parts rest))
text_of-InLine (mark c ∷ parts) ((inside, _, _), rest) = (inside, text_of-InLine parts rest)

line_of-InLine : (line : Line) → IsLine line → InLine (line_of line)
line_of-InLine (comment text) is_line = (refl, (refl, is_line))
line_of-InLine (command parts) is_line = text_of-InLine parts is_line

module _ (rest : List ℕ) where
  take_line-line :
      (n : ℕ) (text : List ℕ)
      → InLine text
      → length text < n
      → take_line n (text ++ newline ∷ rest) ≡ (text ++ newline ∷ [], rest)
  unfolding take_line
  take_line-line zero text inside short = absurd (omega arith)
  take_line-line (suc n) [] inside short = refl
  take_line-line (suc n) (c ∷ text) (inside, more) short =
      let other : (c == newline) ≡ false = ground arith in
      rw (take_line-line n text more (omega arith), other) refl

  pub next_line-line :
      (text : List ℕ)
      → InLine text
      → length text < 1023
      → next_line (text ++ newline ∷ rest) ≡ some (text ++ newline ∷ [], rest)
  unfolding next_line
  next_line-line [] inside short = ap some (take_line-line 1023 [] inside short)
  next_line-line (c ∷ text) inside short = ap some (take_line-line 1023 (c ∷ text) inside short)

pub c_string-line :
    (text : List ℕ) → InLine text → c_string (text ++ newline ∷ []) ≡ text ++ newline ∷ []
unfolding c_string
c_string-line [] inside = refl
c_string-line (c ∷ text) (inside, more) =
    let other : (c == 0) ≡ false = ground arith in
    rw other (ap (λ t. c ∷ t) (c_string-line text more))

module _ (c : ℕ) where
  command_of-skip : (text : List ℕ) → is_xdigit c ≡ false → command_of (c ∷ text) ≡ command_of text
  unfolding command_of
  command_of-skip [] other = refl
  command_of-skip (d ∷ text) other = rw (other, command_of) refl

  command_of-pair :
      (d : ℕ) (text : List ℕ)
      → is_xdigit c ≡ true
      → command_of (c ∷ d ∷ text)
        ≡ u8 (as_char (unhexchar c) * 16 + as_char (unhexchar d)) ∷ command_of text
  unfolding command_of
  command_of-pair d text digit = rw (digit, command_of) refl

pub command_of-text_of :
    (parts : List Part)
    → AreParts parts
    → command_of (text_of parts ++ newline ∷ []) ≡ bytes_of parts
command_of-text_of [] parts_are = unfold command_of in refl
command_of-text_of (byte b ∷ parts) (is_byte, rest) =
    command_of-pair _ _ _ (high_is_digit b is_byte)
    ∙ cc (digits_byte b is_byte, command_of-text_of parts rest)
command_of-text_of (mark c ∷ parts) ((_, other, _), rest) =
    command_of-skip c _ other ∙ command_of-text_of parts rest

pub no_comment :
    (parts : List Part) → AreParts parts → is_comment (text_of parts ++ newline ∷ []) ≡ false
unfolding is_comment
no_comment [] parts_are = refl
no_comment (byte b ∷ parts) (is_byte, rest) = ground (arith, high_no_slash b is_byte)
no_comment (mark c ∷ parts) ((_, _, other), rest) = ground arith

pub is_comment-slashes : (text : List ℕ) → is_comment (slash ∷ slash ∷ text) ≡ true
unfolding is_comment
is_comment-slashes text = ground arith

-- The bytes of a command never need more than half of the block that is allocated for them, which has
-- a byte for each character of the line.
pub command_of_bounded : (line : List ℕ) → 2 * length (command_of line) ≤ length line
unfolding command_of
command_of_bounded [] = omega arith
command_of_bounded (c ∷ []) = omega arith
command_of_bounded (c ∷ d ∷ line) = elim (Bool-cases (is_xdigit c)) [
  | inl digit ↦ rw (command_of-pair c d line digit) (omega (arith, command_of_bounded line))
  | inr other ↦
      rw (command_of-skip c (d ∷ line) other) (omega (arith, command_of_bounded (d ∷ line)))
]
