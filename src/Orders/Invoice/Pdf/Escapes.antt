-- ===== src/Orders/Invoice/Pdf/Escapes.antt =====
-- How a PDF reader takes the string that is written for a line of an invoice.
use agentic_mudahurus.Shared.{
  ℕ, ◌≡◌, refl, ◌∙◌, ap, true, false, Option, none, some, [], ◌∷◌, ◌++◌, if◌then◌else◌, ◌==◌, leb,
  ◌&&◌, ◌||◌, All, Bool-cases, inl, inr, Text, arith,
}
use mathlib.Core.Option
use agentic_mudahurus.Orders.Invoice.Pdf.{ascii, is_special, escaped, escape_pdf}

abbrev pub prepend : ℕ → Text × Text → Text × Text
prepend c (s, rest) = (c ∷ s, rest)

-- What a backslash and a character stand for.
abbrev pub control : ℕ → ℕ
control c =
    if c == b'n'
    then 10
    else if c == b'r'
    then 13
    else if c == b't'
    then 9
    else if c == b'b'
    then 8
    else if c == b'f'
    then 12
    else c

-- Where a reader is in a string: anywhere, behind a backslash, or behind a carriage return.
pub data Place : Type 0 where
  inside behind_backslash behind_return : Place

abbrev read_char : ℕ → (escape newline plain : Option (Text × Text)) → Text → Option (Text × Text)
read_char c escape newline plain s =
    if c == b'\\'
    then escape
    else if c == b')'
    then some ([], s)
    else if c == b'('
    then none
    else if c == 13
    then Option.map (prepend 10) newline
    else Option.map (prepend c) plain

-- How a PDF reader takes a literal string up to its closing parenthesis (ISO 32000-1, 7.3.4.2): a
-- backslash and a character are one character, and a carriage return, with the line feed behind it
-- if there is one, is a line feed. Three forms of the standard it refuses: octal codes, continued
-- lines and parentheses that nest.
unfoldable pub read_literal : Place → Text → Option (Text × Text)
read_literal place [] = none
read_literal behind_backslash (c ∷ s) =
    let rest = read_literal inside s in
    if (leb b'0' c && leb c b'7') || c == 10 || c == 13
    then none
    else Option.map (prepend (control c)) rest
read_literal behind_return (c ∷ s) =
    let escape = read_literal behind_backslash s in
    let newline = read_literal behind_return s in
    let plain = read_literal inside s in
    if c == 10 then plain else read_char c escape newline plain s
read_literal inside (c ∷ s) =
    let escape = read_literal behind_backslash s in
    let newline = read_literal behind_return s in
    let plain = read_literal inside s in read_char c escape newline plain s

read_literal-plain :
    (c : ℕ) (s : Text)
    → (c == b'\\') ≡ false
    → (c == b'(') ≡ false
    → (c == b')') ≡ false
    → (c == 13) ≡ false
    → read_literal inside (c ∷ s) ≡ Option.map (prepend c) (read_literal inside s)
unfolding read_literal
read_literal-plain c s slash open_paren close_paren return =
    rw (slash, close_paren, open_paren, return) refl

special-control :
    (c : ℕ)
    → is_special c ≡ true
    → (((leb b'0' c && leb c b'7') || c == 10 || c == 13) ≡ false) × (control c ≡ c)
special-control c special = (ground arith, ground arith)

escaped-plain : (c : ℕ) (s : Text) → is_special c ≡ false → escaped (c ∷ s) ≡ c ∷ escaped s
unfolding escaped
escaped-plain c s plain = rw plain refl

-- No carriage return in a text.
abbrev pub NoReturn : Text → Type 0
NoReturn s = All (λ c. (c == 13) ≡ false) s

read-escaped :
    (s rest : Text) → NoReturn s → read_literal inside (escaped s ++ b')' ∷ rest) ≡ some (s, rest)
unfolding read_literal escaped
read-escaped [] rest h = refl
read-escaped (c ∷ s) rest (here, h) = elim (Bool-cases (is_special c)) [
  | inl special ↦
      let (allowed, same) = special-control c special in
      rw (special, allowed, same, read-escaped s rest h) refl
  | inr plain ↦
      let not_slash : (c == 92) ≡ false = ground arith in
      let not_open : (c == 40) ≡ false = ground arith in
      let not_close : (c == 41) ≡ false = ground arith in
      ap (λ t. read_literal inside (t ++ b')' ∷ rest)) (escaped-plain c s plain)
      ∙ read_literal-plain c (escaped s ++ b')' ∷ rest) not_slash not_open not_close here
      ∙ ap (Option.map (prepend c)) (read-escaped s rest h)
]

ascii-NoReturn : (s : Text) → NoReturn s → NoReturn (ascii s)
unfolding ascii
ascii-NoReturn [] h = tt
ascii-NoReturn (c ∷ s) (here, h) = (ground arith, ascii-NoReturn s h)

-- A PDF reader takes the string that is written for a line without carriage returns to be that line with
-- question marks for its characters outside ASCII, and ends it where it ends.
pub escape_pdf_round_trip :
    (line rest : Text)
    → NoReturn line
    → read_literal inside (escape_pdf line ++ b')' ∷ rest) ≡ some (ascii line, rest)
unfolding escape_pdf
escape_pdf_round_trip line rest h = read-escaped (ascii line) rest (ascii-NoReturn line h)
