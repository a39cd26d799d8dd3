-- ===== src/Orders/Invoice/Pdf.antt =====
-- api/internal/orders/invoice.go, `buildPDF` and `escapePDF`. What is written is ASCII, a byte a
-- character.
pub mod Offsets
pub mod Escapes
use agentic_mudahurus.Shared.{
  ℕ, suc, ◌+◌, Bool, List, [], ◌∷◌, ◌++◌, if◌then◌else◌, ltb, ◌==◌, ◌||◌, length, Text, codes,
}
use agentic_mudahurus.Shared.Decimal.{decimal, zero_padded}

-- characters outside ASCII become question marks
unfoldable pub ascii : Text → Text
ascii [] = []
ascii (c ∷ s) = (if ltb c 128 then c else b'?') ∷ ascii s

abbrev pub is_special : ℕ → Bool
is_special c = c == b'\\' || c == b'(' || c == b')'

-- the replacer: a backslash before each backslash and parenthesis
unfoldable pub escaped : Text → Text
escaped [] = []
escaped (c ∷ s) = let rest = escaped s in if is_special c then b'\\' ∷ c ∷ rest else c ∷ rest

unfoldable pub escape_pdf : Text → Text
unfolding ascii escaped
escape_pdf s = escaped (ascii s)

-- a line's operator
abbrev pub shown : Text → Text
shown line = codes "(" ++ (escape_pdf line ++ codes ") Tj\n")

unfoldable pub shown_lines : List Text → Text
unfolding escape_pdf
shown_lines [] = []
shown_lines (line ∷ lines) = codes "T*\n" ++ (shown line ++ shown_lines lines)

unfoldable pub content : List Text → Text
unfolding shown_lines
content [] = codes "BT\n/F1 11 Tf\n12 TL\n50 800 Td\nET"
content (line ∷ lines) =
    codes "BT\n/F1 11 Tf\n12 TL\n50 800 Td\n" ++ (shown line ++ (shown_lines lines ++ codes "ET"))

abbrev pub stream : Text → Text
stream s =
    codes "<< /Length "
    ++ (decimal (length s) ++ (codes " >>\nstream\n" ++ (s ++ codes "\nendstream")))

unfoldable pub objects : Text → List Text
objects page =
    codes "<< /Type /Catalog /Pages 2 0 R >>"
    ∷ codes "<< /Type /Pages /Kids [3 0 R] /Count 1 >>"
    ∷ codes
        "<< /Type /Page /Parent 2 0 R /MediaBox [0 0 595 842] /Resources << /Font << /F1 4 0 R >> >> /Contents 5 0 R >>"
    ∷ codes "<< /Type /Font /Subtype /Type1 /BaseFont /Courier >>"
    ∷ stream page
    ∷ []

-- "%d 0 obj\n%s\nendobj\n"
abbrev pub object_head : ℕ → Text
object_head i = decimal i ++ codes " 0 obj\n"

abbrev pub object_text : ℕ → Text → Text
object_text i o = object_head i ++ (o ++ codes "\nendobj\n")

-- The loop over `objs`: the buffer grows, and the offsets are its lengths before each object. The
-- second number is the object's.
unfoldable pub place : Text → ℕ → List Text → Text × List ℕ
place buf i [] = (buf, [])
place buf i (o ∷ os) =
    let (done, offsets) = place (buf ++ object_text i o) (suc i) os in (done, length buf ∷ offsets)

-- "%010d 00000 n \n"
unfoldable pub entries : List ℕ → Text
entries [] = []
entries (offset ∷ offsets) = zero_padded 10 offset ++ (codes " 00000 n \n" ++ entries offsets)

abbrev pub xref : ℕ → List ℕ → Text
xref size offsets =
    codes "xref\n0 " ++ (decimal size ++ (codes "\n0000000000 65535 f \n" ++ entries offsets))

abbrev pub trailer : ℕ → ℕ → Text
trailer size xref_pos =
    codes "trailer\n<< /Size "
    ++ (decimal size
        ++ (codes " /Root 1 0 R >>\nstartxref\n" ++ (decimal xref_pos ++ codes "\n%%EOF")))

abbrev pub body : List Text → Text × List ℕ
body lines = place (codes "%PDF-1.4\n") 1 (objects (content lines))

unfoldable pub build_pdf : List Text → Text
unfolding content objects place entries
build_pdf lines =
    let (placed, offsets) = body lines in placed ++ (xref 6 offsets ++ trailer 6 (length placed))
