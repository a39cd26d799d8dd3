-- ===== src/Tests/Invoice.antt =====
-- The PDF of an invoice at concrete inputs.
use agentic_mudahurus.Shared.{
  ℕ, ◌≡◌, refl, some, List, [], ◌∷◌, ◌++◌, ◌≤◌, length, drop, Text, codes, has_prefix, true, arith,
}
use agentic_mudahurus.Orders.Invoice.Pdf.{ascii, escape_pdf, build_pdf}
use agentic_mudahurus.Orders.Invoice.Pdf.Offsets.{Points, ending, build_pdf_offsets}
use agentic_mudahurus.Orders.Invoice.Pdf.Escapes.{inside, read_literal, escape_pdf_round_trip}

abbrev lines : List Text
lines = codes "INVOICE" ∷ codes "Kedai (Ali)" ∷ []

build_pdf_offsets_example :
    (written : Text) × (offsets : List ℕ) × (length offsets ≡ 5)
    × (build_pdf lines ≡ written ++ ending offsets (length written))
    × Points 1 offsets (build_pdf lines)
    × (has_prefix (drop (length written) (build_pdf lines)) (codes "xref\n") ≡ true)
build_pdf_offsets_example = build_pdf_offsets lines

escape_pdf_round_trip_example :
    read_literal inside (escape_pdf (codes "a)b\\(é") ++ b')' ∷ codes " Tj")
    ≡ some (ascii (codes "a)b\\(é"), codes " Tj")
escape_pdf_round_trip_example =
    escape_pdf_round_trip (codes "a)b\\(é") (codes " Tj")
      (refl, (refl, (refl, (refl, (refl, (refl, tt))))))

one_le_four : 1 ≤ 4
one_le_four = omega arith
