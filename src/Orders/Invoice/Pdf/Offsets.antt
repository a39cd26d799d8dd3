-- ===== src/Orders/Invoice/Pdf/Offsets.antt =====
-- The cross-reference table of an invoice points at its objects.
use agentic_mudahurus.Shared.{
  ℕ, suc, ◌-◌, ◌≡◌, refl, sym, ◌∙◌, ap, true, List, [], ◌∷◌, ◌++◌, append_assoc, append-nil, length,
  drop, drop-append_length, replicate, Text, codes, has_prefix, ==_refl,
}
use agentic_mudahurus.Shared.Decimal.{decimal, zero_padded}
use agentic_mudahurus.Orders.Invoice.Pdf.{
  objects, content, object_head, object_text, place, entries, xref, trailer, body, build_pdf,
}

has_prefix-append : (p s : Text) → has_prefix (p ++ s) p ≡ true
unfolding has_prefix
has_prefix-append [] [] = refl
has_prefix-append [] (c ∷ s) = refl
has_prefix-append (c ∷ p) s = rw (==_refl c) (has_prefix-append p s)

-- What is written stays in front of what is written later.
place-extends :
    (buf : Text) (i : ℕ) (os : List Text) → (tail : Text) × ((place buf i os).0 ≡ buf ++ tail)
unfolding place
place-extends buf i [] = ([], sym (append-nil buf))
place-extends buf i (o ∷ os) =
    let (tail, e) = place-extends (buf ++ object_text i o) (suc i) os in
    (object_text i o ++ tail, e ∙ append_assoc buf (object_text i o) tail)

-- At each offset stands the head of the object with the next number.
abbrev pub Points : ℕ → List ℕ → Text → Type 0
Points i [] text = Unit
Points i (offset ∷ offsets) text =
    (has_prefix (drop offset text) (decimal i ++ codes " 0 obj\n") ≡ true)
    × Points (suc i) offsets text

head-found :
    (buf : Text) (i : ℕ) (o tail rest : Text)
    → has_prefix (drop (length buf) (((buf ++ object_text i o) ++ tail) ++ rest)) (object_head i)
      ≡ true
head-found buf i o tail rest =
    rw
      (
        append_assoc (buf ++ object_text i o) tail rest,
        append_assoc buf (object_text i o) (tail ++ rest),
        drop-append_length buf (object_text i o ++ (tail ++ rest)),
        append_assoc (object_head i) (o ++ codes "\nendobj\n") (tail ++ rest),
      )
      (has_prefix-append (object_head i) _)

place-Points :
    (buf : Text) (i : ℕ) (os : List Text) (rest : Text)
    → Points i (place buf i os).1 ((place buf i os).0 ++ rest)
unfolding place
place-Points buf i [] rest = tt
place-Points buf i (o ∷ os) rest =
    let (tail, e) = place-extends (buf ++ object_text i o) (suc i) os in
    (rw e (head-found buf i o tail rest), place-Points (buf ++ object_text i o) (suc i) os rest)

length-place : (buf : Text) (i : ℕ) (os : List Text) → length (place buf i os).1 ≡ length os
unfolding place
length-place buf i [] = refl
length-place buf i (o ∷ os) = ap suc (length-place (buf ++ object_text i o) (suc i) os)

-- The entries that a cross-reference table has for objects at these offsets (ISO 32000-1, 7.5.4).
abbrev pub table : List ℕ → Text
table [] = []
table (o ∷ os) =
    (replicate (10 - length (decimal o)) b'0' ++ decimal o) ++ (codes " 00000 n \n" ++ table os)

entries-table : (offsets : List ℕ) → entries offsets ≡ table offsets
unfolding entries zero_padded
entries-table [] = refl
entries-table (o ∷ os) = rw (entries-table os) refl

-- What the file ends with, behind objects of that length.
abbrev pub ending : List ℕ → ℕ → Text
ending offsets start =
    codes "xref\n0 6\n0000000000 65535 f \n"
    ++ (table offsets
        ++ (codes "trailer\n<< /Size 6 /Root 1 0 R >>\nstartxref\n"
            ++ (decimal start ++ codes "\n%%EOF")))

written-ending :
    (offsets : List ℕ) (start : ℕ) → xref 6 offsets ++ trailer 6 start ≡ ending offsets start
unfolding decimal
written-ending offsets start = rw (entries-table offsets) refl

-- Whatever its lines, the invoice's file is the text of its objects, then a cross-reference table of five
-- entries, each of ten digits, and a trailer with the position of the table; at the offset that an
-- entry of the table names stands the number of its object and "0 obj", and at the position that the
-- trailer names stands "xref".
pub build_pdf_offsets :
    (lines : List Text)
    → (written : Text) × (offsets : List ℕ) × (length offsets ≡ 5)
      × (build_pdf lines ≡ written ++ ending offsets (length written))
      × Points 1 offsets (build_pdf lines)
      × (has_prefix (drop (length written) (build_pdf lines)) (codes "xref\n") ≡ true)
unfolding build_pdf objects
build_pdf_offsets lines =
    let (written, offsets) = body lines in
    (
      written,
      offsets,
      length-place (codes "%PDF-1.4\n") 1 (objects (content lines)),
      ap (λ s. written ++ s) (written-ending offsets (length written)),
      place-Points (codes "%PDF-1.4\n") 1 (objects (content lines)) _,
      rw (drop-append_length written (xref 6 offsets ++ trailer 6 (length written)))
          (has_prefix-append (codes "xref\n") _),
    )
