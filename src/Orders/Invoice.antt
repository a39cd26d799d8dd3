-- ===== src/Orders/Invoice.antt =====
-- api/internal/orders/invoice.go: the lines of an invoice. time.Format is an argument.
pub mod Pdf
pub mod Columns
use agentic_mudahurus.Shared.{
  ℕ, ◌+◌, ◌-◌, ◌/◌, ◌%◌, Bool, true, false, List, [], ◌∷◌, ◌++◌, map, if◌then◌else◌, ltb, leb, ◌==◌,
  ◌||◌, length, replicate, Text, codes, is_empty, rune_len, byte_len,
}
use agentic_mudahurus.Shared.Int.{ℤ, pos, negsuc, pos_part, neg_part}
use agentic_mudahurus.Shared.Decimal.{decimal, zero_padded}
use agentic_mudahurus.Schema.{Uuid, Time, ShippingAddress, OrderRow, OrderItem, Order}
use agentic_mudahurus.World.{Env}
use agentic_mudahurus.Orders.Service.{status_text}
use Pdf.{build_pdf}

pub record Invoice : Type 0 where
  pub order : Order
  pub seller_name : Text
  pub store_name : Text

-- s[:n] as a loop over its characters reads it: a character that is cut is one U+FFFD for each byte
unfoldable pub cut : ℕ → Text → Text
cut n [] = []
cut n (c ∷ s) =
    let rest = cut (n - rune_len c) s in if leb (rune_len c) n then c ∷ rest else replicate n 0xfffd

unfoldable pub truncate : Text → ℕ → Text
unfolding cut
truncate s n = if ltb n (byte_len s) then cut (n - 1) s ++ codes "…" else s

-- %-ws and %ws: a width counts characters
unfoldable pub pad_right : ℕ → Text → Text
pad_right w s = s ++ replicate (w - length s) b' '

unfoldable pub pad_left : ℕ → Text → Text
pad_left w s = replicate (w - length s) b' ' ++ s

minus : ℤ → Text
minus (pos n) = []
minus (negsuc n) = codes "-"

abbrev magnitude : ℤ → ℕ
magnitude x = pos_part x + neg_part x

-- %d
unfoldable pub integer : ℤ → Text
unfolding minus
integer x = minus x ++ decimal (magnitude x)

-- %.2f of an amount of whole sen
unfoldable pub amount : ℤ → Text
unfolding minus
amount x = minus x ++ decimal (magnitude x / 100) ++ codes "." ++ zero_padded 2 (magnitude x % 100)

abbrev item_name : OrderItem → Text
item_name i = if is_empty i.product_name then i.sku else i.product_name

unfoldable pub item_line : OrderItem → Text
unfolding truncate pad_right pad_left integer amount
item_line i =
    pad_right 30 (truncate (item_name i) 30)
    ++ codes " "
    ++ pad_left 5 (integer i.quantity)
    ++ codes " "
    ++ pad_left 12 (amount i.unit_price)
    ++ codes " "
    ++ pad_left 12 (amount i.line_total)

notes_lines : Text → List Text
notes_lines [] = []
notes_lines (c ∷ s) = [] ∷ (codes "Notes: " ++ truncate (c ∷ s) 80) ∷ []

module _ (env : Env) (format_time : Time → Text) where
  -- the calls of `add` in `RenderPDF`
  unfoldable pub invoice_lines : Invoice → List Text
  unfolding item_line notes_lines
  invoice_lines inv =
      let o = inv.order in
      let a = o.shipping_address in
      (codes "INVOICE"
        ∷ (if is_empty inv.store_name then inv.seller_name else inv.store_name)
        ∷ []
        ∷ (codes "Invoice ID: " ++ env.uuid_string o.id)
        ∷ (codes "Status: " ++ status_text o.status)
        ∷ (codes "Date: " ++ format_time o.created_at)
        ∷ (codes "Due (expires): " ++ format_time o.expired_date)
        ∷ []
        ∷ (codes "Bill to: " ++ o.full_name)
        ∷ (codes "Email: " ++ o.email ++ codes "   Phone: " ++ o.contact_no)
        ∷ (codes "Ship to: "
            ++ a.mailing_addr
            ++ codes " "
            ++ a.mailing_addr2
            ++ codes ", "
            ++ a.postcode
            ++ codes " "
            ++ a.city
            ++ codes " "
            ++ a.state)
        ∷ []
        ∷ (pad_right 30 (codes "Item")
            ++ codes " "
            ++ pad_left 5 (codes "Qty")
            ++ codes " "
            ++ pad_left 12 (codes "Unit")
            ++ codes " "
            ++ pad_left 12 (codes "Total"))
        ∷ replicate 62 b'-'
        ∷ [])
      ++ map item_line o.items
      ++ (replicate 62 b'-'
          ∷ (pad_right 48 (codes "TOTAL (MYR)") ++ codes " " ++ pad_left 12 (amount o.total_price))
          ∷ notes_lines o.additional_notes)

  unfoldable pub render_pdf : Invoice → Text
  unfolding invoice_lines
  render_pdf inv = build_pdf (invoice_lines inv)
