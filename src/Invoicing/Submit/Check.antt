-- ===== src/Invoicing/Submit/Check.antt =====
-- What is sent with an invoice request, and its checks before and at the reservation
-- (internal/service/invoice_request.go).
use settlement.Base.{
  ℕ, ◌+◌, Bool, ◌||◌, List, [], ◌∷◌, ◌==◌, any, Result, ok, invalid, forbidden, conflict, length,
  ◌>>=◌, ◌>>◌, fail_if, guard,
}
use settlement.Base.Text.{Text}
use settlement.Money.{amount, required, text_too_long, decimal_greater}
use settlement.Invoice.Items.{ItemInput, Item, normalize_invoice_items}
use settlement.Invoice.Items
use settlement.Ledger.Tables.{RowId}
use settlement.Ledger.InvoiceTables.{Profile}
use settlement.Ledger.Access.{Principal, Permission, invoice, allows}
use settlement.Ledger.Db.{Db}
use settlement.Ledger.Requests.{Service}
use settlement.Ledger.Reserved.{invoice_available}
use settlement.Invoicing.Input.{RawProfile, buyer_fields, normalize_profile, normalize_invoice_type}

-- The permissions "settlement.invoice.…" of the workflow.
abbrev pub request_invoice : Permission
request_invoice = invoice 0

abbrev pub approve_invoice : Permission
approve_invoice = invoice 1

abbrev pub issue_invoice : Permission
issue_invoice = invoice 2

abbrev pub special_approve : Permission
special_approve = invoice 3

-- `InvoiceAllocationInput`
pub record ShareInput : Type 0 where
  pub receivable : RowId
  pub reserved_amount : Text

-- `InvoiceRequestInput`
pub record InvoiceInput : Type 0 where
  pub snapshot : RowId
  pub buyer : RawProfile
  pub invoice_type : Text
  pub items : List ItemInput
  pub shares : List ShareInput
  pub special_reason : Text

-- The generated identifiers of one command: of its rows, of the lines and the reservations by
-- their place, of the command to the tax system, and of the audit.
pub record InvoiceIds : Type 0 where
  pub row : RowId
  pub line : ℕ → RowId
  pub share : ℕ → RowId
  pub command : RowId
  pub message : RowId
  pub audit : RowId

abbrev is_long_item : ItemInput → Bool
is_long_item x =
    text_too_long x.item_name 255
    || text_too_long x.tax_classification_code 64
    || text_too_long x.specification 128
    || text_too_long x.unit 32

-- A receivable and what is to be reserved of it, in cents.
abbrev pub Share : Type 0
Share = RowId × ℕ

-- The loop over the allocations, with their sum.
unfoldable pub read_shares : List ShareInput → Result (List Share × ℕ)
read_shares [] = ok ([], 0)
read_shares (x ∷ xs) = do
  cents ← amount x.reserved_amount
  (shares, total) ← read_shares xs
  ok ((x.receivable, cents) ∷ shares, cents + total)

-- A request after its texts and numbers are checked.
pub record CheckedRequest : Type 0 where
  pub snapshot : RowId
  pub buyer : Profile
  pub invoice_type : Text
  pub invoice : Items.Invoice
  pub shares : List Share
  pub special_reason : Text

-- `CreateInvoiceRequest`, up to the transaction.
unfoldable pub check_request :
    Service → Principal → (key : Text) → InvoiceInput → Result CheckedRequest
unfolding read_shares
check_request sv p key input = do
  _ ← required key
  fail_if (length input.items == 0 || length input.shares == 0) invalid
  fail_if (any is_long_item input.items) invalid
  fail_if (text_too_long input.special_reason 500) invalid
  buyer ← normalize_profile buyer_fields input.buyer
  invoice_type ← normalize_invoice_type sv input.invoice_type
  lines ← normalize_invoice_items input.items
  (shares, total) ← read_shares input.shares
  guard (total == lines.incl) invalid
  guard (allows p request_invoice) forbidden
  ok (record {
    snapshot = input.snapshot;
    buyer = buyer;
    invoice_type = invoice_type;
    invoice = lines;
    shares = shares;
    special_reason = input.special_reason;
  })

-- The loop that locks the receivables and checks what is available of each.
unfoldable pub check_available : (tenant snapshot : RowId) → List Share → Db → Result (Unit {0})
unfolding invoice_available
check_available tenant snapshot [] db = ok tt
check_available tenant snapshot ((receivable, cents) ∷ rest) db = do
  available ← invoice_available tenant snapshot receivable db.receivables db.reservations
  fail_if (decimal_greater cents available) conflict
  check_available tenant snapshot rest db
