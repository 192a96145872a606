-- ===== src/Invoicing/Submit.antt =====
-- `CreateInvoiceRequest` (internal/service/invoice_request.go): a request is checked, its amounts
-- are reserved of their receivables, and the rule for a special review is frozen.
pub mod Check
unfoldable pub use Check.*
use settlement.Base.{
  ◌>>=◌, ◌>>◌, ℕ, suc, ◌+◌, Bool, ◌&&◌, ◌||◌, List, [], ◌∷◌, ◌++◌, ◌==◌, if◌then◌else◌, find, any,
  Result, ok, invalid, storage, or_error, fail_if,
}
use settlement.Base.Text.{Text, text_eq}
use settlement.Money.{required}
use settlement.Invoice.Items.{Item}
use settlement.Invoice.Items
use settlement.Ledger.Tables.{RowId, short_no, Reservation, reserved}
use settlement.Ledger.InvoiceTables.{
  InvoiceRequest, submitted, RequestItem, SpecialReview, review_pending,
}
use settlement.Ledger.Access.{Principal, invoice}
use settlement.Ledger.Db.{Db, create_invoice_command}
use settlement.Ledger.Requests.{Service, Request, invoice_request_body}
use settlement.Ledger.Claims.{audit, claim_idempotency}
use settlement.Ledger.Scope.{require_contract_access}
use settlement.Ledger.Receipts.{continue_claim}
use settlement.Ledger.Coverage.{is_effective_contract}
use settlement.Ledger.Settings.{load_settings, special_invoice_required, validate_tax_rates}
use settlement.Invoicing.Input.{require_buyer_customer}

-- The primary key and the two unique keys of `settlement_invoice_request`.
abbrev pub same_request : InvoiceRequest → InvoiceRequest → Bool
same_request new r =
    r.id == new.id
    || (r.tenant == new.tenant
        && (r.request_no == new.request_no || text_eq r.idempotency_key new.idempotency_key))

abbrev pub new_request : Principal → (key : Text) → InvoiceIds → CheckedRequest → InvoiceRequest
new_request p key ids c = record {
  id = ids.row;
  tenant = p.tenant;
  request_no = short_no ids.row;
  snapshot = c.snapshot;
  buyer = c.buyer;
  invoice_type = c.invoice_type;
  excl = c.invoice.excl;
  tax = c.invoice.tax;
  incl = c.invoice.incl;
  status = submitted;
  idempotency_key = key;
  submitted_by = p.user;
  approved_by = 0;
  rejection_reason = [];
  version = 1;
}

-- The loop over the lines; the line numbers count from 1.
unfoldable pub insert_lines :
    (tenant request : RowId)
    → InvoiceIds
    → (place : ℕ) → List Item
    → List RequestItem
    → Result (List RequestItem)
insert_lines tenant request ids place [] rows = ok rows
insert_lines tenant request ids place (item ∷ rest) rows = do
  let new : RequestItem = record {
    id = ids.line place;
    tenant = tenant;
    request = request;
    line_no = place + 1;
    item = item;
  }
  fail_if
      (any
        (λ (x : RequestItem).
          x.id == new.id
          || (x.tenant == tenant && x.request == request && x.line_no == new.line_no))
        rows)
      storage
  insert_lines tenant request ids (suc place) rest (rows ++ new ∷ [])

-- The primary key and the unique key of `settlement_invoice_request_allocation`.
abbrev pub same_reservation : Reservation → Reservation → Bool
same_reservation new x =
    x.id == new.id
    || (x.tenant == new.tenant && x.request == new.request && x.receivable == new.receivable)

abbrev pub new_reservation : (tenant request id : RowId) → Share → Reservation
new_reservation tenant request id share = record {
  id = id;
  tenant = tenant;
  request = request;
  receivable = share.0;
  reserved_amount = share.1;
  invoiced_amount = 0;
  released_amount = 0;
  status = reserved;
}

-- The loop over the allocations.
unfoldable pub insert_shares :
    (tenant request : RowId)
    → InvoiceIds
    → (place : ℕ) → List Share
    → List Reservation
    → Result (List Reservation)
insert_shares tenant request ids place [] rows = ok rows
insert_shares tenant request ids place (share ∷ rest) rows = do
  let new = new_reservation tenant request (ids.share place) share
  fail_if (any (same_reservation new) rows) storage
  insert_shares tenant request ids (suc place) rest (rows ++ new ∷ [])

-- The review that is frozen with the request.
unfoldable pub insert_review : (tenant request : RowId) → CheckedRequest → Db → Result Db
insert_review tenant request c db = do
  settings ← load_settings tenant db.settings
  validate_tax_rates c.invoice.items settings.tax_rates
  required ←
      special_invoice_required c.invoice.incl settings.special_invoice_threshold c.special_reason
  fail_if (any (λ (x : SpecialReview). x.tenant == tenant && x.request == request) db.reviews)
      storage
  ok (record db {
    reviews =
        db.reviews
        ++ record {
          tenant = tenant;
          request = request;
          reason = c.special_reason;
          threshold = settings.special_invoice_threshold;
          settings_version = settings.version;
          required = required;
          status = review_pending;
          reviewed_by = 0;
          review_reason = [];
        }
          ∷ [];
  })

-- The rows of a request that is new.
unfoldable pub insert_request_rows :
    Principal → InvoiceIds → CheckedRequest → InvoiceRequest → Db → Result (RowId × Db)
unfolding insert_lines insert_shares insert_review
insert_request_rows p ids c new db = do
  lines ← insert_lines p.tenant new.id ids 0 c.invoice.items db.request_items
  shares ← insert_shares p.tenant new.id ids 0 c.shares db.reservations
  reviewed ← insert_review p.tenant new.id c (record db {
    requests = db.requests ++ new ∷ [];
    request_items = lines;
    reservations = shares;
  })
  audited ← audit ids.message ids.audit p.tenant p.user new.id reviewed
  ok (new.id, audited)

-- What follows the claim. A request that was recorded under the key before keys were claimed is
-- found, and what the transaction has done is rolled back.
unfoldable pub insert_request :
    Principal
    → InvoiceIds
    → CheckedRequest
    → InvoiceRequest
    → (before : Db) → Db
    → Result (RowId × Db)
unfolding check_available insert_request_rows
insert_request p ids c new before db = do
  s ← or_error (find (is_effective_contract p.tenant c.snapshot) db.snapshots) invalid
  require_buyer_customer c.buyer s.customer_id
  check_available p.tenant c.snapshot c.shares db
  if any (same_request new) db.requests
      then (do
        old ←
            or_error
              (find
                (λ (r : InvoiceRequest).
                  r.tenant == p.tenant && text_eq r.idempotency_key new.idempotency_key)
                db.requests)
              storage
        ok (old.id, before))
      else insert_request_rows p ids c new db

abbrev pub request_body : CheckedRequest → Request
request_body c =
    invoice_request_body c.snapshot c.buyer c.invoice_type c.invoice.items c.shares c.special_reason

-- `CreateInvoiceRequest`
unfoldable pub create_invoice_request :
    Service → Principal → (key : Text) → InvoiceIds → InvoiceInput → Db → Result (RowId × Db)
unfolding check_request insert_request continue_claim
create_invoice_request sv p key ids input db = do
  c ← check_request sv p key input
  locked ← require_contract_access sv p request_invoice c.snapshot db
  claim ←
      claim_idempotency p.tenant create_invoice_command key ids.row (sv.digest (request_body c))
        locked
  continue_claim claim db (insert_request p ids c (new_request p key ids c) db)
