-- ===== src/Invoicing/Manual.antt =====
-- `RegisterManualInvoice` (internal/service/invoice_manual.go): an approved request is closed with the
-- invoice that was issued by hand, and its reservations become invoiced (also
-- `finalizeInvoiceAllocations`, tax_callback.go).
use settlement.Base.{
  ℕ, ◌+◌, Bool, true, false, ◌&&◌, ◌||◌, Option, none, some, List, [], ◌∷◌, ◌++◌, ◌==◌, find, any,
  keep_if, update_where, Result, ok, invalid, conflict, storage, ◌>>=◌, ◌>>◌, or_error, fail_if,
  guard,
}
use settlement.Base.Int.{pos}
use settlement.Base.Text.{Text, text_eq, trim_space}
use settlement.Money.{required}
use settlement.Ledger.Tables.{RowId, Reservation, invoiced_reservation}
use settlement.Ledger.InvoiceTables.{
  Profile, InvoiceRequest, issue_pending, request_issued, IssueAttempt, IssueStatus, Channel,
  manual_channel, tax_adapter, attempt_pending, attempt_accepted, attempt_processing,
  attempt_unknown, attempt_failed, attempt_issued, attempt_abandoned, attempt_cancelled, TaxInvoice,
  issued,
}
use settlement.Ledger.Access.{Principal}
use settlement.Ledger.Db.{Db}
use settlement.Ledger.Requests.{Service, utf8_length, to_upper}
use settlement.Ledger.Claims.{audit}
use settlement.Ledger.Imports.{snapshot_at}
use settlement.Ledger.Invoiced.{increment_invoiced_of}
use settlement.Invoicing.Input.{
  RawProfile, seller_fields, normalize_profile, validate_document_number, validate_issue_date,
}
use settlement.Invoicing.Submit.{InvoiceIds, issue_invoice}
use settlement.Invoicing.Review.{
  has_status, is_request, is_attempt_of, is_reserved_of, require_request_scope,
}

-- `ManualInvoiceInput`
pub record ManualInvoiceInput : Type 0 where
  pub invoice_code : Text
  pub invoice_no : Text
  pub issue_date : Text
  pub seller : RawProfile

-- The input after its texts are checked.
pub record CheckedInvoice : Type 0 where
  pub invoice_code : Text
  pub invoice_no : Text
  pub issue_date : ℕ
  pub seller : Profile

-- `RegisterManualInvoice`, up to the transaction.
unfoldable pub check_manual : (today : ℕ) → ManualInvoiceInput → Result CheckedInvoice
check_manual today input = do
  code ← required input.invoice_code
  no' ← required input.invoice_no
  validate_document_number code
  validate_document_number no'
  date ← validate_issue_date input.issue_date today
  seller ← normalize_profile seller_fields input.seller
  ok (record { invoice_code = code; invoice_no = no'; issue_date = date; seller = seller })

abbrev pub attempt_code : IssueStatus → ℕ
attempt_code attempt_pending = 0
attempt_code attempt_accepted = 1
attempt_code attempt_processing = 2
attempt_code attempt_unknown = 3
attempt_code attempt_failed = 4
attempt_code attempt_issued = 5
attempt_code attempt_abandoned = 6
attempt_code attempt_cancelled = 7

abbrev pub is_manual : Channel → Bool
is_manual manual_channel = true
is_manual tax_adapter = false

-- A pending attempt by hand.
abbrev pub is_manual_attempt : RowId → RowId → IssueAttempt → Bool
is_manual_attempt tenant request a =
    is_attempt_of tenant request a
    && is_manual a.channel
    && attempt_code a.status == attempt_code attempt_pending

-- The request that is to be closed, with a pending attempt by hand.
abbrev pub is_closable : Db → RowId → RowId → InvoiceRequest → Bool
is_closable db tenant id r =
    is_request tenant id r
    && has_status issue_pending r
    && any (is_manual_attempt tenant id) db.attempts

abbrev pub manual_invoice :
    Principal → RowId → CheckedInvoice → InvoiceRequest → (currency : Text) → TaxInvoice
manual_invoice p id c r currency = record {
  id = id;
  tenant = p.tenant;
  request = r.id;
  invoice_code = c.invoice_code;
  invoice_no = c.invoice_no;
  invoice_type = r.invoice_type;
  currency = currency;
  excl = pos r.excl;
  tax = pos r.tax;
  incl = pos r.incl;
  issue_date = c.issue_date;
  buyer = r.buyer;
  seller = c.seller;
  status = issued;
  channel = manual_channel;
  provider_code = [];
  external_invoice_id = none;
}

-- The primary key and the unique keys of `settlement_tax_invoice`; a null in a key is equal to
-- nothing.
abbrev same_external : Option Text → Option Text → Bool
same_external (some a) (some b) = text_eq a b
same_external (some a) none = false
same_external none e = false

abbrev pub same_invoice : TaxInvoice → TaxInvoice → Bool
same_invoice new x =
    x.id == new.id
    || (x.tenant == new.tenant
        && ((text_eq x.invoice_code new.invoice_code && text_eq x.invoice_no new.invoice_no)
            || (text_eq x.provider_code new.provider_code
                && same_external x.external_invoice_id new.external_invoice_id)))

-- One round of the loop over what the request has reserved.
unfoldable pub invoice_share : (tenant request : RowId) → Reservation → Db → Result Db
unfolding increment_invoiced_of
invoice_share tenant request share db =
    increment_invoiced_of tenant share.receivable share.reserved_amount (record db {
      reservations =
          update_where
            (λ (x : Reservation).
              x.tenant == tenant && x.request == request && x.receivable == share.receivable)
            (λ x. record x { invoiced_amount = x.reserved_amount; status = invoiced_reservation })
            db.reservations;
    })

unfoldable pub invoice_shares : (tenant request : RowId) → List Reservation → Db → Result Db
unfolding invoice_share
invoice_shares tenant request [] db = ok db
invoice_shares tenant request (share ∷ rest) db = do
  next ← invoice_share tenant request share db
  invoice_shares tenant request rest next

-- The reservations of a request become invoiced.
unfoldable pub finalize_shares : (tenant request : RowId) → Db → Result Db
unfolding invoice_shares
finalize_shares tenant request db =
    invoice_shares tenant request (keep_if (is_reserved_of tenant request) db.reservations) db

-- The invoice and the states of the request and of its attempt.
abbrev pub close_request : RowId → RowId → TaxInvoice → Db → Db
close_request tenant id new db = record db {
  invoices = db.invoices ++ new ∷ [];
  requests =
      update_where (is_request tenant id)
        (λ r. record r { status = request_issued; version = r.version + 1 }) db.requests;
  attempts =
      update_where (is_manual_attempt tenant id) (λ a. record a { status = attempt_issued })
        db.attempts;
}

-- The writes.
unfoldable pub write_manual :
    Principal → InvoiceIds → (id : RowId) → TaxInvoice → Db → Result (RowId × Db)
unfolding finalize_shares
write_manual p ids id new db = do
  fail_if (any (same_invoice new) db.invoices) storage
  finalized ← finalize_shares p.tenant id (close_request p.tenant id new db)
  audited ← audit ids.message ids.audit p.tenant p.user ids.row finalized
  ok (ids.row, audited)

-- `RegisterManualInvoice`
unfoldable pub register_manual_invoice :
    Service
    → Principal
    → (today : ℕ) → InvoiceIds
    → (id : RowId) → ManualInvoiceInput
    → Db
    → Result (RowId × Db)
unfolding check_manual write_manual
register_manual_invoice sv p today ids id input db = do
  c ← check_manual today input
  r ← or_error (find (is_closable db p.tenant id) db.requests) conflict
  s ← or_error (snapshot_at db p.tenant r.snapshot) conflict
  locked ← require_request_scope sv p issue_invoice id db
  let currency = to_upper sv (trim_space s.currency)
  guard (utf8_length currency == 3) invalid
  write_manual p ids id (manual_invoice p ids.row c r currency) locked
