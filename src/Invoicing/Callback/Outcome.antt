-- ===== src/Invoicing/Callback/Outcome.antt =====
-- What a result of the tax system does to an open attempt, and what is recorded after a cancellation
-- (internal/service/tax_callback.go).
use settlement.Base.{
  ℕ, ◌+◌, Bool, true, false, ◌&&◌, ◌||◌, Option, none, some, List, [], ◌∷◌, ◌++◌, ◌==◌, any,
  update_where, keep_if, Result, ok, invalid, conflict, storage, ◌>>=◌, ◌>>◌, or_error, fail_if,
  guard,
}
use settlement.Base.Int.{pos, pos_part, neg_part}
use settlement.Base.Text.{Text, text_eq, trim_space, is_empty}
use settlement.Invoice.Items.{Item}
use settlement.Ledger.Tables.{RowId, Snapshot}
use settlement.Ledger.InvoiceTables.{
  InvoiceRequest, RequestStatus, issue_pending, issue_unknown, issue_failed, request_issued,
  RequestItem, IssueAttempt, IssueStatus, tax_adapter, attempt_pending, attempt_accepted,
  attempt_processing, attempt_unknown, attempt_failed, attempt_issued, TaxInvoice, issued,
  Processing, applied, ignored_terminal, provider_conflict,
}
use settlement.Ledger.Db.{Db}
use settlement.Ledger.Requests.{Service, to_upper}
use settlement.Ledger.Claims.{audit}
use settlement.Ledger.Dates.{parse_date}
use settlement.Invoicing.Review.{has_status, is_request}
use settlement.Invoicing.Manual.{attempt_code, same_invoice, finalize_shares}
use settlement.Invoicing.Events.{
  CallbackKind, Figure, ItemResult, InvoiceResult, Callback, CallbackIds, issue_failed_event,
  issue_unknown_event,
}

-- `sameMoney`, with a stored amount.
abbrev pub same_money : Figure → ℕ → Bool
same_money f n = elim f.units [ none ↦ false | some x ↦ neg_part x == 0 && pos_part x == n ]

abbrev same_item : Item → ItemResult → Bool
same_item x y =
    text_eq x.item_name y.item_name
    && text_eq x.tax_classification_code y.tax_classification_code
    && text_eq x.specification y.specification
    && text_eq x.unit y.unit
    && same_money y.quantity x.quantity
    && same_money y.unit_price_excl_tax x.unit_price_excl_tax
    && same_money y.amount_excl_tax x.amount_excl_tax
    && same_money y.tax_rate x.tax_rate
    && same_money y.tax_amount x.tax_amount
    && same_money y.amount_incl_tax x.amount_incl_tax

-- `validateInvoiceResultItems`, on the stored lines in their order.
unfoldable pub same_items : List RequestItem → List ItemResult → Bool
same_items [] [] = true
same_items [] (y ∷ ys) = false
same_items (x ∷ xs) [] = false
same_items (x ∷ xs) (y ∷ ys) = same_item x.item y && same_items xs ys

-- The stored lines of a request, which are stored in the order of their numbers.
abbrev pub lines_of : RowId → RowId → Db → List RequestItem
lines_of tenant request db =
    keep_if (λ (x : RequestItem). x.tenant == tenant && x.request == request) db.request_items

abbrev pub is_attempt : RowId → RowId → IssueAttempt → Bool
is_attempt tenant id a = a.id == id && a.tenant == tenant

-- The result of an event on its attempt.
abbrev pub record_result :
    (tenant : RowId) → Callback → (IssueStatus → IssueStatus) → Option RowId → Db → Db
record_result tenant e status invoice db = record db {
  attempts =
      update_where (is_attempt tenant e.attempt)
        (λ a. record a {
          status = status a.status;
          result_sequence = e.result_sequence;
          last_result_event_id = e.event_id;
          tax_invoice_id = elim invoice [ none ↦ a.tax_invoice_id | some id ↦ some id ];
        })
        db.attempts;
}

abbrev pub is_open_request : InvoiceRequest → Bool
is_open_request r = has_status issue_pending r || has_status issue_unknown r

-- `UPDATE … WHERE … status IN ('ISSUE_PENDING','ISSUE_UNKNOWN')`
abbrev pub settle_request : (tenant request : RowId) → RequestStatus → Db → Db
settle_request tenant request status db = record db {
  requests =
      update_where (λ r. is_request tenant request r && is_open_request r)
        (λ r. record r { status = status; version = r.version + 1 }) db.requests;
}

-- `recordLateIssueCallbackAfterCancel`; the actor of its audit is the tax adapter.
unfoldable pub record_late :
    (tenant : RowId)
    → CallbackIds
    → (adapter : RowId) → Callback
    → CallbackKind
    → (request : RowId) → Db
    → Result (Processing × Db)
record_late tenant ids adapter e issue_failed_event request db = ok (ignored_terminal, db)
record_late tenant ids adapter e _ request db = do
  audited ←
      audit ids.message ids.audit tenant adapter request
        (record_result tenant e (λ old. old) none db)
  ok (provider_conflict, audited)

abbrev pub result_invoice :
    (tenant id : RowId)
    → Callback
    → InvoiceResult
    → InvoiceRequest
    → (currency : Text) → (date : ℕ) → TaxInvoice
result_invoice tenant id e x r currency date = record {
  id = id;
  tenant = tenant;
  request = r.id;
  invoice_code = trim_space x.invoice_code;
  invoice_no = trim_space x.invoice_no;
  invoice_type = r.invoice_type;
  currency = currency;
  excl = pos r.excl;
  tax = pos r.tax;
  incl = pos r.incl;
  issue_date = date;
  buyer = r.buyer;
  seller = x.seller;
  status = issued;
  channel = tax_adapter;
  provider_code = trim_space e.provider_code;
  external_invoice_id = some x.external_invoice_id;
}

-- A success: the invoice must be the one that was asked for.
unfoldable pub apply_success :
    Service
    → (tenant : RowId) → CallbackIds
    → (adapter : RowId) → Callback
    → InvoiceResult
    → InvoiceRequest
    → Snapshot
    → Db
    → Result (Processing × Db)
unfolding finalize_shares same_items
apply_success sv tenant ids adapter e x r s db = do
  guard
      (text_eq x.invoice_type r.invoice_type
        && text_eq (to_upper sv x.currency) (to_upper sv s.currency)
        && same_money x.amount_excl_tax r.excl
        && same_money x.tax_amount r.tax
        && same_money x.amount_incl_tax r.incl)
      conflict
  guard (same_items (lines_of tenant r.id db) x.items) conflict
  date ← or_error (parse_date x.issue_date) storage
  let new = result_invoice tenant ids.invoice e x r (to_upper sv s.currency) date
  fail_if (any (same_invoice new) db.invoices) storage
  finalized ← finalize_shares tenant r.id (
      settle_request tenant r.id request_issued (
        record_result tenant e (λ old. attempt_issued) (some ids.invoice)
          (record db { invoices = db.invoices ++ new ∷ [] })))
  audited ← audit ids.message ids.audit tenant adapter ids.invoice finalized
  ok (applied, audited)

abbrev pub is_code : IssueStatus → IssueStatus → Bool
is_code s t = attempt_code s == attempt_code t

abbrev pub is_open_attempt : IssueStatus → Bool
is_open_attempt s =
    is_code s attempt_pending
    || is_code s attempt_accepted
    || is_code s attempt_processing
    || is_code s attempt_unknown

-- What an event does to an attempt that is open. A success carries an invoice, which is checked.
unfoldable pub apply_open :
    Service
    → (tenant : RowId) → CallbackIds
    → (adapter : RowId) → Callback
    → CallbackKind
    → InvoiceRequest
    → Snapshot
    → Db
    → Result (Processing × Db)
unfolding apply_success
apply_open sv tenant ids adapter e issue_unknown_event r s db = ok (
  applied,
  settle_request tenant r.id issue_unknown
      (record_result tenant e (λ old. attempt_unknown) none db),
)
apply_open sv tenant ids adapter e issue_failed_event r s db = do
  fail_if (is_empty (trim_space e.failure_code)) invalid
  ok (
    applied,
    settle_request tenant r.id issue_failed
        (record_result tenant e (λ old. attempt_failed) none db),
  )
apply_open sv tenant ids adapter e _ r s db = do
  x ← or_error e.invoice storage
  apply_success sv tenant ids adapter e x r s db
