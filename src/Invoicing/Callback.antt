-- ===== src/Invoicing/Callback.antt =====
-- `ApplyTaxCallback` (internal/service/tax_callback.go): a result of the tax system is recorded once
-- and applied to the attempt that it is about. The events about red flushes are left out, and so are the
-- lines of the returned invoice, the operation id and the failure texts that are only stored, and
-- the instants of reconciliation.
pub mod Outcome
unfoldable pub use Outcome.*
use settlement.Base.{
  ◌>>=◌, ◌>>◌, ℕ, ◌+◌, Bool, ◌&&◌, ◌||◌, not, Option, none, some, [], ◌∷◌, ◌++◌, ◌==◌, leb,
  if◌then◌else◌, find, any, update_where, Result, ok, err, conflict, storage, not_found, or_error,
  fail_if, guard,
}
use settlement.Base.Text.{Text, text_eq, trim_space}
use settlement.Ledger.Tables.{RowId, Snapshot}
use settlement.Ledger.InvoiceTables.{
  InvoiceRequest, issue_failed, request_issued, request_cancelled, IssueAttempt, attempt_failed,
  attempt_issued, attempt_abandoned, attempt_cancelled, TaxResult, invoice_issue, Processing,
  result_processing, ignored_stale, ignored_terminal, provider_conflict,
}
use settlement.Ledger.Db.{Db}
use settlement.Ledger.Requests.{Service}
use settlement.Ledger.Imports.{snapshot_at}
use settlement.Invoicing.Review.{has_status, is_request}
use settlement.Invoicing.Manual.{is_manual}
use settlement.Invoicing.Events.{Callback, CallbackIds, is_success, check_callback}

-- What the states of an attempt and of its request say of an event.
pub data Verdict : Type 0 where
  stale terminal contradicted late open_case refused : Verdict

unfoldable pub judge : Callback → IssueAttempt → InvoiceRequest → Verdict
judge e a r =
    if leb e.result_sequence a.result_sequence
    then stale
    else if is_code a.status attempt_issued || has_status request_issued r
    then terminal
    else if is_code a.status attempt_failed || has_status issue_failed r
    then (if is_success e.kind then contradicted else terminal)
    else if is_code a.status attempt_abandoned
        || is_code a.status attempt_cancelled
        || has_status request_cancelled r
    then late
    else if is_open_attempt a.status
    then open_case
    else refused

unfoldable pub apply_verdict :
    Service
    → (tenant : RowId) → CallbackIds
    → (adapter : RowId) → Callback
    → Verdict
    → InvoiceRequest
    → Snapshot
    → Db
    → Result (Processing × Db)
unfolding record_late apply_open
apply_verdict sv tenant ids adapter e stale r s db = ok (ignored_stale, db)
apply_verdict sv tenant ids adapter e terminal r s db = ok (ignored_terminal, db)
apply_verdict sv tenant ids adapter e contradicted r s db = ok (provider_conflict, db)
apply_verdict sv tenant ids adapter e late r s db = record_late tenant ids adapter e e.kind r.id db
apply_verdict sv tenant ids adapter e open_case r s db =
    apply_open sv tenant ids adapter e e.kind r s db
apply_verdict sv tenant ids adapter e refused r s db = err conflict

-- `applyInvoiceIssueCallback`; the external request of an attempt is its own id.
unfoldable pub apply_issue :
    Service
    → (tenant : RowId) → CallbackIds
    → (adapter : RowId) → Callback
    → Db
    → Result (Processing × Db)
unfolding apply_verdict judge
apply_issue sv tenant ids adapter e db = do
  a ←
      or_error (find (λ a. is_attempt tenant e.attempt a && not (is_manual a.channel)) db.attempts)
        not_found
  r ← or_error (find (is_request tenant a.request) db.requests) not_found
  s ← or_error (snapshot_at db tenant r.snapshot) not_found
  guard (e.external_request == a.id) conflict
  guard (text_eq (trim_space e.provider_code) a.provider_code) conflict
  apply_verdict sv tenant ids adapter e (judge e a r) r s db

abbrev pub is_result_of : RowId → Text → Text → TaxResult → Bool
is_result_of tenant provider event t =
    t.tenant == tenant && text_eq t.provider_code provider && text_eq t.event_id event

abbrev pub new_result : (tenant id : RowId) → Callback → (hash : ℕ) → TaxResult
new_result tenant id e hash = record {
  id = id;
  tenant = tenant;
  provider_code = trim_space e.provider_code;
  event_id = e.event_id;
  operation = invoice_issue;
  aggregate_id = e.attempt;
  payload_hash = hash;
  processing = result_processing;
}

-- The state of processing is kept with the result.
abbrev pub finish_result : (id : RowId) → Processing → Db → Db
finish_result id processing db = record db {
  tax_results =
      update_where (λ (t : TaxResult). t.id == id) (λ t. record t { processing = processing })
        db.tax_results;
}

-- A result that is new is recorded and applied.
unfoldable pub apply_new :
    Service
    → (tenant : RowId) → CallbackIds
    → (adapter : RowId) → Callback
    → TaxResult
    → Db
    → Result (Processing × Db)
unfolding apply_issue
apply_new sv tenant ids adapter e new db = do
  fail_if (any (λ (t : TaxResult). t.id == new.id) db.tax_results) storage
  (processing, done) ←
      apply_issue sv tenant ids adapter e (record db { tax_results = db.tax_results ++ new ∷ [] })
  ok (processing, finish_result new.id processing done)

-- An event that is recorded already answers with what was recorded, if its content is the same.
unfoldable pub answer_event :
    Service
    → (tenant : RowId) → CallbackIds
    → (adapter : RowId) → (hash : ℕ) → Callback
    → (recorded : Option TaxResult) → Db
    → Result (Processing × Db)
unfolding apply_new
answer_event sv tenant ids adapter hash e none db =
    apply_new sv tenant ids adapter e (new_result tenant ids.row e hash) db
answer_event sv tenant ids adapter hash e (some old) db = do
  guard (old.payload_hash == hash) conflict
  ok (old.processing, db)

abbrev pub recorded_as : RowId → Callback → Db → Option TaxResult
recorded_as tenant e db =
    find (is_result_of tenant (trim_space e.provider_code) e.event_id) db.tax_results

-- `ApplyTaxCallback`, with the digest of the event; `adapter` stands for TAX_ADAPTER.
unfoldable pub apply_tax_callback :
    Service
    → (tenant : RowId) → (now : ℕ) → CallbackIds
    → (adapter : RowId) → (hash : ℕ) → Callback
    → Db
    → Result (Processing × Db)
unfolding check_callback answer_event
apply_tax_callback sv tenant now ids adapter hash e db = do
  check_callback tenant now e
  answer_event sv tenant ids adapter hash e (recorded_as tenant e db) db
