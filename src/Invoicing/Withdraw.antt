-- ===== src/Invoicing/Withdraw.antt =====
-- A failed request goes back to approval (`RecoverFailedInvoice`,
-- internal/service/invoice_recovery.go), and one that was certainly not issued is cancelled
-- (`CancelInvoiceRequest`, invoice_cancel.go). A version of 0 stands for those below one.
use settlement.Base.{
  ℕ, ◌+◌, ◌-◌, Bool, true, false, ◌&&◌, ◌||◌, not, Option, none, some, List, ◌==◌, leb, ltb, find,
  any, length, update_where, Result, ok, invalid, conflict, forbidden, not_found, ◌>>=◌, ◌>>◌,
  or_error, fail_if, guard,
}
use settlement.Base.Text.{Text, text_eq, trim_space, is_empty}
use settlement.Outbox.Rows.{same_destination, tax_invoice_command, EventStatus, dead_letter}
use settlement.Ledger.Tables.{RowId, released_reservation}
use settlement.Ledger.InvoiceTables.{
  InvoiceRequest, submitted, issue_pending, issue_failed, request_cancelled, IssueAttempt,
  attempt_pending, attempt_failed, attempt_abandoned, TaxInvoice, TaxResult, Processing,
  provider_conflict, unknown_result,
}
use settlement.Ledger.Access.{Principal, allows}
use settlement.Ledger.Db.{Db, Message, recover_invoice_command, cancel_invoice_command}
use settlement.Ledger.Requests.{Service, invoice_decision_request, utf8_length}
use settlement.Ledger.Claims.{Claim, claimed, replayed, audit, claim_idempotency}
use settlement.Invoicing.Submit.{InvoiceIds, issue_invoice}
use settlement.Invoicing.Review.{
  has_status, is_request, is_attempt_of, is_reserved_of, is_issue, is_conflict, has_result,
  tax_provider_code, last_attempt_no, require_request_scope,
}
use settlement.Invoicing.Manual.{attempt_code, is_manual}

-- What a command without a resource of its own does with a claim: a replay changes nothing.
unfoldable pub continue_decision : Claim → (before : Db) → (Db → Result Db) → Result Db
continue_decision (claimed db) before next = next db
continue_decision (replayed id) before next = ok before

-- The newest attempt of a request, which has the highest number.
unfoldable pub newest_attempt : RowId → RowId → List IssueAttempt → Option IssueAttempt
newest_attempt tenant request rows =
    find
      (λ a. is_attempt_of tenant request a && a.attempt_no == last_attempt_no tenant request rows)
      rows

-- The length of a reason, in characters.
abbrev pub valid_reason : Text → Bool
valid_reason reason = leb 5 (length reason) && leb (length reason) 1000

-- `recoverableInvoiceFailure`
abbrev pub is_recoverable : IssueAttempt → Bool
is_recoverable a =
    attempt_code a.status == attempt_code attempt_failed
    && not (is_manual a.channel)
    && ltb 0 a.result_sequence
    && not (is_empty (trim_space a.last_result_event_id))

abbrev pub has_invoice : RowId → RowId → Db → Bool
has_invoice tenant request db =
    any (λ (x : TaxInvoice). x.request == request && x.tenant == tenant) db.invoices

-- Whether the tax system has contradicted the failure of an attempt.
abbrev pub has_conflict : RowId → RowId → Db → Bool
has_conflict tenant attempt db =
    any
      (λ (t : TaxResult).
        t.tenant == tenant
        && is_issue t.operation
        && t.aggregate_id == attempt
        && is_conflict t.processing)
      db.tax_results

abbrev pub resubmit : (tenant id : RowId) → (version : ℕ) → Db → Db
resubmit tenant id version db = record db {
  requests =
      update_where
        (λ r. is_request tenant id r && r.version == version && has_status issue_failed r)
        (λ r. record r { status = submitted; approved_by = 0; version = r.version + 1 })
        db.requests;
}

-- What follows the claim of a recovery.
unfoldable pub finish_recovery :
    Service → Principal → InvoiceIds → (id : RowId) → (version : ℕ) → Db → Result Db
unfolding newest_attempt
finish_recovery sv p ids id version db = do
  r ← or_error (find (is_request p.tenant id) db.requests) not_found
  guard (has_status issue_failed r && r.version == version) conflict
  fail_if (r.submitted_by == p.user) invalid
  a ← or_error (newest_attempt p.tenant id db.attempts) conflict
  guard (is_recoverable a && sv.tax_adapter_mode && text_eq a.provider_code (tax_provider_code sv))
      conflict
  fail_if (has_invoice p.tenant id db) conflict
  fail_if (has_conflict p.tenant a.id db) conflict
  audit ids.message ids.audit p.tenant p.user id (resubmit p.tenant id version db)

-- `RecoverFailedInvoice`
unfoldable pub recover_failed_invoice :
    Service
    → Principal
    → (key : Text) → InvoiceIds
    → (id : RowId) → (version : ℕ) → (reason : Text) → Db
    → Result Db
unfolding finish_recovery continue_decision
recover_failed_invoice sv p key ids id version reason db = do
  let stated = trim_space reason
  let bound = trim_space key
  fail_if
      (is_empty bound
        || ltb 128 (utf8_length bound)
        || p.user == 0
        || p.tenant == 0
        || version == 0
        || not (valid_reason stated))
      invalid
  claim ←
      claim_idempotency p.tenant recover_invoice_command bound id
        (sv.digest (invoice_decision_request p.user id version stated)) db
  continue_decision claim db (finish_recovery sv p ids id version)

abbrev pub is_dead : EventStatus → Bool
is_dead dead_letter = true
is_dead _ = false

-- The command of an attempt, if it has one, is in the dead letters.
unfoldable pub check_command : (tenant : RowId) → Option RowId → Db → Result (Unit {0})
check_command tenant none db = ok tt
check_command tenant (some event) db = do
  m ← or_error (find (λ (m : Message). m.tenant == tenant && m.id == event) db.outbox) conflict
  guard (same_destination m.destination tax_invoice_command && is_dead m.status) conflict

abbrev pub is_cancellable_attempt : IssueAttempt → Bool
is_cancellable_attempt a =
    not a.accepted
    && (attempt_code a.status == attempt_code attempt_pending
        || attempt_code a.status == attempt_code attempt_failed)

-- The newest attempt, if there is one, was never accepted and its command never arrived.
unfoldable pub check_attempt : (tenant : RowId) → Option IssueAttempt → Db → Result (Unit {0})
unfolding check_command
check_attempt tenant none db = ok tt
check_attempt tenant (some a) db = do
  check_command tenant a.command_event_id db
  guard (is_cancellable_attempt a) conflict

abbrev pub is_cancellable : ℕ → InvoiceRequest → Bool
is_cancellable version r =
    (has_status issue_pending r || has_status issue_failed r) && r.version == version

abbrev pub is_unresolved : Processing → Bool
is_unresolved provider_conflict = true
is_unresolved unknown_result = true
is_unresolved _ = false

abbrev pub abandon : (tenant : RowId) → Option IssueAttempt → List IssueAttempt → List IssueAttempt
abandon tenant none rows = rows
abandon tenant (some a) rows =
    update_where
      (λ (x : IssueAttempt).
        x.tenant == tenant
        && x.id == a.id
        && (attempt_code x.status == attempt_code attempt_pending
            || attempt_code x.status == attempt_code attempt_failed))
      (λ x. record x { status = attempt_abandoned }) rows

-- The writes of a cancellation: only what is reserved and not invoiced is released.
abbrev pub cancel_request :
    (tenant id : RowId) → (version : ℕ) → (reason : Text) → Option IssueAttempt → Db → Db
cancel_request tenant id version reason newest db = record db {
  attempts = abandon tenant newest db.attempts;
  requests =
      update_where (λ r. is_request tenant id r && is_cancellable version r)
        (λ r. record r {
          status = request_cancelled;
          rejection_reason = reason;
          version = r.version + 1;
        })
        db.requests;
  reservations =
      update_where (is_reserved_of tenant id)
        (λ x. record x {
          released_amount = x.reserved_amount - x.invoiced_amount;
          status = released_reservation;
        })
        db.reservations;
}

-- What follows the claim of a cancellation. The rows that the updates name are those that were
-- locked, so that each update changes its one row.
unfoldable pub finish_cancellation :
    Service
    → Principal
    → InvoiceIds
    → (id : RowId) → (version : ℕ) → (reason : Text) → Db
    → Result Db
unfolding newest_attempt check_attempt
finish_cancellation sv p ids id version reason db = do
  let newest = newest_attempt p.tenant id db.attempts
  check_attempt p.tenant newest db
  r ← or_error (find (is_request p.tenant id) db.requests) not_found
  guard (is_cancellable version r) conflict
  fail_if (r.submitted_by == p.user) invalid
  locked ← require_request_scope sv p issue_invoice id db
  fail_if (has_invoice p.tenant id locked) conflict
  fail_if (has_result p.tenant id is_unresolved locked) conflict
  audit ids.message ids.audit p.tenant p.user id
      (cancel_request p.tenant id version reason newest locked)

-- `CancelInvoiceRequest`
unfoldable pub cancel_invoice_request :
    Service
    → Principal
    → (key : Text) → InvoiceIds
    → (id : RowId) → (version : ℕ) → (reason : Text) → Db
    → Result Db
unfolding finish_cancellation continue_decision
cancel_invoice_request sv p key ids id version reason db = do
  guard (allows p issue_invoice && not (p.tenant == 0) && not (p.user == 0)) forbidden
  let bound = trim_space key
  let stated = trim_space reason
  fail_if
      (id == 0
        || is_empty bound
        || ltb 128 (utf8_length bound)
        || version == 0
        || not (valid_reason stated))
      invalid
  claim ←
      claim_idempotency p.tenant cancel_invoice_command bound id
        (sv.digest (invoice_decision_request p.user id version stated)) db
  continue_decision claim db (finish_cancellation sv p ids id version stated)
