-- ===== src/Invoicing/Review/Attempt.antt =====
-- What the decisions on an invoice request share: its states and its scope (role_scope.go), and the
-- attempt to issue an invoice with the command that it sends to the tax system
-- (internal/service/invoice_approval.go, invoice_issue.go). The content of the command is left out;
-- what makes it fail is kept.
use settlement.Base.{
  ℕ, ◌+◌, Bool, true, false, ◌&&◌, ◌||◌, none, some, List, [], ◌∷◌, ◌++◌, ◌==◌, max, if◌then◌else◌,
  find, any, update_where, Result, ok, conflict, storage, not_found, ◌>>=◌, ◌>>◌, or_error, fail_if,
}
use settlement.Base.Text.{Text, codes, trim_space, is_empty}
use settlement.Outbox.Rows.{tax_invoice_command, pending}
use settlement.Ledger.Tables.{RowId}
use settlement.Ledger.InvoiceTables.{
  Profile, InvoiceRequest, RequestStatus, submitted, special_review, issue_pending, issue_unknown,
  issue_failed, request_issued, rejected, request_cancelled, IssueAttempt, Channel, manual_channel,
  tax_adapter, attempt_pending, TaxResult, Operation, invoice_issue, red_flush, Processing,
  provider_conflict,
}
use settlement.Ledger.Access.{Principal, Permission, scoped_authorization}
use settlement.Ledger.Db.{Db, Message, issue_requested}
use settlement.Ledger.Requests.{Service}
use settlement.Ledger.Claims.{audit}
use settlement.Ledger.Imports.{snapshot_at}
use settlement.Ledger.Scope.{require_write_scope}
use settlement.Invoicing.Input.{
  RawProfile, text_value, buyer_fields, normalize_profile, validate_stored_type,
}
use settlement.Invoicing.Submit.{InvoiceIds}

abbrev pub status_code : RequestStatus → ℕ
status_code submitted = 0
status_code special_review = 1
status_code issue_pending = 2
status_code issue_unknown = 3
status_code issue_failed = 4
status_code request_issued = 5
status_code rejected = 6
status_code request_cancelled = 7

abbrev pub has_status : RequestStatus → InvoiceRequest → Bool
has_status status r = status_code r.status == status_code status

abbrev pub is_request : RowId → RowId → InvoiceRequest → Bool
is_request tenant id r = r.id == id && r.tenant == tenant

-- The row that a decision locks.
abbrev pub is_awaiting : RowId → RowId → RequestStatus → ℕ → InvoiceRequest → Bool
is_awaiting tenant id status version r =
    is_request tenant id r && has_status status r && r.version == version

-- `requireInvoiceRequestScopeTx`
unfoldable pub require_request_scope : Service → Principal → Permission → RowId → Db → Result Db
require_request_scope sv p permission request db =
    if scoped_authorization p
    then (do
      r ← or_error (find (is_request p.tenant request) db.requests) not_found
      require_write_scope sv p permission r.snapshot db)
    else ok db

-- `UPDATE settlement_invoice_request … WHERE id=? AND tenant_id=? AND version=?`
abbrev pub move_request :
    (tenant id : RowId) → (version : ℕ) → RequestStatus → (approver : RowId) → Db → Db
move_request tenant id version status approver db = record db {
  requests =
      update_where (λ r. is_request tenant id r && r.version == version)
        (λ r. record r { status = status; approved_by = approver; version = r.version + 1 })
        db.requests;
}

abbrev pub is_issue : Operation → Bool
is_issue invoice_issue = true
is_issue red_flush = false

abbrev pub is_conflict : Processing → Bool
is_conflict provider_conflict = true
is_conflict _ = false

abbrev pub is_attempt_of : RowId → RowId → IssueAttempt → Bool
is_attempt_of tenant request a = a.request == request && a.tenant == tenant

-- Whether some result for an attempt of the request is of a kind.
abbrev pub has_result : RowId → RowId → (Processing → Bool) → Db → Bool
has_result tenant request kind db =
    any
      (λ (t : TaxResult).
        is_issue t.operation
        && kind t.processing
        && any
            (λ (a : IssueAttempt).
              a.id == t.aggregate_id && a.tenant == t.tenant && is_attempt_of tenant request a)
            db.attempts)
      db.tax_results

-- `taxProviderCode`
unfoldable pub tax_provider_code : Service → Text
tax_provider_code sv =
    let value = trim_space sv.tax_provider in if is_empty value then codes "default" else value

-- `invoiceIssuanceMode`
abbrev pub issuance_channel : Service → Channel
issuance_channel sv = if sv.tax_adapter_mode then tax_adapter else manual_channel

-- `MAX(attempt_no)`
unfoldable pub last_attempt_no : RowId → RowId → List IssueAttempt → ℕ
last_attempt_no tenant request [] = 0
last_attempt_no tenant request (a ∷ rest) =
    let others = last_attempt_no tenant request rest in
    if is_attempt_of tenant request a then max a.attempt_no others else others

unfoldable pub as_raw : Profile → RawProfile
as_raw [] = []
as_raw ((key, text) ∷ rest) = (key, text_value text) ∷ as_raw rest

-- `invoiceIssueCommand`: the stored profile and type are checked once more.
unfoldable pub check_issue_command : Service → (tenant request : RowId) → Db → Result (Unit {0})
unfolding as_raw
check_issue_command sv tenant request db = do
  r ← or_error (find (is_request tenant request) db.requests) storage
  _ ← or_error (snapshot_at db tenant r.snapshot) storage
  _ ← normalize_profile buyer_fields (as_raw r.buyer)
  _ ← validate_stored_type sv r.invoice_type
  ok tt

-- `outbox` to the destination TAX_INVOICE_COMMAND.
unfoldable pub send_command : (id tenant request : RowId) → Db → Result Db
send_command id tenant request db = do
  fail_if (any (λ (m : Message). m.id == id) db.outbox) storage
  ok (record db {
    outbox =
        db.outbox
        ++ record {
          id = id;
          tenant = tenant;
          destination = tax_invoice_command;
          kind = issue_requested;
          aggregate_id = request;
          status = pending;
        }
          ∷ [];
  })

abbrev pub new_attempt : Service → (tenant request id : RowId) → (number : ℕ) → IssueAttempt
new_attempt sv tenant request id number = record {
  id = id;
  tenant = tenant;
  request = request;
  attempt_no = number;
  channel = issuance_channel sv;
  provider_code = if sv.tax_adapter_mode then tax_provider_code sv else [];
  status = attempt_pending;
  command_event_id = none;
  accepted = false;
  result_sequence = 0;
  last_result_event_id = [];
  tax_invoice_id = none;
}

-- The command for a new attempt. The newest command for the request, whose event the attempt takes
-- over, is the one that has just been written.
unfoldable pub command_attempt :
    Service → InvoiceIds → (tenant request attempt : RowId) → Db → Result Db
unfolding check_issue_command send_command
command_attempt sv ids tenant request attempt db =
    if sv.tax_adapter_mode
    then (do
      check_issue_command sv tenant request db
      sent ← send_command ids.command tenant request db
      ok (record sent {
        attempts =
            update_where (λ (a : IssueAttempt). a.id == attempt && a.tenant == tenant)
              (λ a. record a { command_event_id = some ids.command }) sent.attempts;
      }))
    else ok db

-- The primary key and the unique keys of `settlement_invoice_issue_attempt`.
abbrev pub same_attempt : IssueAttempt → IssueAttempt → Bool
same_attempt new a =
    a.id == new.id
    || (a.tenant == new.tenant && a.request == new.request && a.attempt_no == new.attempt_no)

-- `createApprovedInvoiceAttempt`
unfoldable pub create_attempt :
    Service → Principal → InvoiceIds → (id : RowId) → (version : ℕ) → Db → Result (RowId × Db)
unfolding command_attempt
create_attempt sv p ids id version db = do
  fail_if (has_result p.tenant id is_conflict db) conflict
  let moved = move_request p.tenant id version issue_pending p.user db
  let new = new_attempt sv p.tenant id ids.row (last_attempt_no p.tenant id moved.attempts + 1)
  fail_if (any (same_attempt new) moved.attempts) storage
  commanded ←
      command_attempt sv ids p.tenant id ids.row
        (record moved { attempts = moved.attempts ++ new ∷ [] })
  audited ← audit ids.message ids.audit p.tenant p.user id commanded
  ok (ids.row, audited)
