-- ===== src/Invoicing/Withdrawn.antt =====
-- A recovery and a cancellation move a request only as the abstract machine of its states allows
-- (internal/service/invoice_recovery.go, invoice_cancel.go).
use settlement.Base.{
  ℕ, ◌≡◌, refl, sym, ap, subst, ◌∙◌, inr, true, ◌&&◌, ◌||◌, not, some, List, ◌==◌, find,
  update_where, arith, Result, ok, ok-injective, >>=-eq-ok, or_error, or_error-eq-ok, fail_if,
  guard, invalid, conflict, forbidden, ltb,
}
use settlement.Base.Keyed.{Unique, row_at, find-row_at}
use settlement.Base.Text.{Text, trim_space, is_empty, text_eq}
use settlement.Ledger.Tables.{RowId}
use settlement.Ledger.InvoiceTables.{
  RequestStatus, issue_pending, issue_failed, request_cancelled, InvoiceRequest, submitted,
  special_review,
}
use settlement.Ledger.Access.{Principal, allows}
use settlement.Ledger.Db.{Db, recover_invoice_command, cancel_invoice_command, Command}
use settlement.Ledger.Requests.{Service, invoice_decision_request, utf8_length}
use settlement.Ledger.Claims.{Claim, claimed, replayed, claim_idempotency}
use settlement.Invoicing.Submit.{InvoiceIds, issue_invoice}
use settlement.Invoicing.Review.{is_request, status_code, require_request_scope, has_result}
use settlement.Invoicing.Withdraw.{
  continue_decision, finish_recovery, recover_failed_invoice, finish_cancellation, cancel_request,
  cancel_invoice_request, newest_attempt, check_attempt,
}
use settlement.Base.{not_found}
use settlement.Invoicing.Duties.{
  request_id, Move, try_again, give_up, give_up_failed, AllMoved, AllMoved-refl,
  AllMoved-update_one, audit-requests, require_request_scope-requests,
}
use settlement.Invoicing.Separated.{as_failed}
use settlement.Invoicing.Withdraw.{
  valid_reason, has_invoice, has_conflict, is_cancellable, is_unresolved, is_recoverable, resubmit,
}
use settlement.Invoicing.Review.{is_request, has_status, status_code, tax_provider_code}

-- The row that a recovery or a cancellation has locked.
found-row :
    (tenant id : RowId) (rows : List InvoiceRequest) (r : InvoiceRequest)
    → Unique request_id rows
    → find (is_request tenant id) rows ≡ some r
    → row_at request_id id rows ≡ some r
found-row tenant id rows r u found =
    (find-row_at request_id (is_request tenant id) id rows r (λ y h. ground arith) u found).0

claim_idempotency-requests :
    (tenant : RowId) (command : Command) (key : Text) (resource hash : ℕ) (db db' : Db)
    → claim_idempotency tenant command key resource hash db ≡ ok (claimed db')
    → db'.requests ≡ db.requests
unfolding claim_idempotency
claim_idempotency-requests tenant command key resource hash db db' h = ground arith

-- What follows the claim of a decision: a replay moves nothing.
continue_decision-moves :
    (user : RowId) (claim : Claim) (before db' : Db) (next : Db → Result Db)
    → continue_decision claim before next ≡ ok db'
    → ((db : Db) → claim ≡ claimed db → db.requests ≡ before.requests)
    → ((db : Db)
        → db.requests ≡ before.requests
        → next db ≡ ok db'
        → AllMoved user db.requests db'.requests)
    → AllMoved user before.requests db'.requests
unfolding continue_decision
continue_decision-moves user (claimed db) before db' next h first step =
    subst (λ rows. AllMoved user rows db'.requests) (first db refl) (step db (first db refl) h)
continue_decision-moves user (replayed id) before db' next h first step =
    subst (λ (d : Db). AllMoved user before.requests d.requests) (ok-injective h)
      (AllMoved-refl user before.requests)

finish_recovery-moves :
    (sv : Service) (p : Principal) (ids : InvoiceIds) (id : RowId) (version : ℕ) (db db' : Db)
    → Unique request_id db.requests
    → finish_recovery sv p ids id version db ≡ ok db'
    → AllMoved p.user db.requests db'.requests
unfolding finish_recovery
finish_recovery-moves sv p ids id version db db' u h =
    let (r, found, h1) =
      >>=-eq-ok (or_error (find (is_request p.tenant id) db.requests) not_found) _ h in
    let (_, failed, h2) =
      >>=-eq-ok (guard (has_status issue_failed r && r.version == version) conflict) _ h1 in
    let (_, other, h3) = >>=-eq-ok (fail_if (r.submitted_by == p.user) invalid) _ h2 in
    let (a, _, h4) = >>=-eq-ok (or_error (newest_attempt p.tenant id db.attempts) conflict) _ h3 in
    let (_, _, h5) =
      >>=-eq-ok
        (guard
          (is_recoverable a
            && sv.tax_adapter_mode
            && text_eq a.provider_code (tax_provider_code sv))
          conflict)
        _ h4 in
    let (_, _, h6) = >>=-eq-ok (fail_if (has_invoice p.tenant id db) conflict) _ h5 in
    let (_, _, h7) = >>=-eq-ok (fail_if (has_conflict p.tenant a.id db) conflict) _ h6 in
    subst (AllMoved p.user db.requests)
      (sym (
        audit-requests ids.message ids.audit p.tenant p.user id (resubmit p.tenant id version db)
          db' h7))
      (AllMoved-update_one p.user
        (λ x. is_request p.tenant id x && x.version == version && has_status issue_failed x) _ id r
        db.requests u (found-row p.tenant id db.requests r u (or_error-eq-ok _ _ found))
        (λ x k. ground arith)
        (inr (
          subst (λ s. Move s submitted) (sym (as_failed r.status (ground (arith, failed))))
              try_again,
          refl,
          refl,
          λ e. ground (arith, e),
        )))

cancelling_move :
    (s : RequestStatus)
    → (status_code s == 2 || status_code s == 4) ≡ true
    → Move s request_cancelled
cancelling_move issue_pending h = give_up
cancelling_move issue_failed h = give_up_failed
cancelling_move submitted h = ground arith
cancelling_move special_review h = ground arith
cancelling_move _ h = ground arith

finish_cancellation-moves :
    (sv : Service) (p : Principal) (ids : InvoiceIds) (id : RowId) (version : ℕ) (reason : Text)
    (db db' : Db)
    → Unique request_id db.requests
    → finish_cancellation sv p ids id version reason db ≡ ok db'
    → AllMoved p.user db.requests db'.requests
unfolding finish_cancellation
finish_cancellation-moves sv p ids id version reason db db' u h =
    let newest = newest_attempt p.tenant id db.attempts in
    let (_, _, h1) = >>=-eq-ok (check_attempt p.tenant newest db) _ h in
    let (r, found, h2) =
      >>=-eq-ok (or_error (find (is_request p.tenant id) db.requests) not_found) _ h1 in
    let (_, open_now, h3) = >>=-eq-ok (guard (is_cancellable version r) conflict) _ h2 in
    let (_, other, h4) = >>=-eq-ok (fail_if (r.submitted_by == p.user) invalid) _ h3 in
    let (locked, locking, h5) = >>=-eq-ok (require_request_scope sv p issue_invoice id db) _ h4 in
    let (_, _, h6) = >>=-eq-ok (fail_if (has_invoice p.tenant id locked) conflict) _ h5 in
    let (_, _, h7) =
      >>=-eq-ok (fail_if (has_result p.tenant id is_unresolved locked) conflict) _ h6 in
    let after = cancel_request p.tenant id version reason newest locked in
    let same = require_request_scope-requests sv p issue_invoice id db locked locking in
    subst (AllMoved p.user db.requests)
      (ap (update_where (λ x. is_request p.tenant id x && is_cancellable version x) _) (sym same)
        ∙ sym (audit-requests ids.message ids.audit p.tenant p.user id after db' h7))
      (AllMoved-update_one p.user (λ x. is_request p.tenant id x && is_cancellable version x) _ id r
        db.requests u (found-row p.tenant id db.requests r u (or_error-eq-ok _ _ found))
        (λ x k. ground arith)
        (inr (
          cancelling_move r.status (ground (arith, open_now)),
          refl,
          refl,
          λ e. ground (arith, e),
        )))

pub recover_failed_invoice-moves :
    (sv : Service) (p : Principal) (key : Text) (ids : InvoiceIds) (id : RowId) (version : ℕ)
    (reason : Text) (db db' : Db)
    → Unique request_id db.requests
    → recover_failed_invoice sv p key ids id version reason db ≡ ok db'
    → AllMoved p.user db.requests db'.requests
unfolding recover_failed_invoice
recover_failed_invoice-moves sv p key ids id version reason db db' u h =
    let stated = trim_space reason in
    let bound = trim_space key in
    let (_, _, h1) =
      >>=-eq-ok
        (fail_if
          (is_empty bound
            || ltb 128 (utf8_length bound)
            || p.user == 0
            || p.tenant == 0
            || version == 0
            || not (valid_reason stated))
          invalid)
        _ h in
    let hash = sv.digest (invoice_decision_request p.user id version stated) in
    let (claim, claiming, h2) =
      >>=-eq-ok (claim_idempotency p.tenant recover_invoice_command bound id hash db) _ h1 in
    continue_decision-moves p.user claim db db' (finish_recovery sv p ids id version) h2
      (λ db1 e.
        claim_idempotency-requests p.tenant recover_invoice_command bound id hash db db1
          (claiming ∙ ap ok e))
      (λ db1 same e.
        finish_recovery-moves sv p ids id version db1 db' (subst (Unique request_id) (sym same) u)
          e)

pub cancel_invoice_request-moves :
    (sv : Service) (p : Principal) (key : Text) (ids : InvoiceIds) (id : RowId) (version : ℕ)
    (reason : Text) (db db' : Db)
    → Unique request_id db.requests
    → cancel_invoice_request sv p key ids id version reason db ≡ ok db'
    → AllMoved p.user db.requests db'.requests
unfolding cancel_invoice_request
cancel_invoice_request-moves sv p key ids id version reason db db' u h =
    let stated = trim_space reason in
    let bound = trim_space key in
    let (_, _, h0) =
      >>=-eq-ok
        (guard (allows p issue_invoice && not (p.tenant == 0) && not (p.user == 0)) forbidden) _
        h in
    let (_, _, h1) =
      >>=-eq-ok
        (fail_if
          (id == 0
            || is_empty bound
            || ltb 128 (utf8_length bound)
            || version == 0
            || not (valid_reason stated))
          invalid)
        _ h0 in
    let hash = sv.digest (invoice_decision_request p.user id version stated) in
    let (claim, claiming, h2) =
      >>=-eq-ok (claim_idempotency p.tenant cancel_invoice_command bound id hash db) _ h1 in
    continue_decision-moves p.user claim db db' (finish_cancellation sv p ids id version stated) h2
      (λ db1 e.
        claim_idempotency-requests p.tenant cancel_invoice_command bound id hash db db1
          (claiming ∙ ap ok e))
      (λ db1 same e.
        finish_cancellation-moves sv p ids id version stated db1 db'
          (subst (Unique request_id) (sym same) u) e)
