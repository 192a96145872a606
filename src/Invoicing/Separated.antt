-- ===== src/Invoicing/Separated.antt =====
-- The decisions on invoice requests refine the abstract machine of their states, with the duties
-- separated (internal/service/invoice_approval.go, invoice_recovery.go, invoice_cancel.go).
use settlement.Base.{
  ◌≢◌, ℕ, ◌≡◌, refl, sym, ap, subst, ◌∙◌, inl, inr, Bool, true, ◌&&◌, some, List, ◌==◌, find,
  update_where, arith, Bool-cases, ok, ok-injective, >>=-eq-ok, or_error, or_error-eq-ok, fail_if,
  invalid, conflict, ltb,
}
use settlement.Base.Keyed.{Unique, row_at, find-row_at}
use settlement.Base.Text.{Text}
use settlement.Money.{required}
use settlement.Ledger.Tables.{RowId}
use settlement.Ledger.InvoiceTables.{
  RequestStatus, issue_pending, issue_failed, rejected, InvoiceRequest, submitted, special_review,
}
use settlement.Ledger.Access.{Principal}
use settlement.Ledger.Db.{Db}
use settlement.Ledger.Requests.{Service, utf8_length}
use settlement.Ledger.Claims.{audit}
use settlement.Invoicing.Submit.{InvoiceIds, approve_invoice}
use settlement.Invoicing.Review.{
  is_request, status_code, move_request, require_request_scope, is_awaiting, finish_approval,
  approve_invoice_request, reject_request, reject_invoice_request, is_special,
}
use settlement.Invoicing.Duties.{
  request_id, Move, ask_review, ask_invoice, refuse, AllMoved, AllMoved-update_one, audit-requests,
  require_request_scope-requests, create_attempt-requests,
}

pub as_submitted : (s : RequestStatus) → (status_code s == 0) ≡ true → s ≡ submitted
as_submitted submitted h = refl
as_submitted _ h = ground arith

pub as_special : (s : RequestStatus) → (status_code s == 1) ≡ true → s ≡ special_review
as_special special_review h = refl
as_special _ h = ground arith

pub as_pending : (s : RequestStatus) → (status_code s == 2) ≡ true → s ≡ issue_pending
as_pending issue_pending h = refl
as_pending _ h = ground arith

pub as_failed : (s : RequestStatus) → (status_code s == 4) ≡ true → s ≡ issue_failed
as_failed issue_failed h = refl
as_failed _ h = ground arith

-- The row that a decision has locked.
module _ (tenant id version : RowId) (status : RequestStatus) (rows : List InvoiceRequest)
    (u : Unique request_id rows) (r : InvoiceRequest)
    (found : find (is_awaiting tenant id status version) rows ≡ some r) where
  pub locked-row :
      (row_at request_id id rows ≡ some r) × (is_awaiting tenant id status version r ≡ true)
  locked-row =
      find-row_at request_id (is_awaiting tenant id status version) id rows r (λ y h. ground arith)
        u found

finish_approval-moves :
    (sv : Service) (p : Principal) (ids : InvoiceIds) (id : RowId) (version : ℕ) (db db' : Db)
    (attempt : RowId) (r : InvoiceRequest)
    → Unique request_id db.requests
    → find (is_awaiting p.tenant id submitted version) db.requests ≡ some r
    → r.submitted_by ≢ p.user
    → finish_approval sv p ids id version db ≡ ok (attempt, db')
    → AllMoved p.user db.requests db'.requests
unfolding finish_approval
finish_approval-moves sv p ids id version db db' attempt r u found other h =
    let (at_key, locked) = locked-row p.tenant id version submitted db.requests u r found in
    let was = as_submitted r.status (ground (arith, locked)) in
    let q : InvoiceRequest → Bool = λ x. is_request p.tenant id x && x.version == version in
    elim (Bool-cases (is_special p.tenant id db)) [
      | inl e ↦
          let after = move_request p.tenant id version special_review p.user db in
          let (audited, auditing, same) =
            >>=-eq-ok (audit ids.message ids.audit p.tenant p.user id after) _ (rw e at h) in
          subst (AllMoved p.user db.requests)
            (sym (audit-requests ids.message ids.audit p.tenant p.user id after audited auditing)
              ∙ ap (λ (x : RowId × Db). x.1.requests) (ok-injective same))
            (AllMoved-update_one p.user q _ id r db.requests u at_key (λ x k. ground arith)
              (inr (subst (λ s. Move s special_review) (sym was) ask_review, refl, refl, other)))
      | inr e ↦
          subst (AllMoved p.user db.requests)
            (sym (create_attempt-requests sv p ids id version db db' attempt (rw e at h)))
            (AllMoved-update_one p.user q _ id r db.requests u at_key (λ x k. ground arith)
              (inr (subst (λ s. Move s issue_pending) (sym was) ask_invoice, refl, refl, other)))
    ]

pub approve_invoice_request-moves :
    (sv : Service) (p : Principal) (ids : InvoiceIds) (id : RowId) (version : ℕ) (db db' : Db)
    (attempt : RowId)
    → Unique request_id db.requests
    → approve_invoice_request sv p ids id version db ≡ ok (attempt, db')
    → AllMoved p.user db.requests db'.requests
unfolding approve_invoice_request
approve_invoice_request-moves sv p ids id version db db' attempt u h =
    let (r, found, h1) =
      >>=-eq-ok (or_error (find (is_awaiting p.tenant id submitted version) db.requests) conflict) _
        h in
    let (_, other, h2) = >>=-eq-ok (fail_if (r.submitted_by == p.user) invalid) _ h1 in
    let (locked, locking, h3) = >>=-eq-ok (require_request_scope sv p approve_invoice id db) _ h2 in
    let same = require_request_scope-requests sv p approve_invoice id db locked locking in
    subst (λ rows. AllMoved p.user rows db'.requests) same
      (finish_approval-moves sv p ids id version locked db' attempt r
        (subst (Unique request_id) (sym same) u)
        (ap (find (is_awaiting p.tenant id submitted version)) same ∙ or_error-eq-ok _ _ found)
        (λ e. ground (arith, e)) h3)

pub reject_invoice_request-moves :
    (sv : Service) (p : Principal) (ids : InvoiceIds) (id : RowId) (version : ℕ) (reason : Text)
    (db db' : Db)
    → Unique request_id db.requests
    → reject_invoice_request sv p ids id version reason db ≡ ok db'
    → AllMoved p.user db.requests db'.requests
unfolding reject_invoice_request
reject_invoice_request-moves sv p ids id version reason db db' u h =
    let (stated, _, h1) = >>=-eq-ok (required reason) _ h in
    let (_, _, h2) = >>=-eq-ok (fail_if (ltb 500 (utf8_length stated)) invalid) _ h1 in
    let (r, found, h3) =
      >>=-eq-ok (or_error (find (is_awaiting p.tenant id submitted version) db.requests) conflict) _
        h2 in
    let (_, other, h4) = >>=-eq-ok (fail_if (r.submitted_by == p.user) invalid) _ h3 in
    let (locked, locking, h5) = >>=-eq-ok (require_request_scope sv p approve_invoice id db) _ h4 in
    let same = require_request_scope-requests sv p approve_invoice id db locked locking in
    let (at_key, was_locked) =
      locked-row p.tenant id version submitted db.requests u r (or_error-eq-ok _ _ found) in
    let after =
      reject_request p.tenant id (λ x. x.version == version) (λ old. p.user) stated locked in
    subst (AllMoved p.user db.requests)
      (ap (update_where (λ x. is_request p.tenant id x && x.version == version) _) (sym same)
        ∙ sym (audit-requests ids.message ids.audit p.tenant p.user id after db' h5))
      (AllMoved-update_one p.user (λ x. is_request p.tenant id x && x.version == version) _ id r
        db.requests u at_key (λ x k. ground arith)
        (inr (
          subst (λ s. Move s rejected) (sym (as_submitted r.status (ground (arith, was_locked))))
              refuse,
          refl,
          refl,
          λ e. ground (arith, e),
        )))
