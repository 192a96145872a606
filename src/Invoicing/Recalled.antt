-- ===== src/Invoicing/Recalled.antt =====
-- A special review moves a request only as the abstract machine of its states allows
-- (internal/service/invoice_approval.go).
use settlement.Base.{
  ◌≢◌, ℕ, ◌≡◌, refl, sym, ap, subst, ◌∙◌, inr, Bool, true, false, ◌&&◌, ◌||◌, not, some, ◌==◌, find,
  arith, ok, ok-injective, >>=-eq-ok, or_error, or_error-eq-ok, fail_if, guard, invalid, conflict,
  forbidden, ltb,
}
use settlement.Base.Keyed.{Unique}
use settlement.Base.Text.{Text, is_empty}
use settlement.Ledger.Tables.{RowId}
use settlement.Ledger.InvoiceTables.{issue_pending, rejected, InvoiceRequest, special_review}
use settlement.Ledger.Access.{Principal, allows}
use settlement.Ledger.Db.{Db}
use settlement.Ledger.Requests.{Service, utf8_length}
use settlement.Ledger.Claims.{audit}
use settlement.Ledger.Scope.{require_contract_access}
use settlement.Invoicing.Submit.{InvoiceIds, special_approve}
use settlement.Invoicing.Review.{
  is_request, finish_review, is_awaiting, ReviewIds, decide_review, review_special_invoice,
}
use settlement.Invoicing.Duties.{
  request_id, Move, accept, refuse_special, AllMoved, AllMoved-update_one, audit-requests,
  require_contract_access-requests, create_attempt-requests,
}
use settlement.Invoicing.Separated.{as_special, locked-row}
use settlement.Invoicing.Review.{is_request}

decide_review-requests :
    (tenant request reviewer : RowId) (approve : Bool) (reason : Text) (db : Db)
    → (decide_review tenant request reviewer approve reason db).requests ≡ db.requests
decide_review-requests tenant request reviewer approve reason db = refl

finish_review-moves :
    (sv : Service) (p : Principal) (ids : InvoiceIds) (id : RowId) (version : ℕ) (approve : Bool)
    (reason : Text) (db db' : Db) (attempt : RowId) (r : InvoiceRequest)
    → Unique request_id db.requests
    → find (is_awaiting p.tenant id special_review version) db.requests ≡ some r
    → r.submitted_by ≢ p.user
    → finish_review sv p ids id version approve reason db ≡ ok (attempt, db')
    → AllMoved p.user db.requests db'.requests
unfolding finish_review
finish_review-moves sv p ids id version true reason db db' attempt r u found other h =
    let (at_key, locked) = locked-row p.tenant id version special_review db.requests u r found in
    subst (AllMoved p.user db.requests)
      (sym (create_attempt-requests sv p ids id version db db' attempt h))
      (AllMoved-update_one p.user (λ x. is_request p.tenant id x && x.version == version) _ id r
        db.requests u at_key (λ x k. ground arith)
        (inr (
          subst (λ s. Move s issue_pending) (sym (as_special r.status (ground (arith, locked))))
              accept,
          refl,
          refl,
          other,
        )))
finish_review-moves sv p ids id version false reason db db' attempt r u found other h =
    let (at_key, locked) = locked-row p.tenant id version special_review db.requests u r found in
    subst (λ (x : RowId × Db). AllMoved p.user db.requests x.1.requests) (ok-injective h)
      (AllMoved-update_one p.user (λ x. is_request p.tenant id x && true) _ id r db.requests u
        at_key (λ x k. ground arith)
        (inr (
          subst (λ s. Move s rejected) (sym (as_special r.status (ground (arith, locked))))
              refuse_special,
          refl,
          refl,
          other,
        )))

pub review_special_invoice-moves :
    (sv : Service) (p : Principal) (ids : ReviewIds) (id : RowId) (version : ℕ) (approve : Bool)
    (reason : Text) (db db' : Db) (attempt : RowId)
    → Unique request_id db.requests
    → review_special_invoice sv p ids id version approve reason db ≡ ok (attempt, db')
    → AllMoved p.user db.requests db'.requests
unfolding review_special_invoice
review_special_invoice-moves sv p ids id version approve reason db db' attempt u h =
    let (_, _, h0) = >>=-eq-ok (guard (allows p special_approve) forbidden) _ h in
    let (_, _, h1) =
      >>=-eq-ok (fail_if (not approve && (ltb 500 (utf8_length reason) || is_empty reason)) invalid)
        _ h0 in
    let (r, found, h2) =
      >>=-eq-ok
        (or_error (find (is_awaiting p.tenant id special_review version) db.requests) conflict) _
        h1 in
    let (_, other, h3) = >>=-eq-ok (fail_if (r.submitted_by == p.user) forbidden) _ h2 in
    let (locked, locking, h4) =
      >>=-eq-ok (require_contract_access sv p special_approve r.snapshot db) _ h3 in
    let decided = decide_review p.tenant id p.user approve reason locked in
    let (audited, auditing, h5) =
      >>=-eq-ok (audit ids.message ids.audit p.tenant p.user id decided) _ h4 in
    let same =
      audit-requests ids.message ids.audit p.tenant p.user id decided audited auditing
      ∙ require_contract_access-requests sv p special_approve r.snapshot db locked locking in
    subst (λ rows. AllMoved p.user rows db'.requests) same
      (finish_review-moves sv p ids.attempt id version approve reason audited db' attempt r
        (subst (Unique request_id) (sym same) u)
        (ap (find (is_awaiting p.tenant id special_review version)) same ∙ or_error-eq-ok _ _ found)
        (λ e. ground (arith, e)) h5)
