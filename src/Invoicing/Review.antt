-- ===== src/Invoicing/Review.antt =====
-- The decisions on an invoice request: approval, rejection and special review
-- (internal/service/invoice_approval.go).
pub mod Attempt
unfoldable pub use Attempt.*
use settlement.Base.{
  ◌>>=◌, ◌>>◌, ℕ, ◌+◌, Bool, true, false, ◌&&◌, ◌||◌, not, none, some, List, ◌==◌, ltb,
  if◌then◌else◌, find, update_where, Result, ok, invalid, forbidden, conflict, or_error, fail_if,
  guard,
}
use settlement.Base.Text.{Text, is_empty}
use settlement.Money.{required}
use settlement.Ledger.Tables.{RowId, Reservation, released_reservation}
use settlement.Ledger.InvoiceTables.{
  InvoiceRequest, submitted, special_review, rejected, SpecialReview, review_approved,
  review_rejected,
}
use settlement.Ledger.Access.{Principal, allows}
use settlement.Ledger.Db.{Db}
use settlement.Ledger.Requests.{Service, utf8_length}
use settlement.Ledger.Claims.{audit}
use settlement.Ledger.Scope.{require_contract_access}
use settlement.Ledger.Reserved.{is_reserved}
use settlement.Invoicing.Submit.{InvoiceIds, approve_invoice, special_approve}

-- `required_review`, where there is a review.
abbrev pub is_special : RowId → RowId → Db → Bool
is_special tenant request db =
    elim (find (λ (x : SpecialReview). x.tenant == tenant && x.request == request) db.reviews) [
      | none ↦ false
      | some x ↦ x.required
    ]

-- After the checks: to the special review, or to an attempt. The id of 0 is the empty text.
unfoldable pub finish_approval :
    Service → Principal → InvoiceIds → (id : RowId) → (version : ℕ) → Db → Result (RowId × Db)
unfolding create_attempt
finish_approval sv p ids id version db =
    if is_special p.tenant id db
    then (do
      audited ←
          audit ids.message ids.audit p.tenant p.user id
            (move_request p.tenant id version special_review p.user db)
      ok (0, audited))
    else create_attempt sv p ids id version db

-- `ApproveInvoiceRequest`
unfoldable pub approve_invoice_request :
    Service → Principal → InvoiceIds → (id : RowId) → (version : ℕ) → Db → Result (RowId × Db)
unfolding require_request_scope finish_approval
approve_invoice_request sv p ids id version db = do
  r ← or_error (find (is_awaiting p.tenant id submitted version) db.requests) conflict
  fail_if (r.submitted_by == p.user) invalid
  locked ← require_request_scope sv p approve_invoice id db
  finish_approval sv p ids id version locked

abbrev pub is_reserved_of : RowId → RowId → Reservation → Bool
is_reserved_of tenant request x = x.tenant == tenant && x.request == request && is_reserved x.status

-- What a rejection releases.
abbrev pub release_shares : (tenant request : RowId) → List Reservation → List Reservation
release_shares tenant request =
    update_where (is_reserved_of tenant request)
      (λ x. record x { released_amount = x.reserved_amount; status = released_reservation })

abbrev pub reject_request :
    (tenant id : RowId)
    → (moves : InvoiceRequest → Bool) → (approver : RowId → RowId) → (reason : Text) → Db
    → Db
reject_request tenant id moves approver reason db = record db {
  requests =
      update_where (λ r. is_request tenant id r && moves r)
        (λ r. record r {
          status = rejected;
          approved_by = approver r.approved_by;
          rejection_reason = reason;
          version = r.version + 1;
        })
        db.requests;
  reservations = release_shares tenant id db.reservations;
}

-- `RejectInvoiceRequest`
unfoldable pub reject_invoice_request :
    Service
    → Principal
    → InvoiceIds
    → (id : RowId) → (version : ℕ) → (reason : Text) → Db
    → Result Db
unfolding require_request_scope
reject_invoice_request sv p ids id version reason db = do
  stated ← required reason
  fail_if (ltb 500 (utf8_length stated)) invalid
  r ← or_error (find (is_awaiting p.tenant id submitted version) db.requests) conflict
  fail_if (r.submitted_by == p.user) invalid
  locked ← require_request_scope sv p approve_invoice id db
  audit ids.message ids.audit p.tenant p.user id
      (reject_request p.tenant id (λ r. r.version == version) (λ old. p.user) stated locked)

-- The decision is kept with the review.
abbrev pub decide_review : (tenant request reviewer : RowId) → Bool → (reason : Text) → Db → Db
decide_review tenant request reviewer approve reason db = record db {
  reviews =
      update_where (λ (x : SpecialReview). x.tenant == tenant && x.request == request && x.required)
        (λ x. record x {
          status = if approve then review_approved else review_rejected;
          reviewed_by = reviewer;
          review_reason = reason;
        })
        db.reviews;
}

-- The generated identifiers of a special review: its own audit comes before those of the attempt.
pub record ReviewIds : Type 0 where
  pub attempt : InvoiceIds
  pub message : RowId
  pub audit : RowId

-- What a special review decides: an attempt, or a rejection. The id of 0 is the empty text.
unfoldable pub finish_review :
    Service
    → Principal
    → InvoiceIds
    → (id : RowId) → (version : ℕ) → (approve : Bool) → (reason : Text) → Db
    → Result (RowId × Db)
unfolding create_attempt
finish_review sv p ids id version true reason db = create_attempt sv p ids id version db
finish_review sv p ids id version false reason db =
    ok (0, reject_request p.tenant id (λ r. true) (λ old. old) reason db)

-- `ReviewSpecialInvoice`
unfoldable pub review_special_invoice :
    Service
    → Principal
    → ReviewIds
    → (id : RowId) → (version : ℕ) → (approve : Bool) → (reason : Text) → Db
    → Result (RowId × Db)
unfolding finish_review
review_special_invoice sv p ids id version approve reason db = do
  guard (allows p special_approve) forbidden
  fail_if (not approve && (ltb 500 (utf8_length reason) || is_empty reason)) invalid
  r ← or_error (find (is_awaiting p.tenant id special_review version) db.requests) conflict
  fail_if (r.submitted_by == p.user) forbidden
  locked ← require_contract_access sv p special_approve r.snapshot db
  audited ←
      audit ids.message ids.audit p.tenant p.user id
        (decide_review p.tenant id p.user approve reason locked)
  finish_review sv p ids.attempt id version approve reason audited
