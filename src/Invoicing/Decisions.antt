-- ===== src/Invoicing/Decisions.antt =====
-- The decisions on invoice requests refine the abstract machine of their states
-- (internal/service/invoice_approval.go, invoice_recovery.go, invoice_cancel.go).
use settlement.Base.{ℕ, ◌≡◌, Bool, ok}
use settlement.Base.Text.{Text}
use settlement.Base.Keyed.{Unique}
use settlement.Ledger.Tables.{RowId}
use settlement.Ledger.Access.{Principal}
use settlement.Ledger.Db.{Db}
use settlement.Ledger.Requests.{Service}
use settlement.Invoicing.Submit.{InvoiceIds}
use settlement.Invoicing.Review.{
  ReviewIds, approve_invoice_request, reject_invoice_request, review_special_invoice,
}
use settlement.Invoicing.Withdraw.{recover_failed_invoice, cancel_invoice_request}
use settlement.Invoicing.Duties.{request_id, AllMoved}
use settlement.Invoicing.Separated.{approve_invoice_request-moves, reject_invoice_request-moves}
use settlement.Invoicing.Recalled.{review_special_invoice-moves}
use settlement.Invoicing.Withdrawn.{recover_failed_invoice-moves, cancel_invoice_request-moves}

-- A decision of a user that commits.
pub data Decision (sv : Service) (p : Principal) (db : Db) : Db → Type 0 where
  approval :
      (ids : InvoiceIds) (id : RowId) (version : ℕ) (attempt : RowId) {db' : Db}
      → approve_invoice_request sv p ids id version db ≡ ok (attempt, db')
      → Decision sv p db db'
  rejection :
      (ids : InvoiceIds) (id : RowId) (version : ℕ) (reason : Text) {db' : Db}
      → reject_invoice_request sv p ids id version reason db ≡ ok db'
      → Decision sv p db db'
  review :
      (ids : ReviewIds) (id : RowId) (version : ℕ) (approve : Bool) (reason : Text)
      (attempt : RowId) {db' : Db}
      → review_special_invoice sv p ids id version approve reason db ≡ ok (attempt, db')
      → Decision sv p db db'
  recovery :
      (key : Text) (ids : InvoiceIds) (id : RowId) (version : ℕ) (reason : Text) {db' : Db}
      → recover_failed_invoice sv p key ids id version reason db ≡ ok db'
      → Decision sv p db db'
  cancellation :
      (key : Text) (ids : InvoiceIds) (id : RowId) (version : ℕ) (reason : Text) {db' : Db}
      → cancel_invoice_request sv p key ids id version reason db ≡ ok db'
      → Decision sv p db db'

-- In a table of requests with different ids, a decision that commits leaves every request as it was
-- or moves it along the abstract machine `Move`: once, to the next version, under the same applicant,
-- and never by a user who is that applicant.
pub Decision-AllMoved :
    (sv : Service) (p : Principal) {db db' : Db}
    → Unique request_id db.requests
    → Decision sv p db db'
    → AllMoved p.user db.requests db'.requests
Decision-AllMoved sv p u (approval ids id version attempt h) =
    approve_invoice_request-moves sv p ids id version _ _ attempt u h
Decision-AllMoved sv p u (rejection ids id version reason h) =
    reject_invoice_request-moves sv p ids id version reason _ _ u h
Decision-AllMoved sv p u (review ids id version approve reason attempt h) =
    review_special_invoice-moves sv p ids id version approve reason _ _ attempt u h
Decision-AllMoved sv p u (recovery key ids id version reason h) =
    recover_failed_invoice-moves sv p key ids id version reason _ _ u h
Decision-AllMoved sv p u (cancellation key ids id version reason h) =
    cancel_invoice_request-moves sv p key ids id version reason _ _ u h
