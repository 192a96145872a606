-- ===== src/Invoicing/History.antt =====
-- Every run of the financial commands and of the invoice workflow, in whatever order and by whomever
-- (internal/service): the books stay sound.
use settlement.Base.{ℕ, ◌≡◌, ok}
use settlement.Base.Text.{Text}
use settlement.Base.{Bool}
use settlement.Ledger.Tables.{RowId}
use settlement.Ledger.InvoiceTables.{Processing}
use settlement.Ledger.Access.{Principal}
use settlement.Ledger.Db.{Db}
use settlement.Ledger.Requests.{Service, ReceiptInput, AllocationInput, ReversalInput}
use settlement.Ledger.Coverage.{Thresholds}
use settlement.Ledger.Receipts.{Fresh, create_receipt}
use settlement.Ledger.Allocations.{confirm_allocation}
use settlement.Ledger.Reversals.{reverse_allocation}
use settlement.Ledger.Plans.{
  PlanIds, PlanInput, ManualPlanInput, create_manual_plan, confirm_plan, adjust_plan,
}
use settlement.Ledger.Books.{books}
use settlement.Ledger.Books.Sound.{IsSound}
use settlement.Ledger.Books.Record.{create_receipt-IsSound}
use settlement.Ledger.Books.Confirm.{confirm_allocation-IsSound}
use settlement.Ledger.Books.Reverse.{reverse_allocation-IsSound}
use settlement.Ledger.Books.Plans.{confirm_plan-IsSound}
use settlement.Ledger.Books.Adjust.{create_manual_plan-IsSound, adjust_plan-IsSound}
use settlement.Base.{subst, sym}
use settlement.Invoicing.Events.{Callback, CallbackIds}
use settlement.Invoicing.Callback.{apply_tax_callback}
use settlement.Invoicing.Submit.{InvoiceIds, InvoiceInput, create_invoice_request}
use settlement.Invoicing.Review.{
  ReviewIds, approve_invoice_request, reject_invoice_request, review_special_invoice,
}
use settlement.Invoicing.Manual.{ManualInvoiceInput, register_manual_invoice}
use settlement.Invoicing.Withdraw.{recover_failed_invoice, cancel_invoice_request}
use settlement.Invoicing.Sound.{create_invoice_request-IsSound}
use settlement.Invoicing.Decided.{
  approve_invoice_request-books, reject_invoice_request-IsSound, review_special_invoice-IsSound,
}
use settlement.Invoicing.Closed.{
  register_manual_invoice-IsSound, recover_failed_invoice-IsSound, cancel_invoice_request-IsSound,
}
use settlement.Invoicing.Answered.{apply_tax_callback-IsSound}

-- A command that commits.
pub data Step (sv : Service) (t : Thresholds) : Db → Db → Type 0 where
  received :
      (p : Principal) (key : Text) (today : ℕ) (fresh : Fresh) (input : ReceiptInput) (id : RowId)
      {db db' : Db}
      → create_receipt sv p key today fresh input db ≡ ok (id, db')
      → Step sv t db db'
  allocated :
      (p : Principal) (key : Text) (now : ℕ) (fresh : Fresh) (input : AllocationInput) (id : RowId)
      {db db' : Db}
      → confirm_allocation sv p key now fresh input db ≡ ok (id, db')
      → Step sv t db db'
  taken_back :
      (p : Principal) (key : Text) (now : ℕ) (fresh : Fresh) (allocation : RowId)
      (input : ReversalInput) (id : RowId) {db db' : Db}
      → reverse_allocation sv p key now fresh allocation input db ≡ ok (id, db')
      → Step sv t db db'
  planned :
      (p : Principal) (key : Text) (ids : PlanIds) (input : ManualPlanInput) (id : RowId)
      {db db' : Db}
      → create_manual_plan sv t p key ids input db ≡ ok (id, db')
      → Step sv t db db'
  plan_confirmed :
      (p : Principal) (ids : PlanIds) (id : RowId) (input : PlanInput) {db db' : Db}
      → confirm_plan sv t p ids id input db ≡ ok db'
      → Step sv t db db'
  plan_adjusted :
      (p : Principal) (ids : PlanIds) (id : RowId) (input : PlanInput) {db db' : Db}
      → adjust_plan sv t p ids id input db ≡ ok db'
      → Step sv t db db'
  requested :
      (p : Principal) (key : Text) (ids : InvoiceIds) (input : InvoiceInput) (id : RowId)
      {db db' : Db}
      → create_invoice_request sv p key ids input db ≡ ok (id, db')
      → Step sv t db db'
  approved :
      (p : Principal) (ids : InvoiceIds) (id : RowId) (version : ℕ) (attempt : RowId) {db db' : Db}
      → approve_invoice_request sv p ids id version db ≡ ok (attempt, db')
      → Step sv t db db'
  declined :
      (p : Principal) (ids : InvoiceIds) (id : RowId) (version : ℕ) (reason : Text) {db db' : Db}
      → reject_invoice_request sv p ids id version reason db ≡ ok db'
      → Step sv t db db'
  reviewed :
      (p : Principal) (ids : ReviewIds) (id : RowId) (version : ℕ) (approve : Bool) (reason : Text)
      (attempt : RowId) {db db' : Db}
      → review_special_invoice sv p ids id version approve reason db ≡ ok (attempt, db')
      → Step sv t db db'
  registered :
      (p : Principal) (today : ℕ) (ids : InvoiceIds) (id : RowId) (input : ManualInvoiceInput)
      (row : RowId) {db db' : Db}
      → register_manual_invoice sv p today ids id input db ≡ ok (row, db')
      → Step sv t db db'
  recovered :
      (p : Principal) (key : Text) (ids : InvoiceIds) (id : RowId) (version : ℕ) (reason : Text)
      {db db' : Db}
      → recover_failed_invoice sv p key ids id version reason db ≡ ok db'
      → Step sv t db db'
  withdrawn :
      (p : Principal) (key : Text) (ids : InvoiceIds) (id : RowId) (version : ℕ) (reason : Text)
      {db db' : Db}
      → cancel_invoice_request sv p key ids id version reason db ≡ ok db'
      → Step sv t db db'
  answered :
      (tenant now : ℕ) (ids : CallbackIds) (adapter : RowId) (hash : ℕ) (e : Callback)
      (answer : Processing) {db db' : Db}
      → apply_tax_callback sv tenant now ids adapter hash e db ≡ ok (answer, db')
      → Step sv t db db'

-- A run of commands. One that ends in an error leaves the database, and is no step.
pub data Reach (sv : Service) (t : Thresholds) (db : Db) : Db → Type 0 where
  here : Reach sv t db db
  next : {db1 db2 : Db} → Reach sv t db db1 → Step sv t db1 db2 → Reach sv t db db2

pub Step-IsSound :
    (sv : Service) (t : Thresholds) {db db' : Db}
    → Step sv t db db'
    → IsSound (books db)
    → IsSound (books db')
Step-IsSound sv t (received p key today fresh input id h) s =
    create_receipt-IsSound sv p key today fresh input _ _ id s h
Step-IsSound sv t (allocated p key now fresh input id h) s =
    confirm_allocation-IsSound sv p key now fresh input _ _ id s h
Step-IsSound sv t (taken_back p key now fresh allocation input id h) s =
    reverse_allocation-IsSound sv p key now fresh allocation input _ _ id s h
Step-IsSound sv t (planned p key ids input id h) s =
    create_manual_plan-IsSound sv t p key ids input _ _ id s h
Step-IsSound sv t (plan_confirmed p ids id input h) s =
    (confirm_plan-IsSound sv t p ids id input _ _ s h).0
Step-IsSound sv t (plan_adjusted p ids id input h) s =
    adjust_plan-IsSound sv t p ids id input _ _ s h
Step-IsSound sv t (requested p key ids input id h) s =
    create_invoice_request-IsSound sv p key ids input _ _ id s h
Step-IsSound sv t (approved p ids id version attempt h) s =
    subst IsSound (sym (approve_invoice_request-books sv p ids id version _ _ attempt h)) s
Step-IsSound sv t (declined p ids id version reason h) s =
    (reject_invoice_request-IsSound sv p ids id version reason _ _ s h).0
Step-IsSound sv t (reviewed p ids id version approve reason attempt h) s =
    review_special_invoice-IsSound sv p ids id version approve reason _ _ attempt s h
Step-IsSound sv t (registered p today ids id input row h) s =
    register_manual_invoice-IsSound sv p today ids id input _ _ row s h
Step-IsSound sv t (recovered p key ids id version reason h) s =
    recover_failed_invoice-IsSound sv p key ids id version reason _ _ s h
Step-IsSound sv t (withdrawn p key ids id version reason h) s =
    cancel_invoice_request-IsSound sv p key ids id version reason _ _ s h
Step-IsSound sv t (answered tenant now ids adapter hash e answer h) s =
    apply_tax_callback-IsSound sv tenant now ids adapter hash e _ _ answer s h

-- From a database with sound books, every run of the fourteen commands leads to sound books: each
-- balance is what the allocations and reversals add up to, and no receivable is invoiced and
-- reserved beyond its original amount.
pub Reach-IsSound :
    (sv : Service) (t : Thresholds) {db db' : Db}
    → IsSound (books db)
    → Reach sv t db db'
    → IsSound (books db')
Reach-IsSound sv t s here = s
Reach-IsSound sv t s (next run step) = Step-IsSound sv t step (Reach-IsSound sv t s run)
