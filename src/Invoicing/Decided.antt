-- ===== src/Invoicing/Decided.antt =====
-- The decisions on an invoice request keep the books sound: what is rejected is released
-- (internal/service/invoice_approval.go).
use settlement.Base.{
  ℕ, ◌≡◌, refl, sym, ap, subst, ◌∙◌, Bool, true, false, ◌&&◌, ◌||◌, not, List, [], ◌∷◌, ◌==◌, find,
  keep_if, arith, ok, >>=-eq-ok, or_error, fail_if, guard, invalid, conflict, forbidden, ltb,
}
use settlement.Base.Text.{Text, is_empty}
use settlement.Money.{required}
use settlement.Ledger.Tables.{RowId, Reservation}
use settlement.Ledger.InvoiceTables.{InvoiceRequest, submitted, special_review}
use settlement.Ledger.Access.{Principal, allows}
use settlement.Ledger.Db.{Db}
use settlement.Ledger.Requests.{Service, utf8_length}
use settlement.Ledger.Claims.{audit}
use settlement.Ledger.Scope.{require_contract_access}
use settlement.Ledger.Books.{Books, books, audit-books, require_contract_access-books, ok-books}
use settlement.Ledger.Books.Sound.{IsSound}
use settlement.Invoicing.Submit.{InvoiceIds, approve_invoice, special_approve}
use settlement.Invoicing.Review.{
  finish_review, require_request_scope, is_awaiting, create_attempt, command_attempt, send_command,
  finish_approval, approve_invoice_request, is_reserved_of, release_shares, reject_request,
  reject_invoice_request, ReviewIds, decide_review, review_special_invoice,
}
use settlement.Invoicing.Shares.{close-IsSound}
use settlement.Invoicing.Sound.{require_request_scope-books}

create_attempt-books :
    (sv : Service) (p : Principal) (ids : InvoiceIds) (id : RowId) (version : ℕ) (db db' : Db)
    (attempt : RowId)
    → create_attempt sv p ids id version db ≡ ok (attempt, db')
    → books db' ≡ books db
unfolding create_attempt command_attempt send_command audit
create_attempt-books sv p ids id version db db' attempt h = ground arith

finish_approval-books :
    (sv : Service) (p : Principal) (ids : InvoiceIds) (id : RowId) (version : ℕ) (db db' : Db)
    (attempt : RowId)
    → finish_approval sv p ids id version db ≡ ok (attempt, db')
    → books db' ≡ books db
unfolding finish_approval audit
finish_approval-books sv p ids id version db db' attempt h =
    ground (arith, create_attempt-books sv p ids id version db db' attempt)

-- `ApproveInvoiceRequest` keeps the books as they are: an approval neither reserves nor releases
-- anything, whether it asks for a special review or for an invoice.
pub approve_invoice_request-books :
    (sv : Service) (p : Principal) (ids : InvoiceIds) (id : RowId) (version : ℕ) (db db' : Db)
    (attempt : RowId)
    → approve_invoice_request sv p ids id version db ≡ ok (attempt, db')
    → books db' ≡ books db
unfolding approve_invoice_request
approve_invoice_request-books sv p ids id version db db' attempt h =
    let (r, _, h1) =
      >>=-eq-ok (or_error (find (is_awaiting p.tenant id submitted version) db.requests) conflict) _
        h in
    let (_, _, h2) = >>=-eq-ok (fail_if (r.submitted_by == p.user) invalid) _ h1 in
    let (locked, locking, h3) = >>=-eq-ok (require_request_scope sv p approve_invoice id db) _ h2 in
    finish_approval-books sv p ids id version locked db' attempt h3
    ∙ require_request_scope-books sv p approve_invoice id db locked locking

reject_request-IsSound :
    (tenant id : RowId) (moves : InvoiceRequest → Bool) (approver : RowId → RowId) (reason : Text)
    (db : Db)
    → IsSound (books db)
    → IsSound (books (reject_request tenant id moves approver reason db))
reject_request-IsSound tenant id moves approver reason db s =
    close-IsSound (is_reserved_of tenant id) _ (λ x. (refl, refl, refl)) (λ x. refl) (books db) s

pub released_none :
    (tenant id : RowId) (rows : List Reservation)
    → keep_if (is_reserved_of tenant id) (release_shares tenant id rows) ≡ []
released_none tenant id [] = refl
released_none tenant id (x ∷ rows) = ground (arith, released_none tenant id rows)

-- `RejectInvoiceRequest` keeps the books sound: if it returns from a database with sound books, it
-- leaves sound books, in which the request reserves nothing.
pub reject_invoice_request-IsSound :
    (sv : Service) (p : Principal) (ids : InvoiceIds) (id : RowId) (version : ℕ) (reason : Text)
    (db db' : Db)
    → IsSound (books db)
    → reject_invoice_request sv p ids id version reason db ≡ ok db'
    → IsSound (books db') × (keep_if (is_reserved_of p.tenant id) db'.reservations ≡ [])
unfolding reject_invoice_request
reject_invoice_request-IsSound sv p ids id version reason db db' s h =
    let (stated, _, h1) = >>=-eq-ok (required reason) _ h in
    let (_, _, h2) = >>=-eq-ok (fail_if (ltb 500 (utf8_length stated)) invalid) _ h1 in
    let (r, _, h3) =
      >>=-eq-ok (or_error (find (is_awaiting p.tenant id submitted version) db.requests) conflict) _
        h2 in
    let (_, _, h4) = >>=-eq-ok (fail_if (r.submitted_by == p.user) invalid) _ h3 in
    let (locked, locking, h5) = >>=-eq-ok (require_request_scope sv p approve_invoice id db) _ h4 in
    let after =
      reject_request p.tenant id (λ r. r.version == version) (λ old. p.user) stated locked in
    let same = audit-books ids.message ids.audit p.tenant p.user id after db' h5 in
    (
      subst IsSound (sym same) (
          reject_request-IsSound p.tenant id (λ r. r.version == version) (λ old. p.user) stated
            locked
            (subst IsSound
              (sym (require_request_scope-books sv p approve_invoice id db locked locking)) s)),
      ap (λ (b : Books). keep_if (is_reserved_of p.tenant id) b.reservations) same
          ∙ released_none p.tenant id locked.reservations,
    )

finish_review-IsSound :
    (sv : Service) (p : Principal) (ids : InvoiceIds) (id : RowId) (version : ℕ) (approve : Bool)
    (reason : Text) (db db' : Db) (attempt : RowId)
    → IsSound (books db)
    → finish_review sv p ids id version approve reason db ≡ ok (attempt, db')
    → IsSound (books db')
unfolding finish_review
finish_review-IsSound sv p ids id version true reason db db' attempt s h =
    subst IsSound (sym (create_attempt-books sv p ids id version db db' attempt h)) s
finish_review-IsSound sv p ids id version false reason db db' attempt s h =
    subst IsSound (ok-books h)
      (reject_request-IsSound p.tenant id (λ r. true) (λ old. old) reason db s)

-- `ReviewSpecialInvoice` keeps the books sound: if it returns from a database with sound books, it
-- leaves sound books, whatever is decided.
pub review_special_invoice-IsSound :
    (sv : Service) (p : Principal) (ids : ReviewIds) (id : RowId) (version : ℕ) (approve : Bool)
    (reason : Text) (db db' : Db) (attempt : RowId)
    → IsSound (books db)
    → review_special_invoice sv p ids id version approve reason db ≡ ok (attempt, db')
    → IsSound (books db')
unfolding review_special_invoice
review_special_invoice-IsSound sv p ids id version approve reason db db' attempt s h =
    let (_, _, h1) = >>=-eq-ok (guard (allows p special_approve) forbidden) _ h in
    let (_, _, h2) =
      >>=-eq-ok (fail_if (not approve && (ltb 500 (utf8_length reason) || is_empty reason)) invalid)
        _ h1 in
    let (r, _, h3) =
      >>=-eq-ok
        (or_error (find (is_awaiting p.tenant id special_review version) db.requests) conflict) _
        h2 in
    let (_, _, h4) = >>=-eq-ok (fail_if (r.submitted_by == p.user) forbidden) _ h3 in
    let (locked, locking, h5) =
      >>=-eq-ok (require_contract_access sv p special_approve r.snapshot db) _ h4 in
    let decided = decide_review p.tenant id p.user approve reason locked in
    let (audited, auditing, h6) =
      >>=-eq-ok (audit ids.message ids.audit p.tenant p.user id decided) _ h5 in
    let sound : IsSound (books audited) =
      subst IsSound
        (sym (
          audit-books ids.message ids.audit p.tenant p.user id decided audited auditing
          ∙ require_contract_access-books sv p special_approve r.snapshot db locked locking))
        s in
    finish_review-IsSound sv p ids.attempt id version approve reason audited db' attempt sound h6
