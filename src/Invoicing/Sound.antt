-- ===== src/Invoicing/Sound.antt =====
-- The commands of the invoice workflow keep the books sound: no receivable is invoiced and reserved
-- beyond its original amount (internal/service/invoice_request.go, invoice_approval.go,
-- invoice_manual.go, invoice_recovery.go, invoice_cancel.go).
use settlement.Base.{
  ◌≡◌, sym, ap, subst, ◌∙◌, inl, inr, ◌&&◌, [], ◌∷◌, ◌++◌, ◌==◌, find, any, arith, Bool-cases, ok,
  >>=-eq-ok, or_error, storage, invalid,
}
use settlement.Base.Text.{Text, text_eq}
use settlement.Ledger.Tables.{RowId}
use settlement.Ledger.InvoiceTables.{InvoiceRequest}
use settlement.Ledger.Access.{Principal, Permission}
use settlement.Ledger.Db.{Db, create_invoice_command}
use settlement.Ledger.Requests.{Service}
use settlement.Ledger.Claims.{audit, claim_idempotency}
use settlement.Ledger.Scope.{require_contract_access}
use settlement.Ledger.Coverage.{is_effective_contract}
use settlement.Ledger.Books.{
  books, audit-books, claim_idempotency-books, require_contract_access-books,
  require_write_scope-books, continue_claim-keeps, ok-books,
}
use settlement.Ledger.Books.Sound.{IsSound}
use settlement.Invoicing.Input.{require_buyer_customer}
use settlement.Invoicing.Submit.{
  InvoiceInput, InvoiceIds, CheckedRequest, check_request, check_available, insert_lines,
  insert_shares, insert_review, insert_request_rows, insert_request, new_request, same_request,
  request_body, create_invoice_request, request_invoice,
}
use settlement.Invoicing.Review.{require_request_scope}
use settlement.Invoicing.Available.{insert_shares-IsSound}

pub require_request_scope-books :
    (sv : Service) (p : Principal) (permission : Permission) (request : RowId) (db db' : Db)
    → require_request_scope sv p permission request db ≡ ok db'
    → books db' ≡ books db
unfolding require_request_scope
require_request_scope-books sv p permission request db db' h =
    grind (arith, require_write_scope-books)

insert_review-books :
    (tenant request : RowId) (c : CheckedRequest) (db db' : Db)
    → insert_review tenant request c db ≡ ok db'
    → books db' ≡ books db
unfolding insert_review
insert_review-books tenant request c db db' h = ground arith

insert_request_rows-IsSound :
    (p : Principal) (ids : InvoiceIds) (c : CheckedRequest) (new : InvoiceRequest) (db db' : Db)
    (id : RowId) {u : Unit}
    → IsSound (books db)
    → check_available p.tenant c.snapshot c.shares db ≡ ok u
    → insert_request_rows p ids c new db ≡ ok (id, db')
    → IsSound (books db')
unfolding insert_request_rows
insert_request_rows-IsSound p ids c new db db' id s checked h =
    let (lines, _, h1) =
      >>=-eq-ok (insert_lines p.tenant new.id ids 0 c.invoice.items db.request_items) _ h in
    let (shares, inserted, h2) =
      >>=-eq-ok (insert_shares p.tenant new.id ids 0 c.shares db.reservations) _ h1 in
    let with_rows = record db {
      requests = db.requests ++ new ∷ [];
      request_items = lines;
      reservations = shares;
    } in
    let (reviewed, reviewing, h3) = >>=-eq-ok (insert_review p.tenant new.id c with_rows) _ h2 in
    let (audited, auditing, same) =
      >>=-eq-ok (audit ids.message ids.audit p.tenant p.user new.id reviewed) _ h3 in
    subst IsSound
      (sym (
          audit-books ids.message ids.audit p.tenant p.user new.id reviewed audited auditing
          ∙ insert_review-books p.tenant new.id c with_rows reviewed reviewing)
        ∙ ok-books same)
      (insert_shares-IsSound p.tenant c.snapshot new.id ids c.shares db shares s checked inserted)

insert_request-IsSound :
    (p : Principal) (ids : InvoiceIds) (c : CheckedRequest) (new : InvoiceRequest)
    (before db db' : Db) (id : RowId)
    → IsSound (books before)
    → IsSound (books db)
    → insert_request p ids c new before db ≡ ok (id, db')
    → IsSound (books db')
unfolding insert_request
insert_request-IsSound p ids c new before db db' id s0 s h =
    let (contract, _, h1) =
      >>=-eq-ok (or_error (find (is_effective_contract p.tenant c.snapshot) db.snapshots) invalid) _
        h in
    let (_, _, h2) = >>=-eq-ok (require_buyer_customer c.buyer contract.customer_id) _ h1 in
    let (_, checked, h3) = >>=-eq-ok (check_available p.tenant c.snapshot c.shares db) _ h2 in
    elim (Bool-cases (any (same_request new) db.requests)) [
      | inl taken ↦
          let (old, _, same) =
            >>=-eq-ok
              (or_error
                (find
                  (λ (r : InvoiceRequest).
                    r.tenant == p.tenant && text_eq r.idempotency_key new.idempotency_key)
                  db.requests)
                storage)
              _ (rw taken at h3) in
          subst IsSound (ok-books same) s0
      | inr free ↦ insert_request_rows-IsSound p ids c new db db' id s checked (rw free at h3)
    ]

-- `CreateInvoiceRequest` keeps the books sound: if it returns from a database with sound books, it
-- leaves sound books, so that what it reserves fits beside what is invoiced and reserved already.
pub create_invoice_request-IsSound :
    (sv : Service) (p : Principal) (key : Text) (ids : InvoiceIds) (input : InvoiceInput)
    (db db' : Db) (id : RowId)
    → IsSound (books db)
    → create_invoice_request sv p key ids input db ≡ ok (id, db')
    → IsSound (books db')
unfolding create_invoice_request
create_invoice_request-IsSound sv p key ids input db db' id sound h =
    let (c, _, h1) = >>=-eq-ok (check_request sv p key input) _ h in
    let (locked, locking, h2) =
      >>=-eq-ok (require_contract_access sv p request_invoice c.snapshot db) _ h1 in
    let hash = sv.digest (request_body c) in
    let (claim, claiming, h3) =
      >>=-eq-ok (claim_idempotency p.tenant create_invoice_command key ids.row hash locked) _ h2 in
    continue_claim-keeps IsSound claim db (insert_request p ids c (new_request p key ids c) db) db'
      id h3
      (λ db1 e.
        subst IsSound
          (sym (
            claim_idempotency-books p.tenant create_invoice_command key ids.row hash locked db1
              (claiming ∙ ap ok e)
            ∙ require_contract_access-books sv p request_invoice c.snapshot db locked locking))
          sound)
      (λ db1 db2 id' sound1 e.
        insert_request-IsSound p ids c (new_request p key ids c) db db1 db2 id' sound sound1 e)
      sound
