-- ===== src/Invoicing/Closed.antt =====
-- Closing, recovering and cancelling an invoice request keeps the books sound
-- (internal/service/invoice_manual.go, invoice_recovery.go, invoice_cancel.go).
use settlement.Base.{
  not_found, ℕ, ◌≡◌, refl, sym, ap, subst, ◌∙◌, ◌&&◌, ◌||◌, not, ◌==◌, find, any, arith, Result, ok,
  ok-injective, >>=-eq-ok, or_error, storage, fail_if, guard, invalid, conflict, forbidden, ltb,
}
use settlement.Base.Text.{Text, trim_space, is_empty}
use settlement.Ledger.Tables.{RowId}
use settlement.Ledger.InvoiceTables.{TaxInvoice}
use settlement.Ledger.Access.{Principal, allows}
use settlement.Ledger.Db.{Db, recover_invoice_command, cancel_invoice_command}
use settlement.Ledger.Requests.{to_upper, Service, invoice_decision_request, utf8_length}
use settlement.Ledger.Claims.{Claim, claimed, replayed, audit, claim_idempotency}
use settlement.Ledger.Imports.{snapshot_at}
use settlement.Ledger.Books.{books, audit-books, claim_idempotency-books, ok-books}
use settlement.Ledger.Books.Sound.{IsSound}
use settlement.Invoicing.Submit.{InvoiceIds, issue_invoice}
use settlement.Invoicing.Review.{is_request, require_request_scope, is_reserved_of, has_result}
use settlement.Invoicing.Manual.{
  same_invoice, is_closable, ManualInvoiceInput, check_manual, close_request, write_manual,
  register_manual_invoice, finalize_shares, manual_invoice,
}
use settlement.Invoicing.Withdraw.{
  has_invoice, is_unresolved, is_cancellable, valid_reason, continue_decision, finish_recovery,
  recover_failed_invoice, finish_cancellation, cancel_request, cancel_invoice_request,
  newest_attempt, check_attempt,
}
use settlement.Invoicing.Shares.{close-IsSound}
use settlement.Invoicing.Invoiced.{finalize_shares-IsSound}
use settlement.Invoicing.Sound.{require_request_scope-books}

write_manual-IsSound :
    (p : Principal) (ids : InvoiceIds) (id : RowId) (new : TaxInvoice) (db db' : Db) (row : RowId)
    → IsSound (books db)
    → write_manual p ids id new db ≡ ok (row, db')
    → IsSound (books db')
unfolding write_manual
write_manual-IsSound p ids id new db db' row s h =
    let (_, _, h1) = >>=-eq-ok (fail_if (any (same_invoice new) db.invoices) storage) _ h in
    let (finalized, finalizing, h2) =
      >>=-eq-ok (finalize_shares p.tenant id (close_request p.tenant id new db)) _ h1 in
    let (audited, auditing, same) =
      >>=-eq-ok (audit ids.message ids.audit p.tenant p.user ids.row finalized) _ h2 in
    subst IsSound
      (sym (audit-books ids.message ids.audit p.tenant p.user ids.row finalized audited auditing)
        ∙ ok-books same)
      (finalize_shares-IsSound p.tenant id (close_request p.tenant id new db) finalized s
        finalizing)

-- `RegisterManualInvoice` keeps the books sound: if it returns from a database with sound books, it
-- leaves sound books.
pub register_manual_invoice-IsSound :
    (sv : Service) (p : Principal) (today : ℕ) (ids : InvoiceIds) (id : RowId)
    (input : ManualInvoiceInput) (db db' : Db) (row : RowId)
    → IsSound (books db)
    → register_manual_invoice sv p today ids id input db ≡ ok (row, db')
    → IsSound (books db')
unfolding register_manual_invoice
register_manual_invoice-IsSound sv p today ids id input db db' row s h =
    let (c, _, h1) = >>=-eq-ok (check_manual today input) _ h in
    let (r, _, h2) =
      >>=-eq-ok (or_error (find (is_closable db p.tenant id) db.requests) conflict) _ h1 in
    let (contract, _, h3) =
      >>=-eq-ok (or_error (snapshot_at db p.tenant r.snapshot) conflict) _ h2 in
    let (locked, locking, h4) = >>=-eq-ok (require_request_scope sv p issue_invoice id db) _ h3 in
    let currency = to_upper sv (trim_space contract.currency) in
    let (_, _, h5) = >>=-eq-ok (guard (utf8_length currency == 3) invalid) _ h4 in
    write_manual-IsSound p ids id (manual_invoice p ids.row c r currency) locked db' row
      (subst IsSound (sym (require_request_scope-books sv p issue_invoice id db locked locking)) s)
      h5

finish_recovery-books :
    (sv : Service) (p : Principal) (ids : InvoiceIds) (id : RowId) (version : ℕ) (db db' : Db)
    → finish_recovery sv p ids id version db ≡ ok db'
    → books db' ≡ books db
unfolding finish_recovery audit
finish_recovery-books sv p ids id version db db' h = ground arith

-- What follows the claim of a decision: a replay leaves the database as it was.
continue_decision-IsSound :
    (claim : Claim) (before db' : Db) (next : Db → Result Db)
    → continue_decision claim before next ≡ ok db'
    → ((db : Db) → claim ≡ claimed db → IsSound (books db))
    → ((db : Db) → IsSound (books db) → next db ≡ ok db' → IsSound (books db'))
    → IsSound (books before)
    → IsSound (books db')
unfolding continue_decision
continue_decision-IsSound (claimed db) before db' next h first step s = step db (first db refl) h
continue_decision-IsSound (replayed id) before db' next h first step s =
    subst (λ d. IsSound (books d)) (ok-injective h) s

-- `RecoverFailedInvoice` keeps the books sound: if it returns from a database with sound books, it
-- leaves sound books; the request keeps what it reserves.
pub recover_failed_invoice-IsSound :
    (sv : Service) (p : Principal) (key : Text) (ids : InvoiceIds) (id : RowId) (version : ℕ)
    (reason : Text) (db db' : Db)
    → IsSound (books db)
    → recover_failed_invoice sv p key ids id version reason db ≡ ok db'
    → IsSound (books db')
unfolding recover_failed_invoice
recover_failed_invoice-IsSound sv p key ids id version reason db db' s h =
    let stated = trim_space reason in
    let bound = trim_space key in
    let (_, _, h1) =
      >>=-eq-ok
        (fail_if
          (is_empty bound
            || ltb 128 (utf8_length bound)
            || p.user == 0
            || p.tenant == 0
            || version == 0
            || not (valid_reason stated))
          invalid)
        _ h in
    let hash = sv.digest (invoice_decision_request p.user id version stated) in
    let (claim, claiming, h2) =
      >>=-eq-ok (claim_idempotency p.tenant recover_invoice_command bound id hash db) _ h1 in
    continue_decision-IsSound claim db db' (finish_recovery sv p ids id version) h2
      (λ db1 e.
        subst IsSound
          (sym (
            claim_idempotency-books p.tenant recover_invoice_command bound id hash db db1
              (claiming ∙ ap ok e)))
          s)
      (λ db1 s1 e. subst IsSound (sym (finish_recovery-books sv p ids id version db1 db' e)) s1) s

finish_cancellation-IsSound :
    (sv : Service) (p : Principal) (ids : InvoiceIds) (id : RowId) (version : ℕ) (reason : Text)
    (db db' : Db)
    → IsSound (books db)
    → finish_cancellation sv p ids id version reason db ≡ ok db'
    → IsSound (books db')
unfolding finish_cancellation
finish_cancellation-IsSound sv p ids id version reason db db' s h =
    let newest = newest_attempt p.tenant id db.attempts in
    let (_, _, h1) = >>=-eq-ok (check_attempt p.tenant newest db) _ h in
    let (r, _, h2) =
      >>=-eq-ok (or_error (find (is_request p.tenant id) db.requests) not_found) _ h1 in
    let (_, _, h3) = >>=-eq-ok (guard (is_cancellable version r) conflict) _ h2 in
    let (_, _, h4) = >>=-eq-ok (fail_if (r.submitted_by == p.user) invalid) _ h3 in
    let (locked, locking, h5) = >>=-eq-ok (require_request_scope sv p issue_invoice id db) _ h4 in
    let (_, _, h6) = >>=-eq-ok (fail_if (has_invoice p.tenant id locked) conflict) _ h5 in
    let (_, _, h7) =
      >>=-eq-ok (fail_if (has_result p.tenant id is_unresolved locked) conflict) _ h6 in
    let after = cancel_request p.tenant id version reason newest locked in
    subst IsSound (sym (audit-books ids.message ids.audit p.tenant p.user id after db' h7)) (
      close-IsSound (is_reserved_of p.tenant id) _ (λ x. (refl, refl, refl)) (λ x. refl)
        (books locked)
        (subst IsSound (sym (require_request_scope-books sv p issue_invoice id db locked locking))
          s))

-- `CancelInvoiceRequest` keeps the books sound: if it returns from a database with sound books, it
-- leaves sound books, whether it cancels the request or replays a claim.
pub cancel_invoice_request-IsSound :
    (sv : Service) (p : Principal) (key : Text) (ids : InvoiceIds) (id : RowId) (version : ℕ)
    (reason : Text) (db db' : Db)
    → IsSound (books db)
    → cancel_invoice_request sv p key ids id version reason db ≡ ok db'
    → IsSound (books db')
unfolding cancel_invoice_request
cancel_invoice_request-IsSound sv p key ids id version reason db db' s h =
    let stated = trim_space reason in
    let bound = trim_space key in
    let (_, _, h0) =
      >>=-eq-ok
        (guard (allows p issue_invoice && not (p.tenant == 0) && not (p.user == 0)) forbidden) _
        h in
    let (_, _, h1) =
      >>=-eq-ok
        (fail_if
          (id == 0
            || is_empty bound
            || ltb 128 (utf8_length bound)
            || version == 0
            || not (valid_reason stated))
          invalid)
        _ h0 in
    let hash = sv.digest (invoice_decision_request p.user id version stated) in
    let (claim, claiming, h2) =
      >>=-eq-ok (claim_idempotency p.tenant cancel_invoice_command bound id hash db) _ h1 in
    continue_decision-IsSound claim db db' (finish_cancellation sv p ids id version stated) h2
      (λ db1 e.
        subst IsSound
          (sym (
            claim_idempotency-books p.tenant cancel_invoice_command bound id hash db db1
              (claiming ∙ ap ok e)))
          s)
      (λ db1 s1 e. finish_cancellation-IsSound sv p ids id version stated db1 db' s1 e) s
