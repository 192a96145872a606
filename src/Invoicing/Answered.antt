-- ===== src/Invoicing/Answered.antt =====
-- A result of the tax system keeps the books sound, and its repetition changes nothing
-- (`ApplyTaxCallback`, internal/service/tax_callback.go).
use settlement.Base.{
  ℕ, ◌≡◌, ◌&&◌, not, Option, none, some, [], ◌∷◌, ◌++◌, ◌==◌, find, any, Result, ok, invalid,
  conflict, storage, not_found, or_error, fail_if, guard,
}
use settlement.Base.Text.{text_eq, trim_space, is_empty}
use settlement.Ledger.Tables.{RowId, Snapshot}
use settlement.Ledger.InvoiceTables.{
  InvoiceRequest, request_issued, attempt_issued, TaxResult, Processing,
}
use settlement.Ledger.Db.{Db}
use settlement.Ledger.Requests.{Service, to_upper}
use settlement.Ledger.Claims.{audit}
use settlement.Ledger.Imports.{snapshot_at}
use settlement.Ledger.Dates.{parse_date}
use settlement.Invoicing.Review.{is_request}
use settlement.Invoicing.Manual.{is_manual, same_invoice, finalize_shares}
use settlement.Invoicing.Events.{
  CallbackKind, InvoiceResult, Callback, CallbackIds, check_callback, issued_event,
  issue_failed_event, issue_unknown_event, unsupported_event,
}
use settlement.Invoicing.Callback.{
  same_items, lines_of, record_result, settle_request, record_late, result_invoice, apply_success,
  apply_open, Verdict, stale, terminal, contradicted, late, open_case, refused, judge,
  apply_verdict, apply_issue, new_result, apply_new, answer_event, recorded_as, apply_tax_callback,
  is_attempt, same_money,
}
use settlement.Base.{subst, sym, ap, ◌∙◌, >>=-eq-ok, ok-injective, arith}
use settlement.Ledger.Books.{books, audit-books}
use settlement.Ledger.Books.Sound.{IsSound}
use settlement.Invoicing.Invoiced.{finalize_shares-IsSound}

-- What an answer leaves has the books of what it has computed.
answer-books :
    {x y : Processing} {db db' : Db}
    → ◌≡◌ {A = Result (Processing × Db)} (ok (x, db)) (ok (y, db'))
    → books db ≡ books db'
answer-books e = ap (λ (t : Processing × Db). books t.1) (ok-injective e)

apply_success-IsSound :
    (sv : Service) (tenant : RowId) (ids : CallbackIds) (adapter : RowId) (e : Callback)
    (x : InvoiceResult) (r : InvoiceRequest) (contract : Snapshot) (db db' : Db)
    (answer : Processing)
    → IsSound (books db)
    → apply_success sv tenant ids adapter e x r contract db ≡ ok (answer, db')
    → IsSound (books db')
unfolding apply_success
apply_success-IsSound sv tenant ids adapter e x r contract db db' answer s h =
    let (_, _, h1) =
      >>=-eq-ok
        (guard
          (text_eq x.invoice_type r.invoice_type
            && text_eq (to_upper sv x.currency) (to_upper sv contract.currency)
            && same_money x.amount_excl_tax r.excl
            && same_money x.tax_amount r.tax
            && same_money x.amount_incl_tax r.incl)
          conflict)
        _ h in
    let (_, _, h2) =
      >>=-eq-ok (guard (same_items (lines_of tenant r.id db) x.items) conflict) _ h1 in
    let (date, _, h3) = >>=-eq-ok (or_error (parse_date x.issue_date) storage) _ h2 in
    let new = result_invoice tenant ids.invoice e x r (to_upper sv contract.currency) date in
    let (_, _, h4) = >>=-eq-ok (fail_if (any (same_invoice new) db.invoices) storage) _ h3 in
    let settled_db = settle_request tenant r.id request_issued (
      record_result tenant e (λ old. attempt_issued) (some ids.invoice)
        (record db { invoices = db.invoices ++ new ∷ [] })) in
    let (finalized, finalizing, h5) = >>=-eq-ok (finalize_shares tenant r.id settled_db) _ h4 in
    let (audited, auditing, same) =
      >>=-eq-ok (audit ids.message ids.audit tenant adapter ids.invoice finalized) _ h5 in
    subst IsSound
      (sym (audit-books ids.message ids.audit tenant adapter ids.invoice finalized audited auditing)
        ∙ answer-books same)
      (finalize_shares-IsSound tenant r.id settled_db finalized s finalizing)

apply_open-IsSound :
    (sv : Service) (tenant : RowId) (ids : CallbackIds) (adapter : RowId) (e : Callback)
    (kind : CallbackKind) (r : InvoiceRequest) (contract : Snapshot) (db db' : Db)
    (answer : Processing)
    → IsSound (books db)
    → apply_open sv tenant ids adapter e kind r contract db ≡ ok (answer, db')
    → IsSound (books db')
unfolding apply_open
apply_open-IsSound sv tenant ids adapter e issue_unknown_event r contract db db' answer s h =
    subst IsSound (answer-books h) s
apply_open-IsSound sv tenant ids adapter e issue_failed_event r contract db db' answer s h =
    let (_, _, h1) = >>=-eq-ok (fail_if (is_empty (trim_space e.failure_code)) invalid) _ h in
    subst IsSound (answer-books h1) s
apply_open-IsSound sv tenant ids adapter e issued_event r contract db db' answer s h =
    let (x, _, h1) = >>=-eq-ok (or_error e.invoice storage) _ h in
    apply_success-IsSound sv tenant ids adapter e x r contract db db' answer s h1
apply_open-IsSound sv tenant ids adapter e unsupported_event r contract db db' answer s h =
    let (x, _, h1) = >>=-eq-ok (or_error e.invoice storage) _ h in
    apply_success-IsSound sv tenant ids adapter e x r contract db db' answer s h1

record_late-books :
    (tenant : RowId) (ids : CallbackIds) (adapter : RowId) (e : Callback) (kind : CallbackKind)
    (request : RowId) (db db' : Db) (answer : Processing)
    → record_late tenant ids adapter e kind request db ≡ ok (answer, db')
    → books db' ≡ books db
unfolding record_late audit
record_late-books tenant ids adapter e kind request db db' answer h = ground arith

apply_verdict-IsSound :
    (sv : Service) (tenant : RowId) (ids : CallbackIds) (adapter : RowId) (e : Callback)
    (verdict : Verdict) (r : InvoiceRequest) (contract : Snapshot) (db db' : Db)
    (answer : Processing)
    → IsSound (books db)
    → apply_verdict sv tenant ids adapter e verdict r contract db ≡ ok (answer, db')
    → IsSound (books db')
unfolding apply_verdict
apply_verdict-IsSound sv tenant ids adapter e stale r contract db db' answer s h =
    subst IsSound (answer-books h) s
apply_verdict-IsSound sv tenant ids adapter e terminal r contract db db' answer s h =
    subst IsSound (answer-books h) s
apply_verdict-IsSound sv tenant ids adapter e contradicted r contract db db' answer s h =
    subst IsSound (answer-books h) s
apply_verdict-IsSound sv tenant ids adapter e late r contract db db' answer s h =
    subst IsSound (sym (record_late-books tenant ids adapter e e.kind r.id db db' answer h)) s
apply_verdict-IsSound sv tenant ids adapter e open_case r contract db db' answer s h =
    apply_open-IsSound sv tenant ids adapter e e.kind r contract db db' answer s h
apply_verdict-IsSound sv tenant ids adapter e refused r contract db db' answer s h = cc

apply_issue-IsSound :
    (sv : Service) (tenant : RowId) (ids : CallbackIds) (adapter : RowId) (e : Callback)
    (db db' : Db) (answer : Processing)
    → IsSound (books db)
    → apply_issue sv tenant ids adapter e db ≡ ok (answer, db')
    → IsSound (books db')
unfolding apply_issue
apply_issue-IsSound sv tenant ids adapter e db db' answer s h =
    let (a, _, h1) =
      >>=-eq-ok
        (or_error
          (find (λ a. is_attempt tenant e.attempt a && not (is_manual a.channel)) db.attempts)
          not_found)
        _ h in
    let (r, _, h2) =
      >>=-eq-ok (or_error (find (is_request tenant a.request) db.requests) not_found) _ h1 in
    let (contract, _, h3) =
      >>=-eq-ok (or_error (snapshot_at db tenant r.snapshot) not_found) _ h2 in
    let (_, _, h4) = >>=-eq-ok (guard (e.external_request == a.id) conflict) _ h3 in
    let (_, _, h5) =
      >>=-eq-ok (guard (text_eq (trim_space e.provider_code) a.provider_code) conflict) _ h4 in
    apply_verdict-IsSound sv tenant ids adapter e (judge e a r) r contract db db' answer s h5

apply_new-IsSound :
    (sv : Service) (tenant : RowId) (ids : CallbackIds) (adapter : RowId) (e : Callback)
    (new : TaxResult) (db db' : Db) (answer : Processing)
    → IsSound (books db)
    → apply_new sv tenant ids adapter e new db ≡ ok (answer, db')
    → IsSound (books db')
unfolding apply_new
apply_new-IsSound sv tenant ids adapter e new db db' answer s h =
    let (_, _, h1) =
      >>=-eq-ok (fail_if (any (λ (t : TaxResult). t.id == new.id) db.tax_results) storage) _ h in
    let recorded = record db { tax_results = db.tax_results ++ new ∷ [] } in
    let (done, applying, h2) = >>=-eq-ok (apply_issue sv tenant ids adapter e recorded) _ h1 in
    subst IsSound (answer-books h2)
      (apply_issue-IsSound sv tenant ids adapter e recorded done.1 done.0 s applying)

answer_event-IsSound :
    (sv : Service) (tenant : RowId) (ids : CallbackIds) (adapter : RowId) (hash : ℕ) (e : Callback)
    (recorded : Option TaxResult) (db db' : Db) (answer : Processing)
    → IsSound (books db)
    → answer_event sv tenant ids adapter hash e recorded db ≡ ok (answer, db')
    → IsSound (books db')
unfolding answer_event
answer_event-IsSound sv tenant ids adapter hash e none db db' answer s h =
    apply_new-IsSound sv tenant ids adapter e (new_result tenant ids.row e hash) db db' answer s h
answer_event-IsSound sv tenant ids adapter hash e (some old) db db' answer s h =
    let (_, _, h1) = >>=-eq-ok (guard (old.payload_hash == hash) conflict) _ h in
    subst IsSound (answer-books h1) s

-- `ApplyTaxCallback` keeps the books sound for the events about invoices: if it returns from a
-- database with sound books, it leaves sound books.
pub apply_tax_callback-IsSound :
    (sv : Service) (tenant now : ℕ) (ids : CallbackIds) (adapter : RowId) (hash : ℕ) (e : Callback)
    (db db' : Db) (answer : Processing)
    → IsSound (books db)
    → apply_tax_callback sv tenant now ids adapter hash e db ≡ ok (answer, db')
    → IsSound (books db')
unfolding apply_tax_callback
apply_tax_callback-IsSound sv tenant now ids adapter hash e db db' answer s h =
    let (_, _, h1) = >>=-eq-ok (check_callback tenant now e) _ h in
    answer_event-IsSound sv tenant ids adapter hash e (recorded_as tenant e db) db db' answer s h1
