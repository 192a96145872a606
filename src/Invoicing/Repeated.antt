-- ===== src/Invoicing/Repeated.antt =====
-- An event of the tax system that is delivered again changes nothing and has the same answer
-- (`ApplyTaxCallback`, internal/service/tax_callback.go).
use settlement.Base.{
  ◌≤◌, ℕ, ◌≡◌, Bool, false, ◌&&◌, Option, none, some, List, [], ◌∷◌, ◌++◌, ◌==◌, find, any, keep_if,
  Result, ok, conflict, storage, ◌>>=◌, or_error, fail_if, guard,
}
use settlement.Base.Text.{text_eq, trim_space}
use settlement.Ledger.Tables.{RowId, Snapshot}
use settlement.Ledger.InvoiceTables.{
  InvoiceRequest, request_issued, attempt_issued, TaxResult, Processing,
}
use settlement.Ledger.Db.{Db}
use settlement.Ledger.Requests.{Service, to_upper}
use settlement.Ledger.Claims.{audit}
use settlement.Ledger.Dates.{parse_date}
use settlement.Invoicing.Manual.{same_invoice, finalize_shares}
use settlement.Invoicing.Events.{
  CallbackKind, InvoiceResult, Callback, CallbackIds, check_callback, issued_event,
  issue_failed_event, issue_unknown_event, unsupported_event,
}
use settlement.Invoicing.Callback.{
  same_items, lines_of, record_result, settle_request, record_late, result_invoice, apply_success,
  apply_open, Verdict, late, open_case, apply_verdict, apply_issue, is_result_of, new_result,
  apply_new, answer_event, recorded_as, apply_tax_callback, same_money,
}
use settlement.Base.{subst, sym, ap, ◌∙◌, refl, >>=-eq-ok, ok-injective, arith, find-append}
use settlement.Base.Keyed.{find-update_where}
use settlement.Base.Text.{text_eq_refl}
use settlement.Ledger.Tables.{Reservation}
use settlement.Ledger.Invoiced.{increment_invoiced_of, write_invoiced}
use settlement.Invoicing.Manual.{invoice_share, invoice_shares}
use settlement.Invoicing.Review.{is_reserved_of}

audit-results :
    (message row tenant actor resource : RowId) (db db' : Db)
    → audit message row tenant actor resource db ≡ ok db'
    → db'.tax_results ≡ db.tax_results
unfolding audit
audit-results message row tenant actor resource db db' h = ground arith

invoice_share-results :
    (tenant request : RowId) (share : Reservation) (db db' : Db)
    → invoice_share tenant request share db ≡ ok db'
    → db'.tax_results ≡ db.tax_results
unfolding invoice_share increment_invoiced_of write_invoiced
invoice_share-results tenant request share db db' h = ground arith

invoice_shares-results :
    (tenant request : RowId) (shares : List Reservation) (db db' : Db)
    → invoice_shares tenant request shares db ≡ ok db'
    → db'.tax_results ≡ db.tax_results
unfolding invoice_shares
invoice_shares-results tenant request [] db db' h = ground arith
invoice_shares-results tenant request (share ∷ rest) db db' h =
    let (next, round, h1) = >>=-eq-ok (invoice_share tenant request share db) _ h in
    invoice_shares-results tenant request rest next db' h1
    ∙ invoice_share-results tenant request share db next round

finalize_shares-results :
    (tenant request : RowId) (db db' : Db)
    → finalize_shares tenant request db ≡ ok db'
    → db'.tax_results ≡ db.tax_results
unfolding finalize_shares
finalize_shares-results tenant request db db' h =
    invoice_shares-results tenant request (keep_if (is_reserved_of tenant request) db.reservations)
      db db' h

answer-results :
    {x y : Processing} {db db' : Db}
    → ◌≡◌ {A = Result (Processing × Db)} (ok (x, db)) (ok (y, db'))
    → db.tax_results ≡ db'.tax_results
answer-results e = ap (λ (t : Processing × Db). t.1.tax_results) (ok-injective e)

apply_success-results :
    (sv : Service) (tenant : RowId) (ids : CallbackIds) (adapter : RowId) (e : Callback)
    (x : InvoiceResult) (r : InvoiceRequest) (contract : Snapshot) (db db' : Db)
    (answer : Processing)
    → apply_success sv tenant ids adapter e x r contract db ≡ ok (answer, db')
    → db'.tax_results ≡ db.tax_results
unfolding apply_success
apply_success-results sv tenant ids adapter e x r contract db db' answer h =
    let (_, _, h1) =
      >>=-eq-ok
        (guard
          (text_eq x.invoice_type r.invoice_type
            && text_eq (to_upper sv x.currency) (to_upper sv contract.currency)
            && same_money x.amount_excl_tax r.excl
            && same_money x.tax_amount r.tax
            && same_money x.amount_incl_tax r.incl)
          conflict)
        _ h in
    let (_, _, h2) =
      >>=-eq-ok (guard (same_items (lines_of tenant r.id db) x.items) conflict) _ h1 in
    let (date, _, h3) = >>=-eq-ok (or_error (parse_date x.issue_date) storage) _ h2 in
    let new = result_invoice tenant ids.invoice e x r (to_upper sv contract.currency) date in
    let (_, _, h4) = >>=-eq-ok (fail_if (any (same_invoice new) db.invoices) storage) _ h3 in
    let settled_db = settle_request tenant r.id request_issued (
      record_result tenant e (λ old. attempt_issued) (some ids.invoice)
        (record db { invoices = db.invoices ++ new ∷ [] })) in
    let (finalized, finalizing, h5) = >>=-eq-ok (finalize_shares tenant r.id settled_db) _ h4 in
    let (audited, auditing, same) =
      >>=-eq-ok (audit ids.message ids.audit tenant adapter ids.invoice finalized) _ h5 in
    sym (answer-results same)
    ∙ audit-results ids.message ids.audit tenant adapter ids.invoice finalized audited auditing
    ∙ finalize_shares-results tenant r.id settled_db finalized finalizing

apply_open-results :
    (sv : Service) (tenant : RowId) (ids : CallbackIds) (adapter : RowId) (e : Callback)
    (kind : CallbackKind) (r : InvoiceRequest) (contract : Snapshot) (db db' : Db)
    (answer : Processing)
    → apply_open sv tenant ids adapter e kind r contract db ≡ ok (answer, db')
    → db'.tax_results ≡ db.tax_results
unfolding apply_open
apply_open-results sv tenant ids adapter e issue_unknown_event r contract db db' answer h =
    ground arith
apply_open-results sv tenant ids adapter e issue_failed_event r contract db db' answer h =
    ground arith
apply_open-results sv tenant ids adapter e issued_event r contract db db' answer h =
    let (x, _, h1) = >>=-eq-ok (or_error e.invoice storage) _ h in
    apply_success-results sv tenant ids adapter e x r contract db db' answer h1
apply_open-results sv tenant ids adapter e unsupported_event r contract db db' answer h =
    let (x, _, h1) = >>=-eq-ok (or_error e.invoice storage) _ h in
    apply_success-results sv tenant ids adapter e x r contract db db' answer h1

apply_verdict-results :
    (sv : Service) (tenant : RowId) (ids : CallbackIds) (adapter : RowId) (e : Callback)
    (verdict : Verdict) (r : InvoiceRequest) (contract : Snapshot) (db db' : Db)
    (answer : Processing)
    → apply_verdict sv tenant ids adapter e verdict r contract db ≡ ok (answer, db')
    → db'.tax_results ≡ db.tax_results
unfolding apply_verdict record_late
apply_verdict-results sv tenant ids adapter e open_case r contract db db' answer h =
    apply_open-results sv tenant ids adapter e e.kind r contract db db' answer h
apply_verdict-results sv tenant ids adapter e late r contract db db' answer h =
    grind (arith, audit-results)
apply_verdict-results sv tenant ids adapter e _ r contract db db' answer h = ground arith

apply_issue-results :
    (sv : Service) (tenant : RowId) (ids : CallbackIds) (adapter : RowId) (e : Callback)
    (db db' : Db) (answer : Processing)
    → apply_issue sv tenant ids adapter e db ≡ ok (answer, db')
    → db'.tax_results ≡ db.tax_results
unfolding apply_issue
apply_issue-results sv tenant ids adapter e db db' answer h = grind (arith, apply_verdict-results)

result_id : TaxResult → RowId
result_id t = t.id

any-none : (p : TaxResult → Bool) (rows : List TaxResult) → find p rows ≡ none → any p rows ≡ false
any-none p [] h = refl
any-none p (x ∷ rows) h = ground (arith, any-none p rows)

-- What is recorded of a new event.
abbrev kept : RowId → RowId → Callback → ℕ → Processing → TaxResult
kept tenant id e hash answer = record (new_result tenant id e hash) { processing = answer }

apply_new-recorded :
    (sv : Service) (tenant : RowId) (ids : CallbackIds) (adapter : RowId) (hash : ℕ) (e : Callback)
    (db db' : Db) (answer : Processing)
    → recorded_as tenant e db ≡ none
    → apply_new sv tenant ids adapter e (new_result tenant ids.row e hash) db ≡ ok (answer, db')
    → recorded_as tenant e db' ≡ some (kept tenant ids.row e hash answer)
unfolding apply_new
apply_new-recorded sv tenant ids adapter hash e db db' answer unknown h =
    let query = is_result_of tenant (trim_space e.provider_code) e.event_id in
    let new = new_result tenant ids.row e hash in
    let (_, _, h1) =
      >>=-eq-ok (fail_if (any (λ (t : TaxResult). t.id == new.id) db.tax_results) storage) _ h in
    let recorded = record db { tax_results = db.tax_results ++ new ∷ [] } in
    let (done, applying, h2) = >>=-eq-ok (apply_issue sv tenant ids adapter e recorded) _ h1 in
    let found : find query done.1.tax_results ≡ some new =
      ap (find query) (apply_issue-results sv tenant ids adapter e recorded done.1 done.0 applying)
      ∙ find-append query db.tax_results new (any-none query db.tax_results unknown)
          (ground (arith, text_eq_refl (trim_space e.provider_code), text_eq_refl e.event_id)) in
    ap (find query) (sym (answer-results h2))
    ∙ find-update_where result_id query (λ (t : TaxResult). t.id == new.id) _ done.1.tax_results
        (λ t. refl)
    ∙ rw found (ground (arith, ap (λ (t : Processing × Db). t.0) (ok-injective h2)))

answer_event-recorded :
    (sv : Service) (tenant : RowId) (ids : CallbackIds) (adapter : RowId) (hash : ℕ) (e : Callback)
    (recorded : Option TaxResult) (db db' : Db) (answer : Processing)
    → recorded_as tenant e db ≡ recorded
    → answer_event sv tenant ids adapter hash e recorded db ≡ ok (answer, db')
    → (row : TaxResult) × (recorded_as tenant e db' ≡ some row)
      × (row.payload_hash ≡ hash)
      × (row.processing ≡ answer)
unfolding answer_event
answer_event-recorded sv tenant ids adapter hash e none db db' answer known h = (
  kept tenant ids.row e hash answer,
  apply_new-recorded sv tenant ids adapter hash e db db' answer known h,
  refl,
  refl,
)
answer_event-recorded sv tenant ids adapter hash e (some old) db db' answer known h =
    let (_, same_hash, h1) = >>=-eq-ok (guard (old.payload_hash == hash) conflict) _ h in
    (
      old,
      ap (λ (t : Processing × Db). recorded_as tenant e t.1) (sym (ok-injective h1)) ∙ known,
      ground arith,
      ap (λ (t : Processing × Db). t.0) (ok-injective h1),
    )

check_callback_later :
    (tenant now later : ℕ) (e : Callback) {u : Unit}
    → now ≤ later
    → check_callback tenant now e ≡ ok u
    → check_callback tenant later e ≡ ok tt
unfolding check_callback
check_callback_later tenant now later e after h = ground arith

repeat_answer :
    (sv : Service) (tenant : RowId) (ids : CallbackIds) (adapter : RowId) (hash : ℕ) (e : Callback)
    (row : TaxResult) (db : Db)
    → row.payload_hash ≡ hash
    → answer_event sv tenant ids adapter hash e (some row) db ≡ ok (row.processing, db)
unfolding answer_event
repeat_answer sv tenant ids adapter hash e row db same = ground (arith, same)

-- An event about an invoice that has been answered is answered in the same way when it is delivered
-- again with the same content, at any time at which it is still accepted and under whatever
-- identifiers, and the database stays as it is: no second invoice, no second change of a balance.
pub apply_tax_callback_again :
    (sv : Service) (tenant now later : ℕ) (ids ids' : CallbackIds) (adapter : RowId) (hash : ℕ)
    (e : Callback) (db db' : Db) (answer : Processing)
    → now ≤ later
    → apply_tax_callback sv tenant now ids adapter hash e db ≡ ok (answer, db')
    → apply_tax_callback sv tenant later ids' adapter hash e db' ≡ ok (answer, db')
unfolding apply_tax_callback
apply_tax_callback_again sv tenant now later ids ids' adapter hash e db db' answer after h =
    let (_, checked, h1) = >>=-eq-ok (check_callback tenant now e) _ h in
    let (row, found, same_hash, same_answer) =
      answer_event-recorded sv tenant ids adapter hash e (recorded_as tenant e db) db db' answer
        refl h1 in
    subst
      (λ (m : Result (Unit {0})).
        (m >>= λ u. answer_event sv tenant ids' adapter hash e (recorded_as tenant e db') db')
        ≡ ok (answer, db'))
      (sym (check_callback_later tenant now later e after checked))
      (subst (λ o. answer_event sv tenant ids' adapter hash e o db' ≡ ok (answer, db')) (sym found)
        (repeat_answer sv tenant ids' adapter hash e row db' same_hash
          ∙ ap (λ (x : Processing). ok (x, db')) same_answer))
