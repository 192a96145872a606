-- ===== src/Invoicing/Issued.antt =====
-- An invoice that is issued, by hand or by the tax system, uses up what its request has reserved
-- (internal/service/invoice_manual.go, tax_callback.go).
use settlement.Base.{
  ℕ, ◌≡◌, refl, sym, ap, subst, ◌∙◌, inl, inr, Bool, true, ◌&&◌, not, none, some, List, [], ◌∷◌,
  ◌++◌, ◌==◌, find, any, arith, Bool-cases, ok, ok-injective, >>=-eq-ok, or_error, or_error-eq-ok,
  fail_if, guard, invalid, conflict, storage, not_found,
}
use mathlib.Core.Option.{some-injective}
use settlement.Base.Text.{trim_space, text_eq}
use settlement.Ledger.Tables.{RowId, Reservation, Snapshot}
use settlement.Ledger.InvoiceTables.{
  InvoiceRequest, IssueAttempt, TaxInvoice, TaxResult, Processing, applied, request_issued,
  attempt_issued,
}
use settlement.Ledger.Access.{Principal}
use settlement.Ledger.Db.{Db}
use settlement.Ledger.Dates.{parse_date}
use settlement.Ledger.Requests.{Service, to_upper, utf8_length}
use settlement.Ledger.Claims.{audit}
use settlement.Ledger.Imports.{snapshot_at}
use settlement.Ledger.Invoiced.{increment_invoiced_of, write_invoiced}
use settlement.Ledger.Books.{books, audit-books}
use settlement.Ledger.Books.Sound.{IsSound}
use settlement.Invoicing.Submit.{InvoiceIds, issue_invoice}
use settlement.Invoicing.Review.{is_request, require_request_scope}
use settlement.Invoicing.Manual.{
  ManualInvoiceInput, check_manual, is_closable, is_manual, manual_invoice, same_invoice,
  invoice_share, invoice_shares, finalize_shares, close_request, write_manual,
  register_manual_invoice,
}
use settlement.Invoicing.Events.{issued_event, Callback, CallbackIds, InvoiceResult, check_callback}
use settlement.Invoicing.Callback.{
  same_items, lines_of, same_money, is_attempt, record_result, settle_request, record_late,
  result_invoice, apply_success, apply_open, Verdict, stale, terminal, contradicted, late,
  open_case, refused, judge, apply_verdict, apply_issue, new_result, apply_new, answer_event,
  recorded_as, apply_tax_callback,
}
use settlement.Invoicing.Sound.{require_request_scope-books}
use settlement.Invoicing.Invoiced.{AreInvoiced, finalize_shares-AreInvoiced}

-- The invoice of a request is in the table.
abbrev pub IsIssued : (tenant request invoice : RowId) → Db → Type 0
IsIssued tenant request invoice db =
    any (λ (x : TaxInvoice). x.id == invoice && x.tenant == tenant && x.request == request)
      db.invoices
    ≡ true

-- The books are sound, what the request has reserved of the receivable is invoiced, and its invoice is
-- in the table.
abbrev pub UsesReserved : (tenant request receivable invoice : RowId) → Db → Db → Type 0
UsesReserved tenant request receivable invoice db db' =
    IsSound (books db')
    × AreInvoiced tenant request receivable (books db) (books db')
    × IsIssued tenant request invoice db'

find-passes : {A : Type 0} (p : A → Bool) (xs : List A) (x : A) → find p xs ≡ some x → p x ≡ true
find-passes p [] x h = absurd (cc)
find-passes p (y ∷ ys) x h = elim (Bool-cases (p y)) [
  | inl e ↦ subst (λ z. p z ≡ true) (some-injective _ _ (rw e at h)) e
  | inr e ↦ find-passes p ys x (rw e at h)
]

any-last :
    (q : TaxInvoice → Bool) (rows : List TaxInvoice) (x : TaxInvoice)
    → q x ≡ true
    → any q (rows ++ x ∷ []) ≡ true
any-last q [] x h = rw h refl
any-last q (y ∷ rows) x h = ground (arith, any-last q rows x h)

invoice_share-invoices :
    (tenant request : RowId) (share : Reservation) (db db' : Db)
    → invoice_share tenant request share db ≡ ok db'
    → db'.invoices ≡ db.invoices
unfolding invoice_share increment_invoiced_of write_invoiced
invoice_share-invoices tenant request share db db' h = ground arith

invoice_shares-invoices :
    (tenant request : RowId) (shares : List Reservation) (db db' : Db)
    → invoice_shares tenant request shares db ≡ ok db'
    → db'.invoices ≡ db.invoices
unfolding invoice_shares
invoice_shares-invoices tenant request [] db db' h =
    ap (λ (d : Db). d.invoices) (sym (ok-injective h))
invoice_shares-invoices tenant request (share ∷ rest) db db' h =
    let (next, round, h1) = >>=-eq-ok (invoice_share tenant request share db) _ h in
    invoice_shares-invoices tenant request rest next db' h1
    ∙ invoice_share-invoices tenant request share db next round

audit-invoices :
    (message row tenant actor resource : RowId) (db db' : Db)
    → audit message row tenant actor resource db ≡ ok db'
    → db'.invoices ≡ db.invoices
unfolding audit
audit-invoices message row tenant actor resource db db' h = ground arith

-- The invoice is written, the reservations are used up and the audit follows.
finish-UsesReserved :
    (tenant request receivable message row actor resource : RowId) (new : TaxInvoice)
    (before db finalized audited : Db)
    → IsSound (books db)
    → books db ≡ books before
    → db.invoices ≡ before.invoices ++ new ∷ []
    → (new.id == resource && new.tenant == tenant && new.request == request) ≡ true
    → finalize_shares tenant request db ≡ ok finalized
    → audit message row tenant actor resource finalized ≡ ok audited
    → UsesReserved tenant request receivable resource before audited
unfolding finalize_shares
finish-UsesReserved tenant request receivable message row actor resource new before db finalized
      audited s same with_new is_new finalizing auditing =
    let (sound, invoiced) =
      finalize_shares-AreInvoiced tenant request receivable db finalized s finalizing in
    let left = audit-books message row tenant actor resource finalized audited auditing in
    (
      subst IsSound (sym left) sound,
      subst (λ b. AreInvoiced tenant request receivable b (books audited)) same
          (subst (AreInvoiced tenant request receivable (books db)) (sym left) invoiced),
      ap (any (λ (x : TaxInvoice). x.id == resource && x.tenant == tenant && x.request == request))
            (audit-invoices message row tenant actor resource finalized audited auditing
              ∙ invoice_shares-invoices tenant request _ db finalized finalizing
              ∙ with_new)
          ∙ any-last _ before.invoices new is_new,
    )

write_manual-UsesReserved :
    (p : Principal) (ids : InvoiceIds) (id receivable : RowId) (new : TaxInvoice) (db db' : Db)
    (row : RowId)
    → IsSound (books db)
    → (new.id == ids.row && new.tenant == p.tenant && new.request == id) ≡ true
    → write_manual p ids id new db ≡ ok (row, db')
    → UsesReserved p.tenant id receivable row db db'
unfolding write_manual
write_manual-UsesReserved p ids id receivable new db db' row s is_new h =
    let (_, _, h1) = >>=-eq-ok (fail_if (any (same_invoice new) db.invoices) storage) _ h in
    let closed = close_request p.tenant id new db in
    let (finalized, finalizing, h2) = >>=-eq-ok (finalize_shares p.tenant id closed) _ h1 in
    let (audited, auditing, same) =
      >>=-eq-ok (audit ids.message ids.audit p.tenant p.user ids.row finalized) _ h2 in
    subst (λ (t : RowId × Db). UsesReserved p.tenant id receivable t.0 db t.1) (ok-injective same)
      (finish-UsesReserved p.tenant id receivable ids.message ids.audit p.user ids.row new db closed
        finalized audited s refl refl is_new finalizing auditing)

-- `RegisterManualInvoice` uses up what the request has reserved: if it returns from a database with
-- sound books, it leaves sound books, the invoice that it names is in the table for the request, the
-- request reserves nothing any more, and of every receivable there is invoiced what was, and what the
-- request had reserved of it.
pub register_manual_invoice-UsesReserved :
    (sv : Service) (p : Principal) (today : ℕ) (ids : InvoiceIds) (id receivable : RowId)
    (input : ManualInvoiceInput) (db db' : Db) (row : RowId)
    → IsSound (books db)
    → register_manual_invoice sv p today ids id input db ≡ ok (row, db')
    → UsesReserved p.tenant id receivable row db db'
unfolding register_manual_invoice
register_manual_invoice-UsesReserved sv p today ids id receivable input db db' row s h =
    let (c, _, h1) = >>=-eq-ok (check_manual today input) _ h in
    let (r, found, h2) =
      >>=-eq-ok (or_error (find (is_closable db p.tenant id) db.requests) conflict) _ h1 in
    let (contract, _, h3) =
      >>=-eq-ok (or_error (snapshot_at db p.tenant r.snapshot) conflict) _ h2 in
    let (locked, locking, h4) = >>=-eq-ok (require_request_scope sv p issue_invoice id db) _ h3 in
    let currency = to_upper sv (trim_space contract.currency) in
    let (_, _, h5) = >>=-eq-ok (guard (utf8_length currency == 3) invalid) _ h4 in
    let same = require_request_scope-books sv p issue_invoice id db locked locking in
    let closable =
      find-passes (is_closable db p.tenant id) db.requests r (or_error-eq-ok _ _ found) in
    let (sound, invoiced, there) =
      write_manual-UsesReserved p ids id receivable (manual_invoice p ids.row c r currency) locked
        db' row (subst IsSound (sym same) s) (ground (arith, closable)) h5 in
    (sound, subst (λ b. AreInvoiced p.tenant id receivable b (books db')) same invoiced, there)

module _ (sv : Service) (tenant receivable : RowId) (ids : CallbackIds) (adapter : RowId)
    (e : Callback) where
  apply_success-UsesReserved :
      (x : InvoiceResult) (r : InvoiceRequest) (contract : Snapshot) (db db' : Db)
      (answer : Processing)
      → IsSound (books db)
      → apply_success sv tenant ids adapter e x r contract db ≡ ok (answer, db')
      → UsesReserved tenant r.id receivable ids.invoice db db'
  unfolding apply_success
  apply_success-UsesReserved x r contract db db' answer s h =
      let (_, _, h1) =
        >>=-eq-ok
          (guard
            (text_eq x.invoice_type r.invoice_type
              && text_eq (to_upper sv x.currency) (to_upper sv contract.currency)
              && same_money x.amount_excl_tax r.excl
              && same_money x.tax_amount r.tax
              && same_money x.amount_incl_tax r.incl)
            conflict)
          _ h in
      let (_, _, h2) =
        >>=-eq-ok (guard (same_items (lines_of tenant r.id db) x.items) conflict) _ h1 in
      let (date, _, h3) = >>=-eq-ok (or_error (parse_date x.issue_date) storage) _ h2 in
      let new = result_invoice tenant ids.invoice e x r (to_upper sv contract.currency) date in
      let (_, _, h4) = >>=-eq-ok (fail_if (any (same_invoice new) db.invoices) storage) _ h3 in
      let settled_db = settle_request tenant r.id request_issued (
        record_result tenant e (λ old. attempt_issued) (some ids.invoice)
          (record db { invoices = db.invoices ++ new ∷ [] })) in
      let (finalized, finalizing, h5) = >>=-eq-ok (finalize_shares tenant r.id settled_db) _ h4 in
      let (audited, auditing, same) =
        >>=-eq-ok (audit ids.message ids.audit tenant adapter ids.invoice finalized) _ h5 in
      subst (λ (t : Processing × Db). UsesReserved tenant r.id receivable ids.invoice db t.1)
        (ok-injective same)
        (finish-UsesReserved tenant r.id receivable ids.message ids.audit adapter ids.invoice new db
          settled_db finalized audited s refl refl (ground arith) finalizing auditing)

  apply_verdict-UsesReserved :
      (v : Verdict) (r : InvoiceRequest) (contract : Snapshot) (db db' : Db)
      → IsSound (books db)
      → e.kind ≡ issued_event
      → apply_verdict sv tenant ids adapter e v r contract db ≡ ok (applied, db')
      → UsesReserved tenant r.id receivable ids.invoice db db'
  unfolding apply_verdict record_late apply_open
  apply_verdict-UsesReserved stale r contract db db' s kind h = absurd (cc)
  apply_verdict-UsesReserved terminal r contract db db' s kind h = absurd (cc)
  apply_verdict-UsesReserved contradicted r contract db db' s kind h = absurd (cc)
  apply_verdict-UsesReserved refused r contract db db' s kind h = absurd (cc)
  apply_verdict-UsesReserved late r contract db db' s kind h = absurd (ground (arith, kind))
  apply_verdict-UsesReserved open_case r contract db db' s kind h =
      let (x, _, h1) = >>=-eq-ok (or_error e.invoice storage) _ (
        subst (λ k. apply_open sv tenant ids adapter e k r contract db ≡ ok (applied, db')) kind
          h) in
      apply_success-UsesReserved x r contract db db' applied s h1

  apply_issue-UsesReserved :
      (a : IssueAttempt) (db db' : Db)
      → IsSound (books db)
      → e.kind ≡ issued_event
      → find (λ x. is_attempt tenant e.attempt x && not (is_manual x.channel)) db.attempts ≡ some a
      → apply_issue sv tenant ids adapter e db ≡ ok (applied, db')
      → UsesReserved tenant a.request receivable ids.invoice db db'
  unfolding apply_issue
  apply_issue-UsesReserved a db db' s kind found h =
      let (b, looked_up, h1) =
        >>=-eq-ok
          (or_error
            (find (λ x. is_attempt tenant e.attempt x && not (is_manual x.channel)) db.attempts)
            not_found)
          _ h in
      let (r, requested, h2) =
        >>=-eq-ok (or_error (find (is_request tenant b.request) db.requests) not_found) _ h1 in
      let (contract, _, h3) =
        >>=-eq-ok (or_error (snapshot_at db tenant r.snapshot) not_found) _ h2 in
      let (_, _, h4) = >>=-eq-ok (guard (e.external_request == b.id) conflict) _ h3 in
      let (_, _, h5) =
        >>=-eq-ok (guard (text_eq (trim_space e.provider_code) b.provider_code) conflict) _ h4 in
      let same : b ≡ a = some-injective _ _ (sym (or_error-eq-ok _ _ looked_up) ∙ found) in
      let of_attempt : r.id ≡ b.request = ground (
        arith,
        find-passes (is_request tenant b.request) db.requests r (or_error-eq-ok _ _ requested),
      ) in
      subst (λ request. UsesReserved tenant request receivable ids.invoice db db')
        (of_attempt ∙ ap (λ (x : IssueAttempt). x.request) same)
        (apply_verdict-UsesReserved (judge e b r) r contract db db' s kind h5)

-- `ApplyTaxCallback` uses up what the request has reserved: if it answers that the new success of an
-- attempt is applied, in a database with sound books, it leaves sound books, the invoice is in the
-- table for the request of the attempt, the request reserves nothing any more, and of every receivable
-- there is invoiced what was, and what the request had reserved of it.
pub apply_tax_callback-UsesReserved :
    (sv : Service) (tenant now receivable : ℕ) (ids : CallbackIds) (adapter : RowId) (hash : ℕ)
    (e : Callback) (a : IssueAttempt) (db db' : Db)
    → IsSound (books db)
    → e.kind ≡ issued_event
    → recorded_as tenant e db ≡ none
    → find (λ x. is_attempt tenant e.attempt x && not (is_manual x.channel)) db.attempts ≡ some a
    → apply_tax_callback sv tenant now ids adapter hash e db ≡ ok (applied, db')
    → UsesReserved tenant a.request receivable ids.invoice db db'
unfolding apply_tax_callback answer_event apply_new
apply_tax_callback-UsesReserved sv tenant now receivable ids adapter hash e a db db' s kind new
      found h =
    let (_, _, h1) = >>=-eq-ok (check_callback tenant now e) _ h in
    let row = new_result tenant ids.row e hash in
    let applying : apply_new sv tenant ids adapter e row db ≡ ok (applied, db') =
      subst (λ o. answer_event sv tenant ids adapter hash e o db ≡ ok (applied, db')) new h1 in
    let (_, _, h2) =
      >>=-eq-ok (fail_if (any (λ (t : TaxResult). t.id == row.id) db.tax_results) storage) _
        applying in
    let recorded = record db { tax_results = db.tax_results ++ row ∷ [] } in
    let (done, issuing, h3) = >>=-eq-ok (apply_issue sv tenant ids adapter e recorded) _ h2 in
    let finished = ok-injective h3 in
    let was_applied : done.0 ≡ applied = ap (λ (t : Processing × Db). t.0) finished in
    subst (λ (t : Processing × Db). UsesReserved tenant a.request receivable ids.invoice db t.1)
      finished
      (apply_issue-UsesReserved sv tenant receivable ids adapter e a recorded done.1 s kind found (
        subst (λ x. apply_issue sv tenant ids adapter e recorded ≡ ok (x, done.1)) was_applied
          issuing))
