-- ===== src/Invoicing/Reviewed.antt =====
-- What a special review decides (internal/service/invoice_approval.go).
use settlement.Base.{
  ℕ, ◌+◌, ◌≡◌, refl, sym, ap, ◌∙◌, Bool, true, false, ◌&&◌, ◌||◌, not, some, [], ◌==◌, find,
  keep_if, arith, ok, ok-injective, >>=-eq-ok, or_error, or_error-eq-ok, fail_if, guard, invalid,
  conflict, forbidden, ltb,
}
use settlement.Base.Text.{Text, is_empty}
use settlement.Base.Keyed.{Unique, row_at}
use settlement.Ledger.Tables.{RowId}
use settlement.Ledger.InvoiceTables.{InvoiceRequest, special_review, issue_pending, rejected}
use settlement.Ledger.Access.{Principal, allows}
use settlement.Ledger.Db.{Db}
use settlement.Ledger.Requests.{Service, utf8_length}
use settlement.Ledger.Claims.{audit}
use settlement.Ledger.Scope.{require_contract_access}
use settlement.Invoicing.Submit.{InvoiceIds, special_approve}
use settlement.Invoicing.Review.{
  is_awaiting, is_request, is_reserved_of, command_attempt, send_command, create_attempt,
  decide_review, finish_review, ReviewIds, review_special_invoice,
}
use settlement.Invoicing.Duties.{request_id}
use settlement.Invoicing.Separated.{as_special, locked-row}
use settlement.Invoicing.Approved.{
  IsWaiting, approved_as, create_attempt-row, moved-row, require_contract_access-IsUntouched,
  audit-kept,
}
use settlement.Invoicing.Decided.{released_none}

abbrev rejected_for : (reason : Text) → InvoiceRequest → InvoiceRequest
rejected_for reason r = record r {
  status = rejected;
  rejection_reason = reason;
  version = r.version + 1;
}

-- What a special review leaves, by what is decided.
abbrev pub IsSettled :
    Bool → Principal → (id : RowId) → (reason : Text) → InvoiceRequest → Db → Db → Type 0
IsSettled true p id reason r db db' =
    (row_at request_id id db'.requests ≡ some (approved_as issue_pending p.user r))
    × (db'.reservations ≡ db.reservations)
IsSettled false p id reason r db db' =
    (row_at request_id id db'.requests ≡ some (rejected_for reason r))
    × (keep_if (is_reserved_of p.tenant id) db'.reservations ≡ [])
    × (is_empty reason ≡ false)

create_attempt-reservations :
    (sv : Service) (p : Principal) (ids : InvoiceIds) (id : RowId) (version : ℕ) (db db' : Db)
    (attempt : RowId)
    → create_attempt sv p ids id version db ≡ ok (attempt, db')
    → db'.reservations ≡ db.reservations
unfolding create_attempt command_attempt send_command audit
create_attempt-reservations sv p ids id version db db' attempt h = ground arith

finish_review-IsSettled :
    (sv : Service) (p : Principal) (ids : InvoiceIds) (id : RowId) (version : ℕ) (approve : Bool)
    (reason : Text) (db db' : Db) (attempt : RowId) (r : InvoiceRequest)
    → row_at request_id id db.requests ≡ some r
    → (is_request p.tenant id r && r.version == version) ≡ true
    → (not approve && is_empty reason) ≡ false
    → finish_review sv p ids id version approve reason db ≡ ok (attempt, db')
    → IsSettled approve p id reason r db db'
unfolding finish_review
finish_review-IsSettled sv p ids id version true reason db db' attempt r found passes said h = (
  create_attempt-row sv p ids id version r db db' attempt found passes h,
  create_attempt-reservations sv p ids id version db db' attempt h,
)
finish_review-IsSettled sv p ids id version false reason db db' attempt r found passes said h =
    let left = ok-injective h in
    (
      ap (λ (t : RowId × Db). row_at request_id id t.1.requests) (sym left)
          ∙ moved-row id (rejected_for reason) (λ x. is_request p.tenant id x && true) db.requests r
              (λ x. refl) found (ground (arith, passes)),
      ap (λ (t : RowId × Db). keep_if (is_reserved_of p.tenant id) t.1.reservations) (sym left)
          ∙ released_none p.tenant id db.reservations,
      said,
    )

-- `ReviewSpecialInvoice`, where no two requests have one id: if it returns, the user may decide on
-- special invoices and the request was waiting for that in the version that was named, submitted by
-- someone else. An approved request waits for its invoice in the next version, names its approver and
-- keeps what it reserves; a rejected one, for which there is a reason, is rejected in the next version
-- and reserves nothing.
pub review_special_invoice-IsSettled :
    (sv : Service) (p : Principal) (ids : ReviewIds) (id : RowId) (version : ℕ) (approve : Bool)
    (reason : Text) (db db' : Db) (attempt : RowId)
    → Unique request_id db.requests
    → review_special_invoice sv p ids id version approve reason db ≡ ok (attempt, db')
    → (allows p special_approve ≡ true)
      × (r : InvoiceRequest) × IsWaiting p id version special_review r db
      × IsSettled approve p id reason r db db'
unfolding review_special_invoice
review_special_invoice-IsSettled sv p ids id version approve reason db db' attempt u h =
    let (_, may, h0) = >>=-eq-ok (guard (allows p special_approve) forbidden) _ h in
    let (_, said, h1) =
      >>=-eq-ok (fail_if (not approve && (ltb 500 (utf8_length reason) || is_empty reason)) invalid)
        _ h0 in
    let (r, found, h2) =
      >>=-eq-ok
        (or_error (find (is_awaiting p.tenant id special_review version) db.requests) conflict) _
        h1 in
    let (_, other, h3) = >>=-eq-ok (fail_if (r.submitted_by == p.user) forbidden) _ h2 in
    let (locked, locking, h4) =
      >>=-eq-ok (require_contract_access sv p special_approve r.snapshot db) _ h3 in
    let decided = decide_review p.tenant id p.user approve reason locked in
    let (audited, auditing, h5) =
      >>=-eq-ok (audit ids.message ids.audit p.tenant p.user id decided) _ h4 in
    let untouched =
      require_contract_access-IsUntouched sv p special_approve r.snapshot db locked locking in
    let kept = audit-kept ids.message ids.audit p.tenant p.user id decided audited auditing in
    let (at_key, awaited) =
      locked-row p.tenant id version special_review db.requests u r (or_error-eq-ok _ _ found) in
    (
      ground (arith, may),
      r,
      (
        at_key,
        ground (arith, awaited),
        as_special r.status (ground (arith, awaited)),
        ground (arith, awaited),
        λ e. ground (arith, e),
      ),
      back approve r audited (kept.1 ∙ untouched.4) (
          finish_review-IsSettled sv p ids.attempt id version approve reason audited db' attempt r
            (ap (row_at request_id id) (kept.0 ∙ untouched.0) ∙ at_key) (ground (arith, awaited))
            (ground (arith, said)) h5),
    )
  where
    back :
        (approve : Bool) (r : InvoiceRequest) (audited : Db)
        → audited.reservations ≡ db.reservations
        → IsSettled approve p id reason r audited db'
        → IsSettled approve p id reason r db db'
    back true r audited same m = (m.0, m.1 ∙ same)
    back false r audited same m = m
