-- ===== src/Invoicing/Approved.antt =====
-- What an approval and a special review decide (internal/service/invoice_approval.go).
use settlement.Base.{
  ℕ, ◌+◌, ◌≡◌, ◌≢◌, refl, sym, ap, subst, ◌∙◌, Bool, true, false, ◌&&◌, some, List, [], ◌∷◌, ◌++◌,
  ◌==◌, find, any, update_where, arith, ok, ok-injective, >>=-eq-ok, or_error, or_error-eq-ok,
  fail_if, invalid, conflict, storage,
}
use settlement.Base.Keyed.{Unique, row_at, row_at-update_where}
use settlement.Ledger.Tables.{RowId}
use settlement.Ledger.InvoiceTables.{
  InvoiceRequest, RequestStatus, submitted, special_review, issue_pending, IssueAttempt,
  attempt_pending,
}
use settlement.Ledger.Access.{Principal, Permission}
use settlement.Ledger.Db.{Db}
use settlement.Ledger.Requests.{Service}
use settlement.Ledger.Claims.{audit}
use settlement.Ledger.Imports.{lock_import_write}
use settlement.Ledger.Scope.{require_contract_access, require_write_scope}
use settlement.Invoicing.Submit.{InvoiceIds, approve_invoice}
use settlement.Invoicing.Review.{
  is_awaiting, is_request, is_attempt_of, has_result, is_conflict, is_special,
  require_request_scope, move_request, new_attempt, same_attempt, last_attempt_no, command_attempt,
  send_command, create_attempt, finish_approval, approve_invoice_request,
}
use settlement.Invoicing.Manual.{attempt_code}
use settlement.Invoicing.Duties.{request_id, audit-requests, create_attempt-requests}
use settlement.Invoicing.Separated.{as_submitted, locked-row}

-- The row of a request, which someone else has submitted.
abbrev pub IsWaiting : Principal → RowId → ℕ → RequestStatus → InvoiceRequest → Db → Type 0
IsWaiting p id version status r db =
    (row_at request_id id db.requests ≡ some r)
    × (r.tenant ≡ p.tenant)
    × (r.status ≡ status)
    × (r.version ≡ version)
    × (r.submitted_by ≢ p.user)

-- What a request becomes when it is approved.
abbrev pub approved_as : RequestStatus → RowId → InvoiceRequest → InvoiceRequest
approved_as status approver r = record r {
  status = status;
  approved_by = approver;
  version = r.version + 1;
}

abbrev is_asked : RowId → RowId → RowId → IssueAttempt → Bool
is_asked tenant id attempt a =
    a.id == attempt
    && is_attempt_of tenant id a
    && attempt_code a.status == attempt_code attempt_pending

-- A pending attempt to issue an invoice, of which no result is contradicted.
abbrev pub IsAsked : (tenant id attempt : RowId) → (before after : Db) → Type 0
IsAsked tenant id attempt before after =
    (any (is_asked tenant id attempt) after.attempts ≡ true)
    × (has_result tenant id is_conflict before ≡ false)

-- What an approval leaves, by whether there is to be a special review.
abbrev pub IsMovedOn : Bool → Principal → (id attempt : RowId) → InvoiceRequest → Db → Db → Type 0
IsMovedOn true p id attempt r db db' =
    (row_at request_id id db'.requests ≡ some (approved_as special_review p.user r))
    × (db'.attempts ≡ db.attempts)
    × (attempt ≡ 0)
IsMovedOn false p id attempt r db db' =
    (row_at request_id id db'.requests ≡ some (approved_as issue_pending p.user r))
    × IsAsked p.tenant id attempt db db'

any-append-new :
    (q : IssueAttempt → Bool) (rows : List IssueAttempt) (a : IssueAttempt)
    → q a ≡ true
    → any q (rows ++ a ∷ []) ≡ true
any-append-new q [] a h = rw h refl
any-append-new q (x ∷ rows) a h = ground (arith, any-append-new q rows a h)

any-update_where :
    (q p : IssueAttempt → Bool) (f : IssueAttempt → IssueAttempt) (rows : List IssueAttempt)
    → ((a : IssueAttempt) → q (f a) ≡ q a)
    → any q (update_where p f rows) ≡ any q rows
any-update_where q p f [] k = refl
any-update_where q p f (x ∷ rows) k = ground (arith, k x, any-update_where q p f rows k)

command_attempt-any :
    (sv : Service) (ids : InvoiceIds) (tenant request attempt : RowId) (db db' : Db)
    (q : IssueAttempt → Bool)
    → ((a : IssueAttempt) → q (record a { command_event_id = some ids.command }) ≡ q a)
    → command_attempt sv ids tenant request attempt db ≡ ok db'
    → any q db'.attempts ≡ any q db.attempts
unfolding command_attempt send_command
command_attempt-any sv ids tenant request attempt db db' q k h = ground (
  arith,
  any-update_where q (λ (a : IssueAttempt). a.id == attempt && a.tenant == tenant)
      (λ a. record a { command_event_id = some ids.command }) db.attempts k,
)

audit-attempts :
    (message row tenant actor resource : RowId) (db db' : Db)
    → audit message row tenant actor resource db ≡ ok db'
    → db'.attempts ≡ db.attempts
unfolding audit
audit-attempts message row tenant actor resource db db' h = ground arith

create_attempt-IsAsked :
    (sv : Service) (p : Principal) (ids : InvoiceIds) (id : RowId) (version : ℕ) (db db' : Db)
    (attempt : RowId)
    → create_attempt sv p ids id version db ≡ ok (attempt, db')
    → IsAsked p.tenant id attempt db db'
unfolding create_attempt
create_attempt-IsAsked sv p ids id version db db' attempt h =
    let (_, free, h1) = >>=-eq-ok (fail_if (has_result p.tenant id is_conflict db) conflict) _ h in
    let moved = move_request p.tenant id version issue_pending p.user db in
    let new = new_attempt sv p.tenant id ids.row (last_attempt_no p.tenant id moved.attempts + 1) in
    let (_, _, h2) = >>=-eq-ok (fail_if (any (same_attempt new) moved.attempts) storage) _ h1 in
    let with_new = record moved { attempts = moved.attempts ++ new ∷ [] } in
    let (commanded, commanding, h3) =
      >>=-eq-ok (command_attempt sv ids p.tenant id ids.row with_new) _ h2 in
    let (audited, auditing, same) =
      >>=-eq-ok (audit ids.message ids.audit p.tenant p.user id commanded) _ h3 in
    let q = is_asked p.tenant id ids.row in
    let there : any q audited.attempts ≡ true =
      ap (any q)
        (audit-attempts ids.message ids.audit p.tenant p.user id commanded audited auditing)
      ∙ command_attempt-any sv ids p.tenant id ids.row with_new commanded q (λ a. refl) commanding
      ∙ any-append-new q moved.attempts new (ground arith) in
    (
      subst (λ (t : RowId × Db). any (is_asked p.tenant id t.0) t.1.attempts ≡ true)
          (ok-injective same) there,
      ground (arith, free),
    )

-- An update of the locked row.
pub moved-row :
    (id : RowId) (f : InvoiceRequest → InvoiceRequest) (q : InvoiceRequest → Bool)
    (rows : List InvoiceRequest) (r : InvoiceRequest)
    → ((x : InvoiceRequest) → request_id (f x) ≡ request_id x)
    → row_at request_id id rows ≡ some r
    → q r ≡ true
    → row_at request_id id (update_where q f rows) ≡ some (f r)
moved-row id f q rows r k found passes =
    row_at-update_where request_id q f id rows k ∙ rw found (rw passes refl)

-- What the checks of the scope do not touch.
abbrev pub IsUntouched : Db → Db → Type 0
IsUntouched db db' =
    (db'.requests ≡ db.requests)
    × (db'.reviews ≡ db.reviews)
    × (db'.attempts ≡ db.attempts)
    × (db'.tax_results ≡ db.tax_results)
    × (db'.reservations ≡ db.reservations)

pub require_contract_access-IsUntouched :
    (sv : Service) (p : Principal) (permission : Permission) (snapshot : RowId) (db db' : Db)
    → require_contract_access sv p permission snapshot db ≡ ok db'
    → IsUntouched db db'
unfolding require_contract_access lock_import_write
require_contract_access-IsUntouched sv p permission snapshot db db' h =
    (ground arith, ground arith, ground arith, ground arith, ground arith)

require_request_scope-IsUntouched :
    (sv : Service) (p : Principal) (permission : Permission) (request : RowId) (db db' : Db)
    → require_request_scope sv p permission request db ≡ ok db'
    → IsUntouched db db'
unfolding require_request_scope require_write_scope
require_request_scope-IsUntouched sv p permission request db db' h =
    grind (arith, require_contract_access-IsUntouched)

pub audit-kept :
    (message row tenant actor resource : RowId) (db db' : Db)
    → audit message row tenant actor resource db ≡ ok db'
    → (db'.requests ≡ db.requests) × (db'.reservations ≡ db.reservations)
unfolding audit
audit-kept message row tenant actor resource db db' h = (ground arith, ground arith)

pub require_request_scope-kept :
    (sv : Service) (p : Principal) (permission : Permission) (request : RowId) (db db' : Db)
    → require_request_scope sv p permission request db ≡ ok db'
    → (db'.requests ≡ db.requests)
      × (db'.attempts ≡ db.attempts)
      × (db'.tax_results ≡ db.tax_results)
      × (db'.invoices ≡ db.invoices)
unfolding require_request_scope require_write_scope require_contract_access lock_import_write
require_request_scope-kept sv p permission request db db' h =
    (ground arith, ground arith, ground arith, ground arith)

module _ (sv : Service) (p : Principal) (ids : InvoiceIds) (id : RowId) (version : ℕ)
    (r : InvoiceRequest) (db db' : Db) (attempt : RowId)
    (found : row_at request_id id db.requests ≡ some r)
    (passes : (is_request p.tenant id r && r.version == version) ≡ true) where
  pub create_attempt-row :
      create_attempt sv p ids id version db ≡ ok (attempt, db')
      → row_at request_id id db'.requests ≡ some (approved_as issue_pending p.user r)
  create_attempt-row h =
      ap (row_at request_id id) (create_attempt-requests sv p ids id version db db' attempt h)
      ∙ moved-row id (approved_as issue_pending p.user)
          (λ x. is_request p.tenant id x && x.version == version) db.requests r (λ x. refl) found
          passes

  finish_approval-IsMovedOn :
      (special : Bool)
      → is_special p.tenant id db ≡ special
      → finish_approval sv p ids id version db ≡ ok (attempt, db')
      → IsMovedOn special p id attempt r db db'
  unfolding finish_approval
  finish_approval-IsMovedOn true e h =
      let after = move_request p.tenant id version special_review p.user db in
      let (audited, auditing, same) =
        >>=-eq-ok (audit ids.message ids.audit p.tenant p.user id after) _ (rw e at h) in
      let left = ok-injective same in
      (
        ap (λ (t : RowId × Db). row_at request_id id t.1.requests) (sym left)
            ∙ ap (row_at request_id id)
                (audit-requests ids.message ids.audit p.tenant p.user id after audited auditing)
            ∙ moved-row id (approved_as special_review p.user)
                (λ x. is_request p.tenant id x && x.version == version) db.requests r (λ x. refl)
                found passes,
        ap (λ (t : RowId × Db). t.1.attempts) (sym left)
            ∙ audit-attempts ids.message ids.audit p.tenant p.user id after audited auditing,
        ap (λ (t : RowId × Db). t.0) (sym left),
      )
  finish_approval-IsMovedOn false e h =
      let creating = rw e at h in
      (
        create_attempt-row creating,
        create_attempt-IsAsked sv p ids id version db db' attempt creating,
      )

-- `ApproveInvoiceRequest`, where no two requests have one id: if it returns, the request was waiting
-- for an approval in the version that was named, submitted by someone else. It is in the next version
-- and names its approver: where a special review is required it waits for that, and no attempt is
-- made; otherwise it waits for its invoice, for which there is a pending attempt, and no result of an
-- earlier attempt is contradicted.
pub approve_invoice_request-IsMovedOn :
    (sv : Service) (p : Principal) (ids : InvoiceIds) (id : RowId) (version : ℕ) (db db' : Db)
    (attempt : RowId)
    → Unique request_id db.requests
    → approve_invoice_request sv p ids id version db ≡ ok (attempt, db')
    → (r : InvoiceRequest) × IsWaiting p id version submitted r db
      × IsMovedOn (is_special p.tenant id db) p id attempt r db db'
unfolding approve_invoice_request
approve_invoice_request-IsMovedOn sv p ids id version db db' attempt u h =
    let (r, found, h1) =
      >>=-eq-ok (or_error (find (is_awaiting p.tenant id submitted version) db.requests) conflict) _
        h in
    let (_, other, h2) = >>=-eq-ok (fail_if (r.submitted_by == p.user) invalid) _ h1 in
    let (locked, locking, h3) = >>=-eq-ok (require_request_scope sv p approve_invoice id db) _ h2 in
    let (requests, reviews, attempts, results, _) =
      require_request_scope-IsUntouched sv p approve_invoice id db locked locking in
    let (at_key, awaited) =
      locked-row p.tenant id version submitted db.requests u r (or_error-eq-ok _ _ found) in
    let moved =
      finish_approval-IsMovedOn sv p ids id version r locked db' attempt
        (ap (row_at request_id id) requests ∙ at_key) (ground (arith, awaited))
        (is_special p.tenant id db) (ground (arith, reviews)) h3 in
    (
      r,
      (
        at_key,
        ground (arith, awaited),
        as_submitted r.status (ground (arith, awaited)),
        ground (arith, awaited),
        λ e. ground (arith, e),
      ),
      back (is_special p.tenant id db) r locked attempts results moved,
    )
  where
    back :
        (special : Bool) (r : InvoiceRequest) (locked : Db)
        → locked.attempts ≡ db.attempts
        → locked.tax_results ≡ db.tax_results
        → IsMovedOn special p id attempt r locked db'
        → IsMovedOn special p id attempt r db db'
    back true r locked attempts results m = (m.0, m.1 ∙ attempts, m.2)
    back false r locked attempts results (at_row, (asked, free)) =
        (at_row, (asked, ground (arith, free, attempts, results)))
