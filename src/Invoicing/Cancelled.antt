-- ===== src/Invoicing/Cancelled.antt =====
-- What a cancellation asks for and what it leaves (internal/service/invoice_cancel.go).
use settlement.Base.{
  ℕ, ◌+◌, ◌≡◌, ◌≢◌, ◌⊎◌, refl, sym, ap, subst, ◌∙◌, inl, inr, true, false, ◌&&◌, ◌||◌, not, Option,
  none, some, List, [], ◌∷◌, ◌==◌, find, keep_if, update_where, arith, ok, ok-injective, >>=-eq-ok,
  or_error, or_error-eq-ok, fail_if, guard, invalid, conflict, forbidden, not_found, ltb,
}
use settlement.Base.Text.{Text, trim_space, is_empty}
use settlement.Base.Keyed.{Unique, row_at, find-row_at}
use settlement.Outbox.Rows.{EventStatus, dead_letter, tax_invoice_command, same_destination}
use settlement.Ledger.Tables.{RowId, Reservation}
use settlement.Ledger.InvoiceTables.{
  InvoiceRequest, RequestStatus, issue_pending, issue_failed, request_cancelled, IssueAttempt,
  IssueStatus, attempt_pending, attempt_failed,
}
use settlement.Ledger.Access.{Principal, allows}
use settlement.Ledger.Db.{Db, Message, cancel_invoice_command}
use settlement.Ledger.Requests.{Service, invoice_decision_request, utf8_length}
use settlement.Ledger.Claims.{claimed, claim_idempotency}
use settlement.Invoicing.Submit.{InvoiceIds, issue_invoice}
use settlement.Invoicing.Review.{
  is_request, is_reserved_of, status_code, has_result, require_request_scope,
}
use settlement.Invoicing.Manual.{attempt_code}
use settlement.Invoicing.Withdraw.{
  is_dead, check_command, check_attempt, newest_attempt, has_invoice, is_cancellable, is_unresolved,
  valid_reason, cancel_request, finish_cancellation, continue_decision, cancel_invoice_request,
}
use settlement.Invoicing.Duties.{request_id}
use settlement.Invoicing.Approved.{moved-row, audit-kept, require_request_scope-kept}

-- The command of an attempt, if it has one, is given up.
abbrev pub IsGivenUp : (tenant : RowId) → Option RowId → Db → Type 0
IsGivenUp tenant none db = Unit
IsGivenUp tenant (some event) db =
    (m : Message) × (find (λ (x : Message). x.tenant == tenant && x.id == event) db.outbox ≡ some m)
    × (same_destination m.destination tax_invoice_command ≡ true)
    × (m.status ≡ dead_letter)

-- The tax system has never had the newest attempt, if there is one.
abbrev pub IsUntaken : (tenant : RowId) → Option IssueAttempt → Db → Type 0
IsUntaken tenant none db = Unit
IsUntaken tenant (some a) db =
    (a.accepted ≡ false)
    × ((a.status ≡ attempt_pending) ⊎ (a.status ≡ attempt_failed))
    × IsGivenUp tenant a.command_event_id db

-- A request that may be cancelled: open in the version that is named, of someone else, and surely
-- not invoiced.
abbrev pub IsRevocable : Principal → RowId → ℕ → InvoiceRequest → Db → Type 0
IsRevocable p id version r db =
    (row_at request_id id db.requests ≡ some r)
    × ((r.status ≡ issue_pending) ⊎ (r.status ≡ issue_failed))
    × (r.version ≡ version)
    × (r.submitted_by ≢ p.user)
    × (has_invoice p.tenant id db ≡ false)
    × (has_result p.tenant id is_unresolved db ≡ false)
    × IsUntaken p.tenant (newest_attempt p.tenant id db.attempts) db

abbrev pub cancelled_for : (reason : Text) → InvoiceRequest → InvoiceRequest
cancelled_for reason r = record r {
  status = request_cancelled;
  rejection_reason = reason;
  version = r.version + 1;
}

-- The request is cancelled and reserves nothing.
abbrev pub IsRevoked : Principal → RowId → (reason : Text) → InvoiceRequest → Db → Type 0
IsRevoked p id reason r db =
    (row_at request_id id db.requests ≡ some (cancelled_for reason r))
    × (keep_if (is_reserved_of p.tenant id) db.reservations ≡ [])

is_dead-status : (s : EventStatus) → is_dead s ≡ true → s ≡ dead_letter
is_dead-status dead_letter h = refl
is_dead-status _ h = ground arith

check_command-IsGivenUp :
    (tenant : RowId) (event : Option RowId) (db : Db) {u : Unit}
    → check_command tenant event db ≡ ok u
    → IsGivenUp tenant event db
unfolding check_command
check_command-IsGivenUp tenant none db h = tt
check_command-IsGivenUp tenant (some event) db h =
    let (m, found, h1) =
      >>=-eq-ok
        (or_error (find (λ (x : Message). x.tenant == tenant && x.id == event) db.outbox) conflict)
        _ h in
    (m, or_error-eq-ok _ _ found, ground (arith, h1), is_dead-status m.status (ground (arith, h1)))

cancellable_status :
    (s : IssueStatus)
    → (attempt_code s == attempt_code attempt_pending
        || attempt_code s == attempt_code attempt_failed)
      ≡ true
    → (s ≡ attempt_pending) ⊎ (s ≡ attempt_failed)
cancellable_status attempt_pending h = inl refl
cancellable_status attempt_failed h = inr refl
cancellable_status _ h = absurd (cc)

check_attempt-IsUntaken :
    (tenant : RowId) (newest : Option IssueAttempt) (db : Db) {u : Unit}
    → check_attempt tenant newest db ≡ ok u
    → IsUntaken tenant newest db
unfolding check_attempt
check_attempt-IsUntaken tenant none db h = tt
check_attempt-IsUntaken tenant (some a) db h =
    let (_, commanded, h1) = >>=-eq-ok (check_command tenant a.command_event_id db) _ h in
    (
      ground (arith, h1),
      cancellable_status a.status (ground (arith, h1)),
      check_command-IsGivenUp tenant a.command_event_id db commanded,
    )

open_status :
    (s : RequestStatus)
    → (status_code s == status_code issue_pending || status_code s == status_code issue_failed)
      ≡ true
    → (s ≡ issue_pending) ⊎ (s ≡ issue_failed)
open_status issue_pending h = inl refl
open_status issue_failed h = inr refl
open_status _ h = absurd (cc)

cancelled_none :
    (tenant id : RowId) (rows : List Reservation) (f : Reservation → Reservation)
    → ((x : Reservation) → is_reserved_of tenant id (f x) ≡ false)
    → keep_if (is_reserved_of tenant id) (update_where (is_reserved_of tenant id) f rows) ≡ []
cancelled_none tenant id [] f closes = refl
cancelled_none tenant id (x ∷ rows) f closes =
    ground (arith, closes x, cancelled_none tenant id rows f closes)

finish_cancellation-IsRevoked :
    (sv : Service) (p : Principal) (ids : InvoiceIds) (id : RowId) (version : ℕ) (reason : Text)
    (db db' : Db)
    → Unique request_id db.requests
    → finish_cancellation sv p ids id version reason db ≡ ok db'
    → (r : InvoiceRequest) × IsRevocable p id version r db × IsRevoked p id reason r db'
unfolding finish_cancellation
finish_cancellation-IsRevoked sv p ids id version reason db db' u h =
    let newest = newest_attempt p.tenant id db.attempts in
    let (_, untaken, h1) = >>=-eq-ok (check_attempt p.tenant newest db) _ h in
    let (r, found, h2) =
      >>=-eq-ok (or_error (find (is_request p.tenant id) db.requests) not_found) _ h1 in
    let (_, open_now, h3) = >>=-eq-ok (guard (is_cancellable version r) conflict) _ h2 in
    let (_, other, h4) = >>=-eq-ok (fail_if (r.submitted_by == p.user) invalid) _ h3 in
    let (locked, locking, h5) = >>=-eq-ok (require_request_scope sv p issue_invoice id db) _ h4 in
    let (_, uninvoiced, h6) = >>=-eq-ok (fail_if (has_invoice p.tenant id locked) conflict) _ h5 in
    let (_, resolved, h7) =
      >>=-eq-ok (fail_if (has_result p.tenant id is_unresolved locked) conflict) _ h6 in
    let after = cancel_request p.tenant id version reason newest locked in
    let (requests, attempts, results, invoices) =
      require_request_scope-kept sv p issue_invoice id db locked locking in
    let (at_key, passes) =
      find-row_at request_id (is_request p.tenant id) id db.requests r (λ y e. ground arith) u
        (or_error-eq-ok _ _ found) in
    let kept = audit-kept ids.message ids.audit p.tenant p.user id after db' h7 in
    (
      r,
      (
        at_key,
        open_status r.status (ground (arith, open_now)),
        ground (arith, open_now),
        λ e. ground (arith, e),
        ground (arith, uninvoiced, invoices),
        ground (arith, resolved, attempts, results),
        check_attempt-IsUntaken p.tenant newest db untaken,
      ),
      (
        ap (row_at request_id id) kept.0
            ∙ moved-row id (cancelled_for reason)
                (λ x. is_request p.tenant id x && is_cancellable version x) locked.requests r
                (λ x. refl) (ap (row_at request_id id) requests ∙ at_key)
                (ground (arith, passes, open_now)),
        ap (keep_if (is_reserved_of p.tenant id)) kept.1
            ∙ cancelled_none p.tenant id locked.reservations _ (λ x. ground arith),
      ),
    )

-- `CancelInvoiceRequest`, for a key that it claims, where no two requests have one id: if it returns,
-- the user may issue invoices; the request was open (waiting for its invoice, or failed) in the
-- version that was named, submitted by someone else, without an invoice and without an unknown or
-- contradicted result; and of its newest attempt, if it has one, the tax system has accepted nothing
-- and the command, if there was one, was given up. The request is then cancelled in its next version
-- and reserves nothing.
pub cancel_invoice_request-IsRevoked :
    (sv : Service) (p : Principal) (key : Text) (ids : InvoiceIds) (id : RowId) (version : ℕ)
    (reason : Text) (db claimed_db db' : Db)
    → Unique request_id claimed_db.requests
    → claim_idempotency p.tenant cancel_invoice_command
        (trim_space key)
        id
        (sv.digest (invoice_decision_request p.user id version (trim_space reason)))
        db
      ≡ ok (claimed claimed_db)
    → cancel_invoice_request sv p key ids id version reason db ≡ ok db'
    → (allows p issue_invoice ≡ true)
      × (r : InvoiceRequest) × IsRevocable p id version r claimed_db
      × IsRevoked p id (trim_space reason) r db'
unfolding cancel_invoice_request continue_decision
cancel_invoice_request-IsRevoked sv p key ids id version reason db claimed_db db' u first h =
    let stated = trim_space reason in
    let bound = trim_space key in
    let (_, may, h0) =
      >>=-eq-ok
        (guard (allows p issue_invoice && not (p.tenant == 0) && not (p.user == 0)) forbidden) _
        h in
    let (_, _, h1) =
      >>=-eq-ok
        (fail_if
          (id == 0
            || is_empty bound
            || ltb 128 (utf8_length bound)
            || version == 0
            || not (valid_reason stated))
          invalid)
        _ h0 in
    let hash = sv.digest (invoice_decision_request p.user id version stated) in
    let (claim, claiming, h2) =
      >>=-eq-ok (claim_idempotency p.tenant cancel_invoice_command bound id hash db) _ h1 in
    let finishing : finish_cancellation sv p ids id version stated claimed_db ≡ ok db' =
      subst (λ c. continue_decision c db (finish_cancellation sv p ids id version stated) ≡ ok db')
        (ok-injective (sym claiming ∙ first)) h2 in
    let (r, revocable, revoked) =
      finish_cancellation-IsRevoked sv p ids id version stated claimed_db db' u finishing in
    (ground (arith, may), r, revocable, revoked)
