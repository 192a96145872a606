-- ===== src/Invoicing/Duties.antt =====
-- The states of an invoice request as an abstract machine, and the decisions as its moves: none is
-- made by the applicant (internal/service/invoice_approval.go, invoice_recovery.go,
-- invoice_cancel.go).
use settlement.Base.{
  ◌⊎◌, ◌≢◌, ℕ, ◌+◌, ◌≡◌, refl, sym, ap, subst, ◌∙◌, inl, inr, Bool, true, some, List, [], ◌∷◌, All,
  update_where, arith, Bool-cases, ok,
}
use mathlib.Core.Option.{some-injective}
use settlement.Base.Keyed.{Unique, row_at, All-map, All-found}
use settlement.Ledger.Imports.{lock_import_write}
use settlement.Ledger.Tables.{RowId}
use settlement.Ledger.InvoiceTables.{
  RequestStatus, issue_pending, issue_failed, rejected, request_cancelled, InvoiceRequest,
  submitted, special_review,
}
use settlement.Ledger.Access.{Principal, Permission}
use settlement.Ledger.Db.{Db}
use settlement.Ledger.Requests.{Service}
use settlement.Ledger.Claims.{audit}
use settlement.Ledger.Scope.{require_contract_access, require_write_scope}
use settlement.Invoicing.Submit.{InvoiceIds}
use settlement.Invoicing.Review.{
  move_request, require_request_scope, create_attempt, command_attempt, send_command,
}

abbrev pub request_id : InvoiceRequest → RowId
request_id r = r.id

-- The moves that a person decides on.
pub data Move : RequestStatus → RequestStatus → Type 0 where
  ask_review : Move submitted special_review
  ask_invoice : Move submitted issue_pending
  accept : Move special_review issue_pending
  refuse : Move submitted rejected
  refuse_special : Move special_review rejected
  try_again : Move issue_failed submitted
  give_up : Move issue_pending request_cancelled
  give_up_failed : Move issue_failed request_cancelled

-- A request as it was, or moved once by someone who has not submitted it.
abbrev pub Moved : RowId → InvoiceRequest → InvoiceRequest → Type 0
Moved user r r' =
    (r' ≡ r)
    ⊎ (Move r.status r'.status
        × (r'.version ≡ r.version + 1)
        × (r'.submitted_by ≡ r.submitted_by)
        × (r.submitted_by ≢ user))

abbrev pub AllMoved : RowId → List InvoiceRequest → List InvoiceRequest → Type 0
AllMoved user [] [] = Unit
AllMoved user (r ∷ rs) (r' ∷ rs') = Moved user r r' × AllMoved user rs rs'
AllMoved user [] (_ ∷ _) = ⊥
AllMoved user (_ ∷ _) [] = ⊥

pub AllMoved-refl : (user : RowId) (rows : List InvoiceRequest) → AllMoved user rows rows
AllMoved-refl user [] = tt
AllMoved-refl user (r ∷ rows) = (inl refl, AllMoved-refl user rows)

pub AllMoved-update_where :
    (user : RowId) (q : InvoiceRequest → Bool) (f : InvoiceRequest → InvoiceRequest)
    (rows : List InvoiceRequest)
    → All (λ r. q r ≡ true → Moved user r (f r)) rows
    → AllMoved user rows (update_where q f rows)
AllMoved-update_where user q f [] h = tt
AllMoved-update_where user q f (r ∷ rows) h = elim (Bool-cases (q r)) [
  | inl e ↦ rw e (h.0 e, AllMoved-update_where user q f rows h.1)
  | inr e ↦ rw e (inl refl, AllMoved-update_where user q f rows h.1)
]

-- An update of the one row of an id.
pub AllMoved-update_one :
    (user : RowId) (q : InvoiceRequest → Bool) (f : InvoiceRequest → InvoiceRequest) (id : RowId)
    (row : InvoiceRequest) (rows : List InvoiceRequest)
    → Unique request_id rows
    → row_at request_id id rows ≡ some row
    → ((r : InvoiceRequest) → q r ≡ true → r.id ≡ id)
    → Moved user row (f row)
    → AllMoved user rows (update_where q f rows)
AllMoved-update_one user q f id row rows u found k moved = AllMoved-update_where user q f rows (
    All-map request_id (λ r. row_at request_id (request_id r) rows ≡ some r) _ rows
      (λ r at_r e.
        subst (λ x. Moved user x (f x))
          (some-injective _ _ (sym found ∙ ap (λ j. row_at request_id j rows) (sym (k r e)) ∙ at_r))
          moved)
      (All-found request_id rows u))

pub audit-requests :
    (message row tenant actor resource : RowId) (db db' : Db)
    → audit message row tenant actor resource db ≡ ok db'
    → db'.requests ≡ db.requests
unfolding audit
audit-requests message row tenant actor resource db db' h = ground arith

pub require_contract_access-requests :
    (sv : Service) (p : Principal) (permission : Permission) (snapshot : RowId) (db db' : Db)
    → require_contract_access sv p permission snapshot db ≡ ok db'
    → db'.requests ≡ db.requests
unfolding require_contract_access lock_import_write
require_contract_access-requests sv p permission snapshot db db' h = ground arith

pub require_request_scope-requests :
    (sv : Service) (p : Principal) (permission : Permission) (request : RowId) (db db' : Db)
    → require_request_scope sv p permission request db ≡ ok db'
    → db'.requests ≡ db.requests
unfolding require_request_scope require_write_scope
require_request_scope-requests sv p permission request db db' h =
    grind (arith, require_contract_access-requests)

command_attempt-requests :
    (sv : Service) (ids : InvoiceIds) (tenant request attempt : RowId) (db db' : Db)
    → command_attempt sv ids tenant request attempt db ≡ ok db'
    → db'.requests ≡ db.requests
unfolding command_attempt send_command
command_attempt-requests sv ids tenant request attempt db db' h = ground arith

pub create_attempt-requests :
    (sv : Service) (p : Principal) (ids : InvoiceIds) (id : RowId) (version : ℕ) (db db' : Db)
    (attempt : RowId)
    → create_attempt sv p ids id version db ≡ ok (attempt, db')
    → db'.requests ≡ (move_request p.tenant id version issue_pending p.user db).requests
unfolding create_attempt
create_attempt-requests sv p ids id version db db' attempt h =
    grind (arith, command_attempt-requests, audit-requests)
