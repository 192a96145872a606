-- ===== src/Ledger/Books.antt =====
-- The balances of receipts and receivables, the allocations and the reversals, the instalments and
-- the amounts that invoice requests reserve: the books. What a
-- command does beside them (claims, locks, audit and credit messages) leaves them as they are.
pub mod Net
pub mod Sound
pub mod Allocate
pub mod Confirm
pub mod Restore
pub mod Reverse
pub mod Record
pub mod Plans
pub mod Adjust
use settlement.Base.{
  ap, subst, sym, refl, ok-injective, Result, ℕ, ◌≡◌, Option, none, some, List, ok, arith,
}
use settlement.Base.Text.{Text}
use settlement.Ledger.Tables.{
  RowId, Allocation, Receivable, Receipt, Reversal, Snapshot, Plan, Reservation,
}
use settlement.Ledger.Access.{Principal, Permission}
use settlement.Ledger.Db.{Db, CreditType, Command, FactType}
use settlement.Ledger.Requests.{Service, ImportFact, Request}
use settlement.Ledger.Claims.{Claim, replayed, claimed, audit, claim_idempotency}
use settlement.Ledger.Imports.{lock_import_write, claim_import_fact, claim_fact}
use settlement.Ledger.Scope.{require_allocation_scope, require_write_scope, require_contract_access}
use settlement.Ledger.Credit.{
  insert_credit_sync, enqueue_credit_reversal, publish_after_commit, retry_credit_sync,
  record_publication,
}
use settlement.Ledger.Allocations.{report_settlement}
use settlement.Ledger.Receipts.{continue_claim, Fresh}

pub record Books : Type 0 where
  pub receipts : List Receipt
  pub receivables : List Receivable
  pub allocations : List Allocation
  pub reversals : List Reversal
  pub plans : List Plan
  pub reservations : List Reservation

abbrev pub books : Db → Books
books db = record {
  receipts = db.receipts;
  receivables = db.receivables;
  allocations = db.allocations;
  reversals = db.reversals;
  plans = db.plans;
  reservations = db.reservations;
}

pub audit-books :
    (message row tenant actor resource : RowId) (db db' : Db)
    → audit message row tenant actor resource db ≡ ok db'
    → books db' ≡ books db
unfolding audit
audit-books message row tenant actor resource db db' h = ground arith

pub insert_credit_sync-books :
    (tenant row event allocation receivable : RowId) (type : CreditType) (original : Option RowId)
    (now : ℕ) (db db' : Db)
    → insert_credit_sync tenant row event allocation receivable type original now db ≡ ok db'
    → books db' ≡ books db
unfolding insert_credit_sync
insert_credit_sync-books tenant row event allocation receivable type original now db db' h =
    ground arith

pub lock_import_write-books :
    (sv : Service) (p : Principal) (snapshot : RowId) (db db' : Db)
    → lock_import_write sv p snapshot db ≡ ok db'
    → books db' ≡ books db
unfolding lock_import_write
lock_import_write-books sv p snapshot db db' h = ground arith

pub report_settlement-books :
    (sv : Service) (p : Principal) (fresh : Fresh) (now : ℕ) (new : Allocation) (c : Receivable)
    (s : Snapshot) (db db' : Db) (e : Option RowId)
    → report_settlement sv p fresh now new c s db ≡ ok (e, db')
    → books db' ≡ books db
unfolding report_settlement insert_credit_sync
report_settlement-books sv p fresh now new c s db db' e h = ground arith

pub enqueue_credit_reversal-books :
    (sv : Service) (tenant row event allocation receivable : RowId) (now : ℕ) (db db' : Db)
    (e : Option RowId)
    → enqueue_credit_reversal sv tenant row event allocation receivable now db ≡ ok (e, db')
    → books db' ≡ books db
unfolding enqueue_credit_reversal insert_credit_sync
enqueue_credit_reversal-books sv tenant row event allocation receivable now db db' e h =
    ground arith

pub publish_after_commit-books :
    (sv : Service) (tenant : RowId) (e : Option RowId) (now : ℕ) (db : Db)
    → books (publish_after_commit sv tenant e now db) ≡ books db
unfolding retry_credit_sync record_publication
publish_after_commit-books sv tenant e now db = ground arith

pub claim_idempotency-books :
    (tenant : RowId) (command : Command) (key : Text) (resource hash : RowId) (db db' : Db)
    → claim_idempotency tenant command key resource hash db ≡ ok (claimed db')
    → books db' ≡ books db
unfolding claim_idempotency
claim_idempotency-books tenant command key resource hash db db' h = ground arith

pub claim_import_fact-books :
    (sv : Service) (p : Principal) (fact : Option ImportFact) (kind : FactType) (id : RowId)
    (body : Request) (db db' : Db)
    → claim_import_fact sv p fact kind id body db ≡ ok (claimed db')
    → books db' ≡ books db
unfolding claim_import_fact claim_fact lock_import_write
claim_import_fact-books sv p none kind id body db db' h = ground arith
claim_import_fact-books sv p (some fact) kind id body db db' h = ground arith

pub require_contract_access-books :
    (sv : Service) (p : Principal) (permission : Permission) (snapshot : RowId) (db db' : Db)
    → require_contract_access sv p permission snapshot db ≡ ok db'
    → books db' ≡ books db
unfolding require_contract_access lock_import_write
require_contract_access-books sv p permission snapshot db db' h = ground arith

pub require_write_scope-books :
    (sv : Service) (p : Principal) (permission : Permission) (snapshot : RowId) (db db' : Db)
    → require_write_scope sv p permission snapshot db ≡ ok db'
    → books db' ≡ books db
unfolding require_write_scope
require_write_scope-books sv p permission snapshot db db' h =
    ground (arith, require_contract_access-books sv p permission snapshot db db')

pub require_allocation_scope-books :
    (sv : Service) (p : Principal) (permission : Permission) (allocation : RowId) (db db' : Db)
    → require_allocation_scope sv p permission allocation db ≡ ok db'
    → books db' ≡ books db
unfolding require_allocation_scope
require_allocation_scope-books sv p permission allocation db db' h =
    grind (arith, require_write_scope-books)

-- What a command returns has the books of what it has computed.
pub ok-books :
    {A : Type 0} {a a' : A} {db db' : Db}
    → ◌≡◌ {A = Result (A × Db)} (ok (a, db)) (ok (a', db'))
    → books db ≡ books db'
ok-books {A} e = ap (λ (t : A × Db). books t.1) (ok-injective e)

-- What follows a claim, whichever it is: a replay leaves the database, and a first use goes on from
-- the database of the claim.
pub continue_claim-keeps {ℓ} :
    (P : Books → Type ℓ) (claim : Claim) (db : Db) (next : Db → Result (RowId × Db)) (db' : Db)
    (id : RowId)
    → continue_claim claim db next ≡ ok (id, db')
    → ((db1 : Db) → claim ≡ claimed db1 → P (books db1))
    → ((db1 db2 : Db) (id' : RowId) → P (books db1) → next db1 ≡ ok (id', db2) → P (books db2))
    → P (books db)
    → P (books db')
unfolding continue_claim
continue_claim-keeps P (claimed db1) db next db' id e first step h =
    step db1 db' id (first db1 refl) e
continue_claim-keeps P (replayed i) db next db' id e first step h = subst P (ok-books e) h
