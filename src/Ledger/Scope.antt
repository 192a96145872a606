-- ===== src/Ledger/Scope.antt =====
-- The responsibility for a contract, checked inside a transaction
-- (`RequireContractAccessTx` and what it calls, internal/service/role_scope.go).
use settlement.Base.{
  Bool, true, false, ◌&&◌, ◌||◌, none, some, ◌==◌, if◌then◌else◌, find, any, Result, ok, forbidden,
  import_blocked, not_found, storage, ◌>>=◌, ◌>>◌, or_error, fail_if, guard,
}
use settlement.Ledger.Tables.{RowId, Allocation, Receivable, Snapshot}
use settlement.Ledger.Access.{
  Principal, Permission, Role, sales, project_assistant, other_role, invoice, receivable_create,
  receivable_adjust, revision_resolve, allows, unrestricted, scoped_authorization,
}
use settlement.Ledger.Db.{Db, Responsibility, Assignment, ProjectReference}
use settlement.Ledger.Requests.{Service}
use settlement.Ledger.Imports.{snapshot_at, is_hold, lock_import_write}

-- The permissions that a contract on hold refuses to everyone.
abbrev pub refuses_hold : Permission → Bool
refuses_hold (invoice n) = true
refuses_hold receivable_create = true
refuses_hold receivable_adjust = true
refuses_hold revision_resolve = true
refuses_hold _ = false

abbrev owns_contract : Db → Principal → Snapshot → Bool
owns_contract db p s =
    any
      (λ (r : Responsibility).
        r.tenant == p.tenant
        && r.source_contract == s.source_contract
        && r.owner == p.user
        && r.active)
      db.responsibilities

abbrev assists_project : Db → Principal → Snapshot → Bool
assists_project db p s =
    any
      (λ (r : ProjectReference).
        r.tenant == p.tenant
        && r.source_contract == s.source_contract
        && r.active
        && any
            (λ (a : Assignment).
              a.tenant == p.tenant && a.project == r.project && a.user == p.user && a.active)
            db.assignments)
      db.references

-- What one role of the principal finds.
abbrev pub role_allows : Db → Principal → RowId → Role → Bool
role_allows db p snapshot sales = elim (snapshot_at db p.tenant snapshot) [
  | none ↦ false
  | some s ↦ owns_contract db p s
]
role_allows db p snapshot project_assistant = elim (snapshot_at db p.tenant snapshot) [
  | none ↦ false
  | some s ↦ assists_project db p s
]
role_allows db p snapshot (other_role n) = false

-- `lockContractResponsibilities`
unfoldable pub responsible : Service → Db → Principal → Permission → RowId → Bool
responsible sv db p permission snapshot =
    any (λ role. sv.grants role permission && role_allows db p snapshot role) p.roles

-- The check for a contract on hold.
unfoldable pub check_hold : Db → Principal → Permission → RowId → Result (Unit {0})
check_hold db p permission snapshot =
    if refuses_hold permission
    then (do
      s ← or_error (snapshot_at db p.tenant snapshot) storage
      fail_if (is_hold s.migration_state) import_blocked)
    else ok tt

-- `RequireContractAccessTx`
unfoldable pub require_contract_access : Service → Principal → Permission → RowId → Db → Result Db
unfolding responsible check_hold
require_contract_access sv p permission snapshot db = do
  guard (allows p permission) forbidden
  check_hold db p permission snapshot
  locked ← lock_import_write sv p snapshot db
  guard (unrestricted sv.grants p permission || responsible sv locked p permission snapshot)
      not_found
  ok locked

-- `requireWriteScopeTx`; a snapshot of 0 is the empty text.
unfoldable pub require_write_scope : Service → Principal → Permission → RowId → Db → Result Db
require_write_scope sv p permission snapshot db = do
  fail_if (snapshot == 0) not_found
  if scoped_authorization p then require_contract_access sv p permission snapshot db else ok db

abbrev pub is_allocation : RowId → RowId → Allocation → Bool
is_allocation tenant id a = a.id == id && a.tenant == tenant

abbrev pub is_receivable : RowId → RowId → Receivable → Bool
is_receivable tenant id r = r.id == id && r.tenant == tenant

-- `requireReceiptAllocationScopeTx`
unfoldable pub require_allocation_scope : Service → Principal → Permission → RowId → Db → Result Db
unfolding require_write_scope
require_allocation_scope sv p permission allocation db =
    if scoped_authorization p
    then (do
      a ← or_error (find (is_allocation p.tenant allocation) db.allocations) not_found
      r ← or_error (find (is_receivable p.tenant a.receivable_id) db.receivables) not_found
      require_write_scope sv p permission r.snapshot db)
    else ok db
