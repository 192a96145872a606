-- ===== src/Ledger/Imports.antt =====
-- Contracts that are still being imported (internal/service/contract_import.go): their financial
-- rows may be written only while they are restored, and each restored fact once.
use settlement.Base.{
  ℕ, ◌+◌, Bool, true, false, ◌&&◌, ◌||◌, not, Option, none, some, [], ◌∷◌, ◌++◌, ◌==◌, leb, ltb,
  if◌then◌else◌, find, any, update_where, Result, ok, err, conflict, invalid, import_blocked,
  storage, ◌>>=◌, ◌>>◌, or_error, fail_if, guard,
}
use settlement.Base.Text.{Text, text_eq, trim_space, is_empty}
use settlement.Ledger.Tables.{RowId, Snapshot, MigrationState, hold, released}
use settlement.Ledger.Access.{Principal, import_reconcile, finance_access}
use settlement.Ledger.Db.{
  Db, FactRow, FactType, fact_code, receipt_fact, allocation_fact, ImportRow, prepared,
  ExpectedFact,
}
use settlement.Ledger.Requests.{Service, ImportFact, Request, utf8_length}
use settlement.Ledger.Claims.{Claim, claimed, replayed}

abbrev pub is_hold : MigrationState → Bool
is_hold hold = true
is_hold released = false

abbrev pub is_snapshot : RowId → RowId → Snapshot → Bool
is_snapshot tenant id s = s.tenant == tenant && s.id == id

abbrev pub snapshot_at : Db → RowId → RowId → Option Snapshot
snapshot_at db tenant id = find (is_snapshot tenant id) db.snapshots

-- `unicode.IsControl`
abbrev pub is_control : ℕ → Bool
is_control c = ltb c 0x20 || (leb 0x7F c && leb c 0x9F)

-- `validImportFactIdentity`
unfoldable pub valid_identity : Text → ℕ → Bool
valid_identity value maximum =
    not (is_empty value)
    && leb (utf8_length value) maximum
    && text_eq (trim_space value) value
    && not (any is_control value)

-- `lockImportWrite`
unfoldable pub lock_import_write : Service → Principal → RowId → Db → Result Db
lock_import_write sv p snapshot db = do
  s ← or_error (snapshot_at db p.tenant snapshot) storage
  if is_hold s.migration_state
      then (do
        finance_access sv.grants p import_reconcile
        ok (record db {
          snapshots =
              update_where (is_snapshot p.tenant snapshot)
                (λ s. record s { import_snapshot_version = s.import_snapshot_version + 1 })
                db.snapshots;
          imports =
              update_where (λ (i : ImportRow). i.tenant == p.tenant && i.snapshot == snapshot)
                (λ i. record i { state = prepared; reconciliation_id = 0 }) db.imports;
        }))
      else ok db

-- The unique key of `settlement_import_fact`.
abbrev pub is_fact : RowId → RowId → Text → FactType → Text → FactRow → Bool
is_fact tenant snapshot source kind external f =
    f.tenant == tenant
    && f.snapshot == snapshot
    && text_eq f.source_system source
    && fact_code f.fact_type == fact_code kind
    && text_eq f.external_fact_id external

abbrev is_declared : ImportFact → ExpectedFact → Bool
is_declared fact f =
    text_eq f.source_system fact.source_system
    && fact_code f.fact_type == fact_code fact.fact_type
    && text_eq f.external_fact_id fact.external_fact_id

abbrev lacks_links : FactType → ImportFact → Bool
lacks_links kind fact =
    fact_code kind == fact_code allocation_fact
    && (is_empty fact.original_receipt_fact_id
        || ltb fact.original_installment_no 1
        || is_empty fact.original_allocation_id)

-- A fact that is new: the contract must be on hold and have announced it.
restore_fact :
    Service → Principal → ImportFact → FactType → (id : RowId) → (hash : ℕ) → Db → Result Claim
restore_fact sv p fact kind id hash db = do
  locked ← lock_import_write sv p fact.snapshot db
  s ← or_error (snapshot_at locked p.tenant fact.snapshot) storage
  guard (is_hold s.migration_state) conflict
  i ←
      or_error
        (find (λ (i : ImportRow). i.tenant == p.tenant && i.snapshot == fact.snapshot)
          locked.imports)
        storage
  guard (any (is_declared fact) i.expected_facts) import_blocked
  ok (
      claimed (record locked {
        facts =
            locked.facts
            ++ record {
              tenant = p.tenant;
              snapshot = fact.snapshot;
              source_system = fact.source_system;
              fact_type = kind;
              external_fact_id = fact.external_fact_id;
              request_hash = hash;
              target_business_id = id;
            }
              ∷ [];
      }))

-- `claimImportFact` for a fact.
unfoldable pub claim_fact :
    Service → Principal → ImportFact → FactType → (id : RowId) → Request → Db → Result Claim
unfolding restore_fact
claim_fact sv p fact kind id body db = do
  guard
      (fact_code fact.fact_type == fact_code kind
        && not (fact.snapshot == 0)
        && valid_identity fact.source_system 64
        && valid_identity fact.external_fact_id 128)
      invalid
  fail_if (lacks_links kind fact) invalid
  finance_access sv.grants p import_reconcile
  elim (find (is_fact p.tenant fact.snapshot fact.source_system kind fact.external_fact_id)
      db.facts) [
        | some f ↦
            if f.request_hash == sv.digest body
            then ok (replayed f.target_business_id)
            else err conflict
        | none ↦ restore_fact sv p fact kind id (sv.digest body) db
      ]

-- `claimImportFact`: without a fact there is nothing to claim.
unfoldable pub claim_import_fact :
    Service → Principal → Option ImportFact → FactType → (id : RowId) → Request → Db → Result Claim
unfolding claim_fact
claim_import_fact sv p none kind id body db = ok (claimed db)
claim_import_fact sv p (some fact) kind id body db = claim_fact sv p fact kind id body db

-- `importFactKey`
abbrev pub import_fact_key : Service → Option ImportFact → Text → Text
import_fact_key sv none fallback = fallback
import_fact_key sv (some fact) fallback = sv.fact_key fact

abbrev on_hold : Db → RowId → RowId → Bool
on_hold db tenant snapshot = elim (snapshot_at db tenant snapshot) [
  | none ↦ false
  | some s ↦ is_hold s.migration_state
]

-- `rejectImportedReceiptMutation`
unfoldable pub reject_imported_receipt : Db → RowId → RowId → Result (Unit {0})
reject_imported_receipt db tenant receipt =
    fail_if
      (any
        (λ (f : FactRow).
          f.tenant == tenant
          && fact_code f.fact_type == fact_code receipt_fact
          && f.target_business_id == receipt
          && on_hold db tenant f.snapshot)
        db.facts)
      import_blocked
