-- ===== src/Ledger/Allocations.antt =====
-- `ConfirmAllocation` (internal/service/service.go): money of a receipt settles a receivable.
use settlement.Base.{
  ℕ, ◌+◌, ◌-◌, Bool, true, false, ◌&&◌, ◌||◌, not, Option, none, some, [], ◌∷◌, ◌++◌, ◌==◌, ltb,
  if◌then◌else◌, find, any, update_where, Result, ok, err, conflict, invalid, forbidden, storage,
  ◌>>=◌, ◌>>◌, or_error, fail_if, guard,
}
use settlement.Base.Text.{Text, codes, text_eq, trim_space}
use settlement.Money.{amount, required, decimal_greater}
use settlement.Ledger.Tables.{
  RowId, short_no, Receipt, ReceiptStatus, partially_allocated, fully_allocated, Receivable,
  CollectionStatus, partially_settled, settled, Allocation, confirmed, Plan, Snapshot,
}
use settlement.Ledger.Access.{Principal, allocation_confirm, allows}
use settlement.Ledger.Db.{Db, allocation_fact, receipt_fact}
use settlement.Ledger.Requests.{
  Service, ImportFact, AllocationInput, allocation_fact_request, to_upper,
}
use settlement.Ledger.Claims.{audit}
use settlement.Ledger.Imports.{
  claim_import_fact, import_fact_key, snapshot_at, is_hold, is_fact, lock_import_write,
  reject_imported_receipt,
}
use settlement.Ledger.Scope.{is_receivable}
use settlement.Ledger.Credit.{credit_eligible, insert_credit_sync, publish_after_commit, is_uint64}
use settlement.Ledger.Db.{completed}
use settlement.Ledger.Receipts.{Fresh, continue_claim, is_none}

-- The mode and the confidence of a match.
unfoldable pub check_match : (mode : Text) → Option ℕ → Result ℕ
check_match mode none = err invalid
check_match mode (some confidence) = do
  guard (text_eq mode (codes "MANUAL") || text_eq mode (codes "SUGGESTED")) invalid
  fail_if (ltb 100 confidence || (text_eq mode (codes "SUGGESTED") && confidence == 0)) invalid
  ok confidence

-- A restored allocation is for the receipt and the instalment that its fact names.
unfoldable pub check_fact :
    Principal → RowId → AllocationInput → Option ImportFact → Db → Result (Unit {0})
check_fact p snapshot input none db = reject_imported_receipt db p.tenant input.receipt_id
check_fact p snapshot input (some fact) db = do
  f ←
      or_error
        (find
          (is_fact p.tenant snapshot fact.source_system receipt_fact fact.original_receipt_fact_id)
          db.facts)
        invalid
  r ← or_error (find (is_receivable p.tenant input.receivable_id) db.receivables) storage
  plan ← or_error (find (λ (x : Plan). x.id == r.plan && x.tenant == p.tenant) db.plans) storage
  guard
      (f.target_business_id == input.receipt_id
        && plan.installment_no == fact.original_installment_no)
      invalid

abbrev pub has_money : ReceiptStatus → Bool
has_money fully_allocated = false
has_money _ = true

abbrev pub is_collectable : CollectionStatus → Bool
is_collectable settled = false
is_collectable _ = true

abbrev pub is_open_receipt : RowId → RowId → Receipt → Bool
is_open_receipt tenant id r = r.id == id && r.tenant == tenant && has_money r.status

abbrev pub is_open_receivable : Db → RowId → RowId → Receivable → Bool
is_open_receivable db tenant id r =
    r.id == id
    && r.tenant == tenant
    && r.recognized
    && is_collectable r.collection_status
    && any (λ (s : Snapshot). s.id == r.snapshot && s.tenant == tenant) db.snapshots
    && any (λ (x : Plan). x.id == r.plan && x.tenant == tenant) db.plans

-- The balances after an allocation; the guards before make the subtractions exact.
abbrev pub allocate_receipt : ℕ → Receipt → Receipt
allocate_receipt cents r =
    let remaining = r.unallocated_amount - cents in
    record r {
      unallocated_amount = remaining;
      status = if remaining == 0 then fully_allocated else partially_allocated;
      version = r.version + 1;
    }

abbrev pub settle_receivable : ℕ → Receivable → Receivable
settle_receivable cents r =
    let open_after = r.open_amount - cents in
    record r {
      open_amount = open_after;
      collection_status = if open_after == 0 then settled else partially_settled;
      received_allocated_amount = r.received_allocated_amount + cents;
      version = r.version + 1;
    }

abbrev pub is_receipt : RowId → RowId → Receipt → Bool
is_receipt tenant id r = r.id == id && r.tenant == tenant

-- The primary key and the two unique keys of `settlement_receipt_allocation`.
abbrev pub same_allocation : Allocation → Allocation → Bool
same_allocation new a =
    a.id == new.id
    || (a.tenant == new.tenant
        && (a.allocation_no == new.allocation_no || text_eq a.idempotency_key new.idempotency_key))

-- The three writes: the allocation, the receipt and the receivable. The new balances are computed
-- from the rows that were read and locked.
unfoldable pub record_allocation : Allocation → Receipt → Receivable → Db → Result Db
record_allocation new receipt receivable db = do
  fail_if (any (same_allocation new) db.allocations) conflict
  ok (record db {
    allocations = db.allocations ++ new ∷ [];
    receipts =
        update_where (is_receipt new.tenant new.receipt_id)
          (λ r. record r {
            unallocated_amount = (allocate_receipt new.allocated_amount receipt).unallocated_amount;
            status = (allocate_receipt new.allocated_amount receipt).status;
            version = r.version + 1;
          })
          db.receipts;
    receivables =
        update_where (is_receivable new.tenant new.receivable_id)
          (λ r. record r {
            open_amount = (settle_receivable new.allocated_amount receivable).open_amount;
            collection_status =
                (settle_receivable new.allocated_amount receivable).collection_status;
            received_allocated_amount = r.received_allocated_amount + new.allocated_amount;
            version = r.version + 1;
          })
          db.receivables;
  })

-- The report to the CRM, when the allocation pays what was open and the customer is one of the CRM.
unfoldable pub report_settlement :
    Service
    → Principal
    → Fresh
    → (now : ℕ) → Allocation
    → Receivable
    → Snapshot
    → Db
    → Result (Option RowId × Db)
unfolding credit_eligible insert_credit_sync
report_settlement sv p fresh now new receivable s db =
    if receivable.open_amount == new.allocated_amount
    then (do
      eligible ← credit_eligible sv db p.tenant s.id s.customer_id
      if eligible && is_uint64 (trim_space s.customer_id)
          then (do
            db' ←
                insert_credit_sync p.tenant fresh.credit_row fresh.credit_event new.id
                  new.receivable_id completed none now db
            ok (some fresh.credit_event, db'))
          else ok (none, db))
    else ok (none, db)

-- The checks on the locked rows.
unfoldable pub check_pair : ℕ → Receipt → Receivable → Snapshot → Result (Unit {0})
check_pair cents receipt receivable s = do
  guard (text_eq receipt.currency receivable.currency) invalid
  guard (text_eq receipt.customer_id s.customer_id) invalid
  fail_if
      (decimal_greater cents receipt.unallocated_amount
        || decimal_greater cents receivable.open_amount)
      conflict

abbrev pub new_allocation :
    Principal → (key : Text) → RowId → ℕ → ℕ → Text → AllocationInput → Receipt → Allocation
new_allocation p key id cents confidence mode input receipt = record {
  id = id;
  tenant = p.tenant;
  allocation_no = short_no id;
  receipt_id = input.receipt_id;
  receivable_id = input.receivable_id;
  allocated_amount = cents;
  currency = receipt.currency;
  status = confirmed;
  match_mode = mode;
  match_confidence = confidence;
  confirmed_by = p.user;
  idempotency_key = key;
}

-- From the locked rows to the commit.
unfoldable pub post_allocation :
    Service
    → Principal
    → (key : Text) → (now : ℕ) → Fresh
    → (cents confidence : ℕ) → (mode : Text) → AllocationInput
    → Snapshot
    → Db
    → Result (Option RowId × Db)
unfolding check_pair record_allocation report_settlement
post_allocation sv p key now fresh cents confidence mode input s db = do
  receipt ← or_error (find (is_open_receipt p.tenant input.receipt_id) db.receipts) conflict
  receivable ←
      or_error (find (is_open_receivable db p.tenant input.receivable_id) db.receivables) conflict
  check_pair cents receipt receivable s
  let new = new_allocation p key fresh.id cents confidence mode input receipt
  written ← record_allocation new receipt receivable db
  reported ← report_settlement sv p fresh now new receivable s written
  audited ← audit fresh.message fresh.audit p.tenant p.user fresh.id reported.1
  ok (reported.0, audited)

-- What a contract on hold lets through.
unfoldable pub prepare_allocation :
    Service → Principal → RowId → AllocationInput → Db → Result (Snapshot × Db)
unfolding check_fact
prepare_allocation sv p snapshot input db = do
  locked ← lock_import_write sv p snapshot db
  s ← or_error (snapshot_at locked p.tenant snapshot) storage
  fail_if
      (is_hold s.migration_state
        && (is_none input.import_fact || not (allows p allocation_confirm)))
      forbidden
  check_fact p snapshot input input.import_fact locked
  ok (s, locked)

-- What follows the claim, with the publication after the commit.
unfoldable pub finish_allocation :
    Service
    → Principal
    → (key : Text) → (now : ℕ) → Fresh
    → (cents confidence : ℕ) → (mode : Text) → AllocationInput
    → (snapshot : RowId) → Db
    → Result (RowId × Db)
unfolding prepare_allocation post_allocation
finish_allocation sv p key now fresh cents confidence mode input snapshot db = do
  (s, prepared) ← prepare_allocation sv p snapshot input db
  (event, done) ← post_allocation sv p key now fresh cents confidence mode input s prepared
  ok (fresh.id, publish_after_commit sv p.tenant event now done)

abbrev pub fact_elsewhere : RowId → Option ImportFact → Bool
fact_elsewhere snapshot none = false
fact_elsewhere snapshot (some fact) = not (fact.snapshot == snapshot)

-- `ConfirmAllocation`
unfoldable pub confirm_allocation :
    Service
    → Principal
    → (key : Text) → (now : ℕ) → Fresh
    → AllocationInput
    → Db
    → Result (RowId × Db)
unfolding check_match finish_allocation
confirm_allocation sv p key now fresh input db = do
  let bound_key = import_fact_key sv input.import_fact key
  cents ← amount input.amount
  _ ← required bound_key
  let mode = to_upper sv (trim_space input.match_mode)
  confidence ← check_match mode input.match_confidence
  fail_if (not (is_none input.import_fact) && not (allows p allocation_confirm)) forbidden
  target ← or_error (find (is_receivable p.tenant input.receivable_id) db.receivables) storage
  fail_if (fact_elsewhere target.snapshot input.import_fact) invalid
  claim ←
      claim_import_fact sv p input.import_fact allocation_fact fresh.id
        (allocation_fact_request (record input { match_mode = mode })) db
  continue_claim claim db
      (finish_allocation sv p bound_key now fresh cents confidence mode input target.snapshot)
