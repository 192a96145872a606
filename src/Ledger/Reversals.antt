-- ===== src/Ledger/Reversals.antt =====
-- `ReverseAllocation` (internal/service/reversal.go): an allocation is taken back, wholly or in part.
use settlement.Base.{
  ℕ, ◌+◌, ◌-◌, Bool, true, false, ◌&&◌, ◌||◌, List, [], ◌∷◌, ◌++◌, ◌==◌, ltb, if◌then◌else◌, Option,
  none, find, any, keep_if, sum_by, update_where, Result, ok, conflict, invalid, ◌>>=◌, ◌>>◌,
  or_error, fail_if,
}
use settlement.Base.Text.{Text, text_eq}
use settlement.Money.{amount, required, text_too_long, decimal_greater}
use settlement.Ledger.Tables.{
  RowId, short_no, Receipt, available, partially_allocated, Receivable, unpaid, partially_settled,
  Allocation, AllocationStatus, partially_reversed, reversed, Reversal,
}
use settlement.Ledger.Access.{Principal, allocation_reverse}
use settlement.Ledger.Db.{Db, reverse_allocation_command}
use settlement.Ledger.Requests.{Service, ReversalInput, reversal_request}
use settlement.Ledger.Claims.{claim_idempotency, audit}
use settlement.Ledger.Imports.{reject_imported_receipt}
use settlement.Ledger.Scope.{is_allocation, is_receivable, require_allocation_scope}
use settlement.Ledger.Credit.{enqueue_credit_reversal, publish_after_commit}
use settlement.Ledger.Receipts.{Fresh, continue_claim}
use settlement.Ledger.Allocations.{is_receipt}

abbrev pub is_reversible : AllocationStatus → Bool
is_reversible reversed = false
is_reversible _ = true

-- What has been taken back from an allocation so far.
abbrev pub reversed_total : RowId → List Reversal → ℕ
reversed_total allocation rows =
    sum_by (λ (r : Reversal). r.reversed_amount)
      (keep_if (λ (r : Reversal). r.original_allocation_id == allocation) rows)

-- The primary key and the two unique keys of `settlement_receipt_allocation_reversal`.
abbrev pub same_reversal : Reversal → Reversal → Bool
same_reversal new r =
    r.id == new.id
    || (r.tenant == new.tenant
        && (r.reversal_no == new.reversal_no || text_eq r.idempotency_key new.idempotency_key))

abbrev pub new_reversal :
    Principal → (key : Text) → RowId → ℕ → (allocation : RowId) → ReversalInput → Reversal
new_reversal p key id cents allocation input = record {
  id = id;
  tenant = p.tenant;
  reversal_no = short_no id;
  original_allocation_id = allocation;
  reversed_amount = cents;
  reason_code = input.reason_code;
  reason_detail = input.reason_detail;
  approved_by = p.user;
  idempotency_key = key;
}

-- The checks on the locked allocation; nothing is left of one whose reversals exceed it.
unfoldable pub check_reversal : Principal → ℕ → Allocation → Db → Result (Unit {0})
check_reversal p cents a db = do
  reject_imported_receipt db p.tenant a.receipt_id
  fail_if (a.confirmed_by == p.user) invalid
  fail_if (decimal_greater cents (a.allocated_amount - reversed_total a.id db.reversals)) conflict

-- The balances after a reversal.
abbrev pub restore_receipt : ℕ → Receipt → Receipt
restore_receipt cents r =
    let after = r.unallocated_amount + cents in
    record r {
      unallocated_amount = after;
      status = if after == r.amount then available else partially_allocated;
      version = r.version + 1;
    }

abbrev pub reopen_receivable : ℕ → Receivable → Receivable
reopen_receivable cents r =
    let received = r.received_allocated_amount - cents in
    record r {
      received_allocated_amount = received;
      open_amount = r.open_amount + cents;
      collection_status = if received == 0 then unpaid else partially_settled;
      version = r.version + 1;
    }

-- The insertion and the state of the allocation.
unfoldable pub record_reversal : Reversal → Allocation → Db → Result Db
record_reversal new a db = do
  fail_if (any (same_reversal new) db.reversals) conflict
  let remaining = a.allocated_amount - reversed_total a.id db.reversals in
      ok (record db {
        reversals = db.reversals ++ new ∷ [];
        allocations =
            update_where (is_allocation new.tenant a.id)
              (λ x. record x {
                status = if remaining == new.reversed_amount then reversed else partially_reversed;
              })
              db.allocations;
      })

-- The balances of the receipt and of the receivable; the rows that are read are locked.
unfoldable pub restore_balances : RowId → ℕ → Allocation → Db → Result (Receivable × Db)
restore_balances tenant cents a db = do
  receipt ← or_error (find (is_receipt tenant a.receipt_id) db.receipts) conflict
  receivable ← or_error (find (is_receivable tenant a.receivable_id) db.receivables) conflict
  fail_if (ltb receivable.received_allocated_amount cents) conflict
  ok (
    receivable,
    record db {
      receipts =
          update_where (is_receipt tenant a.receipt_id)
            (λ r. record r {
              unallocated_amount = (restore_receipt cents receipt).unallocated_amount;
              status = (restore_receipt cents receipt).status;
              version = r.version + 1;
            })
            db.receipts;
      receivables =
          update_where (is_receivable tenant a.receivable_id)
            (λ r. record r {
              received_allocated_amount =
                  (reopen_receivable cents receivable).received_allocated_amount;
              open_amount = (reopen_receivable cents receivable).open_amount;
              collection_status = (reopen_receivable cents receivable).collection_status;
              version = r.version + 1;
            })
            db.receivables;
    },
  )

-- Only a receivable that was settled before the reversal has a report to compensate.
unfoldable pub compensate :
    Service
    → (tenant : RowId) → Fresh
    → Allocation
    → (now : ℕ) → (before : Receivable) → Db
    → Result (Option RowId × Db)
compensate sv tenant fresh a now before db =
    if before.open_amount == 0
    then enqueue_credit_reversal sv tenant fresh.credit_row fresh.credit_event a.id a.receivable_id
        now db
    else ok (none, db)

-- From the locked allocation to the commit.
unfoldable pub post_reversal :
    Service
    → Principal
    → (key : Text) → (now : ℕ) → Fresh
    → (cents : ℕ) → ReversalInput
    → Allocation
    → Db
    → Result (Option RowId × Db)
unfolding check_reversal record_reversal restore_balances compensate
post_reversal sv p key now fresh cents input a db = do
  check_reversal p cents a db
  written ← record_reversal (new_reversal p key fresh.id cents a.id input) a db
  (receivable, restored) ← restore_balances p.tenant cents a written
  (event, compensated) ← compensate sv p.tenant fresh a now receivable restored
  audited ← audit fresh.message fresh.audit p.tenant p.user a.id compensated
  ok (event, audited)

-- What follows the claim, with the publication after the commit.
unfoldable pub finish_reversal :
    Service
    → Principal
    → (key : Text) → (now : ℕ) → Fresh
    → (cents : ℕ) → (allocation : RowId) → ReversalInput
    → Db
    → Result (RowId × Db)
unfolding post_reversal
finish_reversal sv p key now fresh cents allocation input db = do
  a ←
      or_error
        (find (λ a. is_allocation p.tenant allocation a && is_reversible a.status) db.allocations)
        conflict
  scoped ← require_allocation_scope sv p allocation_reverse allocation db
  (event, done) ← post_reversal sv p key now fresh cents input a scoped
  ok (fresh.id, publish_after_commit sv p.tenant event now done)

-- `ReverseAllocation`
unfoldable pub reverse_allocation :
    Service
    → Principal
    → (key : Text) → (now : ℕ) → Fresh
    → (allocation : RowId) → ReversalInput
    → Db
    → Result (RowId × Db)
unfolding finish_reversal
reverse_allocation sv p key now fresh allocation input db = do
  fail_if (text_too_long input.reason_code 64 || text_too_long input.reason_detail 500) invalid
  cents ← amount input.amount
  _ ← required key
  claim ←
      claim_idempotency p.tenant reverse_allocation_command key fresh.id
        (sv.digest (reversal_request allocation cents input.reason_code input.reason_detail)) db
  continue_claim claim db (finish_reversal sv p key now fresh cents allocation input)
