-- ===== src/Ledger/Tests.antt =====
-- The theorems on the financial commands, on a small database.
use settlement.Base.{
  ◌-◌, ◌⊎◌, ◌+◌, ◌≤◌, ◌≡◌, refl, ◌↔◌, true, false, some, [], ◌∷◌, keep_if, ok, err, forbidden,
  conflict, arith,
}
use settlement.Base.Text.{codes, trim_space, text_eq}
use settlement.Money.{amount, required, text_too_long}
use settlement.Money.Decimal.{decimal_units}
use settlement.Ledger.Imports.{claim_import_fact, lock_import_write, reject_imported_receipt}
use settlement.Ledger.Scope.{require_allocation_scope}
use settlement.Ledger.Credit.{retry_credit_sync, enqueue_credit_reversal}
use settlement.Ledger.Access.{
  allocation_confirm, scoped_authorization, unrestricted, finance_access, finance_override, allows,
}
use settlement.Ledger.Access.Narrow.{narrow_roles_are_scoped}
use settlement.Ledger.Db.{Db, create_receipt_command}
use settlement.Ledger.Requests.{to_upper}
use settlement.Ledger.Claims.{claim_idempotency, audit}
use settlement.Ledger.Receipts.{continue_claim}
use settlement.Ledger.Allocations.{confirm_allocation}
use settlement.Ledger.Reversals.{reverse_allocation}
use settlement.Ledger.Reserved.{
  invoice_available, invoice_available_iff, AreOutstanding, held, is_held,
}
use settlement.Ledger.Invoiced.{
  increment_invoiced, decrement_invoiced, IsClassified, invoiced-IsClassified,
  decrement_invoiced-increment_invoiced,
}
use settlement.Ledger.Coverage.{PlanCoverage, other_plans, require_plan_coverage}
use settlement.Ledger.Coverage.Guard.{IsWithin, require_plan_coverage_iff}
use settlement.Ledger.Replays.{claim_idempotency-binds}
use settlement.Ledger.Books.{books}
use settlement.Ledger.Books.Sound.{IsSound}
use settlement.Ledger.Books.Confirm.{confirm_allocation-IsSound}
use settlement.Ledger.Books.Reverse.{reverse_allocation-IsSound}
use settlement.Ledger.Samples.{
  contract, due, hold_back, start, service, user, seller, fresh, payment, taking_back, database_of,
  limits, start-IsSound,
}

settled_db : Db
unfolding confirm_allocation
settled_db =
    database_of start
      (confirm_allocation service (user 10) (codes "k1") 1000 (fresh 100) payment start)

settling :
    confirm_allocation service (user 10) (codes "k1") 1000 (fresh 100) payment start
    ≡ ok (100, settled_db)
unfolding settled_db confirm_allocation amount decimal_units trim_space required text_eq to_upper
    claim_import_fact continue_claim lock_import_write reject_imported_receipt audit
settling = refl

confirm_allocation-IsSound_example : IsSound (books settled_db)
confirm_allocation-IsSound_example =
    confirm_allocation-IsSound service (user 10) (codes "k1") 1000 (fresh 100) payment start
      settled_db 100 start-IsSound settling

settled_db-IsSound : IsSound (books settled_db)
settled_db-IsSound =
    confirm_allocation-IsSound service (user 10) (codes "k1") 1000 (fresh 100) payment start
      settled_db 100 start-IsSound settling

reopened_db : Db
unfolding reverse_allocation
reopened_db =
    database_of settled_db (
      reverse_allocation service (user 11) (codes "k2") 2000 (fresh 200) 100 taking_back settled_db)

reopening :
    reverse_allocation service (user 11) (codes "k2") 2000 (fresh 200) 100 taking_back settled_db
    ≡ ok (200, reopened_db)
unfolding reopened_db settled_db reverse_allocation text_too_long trim_space amount decimal_units
    required claim_idempotency text_eq to_upper claim_import_fact continue_claim lock_import_write
    reject_imported_receipt audit retry_credit_sync require_allocation_scope enqueue_credit_reversal
reopening = refl

reverse_allocation-IsSound_example : IsSound (books reopened_db)
reverse_allocation-IsSound_example =
    reverse_allocation-IsSound service (user 11) (codes "k2") 2000 (fresh 200) 100 taking_back
      settled_db reopened_db 200 settled_db-IsSound reopening

claim_idempotency-binds_example :
    claim_idempotency 1 create_receipt_command (codes "k") 8 78 (record start {
      idempotency =
          record {
            tenant = 1;
            command = create_receipt_command;
            key = codes "k";
            request_hash = 77;
            resource_id = 7;
          }
          ∷ [];
    })
    ≡ err conflict
unfolding claim_idempotency
claim_idempotency-binds_example =
    claim_idempotency-binds 1 create_receipt_command (codes "k") 7 77 8 78 start _ refl

narrow_roles_are_scoped_example :
    (scoped_authorization seller ≡ true)
    × (unrestricted service.grants seller allocation_confirm ≡ false)
    × (finance_access service.grants seller allocation_confirm ≡ err forbidden)
narrow_roles_are_scoped_example =
    narrow_roles_are_scoped service.grants seller allocation_confirm refl refl (refl, (refl, tt))

invoice_available_iff_example : (invoice_available 1 1 3 (due ∷ []) (hold_back ∷ []) ≡ ok 30000) ↔ (
    AreOutstanding (keep_if (is_held 1 3) (hold_back ∷ []))
    × (30000 + 20000 + held (keep_if (is_held 1 3) (hold_back ∷ [])) ≡ 60000))
invoice_available_iff_example =
    invoice_available_iff 1 1 3 (due ∷ []) (hold_back ∷ []) due refl 30000

invoiced-IsClassified_example :
    IsClassified (increment_invoiced 40000 due) × IsClassified (decrement_invoiced 40000 due)
invoiced-IsClassified_example = invoiced-IsClassified 40000 due (ground arith)

decrement_invoiced-increment_invoiced_example :
    decrement_invoiced 40000 (increment_invoiced 40000 due) ≡ record due { version = 3 }
decrement_invoiced-increment_invoiced_example = decrement_invoiced-increment_invoiced 40000 due refl

require_plan_coverage_iff_example :
    ((c : PlanCoverage) × (require_plan_coverage limits seller 1 2 96000 (some 60000) start ≡ ok c))
    ↔ ((other_plans 1 1 2 start.plans + 96000 ≤ 100000)
        × ((allows seller finance_override ≡ true)
            ⊎ (IsWithin (100000 - (other_plans 1 1 2 start.plans + 96000)) 100000 limits.gap
                × IsWithin (60000 - 96000) 60000 limits.drop)))
require_plan_coverage_iff_example =
    require_plan_coverage_iff limits seller 1 2 96000 (some 60000) start contract refl
