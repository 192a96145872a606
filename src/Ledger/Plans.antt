-- ===== src/Ledger/Plans.antt =====
-- Instalments and the receivables that they become: `ConfirmPlan` (internal/service/service.go),
-- `CreateManualPlan` and `AdjustPlan` (manual_plan.go), with the audit of a deviation from the
-- contract (plan_coverage.go). Dates are numbers yyyymmdd, amounts are in cents; a version and an
-- instalment number of 0 stand for those below one.
pub mod Confirm
unfoldable pub use Confirm.*
use settlement.Base.{
  ◌>>=◌, ◌>>◌, ℕ, ◌+◌, ◌-◌, Bool, false, ◌&&◌, ◌||◌, none, some, List, [], ◌∷◌, ◌++◌, ◌==◌, ltb,
  if◌then◌else◌, find, any, update_where, keep_if, sum_by, Result, ok, conflict, invalid, forbidden,
  or_error, fail_if, guard,
}
use settlement.Base.Text.{Text, trim_space, is_empty}
use settlement.Money.{amount, text_too_long, decimal_greater}
use settlement.Ledger.Tables.{
  RowId, Plan, pending_confirmation, Receivable, unpaid, partially_settled, settled, Reservation,
}
use settlement.Ledger.Access.{Principal, receivable_create, receivable_adjust, allows}
use settlement.Ledger.Dates.{parse_date}
use settlement.Ledger.Db.{Db, create_manual_plan_command}
use settlement.Ledger.Requests.{Service, manual_plan_request, utf8_length}
use settlement.Ledger.Claims.{claim_idempotency}
use settlement.Ledger.Scope.{require_contract_access, is_receivable}
use settlement.Ledger.Receipts.{continue_claim}
use settlement.Ledger.Reserved.{is_held}
use settlement.Ledger.Coverage.{Thresholds, require_plan_coverage}

-- The primary key and the unique key of `settlement_receivable_plan`.
abbrev pub same_plan : Plan → Plan → Bool
same_plan new x =
    x.id == new.id
    || (x.tenant == new.tenant
        && x.snapshot == new.snapshot
        && x.installment_no == new.installment_no)

abbrev pub new_plan : Principal → PlanIds → ManualPlanInput → (due cents : ℕ) → Plan
new_plan p ids input due cents = record {
  id = ids.row;
  tenant = p.tenant;
  snapshot = input.snapshot;
  installment_no = input.installment_no;
  due_date = due;
  planned_amount = cents;
  from_contract_event = false;
  status = pending_confirmation;
  reason = input.reason;
  version = 1;
}

-- What follows the claim.
unfoldable pub insert_plan : Thresholds → Principal → PlanIds → Plan → Db → Result (RowId × Db)
unfolding audit_plan audit_deviation
insert_plan t p ids new db = do
  coverage ← require_plan_coverage t p new.snapshot 0 new.planned_amount none db
  fail_if (any (same_plan new) db.plans) conflict
  audited ←
      audit_plan p ids new.id new.snapshot coverage (record db { plans = db.plans ++ new ∷ [] })
  ok (new.id, audited)

-- `CreateManualPlan`
unfoldable pub create_manual_plan :
    Service
    → Thresholds
    → Principal
    → (key : Text) → PlanIds
    → ManualPlanInput
    → Db
    → Result (RowId × Db)
unfolding insert_plan continue_claim
create_manual_plan sv t p key ids input db = do
  guard (allows p receivable_create) forbidden
  fail_if
      (is_empty (trim_space key)
        || ltb 128 (utf8_length key)
        || input.installment_no == 0
        || is_empty (trim_space input.reason)
        || text_too_long input.reason 500)
      invalid
  due ← or_error (parse_date input.due_date) invalid
  cents ← amount input.planned_amount
  locked ← require_contract_access sv p receivable_create input.snapshot db
  claim ←
      claim_idempotency p.tenant create_manual_plan_command key ids.row
        (sv.digest (
          manual_plan_request input.snapshot input.installment_no input.due_date cents
            input.reason))
        locked
  continue_claim claim db (insert_plan t p ids (new_plan p ids input due cents))

abbrev pub is_adjustable : RowId → RowId → ℕ → Plan → Bool
is_adjustable tenant id version x = is_plan tenant id version x && is_confirmed_plan x.status

abbrev pub is_receivable_of : RowId → RowId → Receivable → Bool
is_receivable_of tenant plan r = r.plan == plan && r.tenant == tenant

-- `invoiced_amount + SUM(reserved_amount-invoiced_amount-released_amount) > planned`, over the
-- reservations that hold an amount, with what is subtracted moved to the other side.
abbrev pub exceeds_invoiced : (planned : ℕ) → Receivable → List Reservation → Bool
exceeds_invoiced planned r rows =
    let held_rows = keep_if (is_held r.tenant r.id) rows in
    ltb (planned + sum_by (λ (x : Reservation). x.invoiced_amount + x.released_amount) held_rows)
      (r.invoiced_amount + sum_by (λ (x : Reservation). x.reserved_amount) held_rows)

-- The receivable after its plan is adjusted; the check before makes the subtraction exact.
abbrev pub adjust_receivable : (due planned : ℕ) → Receivable → Receivable
adjust_receivable due planned r =
    let used = r.received_allocated_amount + r.write_off_amount in
    record r {
      due_date = due;
      original_amount = planned;
      open_amount = planned - used;
      collection_status =
          if planned == used
          then settled
          else if ltb 0 r.received_allocated_amount
          then partially_settled
          else unpaid;
      version = r.version + 1;
    }

abbrev pub write_adjustment :
    Principal → Plan → Receivable → (due planned : ℕ) → (reason : Text) → Db → Db
write_adjustment p plan r due planned reason db = record db {
  plans =
      update_where (is_plan p.tenant plan.id plan.version)
        (λ x. record x {
          due_date = due;
          planned_amount = planned;
          reason = reason;
          version = x.version + 1;
        })
        db.plans;
  receivables =
      update_where (is_receivable p.tenant r.id) (adjust_receivable due planned) db.receivables;
}

-- The two floors of a new amount: what is settled, and what is invoiced or reserved.
unfoldable pub check_floors : (planned : ℕ) → Receivable → List Reservation → Result (Unit {0})
check_floors planned r rows = do
  fail_if (decimal_greater (r.received_allocated_amount + r.write_off_amount) planned) conflict
  fail_if (exceeds_invoiced planned r rows) conflict

-- `AdjustPlan`
unfoldable pub adjust_plan :
    Service → Thresholds → Principal → PlanIds → (id : RowId) → PlanInput → Db → Result Db
unfolding check_floors audit_plan audit_deviation
adjust_plan sv t p ids id input db = do
  guard (allows p receivable_adjust) forbidden
  fail_if
      (input.version == 0 || is_empty (trim_space input.reason) || text_too_long input.reason 500)
      invalid
  due ← or_error (parse_date input.due_date) invalid
  planned ← amount input.planned_amount
  plan ← or_error (find (is_adjustable p.tenant id input.version) db.plans) conflict
  r ← or_error (find (is_receivable_of p.tenant plan.id) db.receivables) conflict
  locked ← require_contract_access sv p receivable_adjust plan.snapshot db
  check_floors planned r locked.reservations
  coverage ←
      require_plan_coverage t p plan.snapshot plan.id planned (some plan.planned_amount) locked
  audit_plan p ids plan.id plan.snapshot coverage
      (write_adjustment p plan r due planned input.reason locked)
