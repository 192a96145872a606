-- ===== src/Ledger/Plans/Confirm.antt =====
-- `ConfirmPlan` (internal/service/service.go): an instalment becomes a receivable; with what the
-- commands on plans share.
use settlement.Base.{
  ℕ, ◌+◌, Bool, true, false, ◌&&◌, ◌||◌, not, some, [], ◌∷◌, ◌++◌, ◌==◌, ltb, if◌then◌else◌, find,
  any, update_where, Result, ok, conflict, invalid, forbidden, storage, import_blocked, ◌>>=◌, ◌>>◌,
  or_error, fail_if, guard,
}
use settlement.Base.Text.{Text, trim_space, is_empty}
use settlement.Money.{amount}
use settlement.Ledger.Tables.{
  RowId, short_no, Plan, PlanStatus, pending_confirmation, confirmed_plan, cancelled_plan, Snapshot,
  Receivable, unpaid, not_invoiced,
}
use settlement.Ledger.Access.{Principal, receivable_confirm, allows}
use settlement.Ledger.Dates.{parse_date}
use settlement.Ledger.Db.{Db}
use settlement.Ledger.Requests.{Service, utf8_length}
use settlement.Ledger.Claims.{audit}
use settlement.Ledger.Imports.{snapshot_at, is_hold}
use settlement.Ledger.Scope.{require_contract_access}
use settlement.Ledger.Coverage.{Thresholds, PlanCoverage, require_plan_coverage}

-- `PlanConfirmationInput`
pub record PlanInput : Type 0 where
  pub version : ℕ
  pub due_date : Text
  pub planned_amount : Text
  pub reason : Text

-- `ManualPlanInput`
pub record ManualPlanInput : Type 0 where
  pub snapshot : RowId
  pub installment_no : ℕ
  pub due_date : Text
  pub planned_amount : Text
  pub reason : Text

-- The generated identifiers of one command: of its row and its number, and of its audits.
pub record PlanIds : Type 0 where
  pub row : RowId
  pub number : RowId
  pub message : RowId
  pub audit : RowId
  pub deviation_message : RowId
  pub deviation_audit : RowId

-- `auditPlanCoverageDeviation`
unfoldable pub audit_deviation :
    Principal → PlanIds → (snapshot : RowId) → PlanCoverage → Db → Result Db
audit_deviation p ids snapshot c db =
    if c.contract_amount == c.plan_total
    then ok db
    else audit ids.deviation_message ids.deviation_audit p.tenant p.user snapshot db

-- The two audits at the end of a command.
unfoldable pub audit_plan :
    Principal → PlanIds → (plan snapshot : RowId) → PlanCoverage → Db → Result Db
audit_plan p ids plan snapshot c db = do
  audited ← audit ids.message ids.audit p.tenant p.user plan db
  audit_deviation p ids snapshot c audited

abbrev pub is_pending : PlanStatus → Bool
is_pending pending_confirmation = true
is_pending confirmed_plan = false
is_pending cancelled_plan = false

abbrev pub is_confirmed_plan : PlanStatus → Bool
is_confirmed_plan pending_confirmation = false
is_confirmed_plan confirmed_plan = true
is_confirmed_plan cancelled_plan = false

abbrev pub is_plan : RowId → RowId → ℕ → Plan → Bool
is_plan tenant id version x = x.id == id && x.tenant == tenant && x.version == version

abbrev pub is_pending_plan : RowId → RowId → ℕ → Plan → Bool
is_pending_plan tenant id version x = is_plan tenant id version x && is_pending x.status

-- What a confirmation sets: the fields that are left empty keep the plan's values.
unfoldable pub confirmed_due : Text → (due : ℕ) → Result ℕ
confirmed_due value due =
    let trimmed = trim_space value in
    if is_empty trimmed then ok due else or_error (parse_date trimmed) invalid

unfoldable pub confirmed_amount : Text → (planned : ℕ) → Result ℕ
confirmed_amount value planned =
    let trimmed = trim_space value in if is_empty trimmed then ok planned else amount trimmed

-- The primary key and the two unique keys of `settlement_receivable`.
abbrev pub same_receivable : Receivable → Receivable → Bool
same_receivable new r =
    r.id == new.id
    || (r.tenant == new.tenant && (r.receivable_no == new.receivable_no || r.plan == new.plan))

abbrev pub new_receivable : Principal → PlanIds → Plan → Snapshot → (due cents : ℕ) → Receivable
new_receivable p ids plan s due cents = record {
  id = ids.row;
  tenant = p.tenant;
  receivable_no = short_no ids.number;
  snapshot = s.id;
  plan = plan.id;
  due_date = due;
  original_amount = cents;
  invoiced_amount = 0;
  received_allocated_amount = 0;
  write_off_amount = 0;
  open_amount = cents;
  currency = s.currency;
  recognized = true;
  collection_status = unpaid;
  invoice_status = not_invoiced;
  version = 1;
}

-- The two writes of a confirmation.
unfoldable pub write_confirmation :
    Principal → Plan → (due cents : ℕ) → (reason : Text) → Receivable → Db → Result Db
write_confirmation p plan due cents reason new db = do
  fail_if (any (same_receivable new) db.receivables) storage
  ok (record db {
    plans =
        update_where (is_plan p.tenant plan.id plan.version)
          (λ x. record x {
            due_date = due;
            planned_amount = cents;
            status = confirmed_plan;
            reason = reason;
            version = x.version + 1;
          })
          db.plans;
    receivables = db.receivables ++ new ∷ [];
  })

-- The checks on what a confirmation changes.
unfoldable pub check_change : (changed held : Bool) → (reason : Text) → Result (Unit {0})
check_change changed held reason = do
  fail_if (ltb 500 (utf8_length reason)) invalid
  fail_if (changed && is_empty reason) invalid
  fail_if (held && changed) import_blocked

-- From the locked plan to the commit.
unfoldable pub finish_confirmation :
    Service → Thresholds → Principal → PlanIds → PlanInput → Plan → Snapshot → Db → Result Db
unfolding confirmed_due confirmed_amount check_change write_confirmation audit_plan audit_deviation
finish_confirmation sv t p ids input plan s db = do
  due ← confirmed_due input.due_date plan.due_date
  cents ← confirmed_amount input.planned_amount plan.planned_amount
  let reason = trim_space input.reason
  let changed = not (due == plan.due_date) || not (cents == plan.planned_amount)
  check_change changed (is_hold s.migration_state) reason
  coverage ← require_plan_coverage t p s.id plan.id cents (some plan.planned_amount) db
  written ← write_confirmation p plan due cents reason (new_receivable p ids plan s due cents) db
  audit_plan p ids plan.id s.id coverage written

-- `ConfirmPlan`
unfoldable pub confirm_plan :
    Service → Thresholds → Principal → PlanIds → (id : RowId) → PlanInput → Db → Result Db
unfolding finish_confirmation
confirm_plan sv t p ids id input db = do
  guard (allows p receivable_confirm) forbidden
  fail_if (input.version == 0) invalid
  plan ← or_error (find (is_pending_plan p.tenant id input.version) db.plans) conflict
  s ← or_error (snapshot_at db p.tenant plan.snapshot) conflict
  locked ← require_contract_access sv p receivable_confirm s.id db
  finish_confirmation sv t p ids input plan s locked
