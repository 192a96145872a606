-- ===== src/Ledger/Coverage.antt =====
-- The guard on the instalments of a contract (internal/service/plan_coverage.go): a manual change
-- of a plan may not plan more than the contract's amount, and a large deviation from it takes the
-- finance override. The percentages and the gap that are printed in messages are left out.
pub mod Guard
use settlement.Base.{
  ℕ, ◌+◌, ◌-◌, ◌*◌, Bool, true, false, ◌&&◌, ◌||◌, not, Option, none, some, List, [], ◌∷◌, ◌==◌,
  leb, ltb, if◌then◌else◌, find, keep_if, sum_by, length, Result, ok, err, not_found, conflict,
  ◌>>=◌, ◌>>◌, or_error, fail_if, guard,
}
use settlement.Ledger.Tables.{RowId, Snapshot, Plan, FinancialStatus, effective, superseded, void}
use settlement.Ledger.Access.{Principal, finance_override, allows}
use settlement.Ledger.Db.{Db}

-- A limit in per cent, as a fraction whose denominator is positive.
pub record Percent : Type 0 where
  pub numerator : ℕ
  pub denominator : ℕ

-- The two limits that are in force (`planCoverageThresholds`); they come from the environment.
pub record Thresholds : Type 0 where
  pub gap : Percent
  pub drop : Percent

-- `planCoverage`, with the two triggers; amounts in cents.
pub record PlanCoverage : Type 0 where
  pub contract_amount : ℕ
  pub plan_total : ℕ
  pub exceeds : Bool
  pub gap_triggered : Bool
  pub drop_triggered : Bool
  pub contract_event_plans : ℕ

abbrev pub distance : ℕ → ℕ → ℕ
distance a b = if leb b a then a - b else b - a

-- part / whole * 100 > limit, for a positive whole.
abbrev pub exceeds_percent : (part whole : ℕ) → Percent → Bool
exceeds_percent part whole limit = ltb (limit.numerator * whole) (part * 100 * limit.denominator)

-- A contract without an amount has the gap of 0 per cent.
unfoldable pub gap_trigger : Thresholds → (contract total : ℕ) → Bool
gap_trigger t contract total =
    ltb 0 contract && exceeds_percent (distance contract total) contract t.gap

-- `previous` is `none` where it is empty.
unfoldable pub drop_trigger : Thresholds → (planned : ℕ) → (previous : Option ℕ) → Bool
drop_trigger t planned none = false
drop_trigger t planned (some before) =
    ltb 0 before && ltb planned before && exceeds_percent (before - planned) before t.drop

-- `evaluatePlanCoverage`
unfoldable pub evaluate_plan_coverage :
    Thresholds
    → (contract existing planned : ℕ) → (previous : Option ℕ) → (contract_event_plans : ℕ)
    → PlanCoverage
unfolding gap_trigger drop_trigger
evaluate_plan_coverage t contract existing planned previous event_plans =
    let total = existing + planned in
    let gap = gap_trigger t contract total in
    let drop = drop_trigger t planned previous in
    record {
      contract_amount = contract;
      plan_total = total;
      exceeds = gap || drop;
      gap_triggered = gap;
      drop_triggered = drop;
      contract_event_plans = event_plans;
    }

abbrev pub is_effective : FinancialStatus → Bool
is_effective effective = true
is_effective superseded = false
is_effective void = false

abbrev pub is_effective_contract : RowId → RowId → Snapshot → Bool
is_effective_contract tenant snapshot s =
    s.tenant == tenant && s.id == snapshot && is_effective s.financial_status

abbrev pub is_plan_of : RowId → RowId → Plan → Bool
is_plan_of tenant snapshot x = x.tenant == tenant && x.snapshot == snapshot

-- What the contract's other plans sum up to.
unfoldable pub other_plans : (tenant snapshot excluded : RowId) → List Plan → ℕ
other_plans tenant snapshot excluded rows =
    sum_by (λ (x : Plan). if x.id == excluded then 0 else x.planned_amount)
      (keep_if (is_plan_of tenant snapshot) rows)

-- `inspectPlanCoverage`; an excluded plan of 0 is the empty text.
unfoldable pub inspect_plan_coverage :
    Thresholds
    → (tenant snapshot excluded : RowId) → (planned : ℕ) → (previous : Option ℕ) → Db
    → Result PlanCoverage
unfolding other_plans evaluate_plan_coverage
inspect_plan_coverage t tenant snapshot excluded planned previous db = do
  s ← or_error (find (is_effective_contract tenant snapshot) db.snapshots) not_found
  ok (
      evaluate_plan_coverage t s.contract_amount (other_plans tenant snapshot excluded db.plans)
        planned previous
        (length
          (keep_if (λ (x : Plan). is_plan_of tenant snapshot x && x.from_contract_event) db.plans)))

-- `requirePlanCoverage`
unfoldable pub require_plan_coverage :
    Thresholds
    → Principal
    → (snapshot excluded : RowId) → (planned : ℕ) → (previous : Option ℕ) → Db
    → Result PlanCoverage
unfolding inspect_plan_coverage
require_plan_coverage t p snapshot excluded planned previous db = do
  c ← inspect_plan_coverage t p.tenant snapshot excluded planned previous db
  fail_if (ltb c.contract_amount c.plan_total) conflict
  fail_if (c.exceeds && not (allows p finance_override)) conflict
  ok c
