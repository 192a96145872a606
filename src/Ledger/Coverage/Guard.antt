-- ===== src/Ledger/Coverage/Guard.antt =====
-- What the guard on the instalments lets through (`requirePlanCoverage`,
-- internal/service/plan_coverage.go).
use settlement.Base.{
  length, keep_if, ℕ, ◌+◌, ◌-◌, ◌*◌, ◌≤◌, ◌≡◌, refl, ◌↔◌, ◌⊎◌, inl, inr, true, false, Bool-cases,
  Option, none, some, find, ok, arith, ltb, ◌&&◌,
}
use settlement.Ledger.Tables.{Snapshot, Plan}
use settlement.Ledger.Access.{Principal, finance_override, allows}
use settlement.Ledger.Db.{Db}
use settlement.Ledger.Coverage.{
  is_plan_of, Percent, Thresholds, PlanCoverage, gap_trigger, drop_trigger, evaluate_plan_coverage,
  is_effective_contract, other_plans, inspect_plan_coverage, require_plan_coverage,
}

-- The part is within a limit in per cent of the whole.
abbrev pub IsWithin : (part whole : ℕ) → Percent → Type 0
IsWithin part whole limit = part * 100 * limit.denominator ≤ limit.numerator * whole

-- What a plan's amount falls by.
abbrev pub drop_of : Option ℕ → ℕ → ℕ
drop_of none planned = 0
drop_of (some before) planned = before - planned

abbrev pub before_of : Option ℕ → ℕ
before_of none = 0
before_of (some before) = before

zero_within : (n whole : ℕ) → 0 * 100 * n ≤ whole
zero_within n whole = ground arith

no_part_within : (part n whole : ℕ) → part ≡ 0 → part * 100 * n ≤ whole
no_part_within part n whole e = rw e (zero_within n whole)

gap-IsWithin :
    (t : Thresholds) (contract total : ℕ)
    → total ≤ contract
    → (gap_trigger t contract total ≡ false) ↔ IsWithin (contract - total) contract t.gap
unfolding gap_trigger
gap-IsWithin t contract total h = elim (Bool-cases (ltb 0 contract)) [
  | inl e ↦ rw e (ground arith)
  | inr e ↦
      rw e (λ k. no_part_within (contract - total) t.gap.denominator _ (ground arith), λ k. refl)
]

drop-IsWithin :
    (t : Thresholds) (planned : ℕ) (previous : Option ℕ)
    → (drop_trigger t planned previous ≡ false)
      ↔ IsWithin (drop_of previous planned) (before_of previous) t.drop
unfolding drop_trigger
drop-IsWithin t planned none = (λ e. zero_within t.drop.denominator _, λ w. refl)
drop-IsWithin t planned (some before) = elim (Bool-cases (ltb planned before)) [
  | inl e ↦ let positive : ltb 0 before ≡ true = ground arith in rw (e, positive) (ground arith)
  | inr e ↦ (
    λ k. no_part_within (before - planned) t.drop.denominator _ (ground arith),
    λ k. ground arith,
  )
]

module _ (t : Thresholds) (p : Principal) (snapshot excluded planned : ℕ) (previous : Option ℕ)
    (db : Db) (s : Snapshot)
    (found : find (is_effective_contract p.tenant snapshot) db.snapshots ≡ some s) where
  abbrev new_total : ℕ
  new_total = other_plans p.tenant snapshot excluded db.plans + planned

  abbrev coverage : PlanCoverage
  coverage =
      evaluate_plan_coverage t s.contract_amount (other_plans p.tenant snapshot excluded db.plans)
        planned previous
        (length (
          keep_if (λ (x : Plan). is_plan_of p.tenant snapshot x && x.from_contract_event) db.plans))

  -- For an effective contract a plan's new amount is accepted exactly when the plans together stay
  -- within the contract's amount, and either the principal may override or both what is left
  -- unplanned and what the plan falls by are within their limits.
  pub require_plan_coverage_iff :
      ((c : PlanCoverage) × (require_plan_coverage t p snapshot excluded planned previous db
          ≡ ok c))
      ↔ ((new_total ≤ s.contract_amount)
          × ((allows p finance_override ≡ true)
              ⊎ (IsWithin (s.contract_amount - new_total) s.contract_amount t.gap
                  × IsWithin (drop_of previous planned) (before_of previous) t.drop)))
  unfolding require_plan_coverage inspect_plan_coverage evaluate_plan_coverage
  require_plan_coverage_iff =
      let gap = gap-IsWithin t s.contract_amount new_total in
      let drop = drop-IsWithin t planned previous in
      rw found (
        λ accepted.
            let total : new_total ≤ s.contract_amount = ground (arith, accepted.1) in
            (
              total,
              elim (Bool-cases (allows p finance_override)) [
                | inl may ↦ inl may
                | inr not_may ↦ inr (
                  (gap total).0 (ground (arith, accepted.1, not_may)),
                  drop.0 (ground (arith, accepted.1, not_may)),
                )
              ],
            ),
        λ fits. elim fits.1 [
          | inl may ↦ (coverage, ground (arith, fits.0, may))
          | inr within ↦
              (coverage, rw ((gap fits.0).1 within.0, drop.1 within.1) (ground (arith, fits.0)))
        ],
      )
