-- ===== src/Ledger/Books/Plans.antt =====
-- Confirming an instalment keeps the books sound: `ConfirmPlan` (internal/service/service.go).
use settlement.Base.{
  ◌+◌, ==_refl, find-append, ap, ◌∙◌, ℕ, ◌<◌, ◌≡◌, refl, sym, subst, Bool, ◌||◌, not, some, ◌==◌,
  find, any, All-find, update_where, ok, ok-injective, >>=-eq-ok, or_error, or_error-eq-ok, fail_if,
  guard, conflict, invalid, forbidden, storage, arith,
}
use settlement.Base.Text.{Text, trim_space}
use settlement.Base.Keyed.{
  Unique-update_where, All-update_where, All-new, has_none, row_at, row_at-update_where,
  find-row_at,
}
use settlement.Ledger.Tables.{RowId, Plan, Snapshot, Receivable, confirmed_plan}
use settlement.Ledger.Access.{Principal, allows, receivable_confirm}
use settlement.Ledger.Db.{Db}
use settlement.Ledger.Requests.{Service}
use settlement.Ledger.Claims.{audit}
use settlement.Ledger.Imports.{snapshot_at, is_hold}
use settlement.Ledger.Scope.{require_contract_access}
use settlement.Ledger.Coverage.{Thresholds, PlanCoverage, require_plan_coverage}
use settlement.Ledger.Plans.{
  PlanInput, PlanIds, audit_plan, audit_deviation, is_plan, is_pending_plan, confirmed_due,
  confirmed_amount, same_receivable, new_receivable, write_confirmation, check_change,
  finish_confirmation, confirm_plan,
}
use settlement.Ledger.Books.{Books, books, require_contract_access-books}
use settlement.Ledger.Books.Reverse.{amount-positive}
use settlement.Ledger.Books.Record.{add_receivable-IsSound}
use settlement.Ledger.Books.Sound.{IsSound, HasAmount, plan_id, receivable_id}

pub audit_plan-books :
    (p : Principal) (ids : PlanIds) (plan snapshot : RowId) (c : PlanCoverage) (db db' : Db)
    → audit_plan p ids plan snapshot c db ≡ ok db'
    → books db' ≡ books db
unfolding audit_plan audit_deviation audit
audit_plan-books p ids plan snapshot c db db' h = ground arith

-- An update of plans that keeps them positive.
pub change_plans-IsSound :
    (b : Books) (change : Plan → Bool) (f : Plan → Plan)
    → ((x : Plan) → plan_id (f x) ≡ plan_id x)
    → ((x : Plan) → HasAmount (f x))
    → IsSound b
    → IsSound (record b { plans = update_where change f b.plans })
change_plans-IsSound b change f k positive s = record {
  receipt_keys = s.receipt_keys;
  receivable_keys = s.receivable_keys;
  allocation_keys = s.allocation_keys;
  receipts = s.receipts;
  receivables = s.receivables;
  allocations = s.allocations;
  reversals = s.reversals;
  anchors = s.anchors;
  shares = s.shares;
  plan_keys = Unique-update_where plan_id change f b.plans k s.plan_keys;
  plans =
      All-update_where plan_id HasAmount HasAmount change f b.plans (λ x e h. positive x)
        (λ x e h. h) s.plans;
  quotas = s.quotas;
  reservations = s.reservations;
}

confirmed_amount-positive :
    (value : Text) (planned cents : ℕ)
    → 0 < planned
    → confirmed_amount value planned ≡ ok cents
    → 0 < cents
unfolding confirmed_amount
confirmed_amount-positive value planned cents h e =
    ground (arith, amount-positive (trim_space value) cents)

write_confirmation-IsSound :
    (p : Principal) (ids : PlanIds) (plan : Plan) (s : Snapshot) (due cents : ℕ) (reason : Text)
    (db db' : Db)
    → 0 < cents
    → IsSound (books db)
    → write_confirmation p plan due cents reason (new_receivable p ids plan s due cents) db ≡ ok db'
    → IsSound (books db')
unfolding write_confirmation
write_confirmation-IsSound p ids plan s due cents reason db db' positive sound h =
    let new = new_receivable p ids plan s due cents in
    let (_, free, same) =
      >>=-eq-ok (fail_if (any (same_receivable new) db.receivables) storage) _ h in
    subst (λ d. IsSound (books d)) (ok-injective same)
      (add_receivable-IsSound _
        (change_plans-IsSound (books db) (is_plan p.tenant plan.id plan.version) _ (λ x. refl)
          (λ x. positive) sound)
        new
        (All-new receivable_id (same_receivable new) new.id db.receivables (λ r e. ground arith)
          (ground arith))
        refl (ground arith) (ground (arith, positive)) refl)

-- A plan is confirmed, and its receivable is in the table, for the same amount and date.
abbrev pub IsConfirmed : (plan row : RowId) → Books → Type 0
IsConfirmed plan row b =
    (x : Plan) × (c : Receivable) × (row_at plan_id plan b.plans ≡ some x)
    × (row_at receivable_id row b.receivables ≡ some c)
    × (x.status ≡ confirmed_plan)
    × (c.plan ≡ plan)
    × (c.original_amount ≡ x.planned_amount)
    × (c.open_amount ≡ x.planned_amount)
    × (c.due_date ≡ x.due_date)

write_confirmation-IsConfirmed :
    (p : Principal) (ids : PlanIds) (plan : Plan) (s : Snapshot) (due cents : ℕ) (reason : Text)
    (db db' : Db)
    → row_at plan_id plan.id db.plans ≡ some plan
    → plan.tenant ≡ p.tenant
    → write_confirmation p plan due cents reason (new_receivable p ids plan s due cents) db ≡ ok db'
    → IsConfirmed plan.id ids.row (books db')
unfolding write_confirmation
write_confirmation-IsConfirmed p ids plan s due cents reason db db' at_key of_tenant h =
    let new = new_receivable p ids plan s due cents in
    let confirm : Plan → Plan = λ x. record x {
      due_date = due;
      planned_amount = cents;
      status = confirmed_plan;
      reason = reason;
      version = x.version + 1;
    } in
    let (_, free, same) =
      >>=-eq-ok (fail_if (any (same_receivable new) db.receivables) storage) _ h in
    let absent = has_none receivable_id new.id db.receivables (
      All-new receivable_id (same_receivable new) new.id db.receivables (λ r e. ground arith)
        (ground arith)) in
    subst (λ d. IsConfirmed plan.id ids.row (books d)) (ok-injective same)
      (
        confirm plan,
        new,
        row_at-update_where plan_id (is_plan p.tenant plan.id plan.version) confirm plan.id db.plans
              (λ x. refl)
            ∙ rw at_key (ground (arith, of_tenant)),
        find-append (λ c. receivable_id c == new.id) db.receivables new absent (==_refl new.id),
        refl,
        refl,
        refl,
        refl,
        refl,
      )

finish_confirmation-IsSound :
    (sv : Service) (t : Thresholds) (p : Principal) (ids : PlanIds) (input : PlanInput)
    (plan : Plan) (s : Snapshot) (db db' : Db)
    → 0 < plan.planned_amount
    → row_at plan_id plan.id db.plans ≡ some plan
    → plan.tenant ≡ p.tenant
    → IsSound (books db)
    → finish_confirmation sv t p ids input plan s db ≡ ok db'
    → IsSound (books db') × IsConfirmed plan.id ids.row (books db')
unfolding finish_confirmation
finish_confirmation-IsSound sv t p ids input plan s db db' positive at_key of_tenant sound h =
    let (due, _, h1) = >>=-eq-ok (confirmed_due input.due_date plan.due_date) _ h in
    let (cents, priced, h2) =
      >>=-eq-ok (confirmed_amount input.planned_amount plan.planned_amount) _ h1 in
    let (_, _, h3) =
      >>=-eq-ok
        (check_change (not (due == plan.due_date) || not (cents == plan.planned_amount))
          (is_hold s.migration_state) (trim_space input.reason))
        _ h2 in
    let (c, _, h4) =
      >>=-eq-ok (require_plan_coverage t p s.id plan.id cents (some plan.planned_amount) db) _ h3 in
    let new = new_receivable p ids plan s due cents in
    let (written, writing, h5) =
      >>=-eq-ok (write_confirmation p plan due cents (trim_space input.reason) new db) _ h4 in
    let reason = trim_space input.reason in
    subst (λ b. IsSound b × IsConfirmed plan.id ids.row b)
      (sym (audit_plan-books p ids plan.id s.id c written db' h5))
      (
        write_confirmation-IsSound p ids plan s due cents reason db written
            (confirmed_amount-positive input.planned_amount plan.planned_amount cents positive
              priced)
            sound writing,
        write_confirmation-IsConfirmed p ids plan s due cents reason db written at_key of_tenant
            writing,
      )

-- `ConfirmPlan` keeps the books sound and confirms the plan: if it returns from a database with sound
-- books, it leaves sound books, in which the plan is confirmed and its new receivable is in the
-- table, open for the amount of the plan and due on its date.
pub confirm_plan-IsSound :
    (sv : Service) (t : Thresholds) (p : Principal) (ids : PlanIds) (id : RowId) (input : PlanInput)
    (db db' : Db)
    → IsSound (books db)
    → confirm_plan sv t p ids id input db ≡ ok db'
    → IsSound (books db') × IsConfirmed id ids.row (books db')
unfolding confirm_plan
confirm_plan-IsSound sv t p ids id input db db' sound h =
    let (_, _, h1) = >>=-eq-ok (guard (allows p receivable_confirm) forbidden) _ h in
    let (_, _, h2) = >>=-eq-ok (fail_if (input.version == 0) invalid) _ h1 in
    let (plan, found, h3) =
      >>=-eq-ok (or_error (find (is_pending_plan p.tenant id input.version) db.plans) conflict) _
        h2 in
    let (s, _, h4) = >>=-eq-ok (or_error (snapshot_at db p.tenant plan.snapshot) conflict) _ h3 in
    let (locked, locking, h5) =
      >>=-eq-ok (require_contract_access sv p receivable_confirm s.id db) _ h4 in
    let (at_key, awaited) =
      find-row_at plan_id (is_pending_plan p.tenant id input.version) id db.plans plan
        (λ y e. ground arith) sound.plan_keys (or_error-eq-ok _ _ found) in
    let same = require_contract_access-books sv p receivable_confirm s.id db locked locking in
    let of_id : plan.id ≡ id = ground (arith, awaited) in
    subst (λ j. IsSound (books db') × IsConfirmed j ids.row (books db')) of_id
      (finish_confirmation-IsSound sv t p ids input plan s locked db'
        (All-find HasAmount (is_pending_plan p.tenant id input.version) db.plans plan sound.plans
          (or_error-eq-ok _ _ found)).0
        (ap (λ (b : Books). row_at plan_id plan.id b.plans) same
          ∙ ap (λ j. row_at plan_id j db.plans) of_id
          ∙ at_key)
        (ground (arith, awaited)) (subst IsSound (sym same) sound) h5)
